-- ===== src/Easo/Frame/Ends.antt =====
-- Where frames end: packets that are cut short, and the writes that stop.
use burnout_paradise_server.Common.{
  ℕ, ◌+◌, ◌-◌, ◌%◌, ◌^◌, ◌≤◌, ◌<◌, ◌≡◌, sym, ap, ◌∙◌, [], ◌++◌, Option, none, some, arith, Bytes,
  All, length, take, length-append, take-append_beyond, length-take, ltb, ltb-false, ◌==◌,
  Bool-cases, inl, inr, ◌⊎◌, ◌||◌, if◌then◌else◌,
}
use burnout_paradise_server.Io.{Error, ok, err, eof, unexpected_eof, invalid_frame, read_full, Sink}
use burnout_paradise_server.Io.ReadFull.{read_full-append, read_full_short}
use burnout_paradise_server.Io.Delivery.{
  Delivers, Delivers-sent, write_all-Delivers, IsWilling, write_all_willing,
}
use burnout_paradise_server.Easo.Frame.{
  Frame, read_header_from, read, packet_of, write, max_frame_size, header_size,
}
use burnout_paradise_server.Easo.Frame.Header.{length-header}
use burnout_paradise_server.Easo.Frame.Wire.{header_of, header_of_parts, IsFrame, read-packet_of}

-- The error for a stream that has `n` of the bytes of a part.
abbrev short_error : ℕ → Error
short_error n = if n == 0 then eof else unexpected_eof

read_full_error : (n : ℕ) (s : Bytes) → length s < n → read_full n s ≡ err (short_error (length s))
read_full_error n s h = ground (arith, read_full_short n s h, ap length {x = s} {y = []})

pub length-packet_of :
    (f : Frame) → length f.kind ≡ 4 → length (packet_of f) ≡ header_size + length f.payload
unfolding packet_of
length-packet_of f h = omega (
  arith,
  length-append (header_of f) f.payload,
  length-header f.kind f.id ((header_size + length f.payload) % 2 ^ 32) h,
)

read_header_short :
    (f : Frame) (s : Bytes)
    → IsFrame f
    → length s < length f.payload
    → read_header_from read_full (header_of f) s ≡ err (short_error (length s))
unfolding read_header_from
read_header_short f s v h =
    let total = header_size + length f.payload in
    let e : total - header_size ≡ length f.payload = omega arith in
    rw
      (
        (header_of_parts f v).2,
        ltb-false total header_size (omega arith),
        ltb-false max_frame_size total v.fits,
      )
      (rw (e, read_full_error (length f.payload) s h))

cut_in_header :
    (f : Frame) (n : ℕ)
    → IsFrame f
    → n < header_size
    → read (take n (packet_of f)) ≡ err (short_error n)
unfolding read
cut_in_header f n v h =
    let e : length (take n (packet_of f)) ≡ n =
      omega (arith, length-take n (packet_of f), length-packet_of f v.four) in
    rw (read_full_error header_size (take n (packet_of f)) (omega arith), e)

cut_in_payload :
    (f : Frame) (n : ℕ)
    → IsFrame f
    → header_size ≤ n
    → n < header_size + length f.payload
    → read (take n (packet_of f)) ≡ err (short_error (n - header_size))
unfolding read packet_of
cut_in_payload f n v h k =
    let size = length-header f.kind f.id ((header_size + length f.payload) % 2 ^ 32) v.four in
    let e : length (take (n - header_size) f.payload) ≡ n - header_size =
      omega (arith, length-take (n - header_size) f.payload) in
    rw
      (
        take-append_beyond n (header_of f) f.payload (omega arith),
        size,
        read_full-append header_size (header_of f) (take (n - header_size) f.payload) size,
      )
      (read_header_short f (take (n - header_size) f.payload) v (omega arith) ∙ rw e)

-- A packet that is cut short is never read as a frame. The cut is reported as the end of the stream
-- where it falls before the header or right behind it, and as an unexpected end elsewhere.
pub read_truncated :
    (f : Frame) (n : ℕ)
    → IsFrame f
    → n < header_size + length f.payload
    → read (take n (packet_of f)) ≡ err (if n == 0 || n == header_size then eof else unexpected_eof)
read_truncated f n v h = elim (Bool-cases (ltb n header_size)) [
  | inl low ↦ cut_in_header f n v (ground arith) ∙ ground arith
  | inr high ↦ cut_in_payload f n v (ground arith) h ∙ ground arith
]

-- `write` refuses exactly the frames that do not fit, and sends nothing of them. Any other frame is
-- delivered as far as the writer goes, and the call always returns.
pub write_lem :
    (w : Sink) (f : Frame)
    → f.id < 2 ^ 32
    → (IsFrame f × ((r : Sink × Option Error) × (write w f ≡ some r) × Delivers w (packet_of f) r))
      ⊎ ((¬ IsFrame f) × (write w f ≡ some (w, some invalid_frame)))
unfolding write
write_lem w f h = elim (Bool-cases (length f.kind == 4)) [
  | inl four ↦ elim (Bool-cases (ltb max_frame_size (length f.payload + header_size))) [
    | inl big ↦ inr ((λ v. ground (arith, v.fits)), rw (four, big))
    | inr fits ↦ inl (
      record { four = ground arith; word = h; fits = ground arith },
      rw (four, fits) (write_all-Delivers w (packet_of f)),
    )
  ]
  | inr other ↦ inr ((λ v. ground (arith, v.four)), rw other)
]

-- A frame that was written without an error is on the wire whole, and the peer reads it back.
pub read-write :
    (w s : Sink) (f : Frame) (rest : Bytes)
    → f.id < 2 ^ 32
    → write w f ≡ some (s, none)
    → (s.sent ≡ w.sent ++ packet_of f) × (read (packet_of f ++ rest) ≡ ok (f, rest))
read-write w s f rest h e = elim (write_lem w f h) [
  | inl (v, reached) ↦
      let (r, o, d) = reached in
      let same : r ≡ (s, none) = cc in
      (
        ap (λ q. q.0.sent) (sym same) ∙ Delivers-sent d (ap (λ q. q.1) same),
        read-packet_of f rest v,
      )
  | inr (n, o) ↦ cc
]

-- A frame that fits reaches every writer that goes on taking bytes.
pub write_willing :
    (w : Sink) (f : Frame)
    → IsFrame f
    → All IsWilling w.replies
    → (s : Sink) × (write w f ≡ some (s, none)) × (s.sent ≡ w.sent ++ packet_of f)
unfolding write
write_willing w f v k =
    rw (v.four, ltb-false max_frame_size (length f.payload + header_size) (omega arith))
      (write_all_willing w (packet_of f) k)
