-- ===== src/Easo/Frame/Wire.antt =====
-- Frames on the wire: what `read` makes of a packet, and of every stream.
use burnout_paradise_server.Common.{
  ◌+◌, ◌-◌, ◌%◌, ◌^◌, ◌≤◌, ◌<◌, ◌≡◌, refl, sym, ap, ◌∙◌, [], ◌++◌, append_assoc, append-nil, arith,
  Bytes, AreBytes, IsByte, All-drop, length, take, drop, length-take, All-prefix, ltb-false,
}
use burnout_paradise_server.Io.{ok, read_full}
use burnout_paradise_server.Io.ReadFull.{>>=-eq-ok, read_full-append, read_full_sound}
use burnout_paradise_server.Easo.Frame.Header.{
  header, length-header, header_kind, header_id, header_total, header_parts, be_u32-lt,
}
use burnout_paradise_server.Easo.Frame.{
  Frame, be_u32, read_header_from, read, packet_of, max_frame_size, header_size,
}

-- The frames that the protocol can carry.
pub record IsFrame (f : Frame) : Type 0 where
  pub four : length f.kind ≡ 4
  pub word : f.id < 2 ^ 32
  pub fits : header_size + length f.payload ≤ max_frame_size

-- The header of a plain frame.
abbrev pub header_of : Frame → Bytes
header_of f = header f.kind f.id ((header_size + length f.payload) % 2 ^ 32)

-- What `read` sees of the header, of which nothing else has been read.
pub header_of_parts :
    (f : Frame)
    → IsFrame f
    → (take 4 (header_of f) ≡ f.kind)
      × (be_u32 (drop 4 (header_of f)) ≡ f.id)
      × (be_u32 (drop 8 (header_of f)) ≡ header_size + length f.payload)
header_of_parts f v =
    let t = (header_size + length f.payload) % 2 ^ 32 in
    let e : t ≡ header_size + length f.payload = omega (arith, v.fits) in
    let whole = append-nil (header f.kind f.id t) in
    (
      ap (take 4) (sym whole) ∙ header_kind f.kind f.id t v.four [],
      ap (λ s. be_u32 (drop 4 s)) (sym whole) ∙ header_id f.kind f.id t v.four [] v.word,
      ap (λ s. be_u32 (drop 8 s)) (sym whole)
          ∙ header_total f.kind f.id t v.four [] (omega arith)
          ∙ e,
    )

-- A header that spells a frame's parts leads to that frame.
read_header-parts :
    (f : Frame) (header rest : Bytes)
    → header_size + length f.payload ≤ max_frame_size
    → take 4 header ≡ f.kind
    → be_u32 (drop 4 header) ≡ f.id
    → be_u32 (drop 8 header) ≡ header_size + length f.payload
    → read_header_from read_full header (f.payload ++ rest) ≡ ok (f, rest)
unfolding read_header_from
read_header-parts f header rest h kind id total =
    let e : header_size + length f.payload - header_size ≡ length f.payload = omega arith in
    rw
      (
        total,
        ltb-false (header_size + length f.payload) header_size (omega arith),
        ltb-false max_frame_size (header_size + length f.payload) h,
      )
      (rw (e, read_full-append (length f.payload) f.payload rest refl, kind, id))

-- Every frame that fits is read back from its packet, whatever follows it in the stream.
pub read-packet_of :
    (f : Frame) (rest : Bytes) → IsFrame f → read (packet_of f ++ rest) ≡ ok (f, rest)
unfolding read packet_of
read-packet_of f rest v =
    let (kind, id, total) = header_of_parts f v in
    rw append_assoc (
      rw
        (read_full-append header_size (header_of f) (f.payload ++ rest)
          (length-header f.kind f.id _ v.four))
        (read_header-parts f (header_of f) rest v.fits kind id total))

-- What a successful `read_header` says of the header and the stream behind it.
record Reads (h s : Bytes) (f : Frame) (rest : Bytes) : Type 0 where
  kind : take 4 h ≡ f.kind
  id : be_u32 (drop 4 h) ≡ f.id
  low : header_size ≤ be_u32 (drop 8 h)
  high : be_u32 (drop 8 h) ≤ max_frame_size
  body : read_full (be_u32 (drop 8 h) - header_size) s ≡ ok (f.payload, rest)

read_header-Reads :
    (h s : Bytes) (f : Frame) (rest : Bytes)
    → read_header_from read_full h s ≡ ok (f, rest)
    → Reads h s f rest
unfolding read_header_from
read_header-Reads h s f rest k = ground arith

read_header_sound :
    (h s : Bytes) (f : Frame) (rest : Bytes)
    → length h ≡ header_size
    → AreBytes h
    → read_header_from read_full h s ≡ ok (f, rest)
    → (h ++ s ≡ packet_of f ++ rest) × IsFrame f
unfolding packet_of
read_header_sound h s f rest e b k =
    let r = read_header-Reads h s f rest k in
    let (split, size) = read_full_sound _ s r.body in
    let total : (header_size + length f.payload) % 2 ^ 32 ≡ be_u32 (drop 8 h) =
      omega (arith, r.low, r.high, size) in
    (
      rw (split, total, ← r.kind, ← r.id, header_parts h e b, append_assoc h f.payload rest) refl,
      record {
        four = rw (← r.kind) (omega (arith, length-take 4 h));
        word = rw (← r.id) (be_u32-lt (drop 4 h) (All-drop IsByte 4 h b));
        fits = omega (arith, r.low, r.high, size);
      },
    )

-- A frame is read from nothing but its own packet: the stream is that packet and what is left.
pub read_sound :
    (s : Bytes) (f : Frame) (rest : Bytes)
    → AreBytes s
    → read s ≡ ok (f, rest)
    → (s ≡ packet_of f ++ rest) × IsFrame f
unfolding read
read_sound s f rest b h =
    let ((header, left), whole, k) = >>=-eq-ok (read_full header_size s) _ h in
    let (split, size) = read_full_sound header_size s whole in
    let b' : AreBytes (header ++ left) = rw (← split) b in
    rw split (read_header_sound header left f rest size (All-prefix IsByte header left b') k)
