-- ===== src/Easo/Secure/Session.antt =====
-- What one end of an encrypted channel writes and the other reads, over many frames.
use burnout_paradise_server.Common.{
  ℕ, zero, suc, All, ◌+◌, ◌^◌, ◌<◌, ◌≡◌, refl, sym, ap, subst, ◌∙◌, List, [], ◌∷◌, ◌++◌,
  append_assoc, append-nil, some_eq, Option, none, some, arith, Bytes, length, ltb, ◌==◌,
  Bool-cases, inl, inr, ◌⊎◌,
}
use burnout_paradise_server.Io.{Error, Result, ok, ◌>>=◌, invalid_frame, Sink}
use burnout_paradise_server.Io.Delivery.{Delivers, Delivers-sent, write_all-Delivers}
use burnout_paradise_server.Crypto.{Md5}
use burnout_paradise_server.Crypto.Rc4.Stream.{crypt, after}
use burnout_paradise_server.Easo.Frame.{Frame, header_size, max_frame_size}
use burnout_paradise_server.Easo.Frame.Wire.{IsFrame}
use burnout_paradise_server.Easo.Secure.{
  SecureEaso, secure_frame_mac_size, read, secure_packet_of, write,
}
use burnout_paradise_server.Easo.Secure.Channel.{read-crypt}

-- The two ends are at the same place of the key stream that leads from one to the other.
abbrev pub InSync : SecureEaso → SecureEaso → Type 0
InSync sender receiver = sender.write_cipher ≡ receiver.read_cipher

-- What a write returns, and the writes that follow one without an error.
abbrev Outcome : Type 0
Outcome = Option (SecureEaso × Sink × Option Error)

abbrev unless_failed : Outcome → (SecureEaso → Sink → Outcome) → Outcome
unless_failed none next = none
unless_failed (some (ch, w, none)) next = next ch w
unless_failed (some (ch, w, some e)) next = some (ch, w, some e)

unless_failed_inv :
    (o : Outcome) (next : SecureEaso → Sink → Outcome) (q : SecureEaso × Sink)
    → unless_failed o next ≡ some (q.0, q.1, none)
    → (ch : SecureEaso) × (w : Sink) × (o ≡ some (ch, w, none))
      × (next ch w ≡ some (q.0, q.1, none))
unless_failed_inv none next q h = cc
unless_failed_inv (some (ch, w, none)) next q h = (ch, w, refl, h)
unless_failed_inv (some (ch, w, some e)) next q h = ground arith

module _ (md5 : Md5) where
  -- The channel behind a frame that was encrypted.
  abbrev advanced : SecureEaso → Frame → SecureEaso
  advanced ch f = record ch { write_cipher = after ch.write_cipher (secure_packet_of md5 f) }

  -- `Write` refuses exactly the frames that do not fit, and keeps the key stream for them where it
  -- is. Any other frame moves the key stream on by its packet, also if the writer fails.
  pub secure_write_lem :
      (ch : SecureEaso) (w : Sink) (f : Frame)
      → f.id < 2 ^ 32
      → (IsFrame f
          × ((r : Sink × Option Error) × (write md5 ch w f ≡ some (advanced ch f, r.0, r.1))
              × Delivers w (crypt ch.write_cipher (secure_packet_of md5 f)) r))
        ⊎ ((¬ IsFrame f) × (write md5 ch w f ≡ some (ch, w, some invalid_frame)))
  unfolding write
  secure_write_lem ch w f h = elim (Bool-cases (length f.kind == 4)) [
    | inl four ↦
        elim (Bool-cases (
          ltb (max_frame_size + secure_frame_mac_size)
            (header_size + length f.payload + secure_frame_mac_size))) [
              | inl big ↦ inr ((λ v. ground (arith, v.fits)), rw (four, big))
              | inr fits ↦
                  let (r, o, d) =
                    write_all-Delivers w (crypt ch.write_cipher (secure_packet_of md5 f)) in
                  inl (
                    record { four = ground arith; word = h; fits = ground arith },
                    (r, rw (four, fits) (rw o), d),
                  )
            ]
    | inr other ↦ inr ((λ v. ground (arith, v.four)), rw other)
  ]

  -- Frames written one after the other, up to the first error.
  unfoldable pub write_frames :
      SecureEaso → Sink → List Frame → Option (SecureEaso × Sink × Option Error)
  write_frames ch w [] = some (ch, w, none)
  write_frames ch w (f ∷ fs) = unless_failed (write md5 ch w f) (λ ch' w'. write_frames ch' w' fs)

  -- The next `n` frames of a stream.
  pub read_frames : ℕ → SecureEaso → Bytes → Result (List Frame × SecureEaso × Bytes)
  read_frames zero ch s = ok ([], ch, s)
  read_frames (suc n) ch s = do
    (f, ch', s') ← read md5 ch s
    (fs, ch'', s'') ← read_frames n ch' s'
    ok (f ∷ fs, ch'', s'')

  -- A frame that was written without an error is on the wire encrypted, the peer reads it back, and
  -- the two ends are in step again.
  pub secure_read-write :
      (sender receiver sender' : SecureEaso) (w w' : Sink) (f : Frame) (rest : Bytes)
      → InSync sender receiver
      → f.id < 2 ^ 32
      → write md5 sender w f ≡ some (sender', w', none)
      → let wire = crypt sender.write_cipher (secure_packet_of md5 f) in
        let receiver' = record receiver { read_cipher = sender'.write_cipher } in
        (w'.sent ≡ w.sent ++ wire) × (read md5 receiver (wire ++ rest) ≡ ok (f, receiver', rest))
  secure_read-write sender receiver sender' w w' f rest sync h e =
      elim (secure_write_lem sender w f h) [
        | inl (v, reached) ↦
            let (r, o, d) = reached in
            let p = secure_packet_of md5 f in
            let same : ◌≡◌ {A = SecureEaso × Sink × Option Error} (advanced sender f, r.0, r.1)
                (sender', w', none) =
              some_eq (sym o ∙ e) in
            (
              ap (λ q. q.1.sent) (sym same) ∙ Delivers-sent d (ap (λ q. q.2) same),
              subst
                  (λ c.
                    read md5 receiver (crypt sender.write_cipher p ++ rest)
                    ≡ ok (f, record receiver { read_cipher = c }, rest))
                  (ap (λ q. q.0.write_cipher) same)
                  (subst
                    (λ c.
                      read md5 receiver (crypt c p ++ rest)
                      ≡ ok (f, record receiver { read_cipher = after c p }, rest))
                    (sym sync) (read-crypt md5 receiver f rest v)),
            )
        | inr (n, o) ↦ cc
      ]

  -- So it is for any number of frames: what was written without an error is read back in order.
  pub read_frames-write_frames :
      (fs : List Frame) (sender receiver sender' : SecureEaso) (w w' : Sink) (rest : Bytes)
      → All (λ f. f.id < 2 ^ 32) fs
      → InSync sender receiver
      → write_frames sender w fs ≡ some (sender', w', none)
      → (wire : Bytes) × (receiver' : SecureEaso) × (w'.sent ≡ w.sent ++ wire)
        × (read_frames (length fs) receiver (wire ++ rest) ≡ ok (fs, receiver', rest))
        × InSync sender' receiver'
  unfolding write_frames read_frames
  read_frames-write_frames [] sender receiver sender' w w' rest h sync e =
      let same : ◌≡◌ {A = SecureEaso × Sink × Option Error} (sender, w, none) (sender', w', none) =
        some_eq e in
      (
        [],
        receiver,
        ap (λ q. q.1.sent) (sym same) ∙ sym (append-nil w.sent),
        refl,
        ap (λ q. q.0.write_cipher) (sym same) ∙ sync,
      )
  read_frames-write_frames (f ∷ fs) sender receiver sender' w w' rest h sync e =
      let (ch, v, first, others) = unless_failed_inv (write md5 sender w f) _ (sender', w') e in
      let wire = crypt sender.write_cipher (secure_packet_of md5 f) in
      let receiver' = record receiver { read_cipher = ch.write_cipher } in
      let (tail, receiver'', sent, back, sync') =
        read_frames-write_frames fs ch receiver' sender' v w' rest h.1 refl others in
      let (put, got) = secure_read-write sender receiver ch w v f (tail ++ rest) sync h.0 first in
      (
        wire ++ tail,
        receiver'',
        sent ∙ rw put (append_assoc w.sent wire tail),
        rw append_assoc (rw got (rw back)),
        sync',
      )
