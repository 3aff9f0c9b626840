-- ===== src/Easo/Frame/Reader.antt =====
-- easo/frame.go: `Read` from a reader that gives the bytes of a stream.
use burnout_paradise_server.Common.{
  ℕ, ◌-◌, ◌≡◌, ap, ◌∙◌, ◌||◌, Bytes, ltb, drop, Bool, true, false, if◌then◌else◌, subst,
}
use burnout_paradise_server.Io.{Result, ok, err, read_full, invalid_frame}
use burnout_paradise_server.Io.ReadFull.{>>=-eq-ok, >>=-ok, ok_eq}
use burnout_paradise_server.Easo.Frame.{
  Frame, be_u32, header_size, max_frame_size, read_payload_from, read_from, read,
}

-- A reader whose states hold bytes, and whose `ReadFull` agrees with that of the bytes.
module _ {S : Type 0} (full : ℕ → S → Result (Bytes × S)) (Has : S → Bytes → Type 0)
    (agrees : (n : ℕ) (p x p' : Bytes) (s : S)
      → read_full n p ≡ ok (x, p')
      → Has s p
      → (t : S) × (full n s ≡ ok (x, t)) × Has t p') where
  payload-agrees :
      (header p p' : Bytes) (s : S) (f : Frame)
      → Has s p
      → read_payload_from read_full header p ≡ ok (f, p')
      → (t : S) × (read_payload_from full header s ≡ ok (f, t)) × Has t p'
  unfolding read_payload_from
  payload-agrees header p p' s f v e =
      let n = be_u32 (drop 8 header) - header_size in
      let ((payload, q), got, made) = >>=-eq-ok (read_full n p) _ e in
      let (t, taken, held) = agrees n p payload q s got v in
      (
        t,
        >>=-ok _ taken ∙ ap (λ (g, r). ok (g, t)) (ok_eq made),
        subst (Has t) (ap (λ (g, r). r) (ok_eq made)) held,
      )

  header-agrees :
      (refused : Bool) (header p p' : Bytes) (s : S) (f : Frame)
      → Has s p
      → (if refused then err invalid_frame else read_payload_from read_full header p) ≡ ok (f, p')
      → (t : S) × ((if refused then err invalid_frame else read_payload_from full header s)
          ≡ ok (f, t))
        × Has t p'
  header-agrees true header p p' s f v e = cc
  header-agrees false header p p' s f v e = payload-agrees header p p' s f v e

  pub read-agrees :
      (p p' : Bytes) (s : S) (f : Frame)
      → Has s p
      → read p ≡ ok (f, p')
      → (t : S) × (read_from full s ≡ ok (f, t)) × Has t p'
  unfolding read
  read-agrees p p' s f v e =
      let ((header, q), got, e1) = >>=-eq-ok (read_full header_size p) _ e in
      let (s1, first, v1) = agrees header_size p header q s got v in
      let length_field = be_u32 (drop 8 header) in
      let (t, second, v2) =
        header-agrees (ltb length_field header_size || ltb max_frame_size length_field) header q p'
          s1 f v1 e1 in
      (t, >>=-ok _ first ∙ second, v2)
