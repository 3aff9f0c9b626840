-- ===== src/Easo/Secure/Authentic.antt =====
-- What an encrypted stream must look like for a frame to be read from it.
use burnout_paradise_server.Common.{
  ◌+◌, ◌-◌, ◌%◌, ◌^◌, ◌≤◌, ◌≡◌, sym, ap, subst, ◌∙◌, ◌++◌, append_assoc, arith, Bytes, AreBytes,
  IsByte, All-prefix, bytes_eq, bytes_eq_sound, length, take, drop, length-append, length-take,
  drop-append, take-append_beyond, All-drop, take-append-drop, ltb, Bool-cases, inl, inr, ◌||◌,
}
use burnout_paradise_server.Io.{ok, read_full}
use burnout_paradise_server.Io.ReadFull.{>>=-eq-ok, ok_eq, read_full_sound}
use burnout_paradise_server.Crypto.{Md5}
use burnout_paradise_server.Crypto.Rc4.{Rc4}
use burnout_paradise_server.Crypto.Rc4.Stream.{
  crypt, after, crypt-append, after-append, crypt-crypt, after-crypt, length-crypt,
}
use burnout_paradise_server.Crypto.Rc4.Table.{IsCipher, crypt-AreBytes}
use burnout_paradise_server.Easo.Frame.{Frame, be_u32, header_size, max_frame_size}
use burnout_paradise_server.Easo.Frame.Header.{
  header, header_kind, header_id, header_parts, be_u32-lt,
}
use burnout_paradise_server.Easo.Frame.Wire.{IsFrame}
use burnout_paradise_server.Easo.Secure.{
  SecureEaso, secure_frame_mac_size, check_packet, read_body, read, plain_of, secure_packet_of,
}

crypt_parts : (c : Rc4) (xs ys : Bytes) → crypt c (crypt c xs ++ crypt (after c xs) ys) ≡ xs ++ ys
crypt_parts c xs ys =
    rw
      (crypt-append c (crypt c xs), after-crypt c xs, crypt-crypt c xs, crypt-crypt (after c xs) ys)

after_parts :
    (c : Rc4) (xs ys : Bytes)
    → after c (crypt c xs ++ crypt (after c xs) ys) ≡ after (after c xs) ys
after_parts c xs ys =
    rw (after-append c (crypt c xs), after-crypt c xs, after-crypt (after c xs) ys)

module _ (md5 : Md5) where
  -- A packet that passes the check ends with the MAC of what stands before it.
  check_packet_sound :
      (packet : Bytes) (f : Frame)
      → check_packet md5 packet ≡ ok f
      → let plain = take (length packet - secure_frame_mac_size) packet in
        (packet ≡ plain ++ take secure_frame_mac_size (md5.sum plain))
        × (f ≡ record {
          kind = take 4 packet;
          id = be_u32 (drop 4 packet);
          payload = drop header_size plain;
        })
  unfolding check_packet
  check_packet_sound packet f h =
      let n = length packet - secure_frame_mac_size in
      let plain = take n packet in
      let mac = take secure_frame_mac_size (md5.sum plain) in
      elim (Bool-cases (bytes_eq (drop n packet) mac)) [
        | inl same ↦ (
          sym (take-append-drop n packet)
              ∙ ap (λ s. plain ++ s) (bytes_eq_sound (drop n packet) mac same),
          ground arith,
        )
        | inr other ↦ absurd (ground arith)
      ]

  record Opens (head : Bytes) (c : Rc4) (s : Bytes) (f : Frame) (c' : Rc4) (rest : Bytes)
      : Type 0 where
    low : header_size + secure_frame_mac_size ≤ be_u32 (drop 8 head)
    high : be_u32 (drop 8 head) ≤ max_frame_size + secure_frame_mac_size
    body : Bytes
    split : read_full (be_u32 (drop 8 head) - header_size) s ≡ ok (body, rest)
    check : check_packet md5 (head ++ crypt c body) ≡ ok f
    cipher : c' ≡ after c body

  read_body-Opens :
      (head : Bytes) (c : Rc4) (s : Bytes) (f : Frame) (c' : Rc4) (rest : Bytes)
      → read_body md5 head c s ≡ ok (f, c', rest)
      → Opens head c s f c' rest
  unfolding read_body
  read_body-Opens head c s f c' rest h =
      elim (Bool-cases (
        ltb (be_u32 (drop 8 head)) (header_size + secure_frame_mac_size)
        || ltb (max_frame_size + secure_frame_mac_size) (be_u32 (drop 8 head)))) [
          | inl bad ↦ absurd (ground arith)
          | inr good ↦
              let k = rw good at h in
              let ((body, left), split, k') =
                >>=-eq-ok (read_full (be_u32 (drop 8 head) - header_size) s) _ k in
              let (g, check, k'') = >>=-eq-ok (check_packet md5 (head ++ crypt c body)) _ k' in
              let same : ◌≡◌ {A = Frame × Rc4 × Bytes} (g, after c body, left) (f, c', rest) =
                ok_eq k'' in
              record {
                low = ground arith;
                high = ground arith;
                body = body;
                split = split ∙ ap (λ q. ok (body, q.2)) same;
                check = check ∙ ap (λ q. ok q.0) same;
                cipher = sym (ap (λ q. q.1) same);
              }
        ]

  -- A packet that passes the check is the one that `Write` makes of the frame.
  packet_sound :
      (head body : Bytes) (f : Frame)
      → length head ≡ header_size
      → AreBytes head
      → be_u32 (drop 8 head) ≡ header_size + length body
      → secure_frame_mac_size ≤ length body
      → header_size + length body ≤ max_frame_size + secure_frame_mac_size
      → check_packet md5 (head ++ body) ≡ ok f
      → (head ++ body ≡ secure_packet_of md5 f) × IsFrame f
  unfolding secure_packet_of plain_of
  packet_sound head body f size bytes total low high check =
      let packet = head ++ body in
      let four : length (take 4 head) ≡ 4 = omega (arith, length-take 4 head) in
      let whole = header_parts head size bytes in
      let n : length packet - secure_frame_mac_size - length head
          ≡ length body - secure_frame_mac_size =
        omega (arith, length-append head body) in
      let p = take (length body - secure_frame_mac_size) body in
      let plain : take (length packet - secure_frame_mac_size) packet ≡ head ++ p =
        take-append_beyond _ head body (omega (arith, length-append head body))
        ∙ ap (λ k. head ++ take k body) n in
      let (split, parts) = check_packet_sound packet f check in
      let kind : f.kind ≡ take 4 head =
        ap (λ g. g.kind) parts
        ∙ ap (λ x. take 4 (x ++ body)) (sym whole)
        ∙ header_kind (take 4 head) _ _ four body in
      let id : f.id ≡ be_u32 (drop 4 head) =
        ap (λ g. g.id) parts
        ∙ ap (λ x. be_u32 (drop 4 (x ++ body))) (sym whole)
        ∙ header_id (take 4 head) _ _ four body
            (be_u32-lt (drop 4 head) (All-drop IsByte 4 head bytes)) in
      let payload : f.payload ≡ p =
        ap (λ g. g.payload) parts
        ∙ ap (drop header_size) plain
        ∙ drop-append header_size head p size in
      let long : length f.payload ≡ length body - secure_frame_mac_size =
        ap length payload ∙ omega (arith, length-take (length body - secure_frame_mac_size) body) in
      let wire : (header_size + length f.payload + secure_frame_mac_size) % 2 ^ 32
          ≡ be_u32 (drop 8 head) =
        omega (arith, long) in
      let spelled : plain_of f ≡ head ++ p =
        (λ i. header (kind i) (id i) (wire i) ++ payload i) ∙ ap (λ x. x ++ p) whole in
      (
        split ∙ ap (λ x. x ++ take secure_frame_mac_size (md5.sum x)) (plain ∙ sym spelled),
        record {
          four = ap length kind ∙ four;
          word = rw id (be_u32-lt (drop 4 head) (All-drop IsByte 4 head bytes));
          fits = omega (arith, long);
        },
      )

  -- What the stream and the channel behind it are, if a frame was read.
  abbrev Accepts : SecureEaso → Bytes → Frame × SecureEaso × Bytes → Type 0
  Accepts channel s (f, channel', rest) =
      let c = channel.read_cipher in
      let p = secure_packet_of md5 f in
      (s ≡ crypt c p ++ rest) × IsFrame f × (channel' ≡ record channel { read_cipher = after c p })

  -- A frame is read from nothing but the encryption of its own packet, with its own MAC, and the
  -- channel moves on by that packet.
  pub secure_read_sound :
      (channel channel' : SecureEaso) (s rest : Bytes) (f : Frame)
      → AreBytes s
      → IsCipher channel.read_cipher
      → read md5 channel s ≡ ok (f, channel', rest)
      → let c = channel.read_cipher in
        let p = secure_packet_of md5 f in
        (s ≡ crypt c p ++ rest)
        × IsFrame f
        × (channel' ≡ record channel { read_cipher = after c p })
  unfolding read
  secure_read_sound channel channel' s rest f b k h =
      let c = channel.read_cipher in
      let ((enc, left), whole, h') = >>=-eq-ok (read_full header_size s) _ h in
      let ((g, c', over), opened, h'') =
        >>=-eq-ok (read_body md5 (crypt c enc) (after c enc) left) _ h' in
      let same : ◌≡◌ {A = Frame × SecureEaso × Bytes} (g, record channel { read_cipher = c' }, over)
          (f, channel', rest) =
        ok_eq h'' in
      let o = read_body-Opens (crypt c enc) (after c enc) left g c' over opened in
      let (cut, size) = read_full_sound header_size s whole in
      let (cut', size') = read_full_sound _ left o.split in
      let bytes : AreBytes (enc ++ left) = rw (← cut) b in
      let long = length-crypt (after c enc) o.body in
      let (packet, frame) =
        packet_sound (crypt c enc) (crypt (after c enc) o.body) g (length-crypt c enc ∙ size)
          (crypt-AreBytes c enc k (All-prefix IsByte enc left bytes))
          (omega (arith, long, o.low, size')) (omega (arith, long, o.low, size'))
          (omega (arith, long, o.low, o.high, size')) o.check in
      subst (Accepts channel s) same (
        cut
            ∙ ap (λ x. enc ++ x) cut'
            ∙ sym (append_assoc enc o.body over)
            ∙ ap (λ x. x ++ over) (sym (crypt_parts c enc o.body) ∙ ap (crypt c) packet),
        frame,
        ap (λ x. record channel { read_cipher = x })
            (o.cipher ∙ sym (after_parts c enc o.body) ∙ ap (after c) packet),
      )
