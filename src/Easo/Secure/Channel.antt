-- ===== src/Easo/Secure/Channel.antt =====
-- Two ends of an encrypted channel.
use burnout_paradise_server.Common.{
  ℕ, ◌+◌, ◌-◌, ◌%◌, ◌^◌, ◌≤◌, ◌≡◌, refl, sym, ap, ◌∙◌, [], ◌++◌, append_assoc, append-nil, arith,
  Bytes, bytes_eq_refl, length, take, drop, length-append, length-take, take-append, drop-append,
  ltb-false,
}
use burnout_paradise_server.Io.{ok, ◌>>=◌}
use burnout_paradise_server.Io.ReadFull.{read_full-append}
use burnout_paradise_server.Crypto.{Md5}
use burnout_paradise_server.Crypto.Rc4.{Rc4}
use burnout_paradise_server.Crypto.Rc4.Stream.{
  crypt, after, crypt-append, after-append, crypt-crypt, after-crypt, length-crypt,
}
use burnout_paradise_server.Easo.Frame.{Frame, be_u32, header_size, max_frame_size}
use burnout_paradise_server.Easo.Frame.Header.{
  header, length-header, header_kind, header_id, header_total,
}
use burnout_paradise_server.Easo.Frame.Wire.{IsFrame}
use burnout_paradise_server.Easo.Secure.{
  SecureEaso, secure_frame_mac_size, check_packet, read_body, read, plain_of, secure_packet_of,
}

-- The length that an encrypted frame announces counts the MAC.
abbrev wire_length_of : Frame → ℕ
wire_length_of f = header_size + length f.payload + secure_frame_mac_size

abbrev secure_header_of : Frame → Bytes
secure_header_of f = header f.kind f.id (wire_length_of f % 2 ^ 32)

module _ (md5 : Md5) where
  abbrev mac_of : Frame → Bytes
  mac_of f = take secure_frame_mac_size (md5.sum (plain_of f))

  length-mac_of : (f : Frame) → length (mac_of f) ≡ secure_frame_mac_size
  length-mac_of f =
      omega (
        arith,
        length-take secure_frame_mac_size (md5.sum (plain_of f)),
        md5.length-sum (plain_of f),
      )

  packet_kind : (f : Frame) → IsFrame f → take 4 (secure_packet_of md5 f) ≡ f.kind
  unfolding secure_packet_of plain_of
  packet_kind f v =
      ap (take 4) (append_assoc (secure_header_of f) f.payload (mac_of f))
      ∙ header_kind f.kind f.id (wire_length_of f % 2 ^ 32) v.four _

  packet_id : (f : Frame) → IsFrame f → be_u32 (drop 4 (secure_packet_of md5 f)) ≡ f.id
  unfolding secure_packet_of plain_of
  packet_id f v =
      ap (λ s. be_u32 (drop 4 s)) (append_assoc (secure_header_of f) f.payload (mac_of f))
      ∙ header_id f.kind f.id (wire_length_of f % 2 ^ 32) v.four _ v.word

  -- The packet that `Write` makes passes the check of `Read` and gives its frame.
  check_packet-secure_packet_of :
      (f : Frame) → IsFrame f → check_packet md5 (secure_packet_of md5 f) ≡ ok f
  unfolding check_packet secure_packet_of plain_of
  check_packet-secure_packet_of f v =
      let plain = plain_of f in
      let t = wire_length_of f % 2 ^ 32 in
      let e : length (plain ++ mac_of f) - secure_frame_mac_size ≡ length plain =
        omega (arith, length-append plain (mac_of f), length-mac_of f) in
      rw
        (
          e,
          drop-append (length plain) plain (mac_of f) refl,
          take-append (length plain) plain (mac_of f) refl,
          bytes_eq_refl (mac_of f),
        )
        (rw (
          packet_kind f v,
          packet_id f v,
          drop-append header_size (secure_header_of f) f.payload
              (length-header f.kind f.id t v.four),
        ))

  -- `Read` behind the header, on the encryption of the bytes that the header announces.
  read_body-crypt :
      (head body rest : Bytes) (c : Rc4)
      → be_u32 (drop 8 head) ≡ header_size + length body
      → secure_frame_mac_size ≤ length body
      → length body ≤ max_frame_size + secure_frame_mac_size - header_size
      → read_body md5 head c (crypt c body ++ rest)
        ≡ (check_packet md5 (head ++ body) >>= λ f. ok (f, after c body, rest))
  unfolding read_body
  read_body-crypt head body rest c total low high =
      let n = header_size + length body in
      let e : n - header_size ≡ length body = omega arith in
      rw
        (
          total,
          ltb-false n (header_size + secure_frame_mac_size) (omega arith),
          ltb-false (max_frame_size + secure_frame_mac_size) n (omega arith),
        )
        (rw (e, read_full-append (length body) (crypt c body) rest (length-crypt c body))
          (rw (crypt-crypt c body, after-crypt c body)))

  read-parts :
      (channel : SecureEaso) (head body rest : Bytes) (f : Frame)
      → length head ≡ header_size
      → be_u32 (drop 8 head) ≡ header_size + length body
      → secure_frame_mac_size ≤ length body
      → length body ≤ max_frame_size + secure_frame_mac_size - header_size
      → check_packet md5 (head ++ body) ≡ ok f
      → let c = channel.read_cipher in
        read md5 channel (crypt c (head ++ body) ++ rest)
        ≡ ok (f, record channel { read_cipher = after c (head ++ body) }, rest)
  unfolding read
  read-parts channel head body rest f size total low high check =
      let c = channel.read_cipher in
      rw
        (
          crypt-append c head body,
          after-append c head body,
          append_assoc (crypt c head),
          read_full-append header_size (crypt c head) (crypt (after c head) body ++ rest)
              (length-crypt c head ∙ size),
        )
        (rw (
          crypt-crypt c head,
          after-crypt c head,
          read_body-crypt head body rest (after c head) total low high,
          check,
        ))

  -- A frame is read from the encryption of its packet by a channel in the same state.
  pub read-crypt :
      (channel : SecureEaso) (f : Frame) (rest : Bytes)
      → IsFrame f
      → let c = channel.read_cipher in
        let p = secure_packet_of md5 f in
        read md5 channel (crypt c p ++ rest)
        ≡ ok (f, record channel { read_cipher = after c p }, rest)
  read-crypt channel f rest v =
      let c = channel.read_cipher in
      let head = secure_header_of f in
      let body = f.payload ++ mac_of f in
      let t = wire_length_of f % 2 ^ 32 in
      let n : length body ≡ length f.payload + secure_frame_mac_size =
        length-append f.payload (mac_of f)
        ∙ ap (λ (k : ℕ). length f.payload + k) (length-mac_of f) in
      let whole : secure_packet_of md5 f ≡ head ++ body =
        unfold secure_packet_of plain_of in append_assoc head f.payload (mac_of f) in
      let total : be_u32 (drop 8 head) ≡ t =
        ap (λ s. be_u32 (drop 8 s)) (sym (append-nil head))
        ∙ header_total f.kind f.id t v.four [] (omega arith) in
      rw whole (
        read-parts channel head body rest f (length-header f.kind f.id t v.four)
          (total ∙ omega (arith, v.fits)) (omega arith) (omega (arith, v.fits))
          (rw (← whole) (check_packet-secure_packet_of f v)))
