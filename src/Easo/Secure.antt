-- ===== src/Easo/Secure.antt =====
-- easo/secure_easo.go: frames with a MAC, encrypted by two continuous RC4 streams.
pub mod Channel
pub mod Session
pub mod Authentic
use burnout_paradise_server.Common.{
  ℕ, ◌+◌, ◌-◌, ◌%◌, ◌^◌, ◌++◌, Option, none, some, not, ◌||◌, Bytes, bytes_eq, ltb, ◌==◌,
  if◌then◌else◌, length, take, drop,
}
use burnout_paradise_server.Io.{
  Error, Result, ok, err, invalid_frame, ◌>>=◌, read_full, Sink, write_all,
}
use burnout_paradise_server.Crypto.{Md5}
use burnout_paradise_server.Crypto.Rc4.{Rc4, new_cipher, xor_key_stream}
use burnout_paradise_server.Easo.Frame.{Frame, put_u32, be_u32, header_size, max_frame_size}

abbrev pub secure_frame_mac_size : ℕ
secure_frame_mac_size = 8

-- The stream itself is an argument of `read` and `write`.
pub record SecureEaso : Type 0 where
  pub read_cipher : Rc4
  pub write_cipher : Rc4

unfoldable pub new_secure_easo : Bytes → Bytes → Option SecureEaso
new_secure_easo read_key write_key = elim (new_cipher read_key) [
  | none ↦ none
  | some r ↦ elim (new_cipher write_key) [
    | none ↦ none
    | some w ↦ some (record { read_cipher = r; write_cipher = w })
  ]
]

-- The packet that `Write` assembles, up to the MAC. `uint32(wireLength)` wraps.
unfoldable pub plain_of : Frame → Bytes
plain_of f =
    f.kind
    ++ put_u32 f.id
    ++ put_u32 ((header_size + length f.payload + secure_frame_mac_size) % 2 ^ 32)
    ++ f.payload

module _ (md5 : Md5) where
  -- The part of `Read` behind the decryption: the MAC is checked over all that stands before it.
  check_packet : Bytes → Result Frame
  check_packet packet =
      let plain_length = length packet - secure_frame_mac_size in
      let digest = md5.sum (take plain_length packet) in
      if not (bytes_eq (drop plain_length packet) (take secure_frame_mac_size digest))
      then err invalid_frame
      else ok (record {
        kind = take 4 packet;
        id = be_u32 (drop 4 packet);
        payload = drop header_size (take plain_length packet);
      })

  -- The part of `Read` behind the header: `header` is decrypted already, and `c` is the cipher
  -- behind it.
  read_body : Bytes → Rc4 → Bytes → Result (Frame × Rc4 × Bytes)
  read_body header c s =
      let wire_length = be_u32 (drop 8 header) in
      if ltb wire_length (header_size + secure_frame_mac_size)
        || ltb (max_frame_size + secure_frame_mac_size) wire_length
      then err invalid_frame
      else do
        (encrypted, rest) ← read_full (wire_length - header_size) s
        let (body, c') = xor_key_stream c encrypted
        frame ← check_packet (header ++ body)
        ok (frame, c', rest)

  -- The frame, the channel behind it and what is left of the stream.
  pub read : SecureEaso → Bytes → Result (Frame × SecureEaso × Bytes)
  unfolding read_body check_packet
  read channel s = do
    (encrypted, left) ← read_full header_size s
    let (header, c) = xor_key_stream channel.read_cipher encrypted
    (frame, c', rest) ← read_body header c left
    ok (frame, record channel { read_cipher = c' }, rest)

  unfoldable pub secure_packet_of : Frame → Bytes
  secure_packet_of f = plain_of f ++ take secure_frame_mac_size (md5.sum (plain_of f))

  unfoldable pub write : SecureEaso → Sink → Frame → Option (SecureEaso × Sink × Option Error)
  write channel w f =
      if not (length f.kind == 4)
      then some (channel, w, some invalid_frame)
      else if ltb (max_frame_size + secure_frame_mac_size)
          (header_size + length f.payload + secure_frame_mac_size)
      then some (channel, w, some invalid_frame)
      else (let (packet, c) = xor_key_stream channel.write_cipher (secure_packet_of f) in
          elim (write_all w packet) [
            | none ↦ none
            | some (w', e) ↦ some (record channel { write_cipher = c }, w', e)
          ])
