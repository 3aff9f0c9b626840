-- ===== src/Easo/Frame.antt =====
-- easo/frame.go: the 12-byte framing.
pub mod Header
pub mod Wire
pub mod Reader
pub mod Ends
use burnout_paradise_server.Common.{
  ℕ, ◌+◌, ◌-◌, ◌*◌, ◌/◌, ◌%◌, ◌^◌, [], ◌∷◌, ◌++◌, ◌≡◌, refl, not, ◌||◌, Option, none, some, Bytes,
  codes, ltb, ◌==◌, if◌then◌else◌, length, take, drop,
}
use burnout_paradise_server.Io.{
  Error, Result, ok, err, invalid_frame, ◌>>=◌, read_full, Sink, write_all,
}

abbrev pub header_size : ℕ
header_size = 12

abbrev pub max_frame_size : ℕ
max_frame_size = 2 ^ 20

-- A field `Type` of four bytes, an identifier below 2 ^ 32 and a payload.
pub record Frame : Type 0 where
  pub kind : Bytes
  pub id : ℕ
  pub payload : Bytes

-- `binary.BigEndian.PutUint32` and `Uint32`. A slice that is too short is a panic in Go, and no
-- caller here has one.
unfoldable pub put_u32 : ℕ → Bytes
put_u32 n = (n / 2 ^ 24 % 256) ∷ (n / 2 ^ 16 % 256) ∷ (n / 2 ^ 8 % 256) ∷ (n % 256) ∷ []

unfoldable pub be_u32 : Bytes → ℕ
be_u32 (a ∷ b ∷ c ∷ d ∷ _) = a * 2 ^ 24 + b * 2 ^ 16 + c * 2 ^ 8 + d
be_u32 _ = 0

-- The frame's header and payload, in the three parts that `Read` takes from a reader. `full` is `io.ReadFull` on
-- the reader's state.
module _ {S : Type 0} (full : ℕ → S → Result (Bytes × S)) where
  unfoldable pub read_payload_from : Bytes → S → Result (Frame × S)
  read_payload_from header s = do
    (payload, rest) ← full (be_u32 (drop 8 header) - header_size) s
    ok (record { kind = take 4 header; id = be_u32 (drop 4 header); payload = payload }, rest)

  unfoldable pub read_header_from : Bytes → S → Result (Frame × S)
  unfolding read_payload_from
  read_header_from header s =
      let length_field = be_u32 (drop 8 header) in
      if ltb length_field header_size || ltb max_frame_size length_field
      then err invalid_frame
      else read_payload_from header s

  unfoldable pub read_from : S → Result (Frame × S)
  unfolding read_header_from
  read_from s = do (header, rest) ← full header_size s; read_header_from header rest

-- From a stream of bytes.
pub read : Bytes → Result (Frame × Bytes)
unfolding read_from
read s = read_from read_full s

-- The packet that `Write` assembles. `uint32(len(packet))` wraps.
unfoldable pub packet_of : Frame → Bytes
packet_of f =
    f.kind ++ put_u32 f.id ++ put_u32 ((header_size + length f.payload) % 2 ^ 32) ++ f.payload

unfoldable pub write : Sink → Frame → Option (Sink × Option Error)
write w f =
    if not (length f.kind == 4)
    then some (w, some invalid_frame)
    else if ltb max_frame_size (length f.payload + header_size)
    then some (w, some invalid_frame)
    else write_all w (packet_of f)
