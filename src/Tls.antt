-- ===== src/Tls.antt =====
-- legacytls/conn.go and types.go: the records of a connection. `n >> 8` is `n / 256`, and `byte` wraps.
pub mod Records
pub mod Keys
pub mod Handshake
pub mod Stream
pub mod Messages
pub mod Client
pub mod Connection
pub mod Frames
use burnout_paradise_server.Common.{
  ℕ, ◌+◌, ◌-◌, ◌*◌, ◌/◌, ◌%◌, ◌^◌, ◌≡◌, List, [], ◌∷◌, ◌++◌, Bool, true, false, not, ◌&&◌, ◌||◌,
  Option, none, some, Bytes, bytes_eq, ltb, ◌==◌, if◌then◌else◌, length, take, drop, replicate,
  get_or,
}
use burnout_paradise_server.Io.{
  Error, Result, ok, err, ◌>>=◌, read_full, Sink, write_all, unsupported_version, oversized_record,
  short_record, bad_record_mac,
}
use burnout_paradise_server.Crypto.Rc4.{Rc4, xor_key_stream}
use burnout_paradise_server.Easo.Frame.{put_u32}

abbrev pub record_change_cipher_spec : ℕ
record_change_cipher_spec = 20

abbrev pub record_alert : ℕ
record_alert = 21

abbrev pub record_handshake : ℕ
record_handshake = 22

abbrev pub record_application_data : ℕ
record_application_data = 23

-- 0x0300 and 0x0301.
abbrev pub ssl30 : ℕ
ssl30 = 768

abbrev pub tls10 : ℕ
tls10 = 769

abbrev pub suite_rc4_md5 : ℕ
suite_rc4_md5 = 4

abbrev pub suite_rc4_sha : ℕ
suite_rc4_sha = 5

-- A hash function of Go's crypto packages, with its HMAC: `hmac key data`.
pub record Hash : Type 0 where
  pub size : ℕ
  pub sum : Bytes → Bytes
  pub hmac : Bytes → Bytes → Bytes
  pub length-sum : (b : Bytes) → length (sum b) ≡ size
  pub length-hmac : (key b : Bytes) → length (hmac key b) ≡ size

-- MD5 and SHA-1, with the lengths of their digests.
pub record Hashes : Type 0 where
  pub md5 : Hash
  pub sha1 : Hash
  pub md5_size : md5.size ≡ 16
  pub sha1_size : sha1.size ≡ 20

-- The state of one direction once it is active; `seq` is a uint64.
pub record CipherState : Type 0 where
  pub stream : Rc4
  pub mac_key : Bytes
  pub hash : Hash
  pub seq : ℕ
  pub version : ℕ

-- A connection. A direction that is not active has no cipher; the stream itself and the writer are arguments
-- of the operations.
pub record Conn : Type 0 where
  pub incoming : Option CipherState
  pub outgoing : Option CipherState
  pub read_buf : Bytes
  pub first_record : Bool
  pub version : ℕ

abbrev pub server : Conn
server = record {
  incoming = none;
  outgoing = none;
  read_buf = [];
  first_record = true;
  version = tls10;
}

abbrev pub put_u16 : ℕ → Bytes
put_u16 n = n / 256 % 256 ∷ n % 256 ∷ []

-- The big-endian number in the two bytes at an offset.
abbrev pub u16_at : Bytes → ℕ → ℕ
u16_at b i = get_or b i 0 * 256 + get_or b (i + 1) 0

abbrev pub put_u64 : ℕ → Bytes
put_u64 n = put_u32 (n / 2 ^ 32 % 2 ^ 32) ++ put_u32 (n % 2 ^ 32)

-- Two nested digests for SSL 3.0, and an HMAC for TLS 1.0.
unfoldable pub record_mac : CipherState → ℕ → Bytes → Bytes
record_mac k kind plain =
    if k.version == ssl30
    then (let pad = if k.hash.size == 16 then 48 else 40 in
        k.hash.sum (
          k.mac_key
          ++ replicate pad 0x5c
          ++ k.hash.sum (
              k.mac_key
              ++ replicate pad 0x36
              ++ put_u64 k.seq
              ++ kind ∷ put_u16 (length plain)
              ++ plain)))
    else k.hash.hmac k.mac_key (put_u64 k.seq ++ kind ∷ 3 ∷ 1 ∷ put_u16 (length plain) ++ plain)

-- The state behind a record.
abbrev pub next_state : CipherState → Rc4 → CipherState
next_state k stream = record k { stream = stream; seq = (k.seq + 1) % 2 ^ 64 }

-- The part of `readRecord` behind the decryption.
unfoldable pub check_record : CipherState → Rc4 → ℕ → Bytes → Result (Bytes × CipherState)
check_record k stream kind b =
    let plain = take (length b - k.hash.size) b in
    if ltb (length b) k.hash.size
    then err short_record
    else if not (bytes_eq (drop (length b - k.hash.size) b) (record_mac k kind plain))
    then err bad_record_mac
    else ok (plain, next_state k stream)

unfoldable pub open_cipher : CipherState → ℕ → Bytes → Result (Bytes × CipherState)
unfolding check_record
open_cipher k kind b =
    let (plain, stream) = xor_key_stream k.stream b in check_record k stream kind plain

-- What a record holds, and the connection behind it.
unfoldable pub open_record : Conn → ℕ → Bytes → Result (Bytes × Conn)
unfolding open_cipher
open_record c kind b = elim c.incoming [
  | none ↦ ok (b, c)
  | some k ↦ open_cipher k kind b >>= λ (plain, k'). ok (plain, record c { incoming = some k' })
]

-- The old clients use an SSL 3.0 header on their first record.
unfoldable pub accepts_version : Conn → ℕ → ℕ → Bool
accepts_version c kind version =
    (version == c.version) || (c.first_record && (version == ssl30) && (kind == record_handshake))

-- The part of `readRecord` behind the header.
unfoldable pub read_body : Conn → Bytes → Bytes → Result (ℕ × Bytes × Conn × Bytes)
unfolding accepts_version open_record
read_body c h s =
    if not (accepts_version c (get_or h 0 0) (u16_at h 1))
    then err unsupported_version
    else if ltb 18432 (u16_at h 3)
    then err oversized_record
    else read_full (u16_at h 3) s >>= λ (b, s').
        open_record (record c { first_record = false }) (get_or h 0 0) b >>= λ (plain, c').
        ok (get_or h 0 0, plain, c', s')

-- The type and the content of the next record, the connection behind it and the rest of the stream. Every
-- caller drops the stream after an error.
unfoldable pub read_record : Conn → Bytes → Result (ℕ × Bytes × Conn × Bytes)
unfolding read_body
read_record c s = read_full 5 s >>= λ (h, s'). read_body c h s'

unfoldable pub raw_record : ℕ → ℕ → Bytes → Bytes
raw_record version kind body = kind ∷ put_u16 version ++ put_u16 (length body) ++ body

-- The loop is the one of the frames.
unfoldable pub write_raw_record : Conn → Sink → ℕ → Bytes → Option (Sink × Option Error)
unfolding raw_record
write_raw_record c w kind body = write_all w (raw_record c.version kind body)

-- The content of a record as it goes out, and the connection behind it.
unfoldable pub seal : Conn → ℕ → Bytes → Bytes × Conn
seal c kind plain = elim c.outgoing [
  | none ↦ (plain, c)
  | some k ↦
      let (sealed, stream) = xor_key_stream k.stream (plain ++ record_mac k kind plain) in
      (sealed, record c { outgoing = some (next_state k stream) })
]

unfoldable pub write_record : Conn → Sink → ℕ → Bytes → Conn × Option (Sink × Option Error)
unfolding seal write_raw_record
write_record c w kind plain =
    let (body, c') = seal c kind plain in (c', write_raw_record c' w kind body)
