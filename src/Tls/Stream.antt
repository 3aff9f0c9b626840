-- ===== src/Tls/Stream.antt =====
-- legacytls/conn.go: `Read` and `Write` behind the handshake, as a stream of bytes.
pub mod Chunk
pub mod Flow
pub mod Full
pub mod Sending
use burnout_paradise_server.Common.{
  ℕ, zero, suc, ◌+◌, [], ◌∷◌, ◌++◌, not, ◌&&◌, Option, none, some, Bytes, ltb, ◌==◌, if◌then◌else◌,
  length, take, drop, get_or,
}
use burnout_paradise_server.Io.{
  Error, Result, ok, err, ◌>>=◌, Sink, eof, unexpected_record, unexpected_eof, peer_alert,
}
use burnout_paradise_server.Tls.{
  Conn, record_application_data, record_alert, read_record, write_record,
}

abbrev pub max_chunk : ℕ
max_chunk = 16384

-- What a write leaves behind, with the number of bytes that it reports.
pub record Progress : Type 0 where
  pub conn : Conn
  pub sink : Sink
  pub written : ℕ
  pub error : Option Error

-- A round of the loop, and the rest of it.
after_chunk :
    Conn × Option (Sink × Option Error) → ℕ → (Conn → Sink → Option Progress) → Option Progress
after_chunk (c, none) written next = none
after_chunk (c, some (w, some failure)) written next =
    some (record { conn = c; sink = w; written = written; error = some failure })
after_chunk (c, some (w, none)) written next = next c w

-- The loop of `Write`, on fuel: `none` if it runs out.
write_chunks : ℕ → Conn → Sink → Bytes → ℕ → Option Progress
unfolding after_chunk
write_chunks fuel c w [] written =
    some (record { conn = c; sink = w; written = written; error = none })
write_chunks zero c w (x ∷ p) written = none
write_chunks (suc fuel) c w (x ∷ p) written =
    after_chunk (write_record c w record_application_data (take max_chunk (x ∷ p))) written λ c' w'.
      write_chunks fuel c' w' (drop max_chunk (x ∷ p)) (written + length (take max_chunk (x ∷ p)))

pub write : Conn → Sink → Bytes → Option Progress
unfolding write_chunks
write c w p = write_chunks (length p) c w p 0

-- What `Read` does with a record: more data, or the error that ends the stream.
take_record : Conn → ℕ → Bytes → Result Conn
take_record c kind plain =
    if kind == record_application_data
    then ok (record c { read_buf = plain })
    else if kind == record_alert
    then (if not (ltb (length plain) 2) && (get_or plain 1 0 == 0) then err eof else err peer_alert)
    else err unexpected_record

-- The loop of `Read`, on fuel: records until there is something to return, which is then at most `size`
-- bytes.
pub read_loop : ℕ → ℕ → Conn → Bytes → Result (Bytes × Conn × Bytes)
unfolding take_record
read_loop zero size c s = err unexpected_eof
read_loop (suc fuel) size c s =
    if length c.read_buf == 0
    then (read_record c s >>= λ (kind, plain, c1, s1).
        take_record c1 kind plain >>= λ c2. read_loop fuel size c2 s1)
    else ok (take size c.read_buf, record c { read_buf = drop size c.read_buf }, s)

-- A record takes five bytes of the stream at least, so the rounds are fewer than its bytes, but for two.
pub read : ℕ → Conn → Bytes → Result (Bytes × Conn × Bytes)
unfolding read_loop
read size c s = read_loop (suc (suc (length s))) size c s

-- Some calls of `Read`, one after the other.
pub read_times : ℕ → ℕ → Conn → Bytes → Result (Bytes × Conn × Bytes)
unfolding read
read_times size zero c s = ok ([], c, s)
read_times size (suc count) c s = read size c s >>= λ (x, c1, s1).
    read_times size count c1 s1 >>= λ (y, c2, s2). ok (x ++ y, c2, s2)
