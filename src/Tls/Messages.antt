-- ===== src/Tls/Messages.antt =====
-- legacytls/conn.go: the handshake messages in a record.
pub mod Split
use burnout_paradise_server.Common.{
  ℕ, zero, suc, ◌+◌, ◌*◌, ◌/◌, ◌%◌, List, [], ◌∷◌, ◌++◌, Bytes, ltb, if◌then◌else◌, length, take,
  drop, get_or,
}
use burnout_paradise_server.Io.{Result, ok, err, ◌>>=◌, unexpected_eof}

unfoldable pub put_uint24 : ℕ → Bytes
put_uint24 n = n / 65536 % 256 ∷ n / 256 % 256 ∷ n % 256 ∷ []

unfoldable pub handshake_message : ℕ → Bytes → Bytes
unfolding put_uint24
handshake_message kind body = kind ∷ put_uint24 (length body) ++ body

-- The length field of a message.
abbrev pub body_length : Bytes → ℕ
body_length b = get_or b 1 0 * 65536 + get_or b 2 0 * 256 + get_or b 3 0

-- The loop, on fuel.
unfoldable pub split_loop : ℕ → Bytes → Result (List Bytes)
split_loop fuel [] = ok []
split_loop zero (x ∷ b) = err unexpected_eof
split_loop (suc fuel) (x ∷ b) =
    let n = body_length (x ∷ b) + 4 in
    let rest = split_loop fuel (drop (body_length (x ∷ b) + 4) (x ∷ b)) in
    if ltb (length (x ∷ b)) 4
    then err unexpected_eof
    else if ltb (length (x ∷ b)) n
    then err unexpected_eof
    else rest >>= λ ms. ok (take n (x ∷ b) ∷ ms)

-- A message has four bytes at least, so the length of the data is enough fuel.
unfoldable pub split_handshake : Bytes → Result (List Bytes)
unfolding split_loop
split_handshake b = split_loop (length b) b
