-- ===== src/Challenge.antt =====
-- bpserver/types.go and bpserver/helpers.go: the challenge of the server, and hexadecimal text.
use burnout_paradise_server.Common.{
  ℕ, ◌+◌, ◌-◌, ◌*◌, [], ◌∷◌, Option, none, some, Bytes, codes, if◌then◌else◌,
}
use burnout_paradise_server.Text.{between}

unfoldable pub hex_digit : ℕ → Option ℕ
hex_digit c =
    if between b'0' b'9' c
    then some (c - b'0')
    else if between b'a' b'f' c
    then some (c - b'a' + 10)
    else if between b'A' b'F' c
    then some (c - b'A' + 10)
    else none

unfoldable pub hex_byte : Option ℕ → Option ℕ → Option Bytes → Option Bytes
hex_byte (some high) (some low) (some rest) = some ((high * 16 + low) ∷ rest)
hex_byte (some high) (some low) none = none
hex_byte (some high) none rest = none
hex_byte none low rest = none

-- `hex.DecodeString`, without its error's text.
unfoldable pub decode_hex : Bytes → Option Bytes
unfolding hex_byte hex_digit
decode_hex [] = some []
decode_hex (c ∷ []) = none
decode_hex (c ∷ d ∷ s) = hex_byte (hex_digit c) (hex_digit d) (decode_hex s)

-- A text that is no hexadecimal is a panic when the program starts; the only call has this constant.
unfoldable pub must_decode : Option Bytes → Bytes
must_decode none = []
must_decode (some b) = b

unfoldable pub must_decode_hex : Bytes → Bytes
unfolding must_decode decode_hex
must_decode_hex value = must_decode (decode_hex value)

-- Two RC4 keys of 16 bytes, and what the ticket of a service connection has to hold.
unfoldable pub server_challenge : Bytes
unfolding must_decode_hex
server_challenge = must_decode_hex (
    codes
      "ba55778b9e10d44294388f79f770afe3cec0ddfffba532a61ff67726dc862f5104b224c1b76d7e1d649c57c7ae5071a1651b988d1baabfd3c3c77b4c0c08c998e6ccd21cea00f94b90bdd38cd08838fd5d4506e2")
