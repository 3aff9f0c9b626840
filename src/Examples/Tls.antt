-- ===== src/Examples/Tls.antt =====
-- A legacy TLS connection at concrete inputs.
use burnout_paradise_server.Common.{
  ℕ, ◌≤◌, ◌↔◌, ◌≡◌, refl, [], ◌∷◌, ◌++◌, All, true, some, arith, Bytes, codes, length,
  length-replicate, replicate,
}
use burnout_paradise_server.Io.{ok, Sink, accepts}
use burnout_paradise_server.Crypto.Rc4.{xor_key_stream}
use burnout_paradise_server.Tls.{
  Hash, Hashes, CipherState, Conn, server, tls10, seal, raw_record, read_record, record_mac,
}
use burnout_paradise_server.Tls.Records.{InStep, behind, read_record-seal}
use burnout_paradise_server.Tls.Messages.{split_handshake}
use burnout_paradise_server.Tls.Messages.Split.{IsMessage, flatten, split_handshake_lem}
use burnout_paradise_server.Tls.Stream.{write}
use burnout_paradise_server.Tls.Handshake.{Environment}
use burnout_paradise_server.Tls.Stream.Flow.{Flows, write-Flows}

-- Digests of zeros, of the right lengths.
abbrev pub zero_hash : ℕ → Hash
zero_hash n = record {
  size = n;
  sum = λ b. replicate n 0;
  hmac = λ key b. replicate n 0;
  length-sum = λ b. length-replicate n 0;
  length-hmac = λ key b. length-replicate n 0;
}

abbrev pub zero_hashes : Hashes
zero_hashes = record { md5 = zero_hash 16; sha1 = zero_hash 20; md5_size = refl; sha1_size = refl }

abbrev state : CipherState
state = record {
  stream = record { table = 7 ∷ 5 ∷ []; i = 0; j = 0 };
  mac_key = [];
  hash = zero_hash 16;
  seq = 0;
  version = tls10;
}

abbrev sender : Conn
sender = record server { outgoing = some state }

abbrev receiver : Conn
receiver = record server { incoming = some state }

in_step : InStep sender receiver
in_step = record { same_version = refl; same_state = refl }

abbrev slow : Sink
slow = record { sent = []; replies = accepts 3 ∷ [] }

write-Flows_example : Flows receiver slow (codes "hello") 0 (write sender slow (codes "hello"))
write-Flows_example =
    write-Flows sender receiver slow (codes "hello") in_step refl (omega arith) (omega arith)

short_enough : length (seal sender 23 (codes "hi")).0 ≤ 18432
unfolding seal record_mac xor_key_stream
short_enough = omega arith

read_record-seal_example :
    (read_record receiver (raw_record tls10 23 (seal sender 23 (codes "hi")).0 ++ 1 ∷ [])
      ≡ ok (23, codes "hi", behind (seal sender 23 (codes "hi")).1 receiver, 1 ∷ []))
    × InStep (seal sender 23 (codes "hi")).1 (behind (seal sender 23 (codes "hi")).1 receiver)
read_record-seal_example =
    read_record-seal sender receiver 23 (codes "hi") (1 ∷ []) in_step (omega arith) short_enough

abbrev done_message : Bytes
done_message = 14 ∷ 0 ∷ 0 ∷ 0 ∷ []

split_handshake_lem_example :
    (split_handshake (done_message ++ 2 ∷ 0 ∷ 0 ∷ 1 ∷ 9 ∷ [])
      ≡ ok (done_message ∷ (2 ∷ 0 ∷ 0 ∷ 1 ∷ 9 ∷ []) ∷ []))
    ↔ (All IsMessage (done_message ∷ (2 ∷ 0 ∷ 0 ∷ 1 ∷ 9 ∷ []) ∷ [])
        × (flatten (done_message ∷ (2 ∷ 0 ∷ 0 ∷ 1 ∷ 9 ∷ []) ∷ [])
            ≡ done_message ++ 2 ∷ 0 ∷ 0 ∷ 1 ∷ 9 ∷ []))
split_handshake_lem_example =
    split_handshake_lem (done_message ++ 2 ∷ 0 ∷ 0 ∷ 1 ∷ 9 ∷ [])
      (done_message ∷ (2 ∷ 0 ∷ 0 ∷ 1 ∷ 9 ∷ []) ∷ [])

-- A client that offers RC4 with MD5, and whose secrets are zeros.
abbrev pub environment : Environment
environment = record {
  has_key = true;
  certificates = (1 ∷ []) ∷ [];
  decrypt = λ b. some (replicate 48 0);
  now = 0;
  random = some (replicate 28 0);
}
