-- ===== src/Io.antt =====
-- What the server uses of Go's package io: `ReadFull` on a stream of bytes, and writers that take
-- a packet in pieces.
pub mod Delivery
pub mod ReadFull
use burnout_paradise_server.Common.{
  ℕ, zero, suc, List, [], ◌∷◌, ◌++◌, Bool, true, false, Option, none, some, Bytes, ltb, ◌==◌,
  if◌then◌else◌, length, take, drop, min,
}

-- The errors that the wire layers and the setup return, without their texts.
pub data Error : Type 0 where
  eof unexpected_eof short_write write_failed : Error
  invalid_frame : Error
  unsupported_version oversized_record short_record bad_record_mac unexpected_record peer_alert :
      Error
  no_certificate malformed_message unsupported_suite no_random bad_premaster bad_finished : Error
  file_error no_private_key no_rsa_key no_generated_key not_created no_leaf_certificate
        key_mismatch :
      Error
  oversized_key : ℕ → Error

pub data Result {ℓ} (A : Type ℓ) : Type ℓ where
  err : Error → Result A
  ok : A → Result A

-- What a call of `Write` answers: how many bytes it took, or an error.
pub data Reply : Type 0 where
  accepts : ℕ → Reply
  fails : Reply

-- A failure ends the chain.
infixl 5 ◌>>=◌
abbrev pub ◌>>=◌ {ℓ κ} : {A : Type ℓ} {B : Type κ} → Result A → (A → Result B) → Result B
err failure >>= next = err failure
ok value >>= next = next value

-- `io.ReadFull` of `n` bytes: the bytes and what is left of the stream. A stream that ends early is
-- an error, and every caller drops the stream then.
unfoldable pub read_full : ℕ → Bytes → Result (Bytes × Bytes)
read_full zero s = ok ([], s)
read_full (suc n) [] = err eof
read_full (suc n) (x ∷ s) =
    if ltb (length (x ∷ s)) (suc n)
    then err unexpected_eof
    else ok (take (suc n) (x ∷ s), drop (suc n) (x ∷ s))

-- A writer: the bytes that it has taken, and its answers to the calls to come. When the answers run
-- out it takes every packet whole. It never claims more bytes than it was given.
pub record Sink : Type 0 where
  pub sent : Bytes
  pub replies : List Reply

pub record Written : Type 0 where
  pub sink : Sink
  pub count : ℕ
  pub failed : Bool

sink_reply : Sink → Bytes → List Reply → Written
sink_reply w packet [] = record {
  sink = record { sent = w.sent ++ packet; replies = [] };
  count = length packet;
  failed = false;
}
sink_reply w packet (accepts n ∷ rest) =
    let k = min n (length packet) in
    record {
      sink = record { sent = w.sent ++ take k packet; replies = rest };
      count = k;
      failed = false;
    }
sink_reply w packet (fails ∷ rest) = record {
  sink = record w { replies = rest };
  count = 0;
  failed = true;
}

pub sink_write : Sink → Bytes → Written
unfolding sink_reply
sink_write w packet = sink_reply w packet w.replies

-- One round of the write loop: what `Write` answered, and the rest of the loop.
write_round : Written → Option (Sink × Option Error) → Option (Sink × Option Error)
write_round r rest =
    if r.failed
    then some (r.sink, some write_failed)
    else if r.count == 0
    then some (r.sink, some short_write)
    else rest

-- `for len(data) != 0 { … }` on fuel. The result is `none` if the fuel runs out, and otherwise the
-- writer with the error that was returned.
write_loop : ℕ → Sink → Bytes → Option (Sink × Option Error)
write_loop fuel w [] = some (w, none)
write_loop zero w (x ∷ data') = none
write_loop (suc fuel) w (x ∷ data') =
    let r = sink_write w (x ∷ data') in
    let rest = write_loop fuel r.sink (drop r.count (x ∷ data')) in write_round r rest

-- A round that goes on takes a byte at least, so the length of the data is enough fuel.
unfoldable pub write_all : Sink → Bytes → Option (Sink × Option Error)
unfolding write_loop write_round sink_write
write_all w packet = write_loop (length packet) w packet
