-- ===== src/Tls/Keys.antt =====
-- legacytls/conn.go: the derivation of the secrets and of the Finished values.
pub mod Lengths
use Prim.Native.Nat.{bit_xor}
use burnout_paradise_server.Common.{
  ℕ, zero, suc, ◌+◌, ◌-◌, ◌/◌, ◌%◌, [], ◌∷◌, ◌++◌, Bool, Bytes, codes, ltb, ◌==◌, if◌then◌else◌,
  length, take, drop, replicate,
}
use burnout_paradise_server.Tls.{Hash, Hashes, tls10}

-- The loop of `pHash`, on fuel: `a` is the last link of the chain.
unfoldable pub p_loop : Hash → Bytes → Bytes → ℕ → ℕ → Bytes → Bytes → Bytes
p_loop h secret seed n zero a out = out
p_loop h secret seed n (suc fuel) a out =
    let rest =
      p_loop h secret seed n fuel (h.hmac secret a)
        (out ++ h.hmac secret (h.hmac secret a ++ seed)) in
    if ltb (length out) n then rest else out

-- A round adds a byte at least, so `n` rounds are enough.
unfoldable pub p_hash : Hash → Bytes → Bytes → ℕ → Bytes
unfolding p_loop
p_hash h secret seed n = take n (p_loop h secret seed n n seed [])

-- `a[i] ^= b[i]` over the first list; the second is never shorter.
unfoldable pub xor_bytes : Bytes → Bytes → Bytes
xor_bytes [] ys = []
xor_bytes (x ∷ xs) [] = x ∷ xs
xor_bytes (x ∷ xs) (y ∷ ys) = bit_xor x y ∷ xor_bytes xs ys

-- The loop of `ssl3Generate`, on fuel; `byte('A' + i - 1)` is the letter of round `i`.
unfoldable pub ssl3_loop : Hashes → Bytes → Bytes → ℕ → ℕ → ℕ → Bytes → Bytes
ssl3_loop h secret randoms n zero i out = out
ssl3_loop h secret randoms n (suc fuel) i out =
    let rest = ssl3_loop h secret randoms n fuel (i + 1) (
      out
      ++ h.md5.sum
          (secret ++ h.sha1.sum (replicate i ((b'A' + i - 1) % 256) ++ secret ++ randoms))) in
    if ltb (length out) n then rest else out

abbrev pub finished_length : ℕ → ℕ
finished_length version = if version == tls10 then 12 else 36

module _ (h : Hashes) where
  unfoldable pub prf : Bytes → Bytes → Bytes → ℕ → Bytes
  unfolding p_hash xor_bytes
  prf secret label seed n =
      let half = (length secret + 1) / 2 in
      xor_bytes (p_hash h.md5 (take half secret) (label ++ seed) n)
        (p_hash h.sha1 (drop (length secret - half) secret) (label ++ seed) n)

  unfoldable pub ssl3_generate : Bytes → Bytes → ℕ → Bytes
  unfolding ssl3_loop
  ssl3_generate secret randoms n = take n (ssl3_loop h secret randoms n n 1 [])

  unfoldable pub master_secret : ℕ → Bytes → Bytes → Bytes → Bytes
  unfolding prf ssl3_generate
  master_secret version premaster client_random server_random =
      if version == tls10
      then prf premaster (codes "master secret") (client_random ++ server_random) 48
      else ssl3_generate premaster (client_random ++ server_random) 48

  unfoldable pub expand_keys : ℕ → Bytes → Bytes → Bytes → ℕ → Bytes
  unfolding prf ssl3_generate
  expand_keys version master client_random server_random n =
      if version == tls10
      then prf master (codes "key expansion") (server_random ++ client_random) n
      else ssl3_generate master (server_random ++ client_random) n

  unfoldable pub handshake_hash : Bytes → Bytes
  handshake_hash b = h.md5.sum b ++ h.sha1.sum b

  ssl3_finished_hash : Hash → ℕ → Bytes → Bytes → Bytes → Bytes
  ssl3_finished_hash hash pad master transcript sender = hash.sum (
      master
      ++ replicate pad 0x5c
      ++ hash.sum (transcript ++ sender ++ master ++ replicate pad 0x36))

  unfoldable pub finished_verify : ℕ → Bytes → Bytes → Bool → Bytes
  unfolding prf handshake_hash ssl3_finished_hash
  finished_verify version master transcript client =
      if version == tls10
      then prf master (if client then codes "client finished" else codes "server finished")
          (handshake_hash transcript) 12
      else (let sender = if client then codes "CLNT" else codes "SRVR" in
          ssl3_finished_hash h.md5 48 master transcript sender
          ++ ssl3_finished_hash h.sha1 40 master transcript sender)
