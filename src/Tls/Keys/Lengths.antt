-- ===== src/Tls/Keys/Lengths.antt =====
-- legacytls/conn.go: the derivations end, with as many bytes as were asked for.

use burnout_paradise_server.Common.{
  ℕ, zero, suc, ◌+◌, ◌≤◌, ◌<◌, ◌≡◌, refl, ap, ◌∙◌, [], ◌∷◌, ◌++◌, Bool, true, false, Bytes, codes,
  ltb, ◌==◌, if◌then◌else◌, length, arith, length-append, length-take, if_cases, if_both,
}
use burnout_paradise_server.Tls.{Hash, Hashes, tls10}
use burnout_paradise_server.Tls.Keys.{
  p_loop, p_hash, xor_bytes, ssl3_loop, prf, ssl3_generate, master_secret, expand_keys,
  finished_verify, handshake_hash, ssl3_finished_hash, finished_length,
}

-- Enough rounds: each round that is run adds a byte at least.
p_loop-length :
    (h : Hash) (secret seed : Bytes) (n fuel : ℕ) (a out : Bytes)
    → 0 < h.size
    → n ≤ length out + fuel
    → n ≤ length (p_loop h secret seed n fuel a out)
unfolding p_loop
p_loop-length h secret seed n zero a out pos k = omega (arith, k)
p_loop-length h secret seed n (suc fuel) a out pos k =
    if_cases (λ (r : Bytes). n ≤ length r) (ltb (length out) n) _ _
      (λ less.
        p_loop-length h secret seed n fuel (h.hmac secret a)
          (out ++ h.hmac secret (h.hmac secret a ++ seed)) pos
          (omega (
            arith,
            k,
            pos,
            length-append out (h.hmac secret (h.hmac secret a ++ seed)),
            h.length-hmac secret (h.hmac secret a ++ seed),
          )))
      (λ enough. ground (arith, enough))

pub length-p_hash :
    (h : Hash) (secret seed : Bytes) (n : ℕ) → 0 < h.size → length (p_hash h secret seed n) ≡ n
unfolding p_hash
length-p_hash h secret seed n pos = omega (
  arith,
  length-take n (p_loop h secret seed n n seed []),
  p_loop-length h secret seed n n seed [] pos (omega arith),
)

length-xor_bytes : (xs ys : Bytes) → length (xor_bytes xs ys) ≡ length xs
unfolding xor_bytes
length-xor_bytes [] ys = refl
length-xor_bytes (x ∷ xs) [] = refl
length-xor_bytes (x ∷ xs) (y ∷ ys) = ap suc (length-xor_bytes xs ys)

if_split :
    (b : Bool) (x y : Bytes) (m n : ℕ)
    → length x ≡ m
    → length y ≡ n
    → length (if b then x else y) ≡ (if b then m else n)
if_split true x y m n ex ey = ex
if_split false x y m n ex ey = ey

module _ (h : Hashes) where
  ssl3_loop-length :
      (secret randoms : Bytes) (n fuel i : ℕ) (out : Bytes)
      → n ≤ length out + fuel
      → n ≤ length (ssl3_loop h secret randoms n fuel i out)
  unfolding ssl3_loop
  ssl3_loop-length secret randoms n zero i out k = omega (arith, k)
  ssl3_loop-length secret randoms n (suc fuel) i out k =
      if_cases (λ (r : Bytes). n ≤ length r) (ltb (length out) n) _ _
        (λ less.
          ssl3_loop-length secret randoms n fuel (i + 1) _
            (omega (arith, k, h.md5_size, length-append out (h.md5.sum _), h.md5.length-sum _)))
        (λ enough. ground (arith, enough))

  length-ssl3_generate :
      (secret randoms : Bytes) (n : ℕ) → length (ssl3_generate h secret randoms n) ≡ n
  unfolding ssl3_generate
  length-ssl3_generate secret randoms n = omega (
    arith,
    length-take n (ssl3_loop h secret randoms n n 1 []),
    ssl3_loop-length secret randoms n n 1 [] (omega arith),
  )

  length-prf : (secret label seed : Bytes) (n : ℕ) → length (prf h secret label seed n) ≡ n
  unfolding prf
  length-prf secret label seed n =
      length-xor_bytes _ _ ∙ length-p_hash h.md5 _ _ n (omega (arith, h.md5_size))

  pub length-master_secret :
      (version : ℕ) (premaster client_random server_random : Bytes)
      → length (master_secret h version premaster client_random server_random) ≡ 48
  unfolding master_secret
  length-master_secret version premaster client_random server_random =
      if_both (λ (r : Bytes). length r ≡ 48) (version == tls10) _ _
        (length-prf premaster (codes "master secret") (client_random ++ server_random) 48)
        (length-ssl3_generate premaster (client_random ++ server_random) 48)

  pub length-expand_keys :
      (version : ℕ) (master client_random server_random : Bytes) (n : ℕ)
      → length (expand_keys h version master client_random server_random n) ≡ n
  unfolding expand_keys
  length-expand_keys version master client_random server_random n =
      if_both (λ (r : Bytes). length r ≡ n) (version == tls10) _ _
        (length-prf master (codes "key expansion") (server_random ++ client_random) n)
        (length-ssl3_generate master (server_random ++ client_random) n)

  pub length-finished_verify :
      (version : ℕ) (master transcript : Bytes) (client : Bool)
      → length (finished_verify h version master transcript client) ≡ finished_length version
  unfolding finished_verify handshake_hash ssl3_finished_hash
  length-finished_verify version master transcript client =
      if_split (version == tls10) _ _ 12 36
        (length-prf master (if client then codes "client finished" else codes "server finished") _
          12)
        (length-append (h.md5.sum _) (h.sha1.sum _)
          ∙ omega (arith, h.md5.length-sum _, h.sha1.length-sum _, h.md5_size, h.sha1_size))
