-- ===== src/Crypto/Rc4.antt =====
-- crypto/rc4: the key schedule and the key stream.
pub mod Stream
pub mod Table
use Prim.Native.Nat.{bit_xor}
use burnout_paradise_server.Common.{
  ℕ, zero, suc, ◌+◌, ◌-◌, ◌%◌, List, [], ◌∷◌, ◌≡◌, refl, ◌||◌, Option, none, some, Bytes, length,
  get_or, set, ltb, ◌==◌, if◌then◌else◌,
}

pub record Rc4 : Type 0 where
  pub table : List ℕ
  pub i : ℕ
  pub j : ℕ

swap : List ℕ → ℕ → ℕ → List ℕ
swap t i j = set (set t i (get_or t j 0)) j (get_or t i 0)

identity : ℕ → ℕ → List ℕ
identity zero i = []
identity (suc n) i = i ∷ identity n (i + 1)

-- `n` rounds of the key schedule from round `i`.
schedule : ℕ → ℕ → ℕ → Bytes → List ℕ → List ℕ
unfolding swap
schedule zero i j key t = t
schedule (suc n) i j key t =
    let j' = (j + get_or t i 0 + get_or key (i % length key) 0) % 256 in
    schedule n (i + 1) j' key (swap t i j')

-- The key schedule of a table of `n` entries.
unfoldable pub init_table : ℕ → Bytes → List ℕ
unfolding schedule identity
init_table n key = schedule n 0 0 key (identity n 0)

-- A key has between 1 and 256 bytes.
unfoldable pub new_cipher : Bytes → Option Rc4
new_cipher key =
    if length key == 0 || ltb 256 (length key)
    then none
    else some (record { table = init_table 256 key; i = 0; j = 0 })

unfoldable pub next_key : Rc4 → ℕ × Rc4
unfolding swap
next_key c =
    let i = (c.i + 1) % 256 in
    let x = get_or c.table i 0 in
    let j = (c.j + x) % 256 in
    let t = swap c.table i j in
    (get_or t ((x + get_or c.table j 0) % 256) 0, record { table = t; i = i; j = j })

-- `XORKeyStream`: the bytes that come out, and the cipher behind them.
unfoldable pub xor_key_stream : Rc4 → Bytes → Bytes × Rc4
unfolding next_key
xor_key_stream c [] = ([], c)
xor_key_stream c (b ∷ bs) =
    let (k, c') = next_key c in let (out, c'') = xor_key_stream c' bs in (bit_xor b k ∷ out, c'')
