-- ===== src/Crypto/Rc4/Table.antt =====
-- The key stream is a stream of bytes.
use burnout_paradise_server.Common.{
  ℕ, zero, suc, ◌+◌, ◌%◌, ◌≤◌, List, [], ◌∷◌, ◌≡◌, arith, Bytes, AreBytes, IsByte, length, get_or,
  set, some, subst, Bool-cases, inl, inr, ltb, ◌==◌, ◌||◌,
}
use burnout_paradise_server.Crypto.Bits.{bit_xor-lt}
use burnout_paradise_server.Crypto.Rc4.{
  Rc4, swap, identity, init_table, schedule, new_cipher, next_key, xor_key_stream,
}
use burnout_paradise_server.Crypto.Rc4.Stream.{crypt, after}

abbrev pub IsCipher : Rc4 → Type 0
IsCipher c = AreBytes c.table

get_or-IsByte : (t : List ℕ) (i : ℕ) → AreBytes t → IsByte (get_or t i 0)
get_or-IsByte [] i h = omega arith
get_or-IsByte (x ∷ t) zero h = h.0
get_or-IsByte (x ∷ t) (suc i) h = get_or-IsByte t i h.1

set-AreBytes : (t : List ℕ) (i v : ℕ) → IsByte v → AreBytes t → AreBytes (set t i v)
set-AreBytes [] i v hv h = tt
set-AreBytes (x ∷ t) zero v hv h = (hv, h.1)
set-AreBytes (x ∷ t) (suc i) v hv h = (h.0, set-AreBytes t i v hv h.1)

swap-AreBytes : (t : List ℕ) (i j : ℕ) → AreBytes t → AreBytes (swap t i j)
unfolding swap
swap-AreBytes t i j h =
    set-AreBytes _ j _ (get_or-IsByte t i h) (set-AreBytes t i _ (get_or-IsByte t j h) h)

identity-AreBytes : (n i : ℕ) → n + i ≤ 256 → AreBytes (identity n i)
unfolding identity
identity-AreBytes zero i h = tt
identity-AreBytes (suc n) i h = (omega arith, identity-AreBytes n (i + 1) (omega arith))

schedule-AreBytes :
    (n i j : ℕ) (key : Bytes) (t : List ℕ) → AreBytes t → AreBytes (schedule n i j key t)
unfolding schedule
schedule-AreBytes zero i j key t h = h
schedule-AreBytes (suc n) i j key t h = schedule-AreBytes n (i + 1) _ key _ (swap-AreBytes t i _ h)

init_table-AreBytes : (n : ℕ) (key : Bytes) → n ≤ 256 → AreBytes (init_table n key)
unfolding init_table
init_table-AreBytes n key h =
    schedule-AreBytes n 0 0 key (identity n 0) (identity-AreBytes n 0 (omega arith))

pub new_cipher-IsCipher : (key : Bytes) {c : Rc4} → new_cipher key ≡ some c → IsCipher c
unfolding new_cipher
new_cipher-IsCipher key {c} h = elim (Bool-cases (length key == 0 || ltb 256 (length key))) [
  | inl bad ↦ cc
  | inr good ↦
      let e : record { table = init_table 256 key; i = 0; j = 0 } ≡ c = ground arith in
      subst IsCipher e (init_table-AreBytes 256 key (omega arith))
]

next_key-IsCipher : (c : Rc4) → IsCipher c → IsByte (next_key c).0 × IsCipher (next_key c).1
unfolding next_key
next_key-IsCipher c h =
    let t =
      swap-AreBytes c.table ((c.i + 1) % 256) ((c.j + get_or c.table ((c.i + 1) % 256) 0) % 256)
        h in
    (get_or-IsByte _ _ t, t)

pub crypt-AreBytes : (c : Rc4) (xs : Bytes) → IsCipher c → AreBytes xs → AreBytes (crypt c xs)
unfolding xor_key_stream
crypt-AreBytes c [] h k = tt
crypt-AreBytes c (x ∷ xs) h k =
    let (key, c') = next_key-IsCipher c h in
    (bit_xor-lt 8 x (next_key c).0 k.0 key, crypt-AreBytes (next_key c).1 xs c' k.1)

pub after-IsCipher : (c : Rc4) (xs : Bytes) → IsCipher c → IsCipher (after c xs)
unfolding xor_key_stream
after-IsCipher c [] h = h
after-IsCipher c (x ∷ xs) h = after-IsCipher (next_key c).1 xs (next_key-IsCipher c h).1
