-- ===== src/Io/ReadFull.antt =====
-- `read_full` against the stream's length.
use burnout_paradise_server.Common.{
  ℕ, zero, suc, ◌<◌, ◌≡◌, refl, ap, ◌⊎◌, [], ◌∷◌, ◌++◌, arith, Bytes, length, length-append,
  take-append, drop-append, take-append-drop, length-take, inl, inr,
}
use burnout_paradise_server.Io.{Result, ok, err, ◌>>=◌, eof, unexpected_eof, read_full}

-- Inversion of a successful bind.
pub >>=-eq-ok {ℓ κ} :
    {A : Type ℓ} {B : Type κ} (first : Result A) (next : A → Result B) {b : B}
    → (first >>= next) ≡ ok b
    → (value : A) × (first ≡ ok value) × (next value ≡ ok b)
>>=-eq-ok (err failure) next h = cc
>>=-eq-ok (ok value) next h = (value, refl, h)

-- A successful first step.
pub >>=-ok {ℓ κ} :
    {A : Type ℓ} {B : Type κ} {first : Result A} {value : A} (next : A → Result B)
    → first ≡ ok value
    → (first >>= next) ≡ next value
>>=-ok next h = ap (λ r. r >>= next) h

pub ok_eq {ℓ} : {A : Type ℓ} {a b : A} → ok a ≡ ok b → a ≡ b
ok_eq h = cc

pub read_full-append :
    (n : ℕ) (xs rest : Bytes) → length xs ≡ n → read_full n (xs ++ rest) ≡ ok (xs, rest)
unfolding read_full
read_full-append zero [] rest h = refl
read_full-append zero (x ∷ xs) rest h = absurd (omega arith)
read_full-append (suc n) [] rest h = absurd (omega arith)
read_full-append (suc n) (x ∷ xs) rest h = ground (
  arith,
  length-append xs rest,
  take-append n xs rest (omega arith),
  drop-append n xs rest (omega arith),
)

-- What was read and what is left make up the stream.
pub read_full_sound :
    (n : ℕ) (s : Bytes) {xs rest : Bytes}
    → read_full n s ≡ ok (xs, rest)
    → (s ≡ xs ++ rest) × (length xs ≡ n)
unfolding read_full
read_full_sound zero s h = ground arith
read_full_sound (suc n) [] h = cc
read_full_sound (suc n) (x ∷ s) h = ground (arith, take-append-drop n s, length-take n s)

-- A stream that is too short is an error, `eof` if nothing is left of it.
pub read_full_short :
    (n : ℕ) (s : Bytes)
    → length s < n
    → ((s ≡ []) × (read_full n s ≡ err eof)) ⊎ (0 < length s) × (read_full n s ≡ err unexpected_eof)
unfolding read_full
read_full_short zero s h = absurd (omega arith)
read_full_short (suc n) [] h = inl (refl, refl)
read_full_short (suc n) (x ∷ s) h = inr (omega arith, ground arith)
