-- ===== src/Payload/Names.antt =====
-- bpserver/helpers.go: what the cleaned values and names are made of.
use burnout_paradise_server.Common.{
  ℕ, zero, suc, ◌≤◌, ◌≡◌, ◌≢◌, sym, subst, List, [], ◌∷◌, true, ◌||◌, inl, inr, arith, Bytes, codes,
  ltb, ◌==◌, All, All-take, length, length-take, Bool-cases,
}
use burnout_paradise_server.Text.{runes}
use burnout_paradise_server.Payload.{
  clean_rune, clean_runes, clean_field_value, or_fallback, is_name_rune, name_runes,
  get_local_account_name,
}

-- Printable ASCII, spaces among it.
abbrev pub IsPrintable : ℕ → Type 0
IsPrintable c = (32 ≤ c) × (c ≤ 126)

clean_runes-IsPrintable : (rs : List ℕ) → All IsPrintable (clean_runes rs)
unfolding clean_runes clean_rune
clean_runes-IsPrintable [] = tt
clean_runes-IsPrintable (r ∷ rs) =
    elim (Bool-cases (r == 0 || r == b'\r' || r == b'\n' || r == b'\t')) [
      | inl e ↦ rw (clean_runes, clean_rune, All, e) (clean_runes-IsPrintable rs)
      | inr e ↦ elim (Bool-cases (ltb r 0x20 || ltb 0x7e r)) [
        | inl b ↦
            rw (clean_runes, clean_rune, All, e, b)
              ((omega arith, omega arith), clean_runes-IsPrintable rs)
        | inr b ↦
            rw (clean_runes, clean_rune, All, e, b)
              ((ground arith, ground arith), clean_runes-IsPrintable rs)
      ]
    ]

or_fallback-All :
    (P : ℕ → Type 0) (value fallback : Bytes)
    → All P value
    → All P fallback
    → All P (or_fallback value fallback)
unfolding or_fallback
or_fallback-All P [] fallback h k = k
or_fallback-All P (c ∷ s) fallback h k = h

-- Whatever bytes a client sent, a cleaned value is no longer than its bound and is printable ASCII, if
-- the fallback is.
pub clean_field_value_lem :
    (value : Bytes) (max : ℕ) (fallback : Bytes)
    → All IsPrintable fallback
    → (length (clean_field_value value max fallback) ≤ max)
      × All IsPrintable (clean_field_value value max fallback)
unfolding clean_field_value
clean_field_value_lem value max fallback h = (
  subst (λ n. n ≤ max) (sym (length-take max _)) (omega arith),
  All-take IsPrintable max _
      (or_fallback-All IsPrintable _ fallback (clean_runes-IsPrintable (runes value)) h),
)

-- The bytes from '-' to 'z' without the ones that mean something in a record or an address.
abbrev pub IsNameByte : ℕ → Type 0
IsNameByte c = (45 ≤ c) × (c ≤ 122) × (c ≢ b'=') × (c ≢ b'/') × (c ≢ b':')

name_rune_lem : (c : ℕ) → is_name_rune c ≡ true → IsNameByte c
unfolding is_name_rune
name_rune_lem c h = (ground arith, ground arith, ground arith, ground arith, ground arith)

name_runes-All : (room : ℕ) (rs : List ℕ) → All IsNameByte (name_runes room rs)
unfolding name_runes
name_runes-All room [] = tt
name_runes-All zero (r ∷ rs) = tt
name_runes-All (suc room) (r ∷ rs) = elim (Bool-cases (is_name_rune r)) [
  | inl e ↦ rw (name_runes, All, e) (name_rune_lem r e, name_runes-All room rs)
  | inr e ↦ rw (name_runes, e) (name_runes-All (suc room) rs)
]

name_runes-length : (room : ℕ) (rs : List ℕ) → length (name_runes room rs) ≤ room
unfolding name_runes
name_runes-length room [] = omega arith
name_runes-length zero (r ∷ rs) = omega arith
name_runes-length (suc room) (r ∷ rs) = elim (Bool-cases (is_name_rune r)) [
  | inl e ↦ rw (name_runes, length, e) (omega (arith, name_runes-length room rs))
  | inr e ↦ rw (name_runes, e) (name_runes-length (suc room) rs)
]

or_fallback-length :
    (n : ℕ) (value fallback : Bytes)
    → length value ≤ n
    → length fallback ≤ n
    → 1 ≤ length fallback
    → (1 ≤ length (or_fallback value fallback)) × (length (or_fallback value fallback) ≤ n)
unfolding or_fallback
or_fallback-length n [] fallback h k l = (l, k)
or_fallback-length n (c ∷ s) fallback h k l = (omega arith, h)

local_player : All IsNameByte (codes "LocalPlayer")
unfolding name_runes is_name_rune
local_player = name_runes-All 19 (codes "LocalPlayer")

-- The account name that is made of any bytes is not empty, has 19 bytes at most, and consists of bytes
-- from '-' to 'z' without '=', '/' and ':'.
pub get_local_account_name_lem :
    (value : Bytes)
    → (1 ≤ length (get_local_account_name value))
      × (length (get_local_account_name value) ≤ 19)
      × All IsNameByte (get_local_account_name value)
unfolding get_local_account_name
get_local_account_name_lem value =
    let bounds =
      or_fallback-length 19 (name_runes 19 (runes value)) (codes "LocalPlayer")
        (name_runes-length 19 (runes value)) (omega arith) (omega arith) in
    (
      bounds.0,
      bounds.1,
      or_fallback-All IsNameByte _ (codes "LocalPlayer") (name_runes-All 19 (runes value))
          local_player,
    )
