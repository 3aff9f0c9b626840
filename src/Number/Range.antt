-- ===== src/Number/Range.antt =====
-- The numbers that a text can be read as.
use burnout_paradise_server.Common.{
  ℕ, zero, suc, ◌-◌, ◌^◌, ◌<◌, ◌≡◌, subst, [], ◌∷◌, Bool, true, false, Option, none, some, inl, inr,
  arith, Bytes, ltb, ◌==◌, ltb→lt, Bool-cases,
}
use burnout_paradise_server.Number.{ℤ, in_range, parse_digits, parse_int}
use burnout_paradise_server.Number.RoundTrip.{Fits}

abbrev Parsed : ℕ → Option ℤ → Type 0
Parsed bits none = Unit {0}
Parsed bits (some z) = Fits bits z

in_range-Parsed :
    (bits : ℕ) (negative : Bool) (o : Option ℕ)
    → 0 < 2 ^ (bits - 1)
    → Parsed bits (in_range (2 ^ (bits - 1)) negative o)
unfolding in_range Fits
in_range-Parsed bits negative none p = tt
in_range-Parsed bits true (some zero) p = p
in_range-Parsed bits false (some n) p = elim (Bool-cases (ltb n (2 ^ (bits - 1)))) [
  | inl e ↦ rw (in_range, Parsed, e) (ltb→lt n _ e)
  | inr e ↦ rw (in_range, Parsed, e) tt
]
in_range-Parsed bits true (some (suc n)) p = elim (Bool-cases (ltb n (2 ^ (bits - 1)))) [
  | inl e ↦ rw (in_range, Parsed, e) (ltb→lt n _ e)
  | inr e ↦ rw (in_range, Parsed, e) tt
]

parse_int-Parsed : (bits : ℕ) (t : Bytes) → 0 < 2 ^ (bits - 1) → Parsed bits (parse_int bits t)
unfolding parse_int
parse_int-Parsed bits [] p = tt
parse_int-Parsed bits (c ∷ s) p = elim (Bool-cases (c == b'-')) [
  | inl e ↦ rw (parse_int, e) (in_range-Parsed bits true (parse_digits s) p)
  | inr e ↦ elim (Bool-cases (c == b'+')) [
    | inl e' ↦ rw (parse_int, e, e') (in_range-Parsed bits false (parse_digits s) p)
    | inr e' ↦ rw (parse_int, e, e') (in_range-Parsed bits false (parse_digits (c ∷ s)) p)
  ]
]

-- A number that is read fits into the integer type it is read for.
pub parse_int-Fits : (t : Bytes) (z : ℤ) → parse_int 32 t ≡ some z → Fits 32 z
parse_int-Fits t z e = subst (Parsed 32) e (parse_int-Parsed 32 t (omega arith))
