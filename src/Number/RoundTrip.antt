-- ===== src/Number/RoundTrip.antt =====
-- Printed numbers that are read again.
use burnout_paradise_server.Common.{
  ℕ, zero, suc, ◌+◌, ◌-◌, ◌*◌, ◌/◌, ◌%◌, ◌^◌, ◌<◌, ◌≡◌, refl, sym, ap, ◌∙◌, [], ◌∷◌, true, false,
  some, inl, inr, arith, Bytes, ltb, ==_false, Bool-cases, lt→ltb, ltb→lt, ltb-false,
}
use burnout_paradise_server.Number.{
  ℤ, pos, negsuc, scan, parse_digits, in_range, parse_int, digits, format_nat, format_int,
}

plus_minus : (a b : ℕ) → a + b - a ≡ b
plus_minus a b = omega arith

plus_zero : (n : ℕ) → 0 * 10 + n ≡ n
plus_zero n = omega arith

smaller : (n fuel : ℕ) → ltb n 10 ≡ false → n < suc fuel → n / 10 < fuel
smaller n fuel e h = ground arith

absurd : (n : ℕ) → n < 0 → ⊥
absurd n h = omega arith

div_mod : (n : ℕ) → n / 10 * 10 + n % 10 ≡ n
div_mod n = omega arith

scan-digit : (d n : ℕ) (s : Bytes) → d < 10 → scan ((b'0' + d) ∷ s) n ≡ scan s (n * 10 + d)
unfolding scan
scan-digit d n s h =
    rw (ltb-false (b'0' + d) b'0' (omega arith), ltb-false b'9' (b'0' + d) (omega arith))
      (ap (λ x. scan s (n * 10 + x)) (plus_minus b'0' d))

scan-digits : (fuel n : ℕ) (out : Bytes) → n < fuel → scan (digits fuel n out) 0 ≡ scan out n
unfolding digits
scan-digits zero n out h = elim (absurd n h) [ ]
scan-digits (suc fuel) n out h = elim (Bool-cases (ltb n 10)) [
  | inl e ↦ rw e (scan-digit n 0 out (ltb→lt n 10 e) ∙ ap (scan out) (plus_zero n))
  | inr e ↦ rw e (
      scan-digits fuel (n / 10) ((b'0' + n % 10) ∷ out) (smaller n fuel e h)
      ∙ scan-digit (n % 10) (n / 10) out (omega arith)
      ∙ ap (scan out) (div_mod n))
]

-- A text that starts with a digit.
abbrev HasDigit : Bytes → Type 0
HasDigit t = (d : ℕ) × (s : Bytes) × (d < 10) × (t ≡ (b'0' + d) ∷ s)

digits-HasDigit : (fuel n : ℕ) (out : Bytes) → n < fuel → HasDigit (digits fuel n out)
unfolding digits
digits-HasDigit zero n out h = elim (absurd n h) [ ]
digits-HasDigit (suc fuel) n out h = elim (Bool-cases (ltb n 10)) [
  | inl e ↦ rw (HasDigit, e) (n, out, ltb→lt n 10 e, refl)
  | inr e ↦
      rw (HasDigit, e) (digits-HasDigit fuel (n / 10) ((b'0' + n % 10) ∷ out) (smaller n fuel e h))
]

none_left : (n : ℕ) → scan [] n ≡ some n
unfolding scan
none_left n = refl

pub parse_digits-format : (n : ℕ) → parse_digits (format_nat n) ≡ some n
unfolding parse_digits format_nat
parse_digits-format n =
    let (d, s, h, e) = digits-HasDigit (suc n) n [] (omega arith) in
    ap parse_digits e
    ∙ ap (λ t. scan t 0) (sym e)
    ∙ scan-digits (suc n) n [] (omega arith)
    ∙ none_left n

parse_int-digit :
    (bits d : ℕ) (s : Bytes)
    → d < 10
    → parse_int bits ((b'0' + d) ∷ s)
      ≡ in_range (2 ^ (bits - 1)) false (parse_digits ((b'0' + d) ∷ s))
unfolding parse_int
parse_int-digit bits d s h =
    rw (==_false (b'0' + d) b'-' (λ e. omega arith), ==_false (b'0' + d) b'+' (λ e. omega arith))

parse_int-format_nat :
    (bits n : ℕ) → parse_int bits (format_nat n) ≡ in_range (2 ^ (bits - 1)) false (some n)
unfolding format_nat
parse_int-format_nat bits n =
    let (d, s, h, e) = digits-HasDigit (suc n) n [] (omega arith) in
    ap (parse_int bits) e
    ∙ parse_int-digit bits d s h
    ∙ ap (λ t. in_range (2 ^ (bits - 1)) false (parse_digits t)) (sym e)
    ∙ ap (in_range (2 ^ (bits - 1)) false) (parse_digits-format n)

-- A number that a signed integer of so many bits can be.
unfoldable pub Fits : ℕ → ℤ → Type 0
Fits bits (pos n) = n < 2 ^ (bits - 1)
Fits bits (negsuc n) = n < 2 ^ (bits - 1)

-- Every number that fits into the integer type is read back from its decimal text.
pub parse_int-format_int : (bits : ℕ) (z : ℤ) → Fits bits z → parse_int bits (format_int z) ≡ some z
unfolding format_int Fits in_range parse_int
parse_int-format_int bits (pos n) h = parse_int-format_nat bits n ∙ rw (lt→ltb n (2 ^ (bits - 1)) h)
parse_int-format_int bits (negsuc n) h =
    ap (in_range (2 ^ (bits - 1)) true) (parse_digits-format (suc n))
    ∙ rw (lt→ltb n (2 ^ (bits - 1)) h)
