-- ===== src/Number/Masks.antt =====
-- The bit operations with one bit.
use Prim.Native.Nat.{bit_and, bit_or, bit_and-bitwise, bit_or-bitwise, max}
use native.Mathlib.Nat.{pow-suc}
use burnout_paradise_server.Common.Digits.{bitwise_step}
use burnout_paradise_server.Common.{
  ℕ, zero, suc, ◌+◌, ◌-◌, ◌*◌, ◌/◌, ◌%◌, ◌^◌, ◌≤◌, ◌<◌, ◌≡◌, refl, ◌∙◌, true, false, ◌⊎◌, inl, inr,
  arith, min, ==_refl, ==_false,
}
use burnout_paradise_server.Number.{ℤ, pos, negsuc, or_mask, and_not_mask, has_mask}
use burnout_paradise_server.Number.RoundTrip.{Fits}

zero-bit_and : (b : ℕ) → bit_and 0 b ≡ 0
zero-bit_and b = bit_and-bitwise 0 b

zero-bit_or : (b : ℕ) → bit_or 0 b ≡ b
zero-bit_or b = bit_or-bitwise 0 b

-- The lowest digit, and the others.
bit_and_step : (a b : ℕ) → bit_and a b ≡ bit_and (a / 2) (b / 2) * 2 + min (a % 2) (b % 2)
bit_and_step a b =
    let low = bitwise_step (λ y. 0) min (λ y. omega arith) a b in
    omega (arith, low, bit_and-bitwise a b, bit_and-bitwise (a / 2) (b / 2))

bit_or_step : (a b : ℕ) → bit_or a b ≡ bit_or (a / 2) (b / 2) * 2 + max (a % 2) (b % 2)
bit_or_step a b =
    let low = bitwise_step (λ y. y) max (λ y. omega arith) a b in
    omega (arith, low, bit_or-bitwise a b, bit_or-bitwise (a / 2) (b / 2))

and_zero_fuel : (n a : ℕ) → a ≤ n → bit_and a 0 ≡ 0
and_zero_fuel n zero h = zero-bit_and 0
and_zero_fuel zero (suc a) h = absurd (omega arith)
and_zero_fuel (suc n) (suc a) h =
    omega (arith, bit_and_step (suc a) 0, and_zero_fuel n (suc a / 2) (omega arith))

or_zero_fuel : (n a : ℕ) → a ≤ n → bit_or a 0 ≡ a
or_zero_fuel n zero h = zero-bit_or 0
or_zero_fuel zero (suc a) h = absurd (omega arith)
or_zero_fuel (suc n) (suc a) h =
    omega (arith, bit_or_step (suc a) 0, or_zero_fuel n (suc a / 2) (omega arith))

-- What the digit at a place is worth in a number.
weight : ℕ → ℕ → ℕ
weight zero n = n % 2
weight (suc k) n = weight k (n / 2) * 2

weight-cases : (k n : ℕ) → (weight k n ≡ 0) ⊎ (weight k n ≡ 2 ^ k)
unfolding weight
weight-cases zero n = omega arith
weight-cases (suc k) n = elim (weight-cases k (n / 2)) [
  | inl e ↦ inl (omega (arith, e))
  | inr e ↦ inr (omega (arith, e, pow-suc 2 k))
]

weight-le : (k n : ℕ) → weight k n ≤ n
unfolding weight
weight-le zero n = omega arith
weight-le (suc k) n = omega (arith, weight-le k (n / 2))

half_pow : (k : ℕ) → (2 ^ suc k / 2 ≡ 2 ^ k) × (2 ^ suc k % 2 ≡ 0)
half_pow k = (omega (arith, pow-suc 2 k), omega (arith, pow-suc 2 k))

bit_and-pow : (k n : ℕ) → bit_and n (2 ^ k) ≡ weight k n
unfolding weight
bit_and-pow zero n = omega (arith, bit_and_step n 1, and_zero_fuel (n / 2) (n / 2) (omega arith))
bit_and-pow (suc k) n =
    bit_and_step n (2 ^ suc k)
    ∙ rw ((half_pow k).0, (half_pow k).1, bit_and-pow k (n / 2)) (omega arith)

bit_or_parts :
    (k n : ℕ)
    → (bit_or n (2 ^ suc k) / 2 ≡ bit_or (n / 2) (2 ^ k))
      × (bit_or n (2 ^ suc k) ≡ bit_or (n / 2) (2 ^ k) * 2 + n % 2)
bit_or_parts k n =
    let e : bit_or n (2 ^ suc k) ≡ bit_or (n / 2) (2 ^ k) * 2 + n % 2 =
      bit_or_step n (2 ^ suc k) ∙ rw ((half_pow k).0, (half_pow k).1) (omega arith) in
    (omega (arith, e), e)

weight-bit_or : (k n : ℕ) → weight k (bit_or n (2 ^ k)) ≡ 2 ^ k
unfolding weight
weight-bit_or zero n = omega (arith, bit_or_step n 1, or_zero_fuel (n / 2) (n / 2) (omega arith))
weight-bit_or (suc k) n =
    rw ((bit_or_parts k n).0, weight-bit_or k (n / 2)) (omega (arith, pow-suc 2 k))

weight-cleared : (k n : ℕ) → weight k (n - weight k n) ≡ 0
unfolding weight
weight-cleared zero n = omega arith
weight-cleared (suc k) n =
    let e : (n - weight k (n / 2) * 2) / 2 ≡ n / 2 - weight k (n / 2) =
      omega (arith, weight-le k (n / 2)) in
    rw (e, weight-cleared k (n / 2)) refl

bit_or-lt : (w k n : ℕ) → k < w → n < 2 ^ w → bit_or n (2 ^ k) < 2 ^ w
bit_or-lt zero k n h b = absurd (omega arith)
bit_or-lt (suc w) zero n h b =
    omega (arith, pow-suc 2 w, bit_or_step n 1, or_zero_fuel (n / 2) (n / 2) (omega arith))
bit_or-lt (suc w) (suc k) n h b = omega (
  arith,
  pow-suc 2 w,
  (bit_or_parts k n).1,
  bit_or-lt w k (n / 2) (omega arith) (omega (arith, pow-suc 2 w)),
)

pow_positive : (k : ℕ) → 1 ≤ 2 ^ k
pow_positive zero = omega arith
pow_positive (suc k) = omega (arith, pow-suc 2 k, pow_positive k)

-- A bit that is set is found set, in numbers of either sign.
pub has_mask-or_mask : (k : ℕ) (z : ℤ) → has_mask (or_mask z (2 ^ k)) (2 ^ k) ≡ true
unfolding has_mask or_mask
has_mask-or_mask k (pos n) =
    rw
      (
        bit_and-pow k (bit_or n (2 ^ k)),
        weight-bit_or k n,
        ==_false (2 ^ k) 0 (λ e. omega (arith, e, pow_positive k)),
      )
      refl
has_mask-or_mask k (negsuc n) =
    rw
      (
        bit_and-pow k n,
        bit_and-pow k (n - weight k n),
        weight-cleared k n,
        ==_false 0 (2 ^ k) (λ e. omega (arith, e, pow_positive k)),
      )
      refl

-- A bit that is cleared is found clear, in numbers of either sign.
pub has_mask-and_not_mask : (k : ℕ) (z : ℤ) → has_mask (and_not_mask z (2 ^ k)) (2 ^ k) ≡ false
unfolding has_mask and_not_mask
has_mask-and_not_mask k (pos n) =
    rw (bit_and-pow k n, bit_and-pow k (n - weight k n), weight-cleared k n) refl
has_mask-and_not_mask k (negsuc n) =
    rw (bit_and-pow k (bit_or n (2 ^ k)), weight-bit_or k n, ==_refl (2 ^ k)) refl

-- Setting or clearing a bit of an int32 below its sign gives an int32.
pub or_mask-Fits : (k : ℕ) (z : ℤ) → k < 31 → Fits 32 z → Fits 32 (or_mask z (2 ^ k))
unfolding Fits or_mask
or_mask-Fits k (pos n) h f = bit_or-lt 31 k n h f
or_mask-Fits k (negsuc n) h f = omega arith

pub and_not_mask-Fits : (k : ℕ) (z : ℤ) → k < 31 → Fits 32 z → Fits 32 (and_not_mask z (2 ^ k))
unfolding Fits and_not_mask
and_not_mask-Fits k (pos n) h f = omega arith
and_not_mask-Fits k (negsuc n) h f = bit_or-lt 31 k n h f
