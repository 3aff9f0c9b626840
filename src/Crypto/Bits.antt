-- ===== src/Crypto/Bits.antt =====
-- Laws of the bit operations at variables.
use Prim.Native.Nat.{bit_xor, bit_xor-bitwise, differ}
use native.Mathlib.Nat.{pow-suc}
use burnout_paradise_server.Common.Digits.{bitwise_step}
use burnout_paradise_server.Common.{
  ℕ, zero, suc, ◌+◌, ◌*◌, ◌/◌, ◌%◌, ◌^◌, ◌≤◌, ◌<◌, ◌≡◌, refl, arith,
}

zero-bit_xor : (b : ℕ) → bit_xor 0 b ≡ b
zero-bit_xor b = bit_xor-bitwise 0 b

-- The lowest digit, and the others.
pub bit_xor_step : (a b : ℕ) → bit_xor a b ≡ bit_xor (a / 2) (b / 2) * 2 + differ (a % 2) (b % 2)
bit_xor_step a b =
    let low = bitwise_step (λ y. y) differ (λ y. omega arith) a b in
    omega (arith, low, bit_xor-bitwise a b, bit_xor-bitwise (a / 2) (b / 2))

-- Binary digits.
differ_digits :
    (x y : ℕ) → x < 2 → y < 2 → (differ x y < 2) × (differ x x ≡ 0) × (differ (differ x y) y ≡ x)
differ_digits zero zero h k = (omega arith, refl, refl)
differ_digits zero (suc zero) h k = (omega arith, refl, refl)
differ_digits zero (suc (suc y)) h k = absurd (omega arith)
differ_digits (suc zero) zero h k = (omega arith, refl, refl)
differ_digits (suc zero) (suc zero) h k = (omega arith, refl, refl)
differ_digits (suc zero) (suc (suc y)) h k = absurd (omega arith)
differ_digits (suc (suc x)) y h k = absurd (omega arith)

bit_xor_digits :
    (a b : ℕ)
    → (bit_xor a b / 2 ≡ bit_xor (a / 2) (b / 2)) × (bit_xor a b % 2 ≡ differ (a % 2) (b % 2))
bit_xor_digits a b =
    let d = differ_digits (a % 2) (b % 2) (omega arith) (omega arith) in
    omega (arith, bit_xor_step a b, d.0)

self_fuel : (n b : ℕ) → b ≤ n → bit_xor b b ≡ 0
self_fuel n zero h = refl
self_fuel zero (suc b) h = absurd (omega arith)
self_fuel (suc n) (suc b) h =
    let d = differ_digits (suc b % 2) (suc b % 2) (omega arith) (omega arith) in
    omega (arith, bit_xor_step (suc b) (suc b), d.1, self_fuel n (suc b / 2) (omega arith))

cancel_fuel : (n a k : ℕ) → a ≤ n → bit_xor (bit_xor a k) k ≡ a
cancel_fuel n zero k h = rw zero-bit_xor (self_fuel k k (omega arith))
cancel_fuel zero (suc a) k h = absurd (omega arith)
cancel_fuel (suc n) (suc a) k h =
    let d = differ_digits (suc a % 2) (k % 2) (omega arith) (omega arith) in
    let (high, low) = bit_xor_digits (suc a) k in
    rw
      (
        bit_xor_step (bit_xor (suc a) k) k,
        high,
        low,
        d.2,
        cancel_fuel n (suc a / 2) (k / 2) (omega arith),
      )
      (omega arith)

-- A byte that is masked twice is itself.
pub bit_xor_cancel : (a k : ℕ) → bit_xor (bit_xor a k) k ≡ a
bit_xor_cancel a k = cancel_fuel a a k (omega arith)

-- No digit appears above the digits of the operands.
pub bit_xor-lt : (w a b : ℕ) → a < 2 ^ w → b < 2 ^ w → bit_xor a b < 2 ^ w
bit_xor-lt zero a b h k = let e : a ≡ 0 = omega arith in rw e (rw zero-bit_xor k)
bit_xor-lt (suc w) a b h k =
    let d = differ_digits (a % 2) (b % 2) (omega arith) (omega arith) in
    omega (
      arith,
      pow-suc 2 w,
      d.0,
      bit_xor_step a b,
      bit_xor-lt w (a / 2) (b / 2) (omega (arith, pow-suc 2 w)) (omega (arith, pow-suc 2 w)),
    )
