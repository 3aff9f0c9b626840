-- ===== src/Common/Digits.antt =====
-- The operations on binary digits at variables, whatever they do with a pair of digits.
use Prim.Native.Nat.{ℕ, zero, suc, ◌+◌, ◌-◌, ◌*◌, ◌/◌, ◌%◌, ◌≤◌, digits, bitwise}
use mathlib.Core.Path.{◌≡◌, refl, sym, ap, ◌∙◌}
use native.Mathlib.Omega.{arith}

module _ (over : ℕ → ℕ) (pair : ℕ → ℕ → ℕ) where
  run_out : (k y : ℕ) → digits over pair k 0 y ≡ over y
  run_out zero y = refl
  run_out (suc k) y = refl

  -- One more round than the first number needs changes nothing.
  one_more : (k x y : ℕ) → x ≤ k → digits over pair (suc k) x y ≡ digits over pair k x y
  one_more k zero y fits = sym (run_out k y)
  one_more zero (suc x) y fits = absurd (omega arith)
  one_more (suc k) (suc x) y fits =
      let inner = one_more k (suc x / 2) (y / 2) (omega arith) in
      ap (λ high. high * 2 + pair (suc x % 2) (y % 2)) inner

  -- So it is for any number of rounds more.
  spare : (extra k x y : ℕ) → x ≤ k → digits over pair (extra + k) x y ≡ digits over pair k x y
  spare zero k x y fits =
      let same : 0 + k ≡ k = omega arith in ap (λ n. digits over pair n x y) same
  spare (suc extra) k x y fits =
      let same : suc extra + k ≡ suc (extra + k) = omega arith in
      ap (λ n. digits over pair n x y) same
      ∙ one_more (extra + k) x y (omega arith)
      ∙ spare extra k x y fits

  -- The lowest digit, and the others, if this holds without the first number.
  pub bitwise_step :
      ((y : ℕ) → over y ≡ over (y / 2) * 2 + pair 0 (y % 2))
      → (x y : ℕ)
      → bitwise over pair x y ≡ bitwise over pair (x / 2) (y / 2) * 2 + pair (x % 2) (y % 2)
  bitwise_step alone zero y = alone y
  bitwise_step alone (suc x) y =
      let half = suc x / 2 in
      let enough : x - half + half ≡ x = omega arith in
      ap (λ high. high * 2 + pair (suc x % 2) (y % 2))
        (ap (λ k. digits over pair k half (y / 2)) (sym enough)
          ∙ spare (x - half) half half (y / 2) (omega arith))
