-- ===== src/Word/Bits/Step.antt =====
-- The native bit operations are a recursion on binary digits: one equation for the lowest digit.
use Prim.Native.Nat.{
  min, max, differ, digits, bitwise, bit_and-bitwise, bit_or-bitwise, bit_xor-bitwise,
}
use herve.Base.{ℕ, zero, suc, ◌+◌, ◌*◌, ◌/◌, ◌%◌, ◌≤◌, ◌<◌, ◌≡◌, refl, ◌∙◌, ap, arith}
use herve.Base.{bit_and, bit_or, bit_xor}

module _ (keep : ℕ → ℕ) (op : ℕ → ℕ → ℕ) where
  -- Fuel beyond the first number changes nothing.
  digits_settled :
      (x : ℕ) (most : ℕ) (fuel : ℕ) (y : ℕ)
      → x ≤ most
      → most ≤ fuel
      → digits keep op fuel x y ≡ digits keep op most x y
  digits_settled zero zero zero y enough more = refl
  digits_settled zero zero (suc fuel) y enough more = refl
  digits_settled zero (suc most) zero y enough more = refl
  digits_settled zero (suc most) (suc fuel) y enough more = refl
  digits_settled (suc x) zero fuel y enough more = absurd (omega arith)
  digits_settled (suc x) (suc most) zero y enough more = absurd (omega arith)
  digits_settled (suc x) (suc most) (suc fuel) y enough more =
      let halves = digits_settled (suc x / 2) most fuel (y / 2) (omega arith) (omega arith) in
      rw halves

  lowest_digit :
      (x y : ℕ)
      → bitwise keep op (suc x) y ≡ bitwise keep op (suc x / 2) (y / 2) * 2 + op (suc x % 2) (y % 2)
  lowest_digit x y =
      let half = suc x / 2 in
      omega (arith, digits_settled half half x (y / 2) (omega arith) (omega arith))

differ_mod : (x y : ℕ) → x < 2 → y < 2 → differ x y ≡ (x + y) % 2
differ_mod zero y p q = omega arith
differ_mod (suc zero) zero p q = refl
differ_mod (suc zero) (suc zero) p q = refl
differ_mod (suc zero) (suc (suc y)) p q = absurd (omega arith)
differ_mod (suc (suc x)) y p q = absurd (omega arith)

pub bit_xor_step : (x y : ℕ) → bit_xor x y ≡ bit_xor (x / 2) (y / 2) * 2 + (x + y) % 2
bit_xor_step zero y = simp bit_xor-bitwise (omega arith)
bit_xor_step (suc x) y = simp bit_xor-bitwise (
    lowest_digit (λ d. d) differ x y
    ∙ ap (λ d. bitwise (λ t. t) differ (suc x / 2) (y / 2) * 2 + d)
        (differ_mod (suc x % 2) (y % 2) (omega arith) (omega arith) ∙ the_sum))
  where
    the_sum : (suc x % 2 + y % 2) % 2 ≡ (suc x + y) % 2
    the_sum = omega arith

pub bit_and_step : (x y : ℕ) → bit_and x y ≡ bit_and (x / 2) (y / 2) * 2 + min (x % 2) (y % 2)
bit_and_step zero y = simp bit_and-bitwise (omega arith)
bit_and_step (suc x) y = simp bit_and-bitwise (lowest_digit (λ d. 0) min x y)

pub bit_or_step : (x y : ℕ) → bit_or x y ≡ bit_or (x / 2) (y / 2) * 2 + max (x % 2) (y % 2)
bit_or_step zero y = simp bit_or-bitwise (omega arith)
bit_or_step (suc x) y = simp bit_or-bitwise (lowest_digit (λ d. d) max x y)
