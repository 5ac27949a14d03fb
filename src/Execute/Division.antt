-- ===== src/Execute/Division.antt =====
-- DIV and REM of dpi-riscv/sim/iss/rv32_dpi.c against division of integers.
use herve.Base.{
  ℕ, ◌^◌, ◌≤◌, ◌<◌, ◌≡◌, ◌≢◌, arith, true, false, ◌==◌, ==-false, inl, inr, Bool-cases,
}
use herve.Word.{signed32}
use herve.Word.Int.{negsuc, pos_part, neg_part, nat_abs, quot_ℤ, rem_ℤ, ◌+ℤ◌, ◌*ℤ◌}
use herve.Word.Division.{
  FitsWord, signed32-to_u32, signed32-FitsWord, quot_ℤ-rem_ℤ, rem_ℤ_parts, quot_ℤ_parts,
  quot_ℤ_halves,
}
use herve.Execute.MulDiv.{div_value, rem_value, div_overflows}

-- Neither dividing by 0 nor the smallest integer by -1.
abbrev pub IsOrdinary : ℕ → ℕ → Type 0
IsOrdinary a b = (b ≢ 0) × (div_overflows a b ≡ false)

divisor_ne : (b : ℕ) → b < 2 ^ 32 → b ≢ 0 → nat_abs (signed32 b) ≢ 0
divisor_ne b hb ne = ground arith

abs-le : (a : ℕ) → a < 2 ^ 32 → nat_abs (signed32 a) ≤ 2 ^ 31
abs-le a h = ground arith

abs-lt : (a : ℕ) → a < 2 ^ 32 → (a == 0x80000000) ≡ false → nat_abs (signed32 a) < 2 ^ 31
abs-lt a h e = ground arith

smallest_parts : (a : ℕ) → (a == 0x80000000) ≡ true → pos_part (signed32 a) ≡ 0
smallest_parts a e = ground arith

minus_one_ne :
    (a b : ℕ)
    → b < 2 ^ 32
    → (a == 0x80000000) ≡ true
    → div_overflows a b ≡ false
    → signed32 b ≢ negsuc 0
minus_one_ne a b hb e ok eq = ground arith

quot-FitsWord :
    (a b : ℕ)
    → a < 2 ^ 32
    → b < 2 ^ 32
    → IsOrdinary a b
    → FitsWord (quot_ℤ (signed32 a) (signed32 b))
quot-FitsWord a b ha hb ok =
    let parts = quot_ℤ_parts (signed32 a) (signed32 b) in
    let halved = quot_ℤ_halves (signed32 a) (signed32 b) in
    let most = abs-le a ha in
    elim (Bool-cases (a == 0x80000000)) [
      | inl e ↦ (
        omega (arith, most, halved (minus_one_ne a b hb e ok.1) (smallest_parts a e)),
        omega (arith, parts.1, most),
      )
      | inr e ↦ (omega (arith, parts.0, abs-lt a ha e), omega (arith, parts.1, most))
    ]

rem-FitsWord :
    (a b : ℕ) → a < 2 ^ 32 → b < 2 ^ 32 → b ≢ 0 → FitsWord (rem_ℤ (signed32 a) (signed32 b))
rem-FitsWord a b ha hb ok =
    let parts = rem_ℤ_parts (signed32 a) (signed32 b) (divisor_ne b hb ok) in
    let fits = signed32-FitsWord a ha in omega (arith, parts, fits)

-- DIV and REM of two words, but for a divisor of 0 and the smallest word divided by -1: the dividend
-- is the quotient times the divisor, and the remainder, as signed integers; the remainder is
-- smaller than the divisor in absolute value, and has the sign of the dividend or is 0.
pub div-rem_lem :
    (a b : ℕ)
    → a < 2 ^ 32
    → b < 2 ^ 32
    → b ≢ 0
    → div_overflows a b ≡ false
    → let q = signed32 (div_value a b) in
      let r = signed32 (rem_value a b) in
      (q *ℤ signed32 b +ℤ r ≡ signed32 a)
      × (nat_abs r < nat_abs (signed32 b))
      × (pos_part r ≤ pos_part (signed32 a))
      × (neg_part r ≤ neg_part (signed32 a))
unfolding div_value rem_value
div-rem_lem a b ha hb ne ordinary =
    let q_fits = quot-FitsWord a b ha hb (ne, ordinary) in
    let r_fits = rem-FitsWord a b ha hb ne in
    rw (==-false b 0 ne, ordinary, signed32-to_u32 _ q_fits, signed32-to_u32 _ r_fits)
      (
        (quot_ℤ-rem_ℤ (signed32 a) (signed32 b) (divisor_ne b hb ne)).0,
        (quot_ℤ-rem_ℤ (signed32 a) (signed32 b) (divisor_ne b hb ne)).1,
        (rem_ℤ_parts (signed32 a) (signed32 b) (divisor_ne b hb ne)).0,
        (rem_ℤ_parts (signed32 a) (signed32 b) (divisor_ne b hb ne)).1,
      )
