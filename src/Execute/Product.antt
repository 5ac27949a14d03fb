-- ===== src/Execute/Product.antt =====
-- MUL with MULH and with MULHU, of dpi-riscv/sim/iss/rv32_dpi.c: the two halves of a product.
use native.Mathlib.Nat.{mul-le-mul}
use herve.Base.{
  ℕ, suc, ◌+◌, ◌-◌, ◌*◌, ◌/◌, ◌%◌, ◌^◌, ◌≤◌, ◌<◌, ◌≡◌, arith, ltb, if◌then◌else◌, ap, inl, inr,
  Bool-cases,
}
use herve.Word.{signed32}
use herve.Word.Int.{ℤ, pos, negsuc, sub_ℕ, nat_abs, to_u64, ◌*ℤ◌}
use herve.Execute.MulDiv.{signed_product, muldiv_value}

-- The integer that a pattern of 64 bits stands for.
abbrev pub signed64 : ℕ → ℤ
signed64 w = if ltb w (2 ^ 63) then pos w else negsuc (2 ^ 64 - 1 - w)

signed64-to_u64 : (z : ℤ) → nat_abs z < 2 ^ 63 → signed64 (to_u64 z) ≡ z
unfolding to_u64
signed64-to_u64 (pos n) h = ground arith
signed64-to_u64 (negsuc n) h = ground arith

nat_abs-*ℤ : (x y : ℤ) → nat_abs (x *ℤ y) ≡ nat_abs x * nat_abs y
unfolding ◌*ℤ◌
nat_abs-*ℤ (pos n) (pos m) = ground arith
nat_abs-*ℤ (pos n) (negsuc m) = ground arith
nat_abs-*ℤ (negsuc n) (pos m) = ground arith
nat_abs-*ℤ (negsuc n) (negsuc m) = ground arith

nat_abs-signed32 : (a : ℕ) → a < 2 ^ 32 → nat_abs (signed32 a) ≤ 2 ^ 31
nat_abs-signed32 a h = ground arith

product-small : (x y : ℤ) → nat_abs x ≤ 2 ^ 31 → nat_abs y < 2 ^ 32 → nat_abs (x *ℤ y) < 2 ^ 63
product-small x y hx hy =
    let most : nat_abs x * nat_abs y ≤ 2 ^ 31 * (2 ^ 32 - 1) =
      mul-le-mul {n₂ = 2 ^ 31} {m₂ = 2 ^ 32 - 1} hx (omega arith) in
    omega (arith, nat_abs-*ℤ x y, most)

-- The two halves of a product, put together.
abbrev pub whole : ℕ → ℕ → ℕ → ℕ
whole funct3 a b = muldiv_value funct3 a b * 2 ^ 32 + muldiv_value 0 a b

-- For any two words, the results of MULH and MUL, put together to 64 bits, stand for the exact
-- product of the two signed integers.
pub mulh-mul :
    (a b : ℕ) → a < 2 ^ 32 → b < 2 ^ 32 → signed64 (whole 1 a b) ≡ signed32 a *ℤ signed32 b
unfolding muldiv_value signed_product
mulh-mul a b ha hb =
    let z = signed32 a *ℤ signed32 b in
    let joined : to_u64 z / 2 ^ 32 * 2 ^ 32 + to_u64 z % 2 ^ 32 ≡ to_u64 z = omega arith in
    rw joined (
      signed64-to_u64 z (
        product-small (signed32 a) (signed32 b) (nat_abs-signed32 a ha)
          (omega (arith, nat_abs-signed32 b hb))))

low-sub_ℕ :
    (p n c j k : ℕ) → c + n + j * 2 ^ 32 ≡ p + k * 2 ^ 32 → to_u64 (sub_ℕ p n) % 2 ^ 32 ≡ c % 2 ^ 32
unfolding to_u64
low-sub_ℕ p n c j k e = ground arith

expand_one : (x y b : ℕ) → x + y ≡ 2 ^ 32 → x * b + y * b ≡ b * 2 ^ 32
expand_one x y b e = let scaled : (x + y) * b ≡ 2 ^ 32 * b = ap (λ t. t * b) e in omega arith

expand_both :
    (a x b y : ℕ)
    → a + x ≡ 2 ^ 32
    → b + y ≡ 2 ^ 32
    → a * b + (x + y) * 2 ^ 32 ≡ x * y + 2 ^ 32 * 2 ^ 32
expand_both a x b y e f =
    let first : b * a + b * x ≡ b * 2 ^ 32 = omega (arith, expand_one a x b e) in
    let second : b * x + y * x ≡ x * 2 ^ 32 = expand_one b y x f in omega arith

-- The lowest 32 bits of a product are the same for signed and unsigned words.
signed_product-low :
    (a b : ℕ) → a < 2 ^ 32 → b < 2 ^ 32 → signed_product a b % 2 ^ 32 ≡ a * b % 2 ^ 32
unfolding signed_product ◌*ℤ◌
signed_product-low a b ha hb =
    let na = 2 ^ 32 - a in
    let nb = 2 ^ 32 - b in
    elim (Bool-cases (ltb a (2 ^ 31))) [
      | inl x ↦ elim (Bool-cases (ltb b (2 ^ 31))) [
        | inl y ↦ rw (x, y) (low-sub_ℕ _ _ _ 0 0 (omega arith))
        | inr y ↦
            rw (x, y)
              (low-sub_ℕ _ _ _ 0 a
                (omega (arith, expand_one b (suc (2 ^ 32 - 1 - b)) a (omega arith))))
      ]
      | inr x ↦ elim (Bool-cases (ltb b (2 ^ 31))) [
        | inl y ↦
            rw (x, y)
              (low-sub_ℕ _ _ _ 0 b
                (omega (arith, expand_one a (suc (2 ^ 32 - 1 - a)) b (omega arith))))
        | inr y ↦
            rw (x, y)
              (low-sub_ℕ _ _ _ (na + nb) (2 ^ 32) (
                omega (
                  arith,
                  expand_both a (suc (2 ^ 32 - 1 - a)) b (suc (2 ^ 32 - 1 - b)) (omega arith)
                      (omega arith),
                )))
      ]
    ]

-- For any two words, the results of MULHU and MUL, put together to 64 bits, are the exact product
-- of the two unsigned words.
pub mulhu-mul : (a b : ℕ) → a < 2 ^ 32 → b < 2 ^ 32 → whole 3 a b ≡ a * b
unfolding muldiv_value
mulhu-mul a b ha hb = omega (arith, signed_product-low a b ha hb)
