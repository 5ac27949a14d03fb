-- ===== src/SoftFloat/Product.antt =====
-- The product of two mantissas that `__muldf3` of dpi-riscv/softfloat.c puts together from four
-- products of their halves.
use native.Mathlib.Nat.{mul-le-mul}
use herve.Base.{
  ℕ, ◌+◌, ◌-◌, ◌*◌, ◌/◌, ◌%◌, ◌^◌, ◌≤◌, ◌<◌, ◌≡◌, refl, arith, ltb, bit_or, ◌∙◌, Bool-cases, inl,
  inr,
}
use herve.Word.{u32, u64}
use herve.Word.Bits.{bit_or-high_low}
use herve.SoftFloat.Fields.{shl64}
use herve.SoftFloat.Multiply.{add_carry, product_words, split_product}

-- The number that two words of 64 bits hold, the upper one first.
abbrev pub two_words : ℕ × ℕ → ℕ
two_words (h, l) = h * 2 ^ 64 + l

-- Two words, the upper one below `bound`.
abbrev IsWords : ℕ → ℕ × ℕ → Type 0
IsWords bound (h, l) = (h < bound) × (l < 2 ^ 64)

add_carry_lem :
    (x h l bound : ℕ)
    → x < 2 ^ 64
    → h < bound
    → l < 2 ^ 64
    → bound < 2 ^ 64
    → (two_words (add_carry x (h, l)) ≡ two_words (h, l) + x)
      × IsWords (bound + 1) (add_carry x (h, l))
unfolding add_carry
add_carry_lem x h l bound hx hh hl hb = elim (Bool-cases (ltb (u64 (l + x)) l)) [
  | inl e ↦
      let wrapped : (l + x) % 2 ^ 64 < l = ground arith in
      rw e (omega arith, (omega arith, omega arith))
  | inr e ↦
      let kept : l ≤ (l + x) % 2 ^ 64 = ground arith in
      rw e (omega arith, (omega arith, omega arith))
]

-- The four products at their places, added up in two words.
abbrev sum_words : ℕ → ℕ → ℕ → ℕ → ℕ × ℕ
sum_words p00 p01 p10 p11 =
    let c =
      add_carry (shl64 (p11 % 2 ^ 52) 52)
        (add_carry (shl64 p10 26) (add_carry (shl64 p01 26) (0, p00))) in
    (u64 (u64 (u64 (c.0 + p11 / 2 ^ 12) + p01 / 2 ^ 38) + p10 / 2 ^ 38), c.1)

sum_words_lem :
    (p00 p01 p10 p11 : ℕ)
    → p00 < 2 ^ 52
    → p01 < 2 ^ 53
    → p10 < 2 ^ 53
    → p11 < 2 ^ 54
    → (two_words (sum_words p00 p01 p10 p11) ≡ p11 * 2 ^ 52 + (p01 + p10) * 2 ^ 26 + p00)
      × ((sum_words p00 p01 p10 p11).1 < 2 ^ 64)
sum_words_lem p00 p01 p10 p11 h00 h01 h10 h11 =
    let c₁ = add_carry (shl64 p01 26) (0, p00) in
    let s₁ =
      add_carry_lem (shl64 p01 26) 0 p00 1 (omega arith) (omega arith) (omega arith)
        (omega arith) in
    let c₂ = add_carry (shl64 p10 26) c₁ in
    let s₂ = add_carry_lem (shl64 p10 26) c₁.0 c₁.1 2 (omega arith) s₁.1.0 s₁.1.1 (omega arith) in
    let c₃ = add_carry (shl64 (p11 % 2 ^ 52) 52) c₂ in
    let s₃ =
      add_carry_lem (shl64 (p11 % 2 ^ 52) 52) c₂.0 c₂.1 3 (omega arith) s₂.1.0 s₂.1.1
        (omega arith) in
    let small : c₃.0 < 4 = s₃.1.0 in
    let total : c₃.0 * 2 ^ 64 + c₃.1 ≡ p00 + shl64 p01 26 + shl64 p10 26 + shl64 (p11 % 2 ^ 52) 52 =
      omega (arith, s₁.0, s₂.0, s₃.0) in
    (omega (arith, total, small), s₃.1.1)

mul-lt : (a b m n : ℕ) → a < m → b < n → a * b ≤ (m - 1) * (n - 1)
mul-lt a b m n ha hb = mul-le-mul {n₂ = m - 1} {m₂ = n - 1} (omega arith) (omega arith)

expanded :
    (ma mb : ℕ)
    → ma / 2 ^ 26 * (mb / 2 ^ 26) * 2 ^ 52
        + (ma % 2 ^ 26 * (mb / 2 ^ 26) + ma / 2 ^ 26 * (mb % 2 ^ 26)) * 2 ^ 26
        + ma % 2 ^ 26 * (mb % 2 ^ 26)
      ≡ ma * mb
expanded ma mb =
    let a : ma ≡ ma / 2 ^ 26 * 2 ^ 26 + ma % 2 ^ 26 = omega arith in
    let b : mb ≡ mb / 2 ^ 26 * 2 ^ 26 + mb % 2 ^ 26 = omega arith in
    let whole : ma * mb
        ≡ (ma / 2 ^ 26 * 2 ^ 26 + ma % 2 ^ 26) * (mb / 2 ^ 26 * 2 ^ 26 + mb % 2 ^ 26) =
      λ i. a i * b i in
    omega (arith, whole)

-- The two words hold the exact product.
product_words_lem :
    (ma mb : ℕ)
    → ma < 2 ^ 53
    → mb < 2 ^ 53
    → (two_words (product_words ma mb) ≡ ma * mb) × ((product_words ma mb).1 < 2 ^ 64)
unfolding product_words
product_words_lem ma mb ha hb =
    let al : u32 (ma % 2 ^ 26) ≡ ma % 2 ^ 26 = omega arith in
    let ah : u32 (ma / 2 ^ 26) ≡ ma / 2 ^ 26 = omega arith in
    let bl : u32 (mb % 2 ^ 26) ≡ mb % 2 ^ 26 = omega arith in
    let bh : u32 (mb / 2 ^ 26) ≡ mb / 2 ^ 26 = omega arith in
    let h00 = mul-lt (ma % 2 ^ 26) (mb % 2 ^ 26) (2 ^ 26) (2 ^ 26) (omega arith) (omega arith) in
    let h01 = mul-lt (ma % 2 ^ 26) (mb / 2 ^ 26) (2 ^ 26) (2 ^ 27) (omega arith) (omega arith) in
    let h10 = mul-lt (ma / 2 ^ 26) (mb % 2 ^ 26) (2 ^ 27) (2 ^ 26) (omega arith) (omega arith) in
    let h11 = mul-lt (ma / 2 ^ 26) (mb / 2 ^ 26) (2 ^ 27) (2 ^ 27) (omega arith) (omega arith) in
    let w00 : u64 (ma % 2 ^ 26 * (mb % 2 ^ 26)) ≡ ma % 2 ^ 26 * (mb % 2 ^ 26) =
      omega (arith, h00) in
    let w01 : u64 (ma % 2 ^ 26 * (mb / 2 ^ 26)) ≡ ma % 2 ^ 26 * (mb / 2 ^ 26) =
      omega (arith, h01) in
    let w10 : u64 (ma / 2 ^ 26 * (mb % 2 ^ 26)) ≡ ma / 2 ^ 26 * (mb % 2 ^ 26) =
      omega (arith, h10) in
    let w11 : u64 (ma / 2 ^ 26 * (mb / 2 ^ 26)) ≡ ma / 2 ^ 26 * (mb / 2 ^ 26) =
      omega (arith, h11) in
    let sum =
      sum_words_lem (ma % 2 ^ 26 * (mb % 2 ^ 26)) (ma % 2 ^ 26 * (mb / 2 ^ 26))
        (ma / 2 ^ 26 * (mb % 2 ^ 26)) (ma / 2 ^ 26 * (mb / 2 ^ 26)) (omega (arith, h00))
        (omega (arith, h01)) (omega (arith, h10)) (omega (arith, h11)) in
    rw (al, ah, bl, bh, w00, w01, w10, w11) (sum.0 ∙ expanded ma mb, sum.1)

split_words :
    (h l m : ℕ)
    → l < 2 ^ 64
    → h * 2 ^ 64 + l ≡ m
    → m < 2 ^ 106
    → split_product (h, l) ≡ (m / 2 ^ 53, m % 2 ^ 53)
unfolding split_product
split_words h l m small e fits =
    let upper : shl64 h 11 ≡ h * 2 ^ 11 = omega arith in
    let joined : bit_or (h * 2 ^ 11) (l / 2 ^ 53) ≡ h * 2 ^ 11 + l / 2 ^ 53 =
      bit_or-high_low 11 (l / 2 ^ 53) h (omega arith) in
    let high : (h * 2 ^ 11 + l / 2 ^ 53) % 2 ^ 53 ≡ m / 2 ^ 53 = omega arith in
    let low : l % 2 ^ 53 ≡ m % 2 ^ 53 = omega arith in rw (upper, joined, high, low) refl

-- For any two mantissas of 53 bits, the two halves that `__muldf3` passes on are the quotient and
-- the remainder of their exact product by 2 ^ 53: no carry and no bit is lost.
pub split_product_lem :
    (ma mb : ℕ)
    → ma < 2 ^ 53
    → mb < 2 ^ 53
    → split_product (product_words ma mb) ≡ (ma * mb / 2 ^ 53, ma * mb % 2 ^ 53)
split_product_lem ma mb ha hb =
    let words = product_words_lem ma mb ha hb in
    let p = product_words ma mb in
    split_words p.0 p.1 (ma * mb) words.1 words.0
      (omega (arith, mul-lt ma mb (2 ^ 53) (2 ^ 53) ha hb))
