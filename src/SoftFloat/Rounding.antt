-- ===== src/SoftFloat/Rounding.antt =====
-- Rounding in `normalize` of dpi-riscv/softfloat.c, and `__muldf3` by one.
use herve.Base.{
  ℕ, zero, suc, le→leb, ◌+◌, ◌-◌, ◌*◌, ◌/◌, ◌%◌, ◌^◌, ◌≤◌, ◌<◌, ◌≡◌, refl, arith, Bool, true, false,
  not, ◌==◌, if◌then◌else◌, ltb, bit_or, bit_xor, ◌∙◌, Bool-cases, inl, inr, ==-false, ltb→lt,
  lt→ltb, ◌⊎◌,
}
use herve.Word.{u64}
use herve.Word.Bits.{bit_or-high_low}
use herve.Word.Int.{ℤ, pos, sub_ℕ, ◌+ℤ◌}
use herve.SoftFloat.Fields.{shl64, has_bit, get_exp, get_mant, get_sign, with_leading_one}
use herve.SoftFloat.Normalize.{pack, rounds_up, round_and_pack, normalize}
use herve.SoftFloat.Multiply.{muldf3, split_product, product_words}
use herve.SoftFloat.Pack.{pack_sum_lem, with_leading_one_sum}
use herve.SoftFloat.Product.{split_product_lem}

-- The upper bits of the mantissa, from its two halves of 53 bits.
upper_bits :
    (m : ℕ) → m < 2 ^ 106 → bit_or (shl64 (m / 2 ^ 53) 1) (m % 2 ^ 53 / 2 ^ 52) ≡ m / 2 ^ 52
upper_bits m small =
    let moved : shl64 (m / 2 ^ 53) 1 ≡ m / 2 ^ 53 * 2 ^ 1 = omega arith in
    rw moved (bit_or-high_low 1 (m % 2 ^ 53 / 2 ^ 52) (m / 2 ^ 53) (omega arith) ∙ omega arith)

-- `m` of 105 bits divided by 2 ^ 52, to the nearest number, downwards from the middle.
abbrev pub nearest : ℕ → ℕ
nearest m = (m + 2 ^ 51 - 1) / 2 ^ 52

-- The test on the three bits below the mantissa: is the rest above the middle?
abbrev above_middle : ℕ → Bool
above_middle m =
    rounds_up (m % 2 ^ 53 / 2 ^ 51 % 2) (m % 2 ^ 53 / 2 ^ 50 % 2) (not (m % 2 ^ 53 % 2 ^ 50 == 0))

above_middle_lem : (m : ℕ) → above_middle m ≡ ltb (2 ^ 51) (m % 2 ^ 52)
above_middle_lem m = ground arith

round_lem :
    (m : ℕ) (exp : ℤ) (sign : ℕ)
    → 2 ^ 104 ≤ m
    → m < 2 ^ 105
    → nearest m < 2 ^ 53
    → round_and_pack
        (m % 2 ^ 53 / 2 ^ 51 % 2)
        (m % 2 ^ 53 / 2 ^ 50 % 2)
        (not (m % 2 ^ 53 % 2 ^ 50 == 0))
        (m / 2 ^ 52 % 2 ^ 52)
        exp
        sign
      ≡ pack exp (nearest m - 2 ^ 52) sign
unfolding round_and_pack
round_lem m exp sign low high fits = elim (Bool-cases (ltb (2 ^ 51) (m % 2 ^ 52))) [
  | inl e ↦
      let above : 2 ^ 51 < m % 2 ^ 52 = ltb→lt _ _ e in
      let word : u64 (m / 2 ^ 52 % 2 ^ 52 + 1) ≡ nearest m - 2 ^ 52 = omega arith in
      let no_carry : has_bit 53 (nearest m - 2 ^ 52) ≡ false = ground arith in
      let same : (nearest m - 2 ^ 52) % 2 ^ 52 ≡ nearest m - 2 ^ 52 = omega arith in
      rw (above_middle_lem m, e, word, no_carry, same) refl
  | inr e ↦
      let below : m % 2 ^ 52 ≤ 2 ^ 51 = ground arith in
      let same : m / 2 ^ 52 % 2 ^ 52 % 2 ^ 52 ≡ nearest m - 2 ^ 52 = omega arith in
      rw (above_middle_lem m, e, same) refl
]

-- With no bits below the guard bit, nothing is rounded up.
cut_lem :
    (guard mant : ℕ) (exp : ℤ) (sign : ℕ)
    → round_and_pack guard 0 false mant exp sign ≡ pack exp (mant % 2 ^ 52) sign
unfolding round_and_pack
cut_lem guard mant exp sign =
    let never : rounds_up guard 0 false ≡ false = ground arith in rw never refl

-- A product of 105 bits is rounded to the nearest mantissa of 53 bits, and downwards where it lies in
-- the middle of two, unless that rounding carries into the next power of two; a product of 106 bits
-- is cut off. The result is packed with its exponent, which is one larger for a product of 106 bits.
pub normalize-nearest :
    (m : ℕ) (exp : ℤ) (sign : ℕ)
    → 2 ^ 104 ≤ m
    → m < 2 ^ 106
    → nearest m < 2 ^ 53 ⊎ 2 ^ 105 ≤ m
    → normalize (m / 2 ^ 53) (m % 2 ^ 53) exp sign ≡ (
        if ltb m (2 ^ 105)
        then pack exp (nearest m - 2 ^ 52) sign
        else pack (exp +ℤ pos 1) (m / 2 ^ 53 - 2 ^ 52) sign)
unfolding normalize
normalize-nearest m exp sign low fits no_carry = elim (Bool-cases (ltb m (2 ^ 105))) [
  | inl e ↦
      let high : m < 2 ^ 105 = ltb→lt _ _ e in
      let nonzero : (m / 2 ^ 53 == 0) ≡ false = ground arith in
      let leading : (m / 2 ^ 52 == 0) ≡ false = ground arith in
      let narrow : has_bit 53 (m / 2 ^ 52) ≡ false = ground arith in
      let near : nearest m < 2 ^ 53 = elim no_carry [ inl h ↦ h | inr h ↦ absurd (omega arith) ] in
      rw (e, upper_bits m fits, nonzero, leading, narrow) (round_lem m exp sign low high near)
  | inr e ↦
      let high : 2 ^ 105 ≤ m = ground arith in
      let nonzero : (m / 2 ^ 53 == 0) ≡ false = ground arith in
      let leading : (m / 2 ^ 52 == 0) ≡ false = ground arith in
      let wide : has_bit 53 (m / 2 ^ 52) ≡ true = ground arith in
      let same : m / 2 ^ 52 / 2 % 2 ^ 52 % 2 ^ 52 ≡ m / 2 ^ 53 - 2 ^ 52 = omega arith in
      rw (e, upper_bits m fits, nonzero, leading, wide)
        (cut_lem (m / 2 ^ 52 % 2) (m / 2 ^ 52 / 2 % 2 ^ 52) (exp +ℤ pos 1) sign ∙ rw same refl)
]

sub_ℕ_back : (n m : ℕ) → sub_ℕ (n + m) m ≡ pos n
sub_ℕ_back n m =
    let same : n + m - m ≡ n = omega arith in rw (le→leb m (n + m) (omega arith), same) refl

bit_xor_zero : (s : ℕ) → s < 2 → bit_xor s 0 ≡ s
bit_xor_zero zero h = refl
bit_xor_zero (suc zero) h = refl
bit_xor_zero (suc (suc s)) h = absurd (omega arith)

-- A double that is normal, times one, is itself.
pub muldf3-one :
    (a : ℕ) → a < 2 ^ 64 → 0 < get_exp a → get_exp a < 2047 → muldf3 a 0x3FF0000000000000 ≡ a
unfolding muldf3
muldf3-one a word positive finite =
    let ma : ℕ = get_mant a + 2 ^ 52 in
    let lead : with_leading_one (get_exp a) (get_mant a) ≡ ma =
      with_leading_one_sum (get_exp a) (get_mant a) (omega arith) (omega arith) in
    let one : with_leading_one 1023 0 ≡ 2 ^ 52 =
      with_leading_one_sum 1023 0 (omega arith) (omega arith) in
    let m : ℕ = ma * 2 ^ 52 in
    let parts : split_product (product_words ma (2 ^ 52)) ≡ (m / 2 ^ 53, m % 2 ^ 53) =
      split_product_lem ma (2 ^ 52) (omega arith) (omega arith) in
    let narrow : ltb m (2 ^ 105) ≡ true = lt→ltb _ _ (omega arith) in
    let near : nearest m ≡ ma = omega arith in
    let done =
      normalize-nearest m (sub_ℕ (get_exp a + 1023) 1023) (bit_xor (get_sign a) 0) (omega arith)
        (omega arith) (inl (omega arith)) in
    let exp : sub_ℕ (get_exp a + 1023) 1023 ≡ pos (get_exp a) = sub_ℕ_back (get_exp a) 1023 in
    let sign : bit_xor (get_sign a) 0 ≡ get_sign a = bit_xor_zero (get_sign a) (omega arith) in
    let mant : ma - 2 ^ 52 ≡ get_mant a = omega arith in
    let packed =
      pack_sum_lem (get_exp a) (get_mant a) (get_sign a) positive finite (omega arith)
        (omega arith) in
    rw
      (
        lead,
        one,
        parts,
        ==-false (get_exp a) 2047 (omega arith),
        ==-false (get_exp a) 0 (omega arith),
      )
      (done ∙ rw (exp, sign, narrow, near, mant, packed) (omega arith))
