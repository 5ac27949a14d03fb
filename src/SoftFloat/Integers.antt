-- ===== src/SoftFloat/Integers.antt =====
-- The conversions of dpi-riscv/softfloat.c between integers and doubles, against the value of a
-- double: (2 ^ 52 + mantissa) * 2 ^ (exponent - 1075), with its sign.
use native.Mathlib.Nat.{pow-suc, mul-le-mul, div-mul-le_self, pow-le-pow_right, mul_assoc}
use herve.Base.{
  ℕ, zero, suc, ◌+◌, ◌-◌, ◌*◌, ◌/◌, ◌%◌, ◌^◌, ◌≤◌, ◌<◌, ◌≡◌, ◌≢◌, inl, inr, refl, arith, true,
  false, ◌==◌, if◌then◌else◌, bit_or, ap, ==-false, ==_iff, ltb-false, lt→ltb, Bool-cases, some,
}
use herve.Word.{u32, u64, sub32, signed32}
use herve.Word.Extend.{pow_split}
use herve.Word.Bits.{bit_or-low_high}
use herve.Word.Int.{ℤ, pos, sub_ℕ}
use herve.SoftFloat.Fields.{has_bit, shl64, get_exp, get_mant, get_sign}
use herve.SoftFloat.Pack.{exp_mant_sum}
use herve.SoftFloat.Convert.{float_loop, floatunsidf, fixdfsi}

float_loop_next :
    (fuel mant exp k : ℕ)
    → mant < 2 ^ 52
    → has_bit 52 mant ≡ false
    → float_loop fuel (mant * 2) (exp - 1) ≡ (mant * 2 * 2 ^ k, exp - 1 - k)
    → float_loop (suc fuel) mant exp ≡ (mant * 2 ^ suc k, exp - suc k)
unfolding float_loop
float_loop_next fuel mant exp k low e rest =
    let word : mant * 2 % 2 ^ 64 ≡ mant * 2 = omega arith in
    let moved : mant * 2 * 2 ^ k ≡ mant * 2 ^ suc k =
      omega (arith, ap (λ t. mant * t) (pow-suc 2 k)) in
    let down : exp - 1 - k ≡ exp - suc k = omega arith in rw (e, word, rest, moved, down) refl

-- The loop moves a number that is not 0 up by some `k` places until bit 52 is its highest bit.
float_loop_lem :
    (fuel mant exp : ℕ)
    → mant < 2 ^ 53
    → 2 ^ 52 ≤ mant * 2 ^ fuel
    → fuel ≤ exp
    → (k : ℕ) × (k ≤ fuel)
      × (float_loop fuel mant exp ≡ (mant * 2 ^ k, exp - k))
      × (2 ^ 52 ≤ mant * 2 ^ k)
      × (mant * 2 ^ k < 2 ^ 53)
unfolding float_loop
float_loop_lem zero mant exp small reach room =
    let same : mant * 1 ≡ mant = omega arith in
    let still : exp - 0 ≡ exp = omega arith in
    (0, omega arith, rw (same, still) refl, omega arith, omega arith)
float_loop_lem (suc fuel) mant exp small reach room = elim (Bool-cases (has_bit 52 mant)) [
  | inl e ↦
      let same : mant * 1 ≡ mant = omega arith in
      let still : exp - 0 ≡ exp = omega arith in
      let high : mant / 2 ^ 52 % 2 ≡ 1 = (==_iff _ _).0 e in
      (0, omega arith, rw (e, same, still) refl, omega arith, omega arith)
  | inr e ↦
      let low : mant < 2 ^ 52 = ground arith in
      let grown : mant * 2 * 2 ^ fuel ≡ mant * 2 ^ suc fuel =
        omega (arith, ap (λ t. mant * t) (pow-suc 2 fuel)) in
      let rest =
        float_loop_lem fuel (mant * 2) (exp - 1) (omega arith) (omega (arith, grown))
          (omega arith) in
      let k = rest.0 in
      let moved : mant * 2 * 2 ^ k ≡ mant * 2 ^ suc k =
        omega (arith, ap (λ t. mant * t) (pow-suc 2 k)) in
      (
        suc k,
        omega (arith, rest.1),
        float_loop_next fuel mant exp k low e rest.2,
        omega (arith, rest.3, moved),
        omega (arith, rest.4, moved),
      )
]

float_loop_more :
    (fuel more mant exp : ℕ)
    → has_bit 52 (float_loop fuel mant exp).0 ≡ true
    → float_loop (fuel + more) mant exp ≡ float_loop fuel mant exp
unfolding float_loop
float_loop_more zero zero mant exp e = refl
float_loop_more zero (suc more) mant exp e =
    let same : 0 + suc more ≡ suc more = omega arith in rw (same, e) refl
float_loop_more (suc fuel) more mant exp e =
    let same : suc fuel + more ≡ suc (fuel + more) = omega arith in
    rw same (elim (Bool-cases (has_bit 52 mant)) [
      | inl found ↦ rw found refl
      | inr not_yet ↦
          rw not_yet (float_loop_more fuel more (u64 (mant * 2)) (exp - 1) (rw not_yet at e))
    ])

-- For a 32-bit number other than 0 the loop of `__floatunsidf` ends by its own test within 52 rounds:
-- bit 52 is set then, and any further rounds of fuel give the same result.
pub float_loop_enough :
    (a more : ℕ)
    → a ≢ 0
    → a < 2 ^ 32
    → (has_bit 52 (float_loop 52 a 1054).0 ≡ true)
      × (float_loop (52 + more) a 1054 ≡ float_loop 52 a 1054)
float_loop_enough a more ne word =
    let found = float_loop_lem 52 a 1054 (omega arith) (omega arith) (omega arith) in
    let ends = top_bit (a * 2 ^ found.0) found.3 found.4 in
    let e : has_bit 52 (float_loop 52 a 1054).0 ≡ true = rw (found.2) ends in
    (e, float_loop_more 52 more a 1054 e)
  where
    top_bit : (m : ℕ) → 2 ^ 52 ≤ m → m < 2 ^ 53 → has_bit 52 m ≡ true
    top_bit m low high = ground arith

-- A 32-bit unsigned number other than 0 becomes a positive double that stands for exactly that number
-- divided by 2 ^ 21: the mantissa with its leading 1, times 2 to the exponent, is the number times
-- 2 ^ 1054, where the value 1 has the exponent 1075 in place of 1054.
pub floatunsidf_value :
    (a : ℕ)
    → a ≢ 0
    → a < 2 ^ 32
    → let r = floatunsidf a in
      ((2 ^ 52 + get_mant r) * 2 ^ get_exp r ≡ a * 2 ^ 1054) × (get_sign r ≡ 0) × (r < 2 ^ 64)
unfolding floatunsidf
floatunsidf_value a ne word =
    let found = float_loop_lem 52 a 1054 (omega arith) (omega arith) (omega arith) in
    rw (==-false a 0 ne, found.2) (joined found.0 (omega (arith, found.1)) found.3 found.4)
  where
    joined :
        (k : ℕ)
        → k ≤ 52
        → 2 ^ 52 ≤ a * 2 ^ k
        → a * 2 ^ k < 2 ^ 53
        → let r = bit_or (shl64 (1054 - k) 52) (a * 2 ^ k % 2 ^ 52) in
          ((2 ^ 52 + get_mant r) * 2 ^ get_exp r ≡ a * 2 ^ 1054) × (get_sign r ≡ 0) × (r < 2 ^ 64)
    joined k hk low high =
        let sum = exp_mant_sum (1054 - k) (a * 2 ^ k % 2 ^ 52) (omega arith) (omega arith) in
        let r : ℕ = (1054 - k) * 2 ^ 52 + a * 2 ^ k % 2 ^ 52 in
        let mant : 2 ^ 52 + r % 2 ^ 52 ≡ a * 2 ^ k = omega arith in
        let exp : r / 2 ^ 52 % 2 ^ 11 ≡ 1054 - k = omega arith in
        rw sum (
          rw
              (
                mant,
                exp,
                mul_assoc a (2 ^ k) (2 ^ (1054 - k)),
                pow_split k (1054 - k) 1054 (omega arith),
              )
              refl,
          omega arith,
          omega arith,
        )

-- The integer of `q`, negated where the sign is 1.
abbrev pub signed_by : ℕ → ℕ → ℤ
signed_by sign q = if sign == 0 then pos q else sub_ℕ 0 q

quotient-lt : (ma shift : ℕ) → ma < 2 ^ 53 → 22 ≤ shift → ma / 2 ^ shift < 2 ^ 31
quotient-lt ma shift small large =
    let power : 2 ^ 22 ≤ 2 ^ shift = pow-le-pow_right (omega arith) large in
    let whole : ma / 2 ^ shift * 2 ^ shift ≤ ma = div-mul-le_self ma (2 ^ shift) in
    let part : ma / 2 ^ shift * 2 ^ 22 ≤ ma / 2 ^ shift * 2 ^ shift =
      mul-le-mul (omega arith) power in
    omega arith

signed_result :
    (sign q : ℕ)
    → q < 2 ^ 31
    → sign < 2
    → signed32 (if sign == 0 then u32 q else sub32 0 (u32 q)) ≡ signed_by sign q
signed_result sign q small s = ground arith

-- A double of absolute value below 2 ^ 31 and not below 2 ^ -11 is converted to the integer that is
-- left when its fraction is cut off: the mantissa with its leading 1 divided by the power of two
-- that the exponent asks for, with the sign of the double.
pub fixdfsi_value :
    (a : ℕ)
    → a < 2 ^ 64
    → 1012 ≤ get_exp a
    → get_exp a ≤ 1053
    → (w : ℕ) × (fixdfsi a ≡ some w)
      × (signed32 w ≡ signed_by (get_sign a) ((2 ^ 52 + get_mant a) / 2 ^ (1075 - get_exp a)))
unfolding fixdfsi
fixdfsi_value a word low high =
    let one : bit_or (get_mant a) (2 ^ 52) ≡ get_mant a + 2 ^ 52 =
      bit_or-low_high 52 (get_mant a) 1 (omega arith) in
    let order : get_mant a + 2 ^ 52 ≡ 2 ^ 52 + get_mant a = omega arith in
    let q = (2 ^ 52 + get_mant a) / 2 ^ (1075 - get_exp a) in
    (
      if get_sign a == 0 then u32 q else sub32 0 (u32 q),
      rw
          (
            one,
            order,
            ==-false (get_exp a) 0 (omega arith),
            ==-false (get_exp a) 2047 (omega arith),
            ltb-false 1075 (get_exp a) (omega arith),
            lt→ltb (1075 - get_exp a) 64 (omega arith),
          )
          refl,
      signed_result (get_sign a) q
          (quotient-lt (2 ^ 52 + get_mant a) (1075 - get_exp a) (omega arith) (omega arith))
          (omega arith),
    )
