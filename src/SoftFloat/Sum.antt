-- ===== src/SoftFloat/Sum.antt =====
-- Laws of `__adddf3` and `__subdf3` of dpi-riscv/softfloat.c.
use herve.Base.{
  ℕ, ◌+◌, ◌-◌, ◌*◌, ◌/◌, ◌%◌, ◌^◌, ◌<◌, ◌≡◌, ◌≢◌, refl, sym, arith, true, false, ◌&&◌, ◌==◌,
  if◌then◌else◌, ltb, leb, bit_xor, ◌∙◌, ap, ◌⊎◌, Bool-cases, inl, inr, ==-false, ==_iff, lt→ltb,
  le→leb, leb-false, ltb-false,
}
use herve.Word.Bits.Flip.{bit_xor-sign}
use herve.SoftFloat.Fields.{sign_mask, get_exp, get_mant, get_sign, with_leading_one}
use herve.SoftFloat.Add.{align, add_magnitudes, pack_difference, add_ordered, adddf3, subdf3}

-- A double that is no NaN, no infinity and no zero.
pub record IsOrdinary (a : ℕ) : Type 0 where
  pub word : a < 2 ^ 64
  pub finite : get_exp a ≢ 2047
  pub nonzero : a % 2 ^ 63 ≢ 0

zero_test : (a : ℕ) → IsOrdinary a → (get_exp a == 0 && get_mant a == 0) ≡ false
zero_test a h = ground arith

-- The sum of two ordinary numbers, without the tests for the others.
ordinary_sum : ℕ → ℕ → ℕ
ordinary_sum a b =
    if ltb (get_exp a) (get_exp b)
    then add_ordered (get_sign b) (get_exp b) (with_leading_one (get_exp b) (get_mant b))
        (get_sign a) (get_exp a) (with_leading_one (get_exp a) (get_mant a))
    else add_ordered (get_sign a) (get_exp a) (with_leading_one (get_exp a) (get_mant a))
        (get_sign b) (get_exp b) (with_leading_one (get_exp b) (get_mant b))

adddf3_ordinary : (a b : ℕ) → IsOrdinary a → IsOrdinary b → adddf3 a b ≡ ordinary_sum a b
unfolding adddf3 ordinary_sum
adddf3_ordinary a b ha hb =
    rw
      (
        ==-false (get_exp a) 2047 ha.finite,
        ==-false (get_exp b) 2047 hb.finite,
        zero_test a ha,
        zero_test b hb,
      )
      refl

align_none : (m : ℕ) → align 0 m ≡ m
unfolding align
align_none m = refl

pack_difference_none : (e s : ℕ) → pack_difference e 0 s ≡ 0
unfolding pack_difference
pack_difference_none e s = refl

==_swap : (x y : ℕ) → (x == y) ≡ (y == x)
==_swap x y = ground arith

add_magnitudes_comm : (e s ma mb : ℕ) → add_magnitudes e s ma mb ≡ add_magnitudes e s mb ma
unfolding add_magnitudes
add_magnitudes_comm e s ma mb = let q : ma + mb ≡ mb + ma = omega arith in rw q refl

compare_cases : (x y : ℕ) → (x < y) ⊎ (x ≡ y) ⊎ (y < x)
compare_cases x y = omega arith

difference_comm :
    (sa sb e ma mb : ℕ)
    → (if leb mb ma then pack_difference e (ma - mb) sa else pack_difference e (mb - ma) sb)
      ≡ (if leb ma mb then pack_difference e (mb - ma) sb else pack_difference e (ma - mb) sa)
difference_comm sa sb e ma mb = elim (compare_cases ma mb) [
  | inl lt ↦
      let p : leb mb ma ≡ false = leb-false mb ma lt in
      let q : leb ma mb ≡ true = le→leb ma mb (omega arith) in rw (p, q) refl
  | inr (inl eq) ↦
      let p : leb mb mb ≡ true = le→leb mb mb (omega arith) in
      let none : mb - mb ≡ 0 = omega arith in
      rw (eq, p, none, pack_difference_none e sa, pack_difference_none e sb) refl
  | inr (inr gt) ↦
      let p : leb mb ma ≡ true = le→leb mb ma (omega arith) in
      let q : leb ma mb ≡ false = leb-false ma mb gt in rw (p, q) refl
]

add_ordered_comm : (sa sb e ma mb : ℕ) → add_ordered sa e ma sb e mb ≡ add_ordered sb e mb sa e ma
unfolding add_ordered
add_ordered_comm sa sb e ma mb =
    let same : e - e ≡ 0 = omega arith in
    rw (same, align_none ma, align_none mb, ==_swap sb sa)
      (elim (Bool-cases (sa == sb)) [
        | inl p ↦ let q : sa ≡ sb = (==_iff sa sb).0 p in rw (p, q) (add_magnitudes_comm e sb ma mb)
        | inr p ↦ rw p (difference_comm sa sb e ma mb)
      ])

-- Addition of two numbers that are no NaN, no infinity and no zero gives the same in either order.
pub adddf3_comm : (a b : ℕ) → IsOrdinary a → IsOrdinary b → adddf3 a b ≡ adddf3 b a
unfolding ordinary_sum
adddf3_comm a b ha hb =
    rw (adddf3_ordinary a b ha hb, adddf3_ordinary b a hb ha)
      (elim (compare_cases (get_exp a) (get_exp b)) [
        | inl lt ↦
            let p = lt→ltb (get_exp a) (get_exp b) lt in
            let q : ltb (get_exp b) (get_exp a) ≡ false =
              ltb-false (get_exp b) (get_exp a) (omega arith) in
            rw (p, q) refl
        | inr (inl eq) ↦
            let p : ltb (get_exp b) (get_exp b) ≡ false =
              ltb-false (get_exp b) (get_exp b) (omega arith) in
            rw (eq, p)
              (add_ordered_comm (get_sign a) (get_sign b) (get_exp b)
                (with_leading_one (get_exp b) (get_mant a))
                (with_leading_one (get_exp b) (get_mant b)))
        | inr (inr gt) ↦
            let p = lt→ltb (get_exp b) (get_exp a) gt in
            let q : ltb (get_exp a) (get_exp b) ≡ false =
              ltb-false (get_exp a) (get_exp b) (omega arith) in
            rw (p, q) refl
      ])

flip_lem : (a : ℕ) → a < 2 ^ 64 → bit_xor a sign_mask ≡ a % 2 ^ 63 + (1 - a / 2 ^ 63) * 2 ^ 63
flip_lem a h =
    let whole : a % 2 ^ 63 + a / 2 ^ 63 * 2 ^ 63 ≡ a = omega arith in
    let flipped = bit_xor-sign (a % 2 ^ 63) (a / 2 ^ 63) (omega arith) (omega arith) in
    ap (λ (t : ℕ). bit_xor t sign_mask) (sym whole) ∙ flipped

-- `b` with the other sign: the fields of a word that differs from `a` in its upper bit.
flip_fields :
    (a : ℕ)
    → IsOrdinary a
    → (IsOrdinary (bit_xor a sign_mask))
      × (get_exp (bit_xor a sign_mask) ≡ get_exp a)
      × (get_mant (bit_xor a sign_mask) ≡ get_mant a)
      × (get_sign (bit_xor a sign_mask) ≡ 1 - get_sign a)
flip_fields a h = rw (flip_lem a h.word) (
    let e : (a % 2 ^ 63 + (1 - a / 2 ^ 63) * 2 ^ 63) / 2 ^ 52 % 2 ^ 11 ≡ a / 2 ^ 52 % 2 ^ 11 =
      omega arith in
    (
      record {
        word = omega arith;
        finite = λ z. h.finite (sym e ∙ z);
        nonzero = λ z. h.nonzero (omega arith);
      },
      e,
      omega arith,
      omega arith,
    ))

-- A number that is no NaN, no infinity and no zero, less itself, is +0.
pub subdf3_self : (a : ℕ) → IsOrdinary a → subdf3 a a ≡ 0
unfolding subdf3 ordinary_sum add_ordered
subdf3_self a h =
    let flip = flip_fields a h in
    let same : a / 2 ^ 52 % 2 ^ 11 - a / 2 ^ 52 % 2 ^ 11 ≡ 0 = omega arith in
    let equal : ltb (get_exp a) (get_exp a) ≡ false =
      ltb-false (get_exp a) (get_exp a) (omega arith) in
    let m = with_leading_one (get_exp a) (get_mant a) in
    let none : m - m ≡ 0 = omega arith in
    let whole : leb m m ≡ true = le→leb m m (omega arith) in
    let signs : (get_sign a == 1 - get_sign a) ≡ false =
      ==-false (get_sign a) (1 - get_sign a) (λ q. omega (arith, h.word)) in
    rw
      (
        adddf3_ordinary a (bit_xor a sign_mask) h flip.0,
        flip.1,
        flip.2,
        flip.3,
        equal,
        same,
        align_none m,
        signs,
        whole,
        none,
        pack_difference_none (get_exp a) (get_sign a),
      )
      refl
