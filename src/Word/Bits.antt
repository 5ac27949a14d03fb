-- ===== src/Word/Bits.antt =====
-- `&`, `|` and `^` at variables: single bits, bounds, and `|` of disjoint fields as a sum.
mod Step
pub mod Flip
pub mod Split
use Step.{bit_or_step, bit_and_step, bit_xor_step}
use Prim.Native.Nat.{min, max}
use native.Mathlib.Nat.{pow-suc, pow-succ', div-div-eq-div-mul, one-le-pow, pow-le-pow_right}
use herve.Base.{ℕ, zero, suc, ◌+◌, ◌*◌, ◌/◌, ◌%◌, ◌^◌, ◌≤◌, ◌<◌, ◌≡◌, refl, ap, arith}
use herve.Base.{
  bit_and, bit_or, bit_xor, ◌-◌, ◌==◌, ==_iff, ◌≢◌, Bool-cases, inl, inr, if◌then◌else◌, true,
  passes_below, passes_below_lem,
}

bit_or_from_zero : (b : ℕ) → bit_or 0 b ≡ b
bit_or_from_zero b = Prim.Native.Nat.bit_or-bitwise 0 b

zero-bit_xor : (b : ℕ) → bit_xor 0 b ≡ b
zero-bit_xor b = Prim.Native.Nat.bit_xor-bitwise 0 b

bit_or-zero_within : (n a : ℕ) → a ≤ n → bit_or a 0 ≡ a
bit_or-zero_within n zero h = bit_or_from_zero 0
bit_or-zero_within zero (suc a) h = absurd (omega arith)
bit_or-zero_within (suc n) (suc a) h =
    omega (arith, bit_or_step (suc a) 0, bit_or-zero_within n (suc a / 2) (omega arith))

pub bit_or-zero : (a : ℕ) → bit_or a 0 ≡ a
bit_or-zero a = bit_or-zero_within a a (omega arith)

-- Words of `k` bits stay words of `k` bits.
pub bit_or-lt : (k a b : ℕ) → a < 2 ^ k → b < 2 ^ k → bit_or a b < 2 ^ k
bit_or-lt zero zero b ha hb = omega (arith, bit_or_from_zero b)
bit_or-lt zero (suc a) b ha hb = absurd (omega arith)
bit_or-lt (suc k) a b ha hb = omega (
  arith,
  bit_or_step a b,
  pow-suc 2 k,
  bit_or-lt k (a / 2) (b / 2) (omega (arith, pow-suc 2 k)) (omega (arith, pow-suc 2 k)),
)

pub bit_xor-lt : (k a b : ℕ) → a < 2 ^ k → b < 2 ^ k → bit_xor a b < 2 ^ k
bit_xor-lt zero zero b ha hb = omega (arith, zero-bit_xor b)
bit_xor-lt zero (suc a) b ha hb = absurd (omega arith)
bit_xor-lt (suc k) a b ha hb = omega (
  arith,
  bit_xor_step a b,
  pow-suc 2 k,
  bit_xor-lt k (a / 2) (b / 2) (omega (arith, pow-suc 2 k)) (omega (arith, pow-suc 2 k)),
)

bit_and-le_fuel : (n a b : ℕ) → a ≤ n → bit_and a b ≤ a
bit_and-le_fuel zero zero b h = omega (arith, Prim.Native.Nat.bit_and-bitwise 0 b)
bit_and-le_fuel zero (suc a) b h = absurd (omega arith)
bit_and-le_fuel (suc n) zero b h = omega (arith, Prim.Native.Nat.bit_and-bitwise 0 b)
bit_and-le_fuel (suc n) (suc a) b h =
    omega (arith, bit_and_step (suc a) b, bit_and-le_fuel n (suc a / 2) (b / 2) (omega arith))

pub bit_and-le : (a b : ℕ) → bit_and a b ≤ a
bit_and-le a b = bit_and-le_fuel a a b (omega arith)

-- Bit `k` of a word.
abbrev pub bit : ℕ → ℕ → ℕ
bit k x = x / 2 ^ k % 2

halve : (k x : ℕ) → x / 2 ^ suc k ≡ x / 2 / 2 ^ k
halve k x = rw (pow-succ', div-div-eq-div-mul)

pub bit-bit_or : (k a b : ℕ) → bit k (bit_or a b) ≡ max (bit k a) (bit k b)
bit-bit_or zero a b = omega (arith, bit_or_step a b)
bit-bit_or (suc k) a b =
    let e : bit_or a b / 2 ≡ bit_or (a / 2) (b / 2) = omega (arith, bit_or_step a b) in
    rw (halve k (bit_or a b), halve k a, halve k b, e) (bit-bit_or k (a / 2) (b / 2))

pub bit-bit_and : (k a b : ℕ) → bit k (bit_and a b) ≡ min (bit k a) (bit k b)
bit-bit_and zero a b = omega (arith, bit_and_step a b)
bit-bit_and (suc k) a b =
    let e : bit_and a b / 2 ≡ bit_and (a / 2) (b / 2) = omega (arith, bit_and_step a b) in
    rw (halve k (bit_and a b), halve k a, halve k b, e) (bit-bit_and k (a / 2) (b / 2))

-- `x | (q << k)` and `(q << k) | x` are sums when `x` fits in `k` bits.
pub bit_or-low_high : (k x q : ℕ) → x < 2 ^ k → bit_or x (q * 2 ^ k) ≡ x + q * 2 ^ k
bit_or-low_high zero zero q h = omega (arith, bit_or_from_zero (q * 1))
bit_or-low_high zero (suc x) q h = absurd (omega arith)
bit_or-low_high (suc k) x q h = ground (
  arith,
  bit_or_step x (q * 2 ^ suc k),
  ap (λ (t : ℕ). q * t) (pow-suc 2 k),
  bit_or-low_high k (x / 2) q (omega (arith, pow-suc 2 k)),
)

pub bit_or-high_low : (k x q : ℕ) → x < 2 ^ k → bit_or (q * 2 ^ k) x ≡ q * 2 ^ k + x
bit_or-high_low zero zero q h = omega (arith, bit_or_step (q * 1) 0, bit_or-zero (q * 1))
bit_or-high_low zero (suc x) q h = absurd (omega arith)
bit_or-high_low (suc k) x q h = ground (
  arith,
  bit_or_step (q * 2 ^ suc k) x,
  ap (λ (t : ℕ). q * t) (pow-suc 2 k),
  bit_or-high_low k (x / 2) q (omega (arith, pow-suc 2 k)),
)

-- Words with the same bits are the same.
pub bits_ext : (n a b : ℕ) → a < 2 ^ n → b < 2 ^ n → ((k : ℕ) → k < n → bit k a ≡ bit k b) → a ≡ b
bits_ext zero a b ha hb h = omega arith
bits_ext (suc n) a b ha hb h =
    let rest : a / 2 ≡ b / 2 =
      bits_ext n (a / 2) (b / 2) (omega (arith, pow-suc 2 n)) (omega (arith, pow-suc 2 n))
        (λ k lt. let e = h (suc k) (omega arith) in rw (← halve k a, ← halve k b) e) in
    omega (arith, rest, h 0 (omega arith))

-- `~(1 << c)` has every bit but bit `c`.
pub bit-not_power :
    (k c : ℕ) → k < 32 → c < 32 → bit k (2 ^ 32 - 1 - 2 ^ c) ≡ (if k == c then 0 else 1)
bit-not_power k c hk hc =
    (==_iff _ _).0 (passes_below_lem _ 32 (passes_below_lem _ 32 table k hk) c hc)
  where
    table :
        passes_below
          (λ k. passes_below (λ c. bit k (2 ^ 32 - 1 - 2 ^ c) == (if k == c then 0 else 1)) 32)
          32
        ≡ true
    table = unfold passes_below in refl

-- `a & ~(1 << c)` clears bit `c` and keeps the others.
pub bit-clear_self : (a c : ℕ) → c < 32 → bit c (bit_and a (2 ^ 32 - 1 - 2 ^ c)) ≡ 0
bit-clear_self a c h = ground (arith, bit-bit_and c a (2 ^ 32 - 1 - 2 ^ c), bit-not_power c c h h)

pub bit-clear_ne :
    (a k c : ℕ) → k < 32 → c < 32 → k ≢ c → bit k (bit_and a (2 ^ 32 - 1 - 2 ^ c)) ≡ bit k a
bit-clear_ne a k c hk hc ne =
    ground (arith, bit-bit_and k a (2 ^ 32 - 1 - 2 ^ c), bit-not_power k c hk hc)

-- `(a & ~8) | 8` is `a` where bit 3 is set.
pub set_clear_three : (a : ℕ) → a < 2 ^ 32 → bit 3 a ≡ 1 → bit_or (bit_and a (2 ^ 32 - 1 - 8)) 8 ≡ a
set_clear_three a ha e =
    bits_ext 32 _ a (bit_or-lt 32 _ 8 (omega (arith, bit_and-le a (2 ^ 32 - 1 - 8))) (omega arith))
      ha
      λ k h. elim (Bool-cases (k == 3)) [
        | inl at ↦
            let three : k ≡ 3 = (==_iff k 3).0 at in
            rw three (
              omega (
                arith,
                bit-bit_or 3 (bit_and a (2 ^ 32 - 1 - 8)) 8,
                bit-bit_and 3 a (2 ^ 32 - 1 - 8),
                e,
              ))
        | inr off ↦ ground (
          arith,
          bit-bit_or k (bit_and a (2 ^ 32 - 1 - 8)) 8,
          bit-clear_ne a k 3 h (omega arith),
          eight k h,
        )
      ]
  where
    table : passes_below (λ k. bit k 8 == (if k == 3 then 1 else 0)) 32 ≡ true
    table = unfold passes_below in refl

    eight : (k : ℕ) → k < 32 → bit k 8 ≡ (if k == 3 then 1 else 0)
    eight k h = (==_iff _ _).0 (passes_below_lem _ 32 table k h)

-- `a & (2 ^ n - 1)` and `a & ~(1 << c)` on words of `n` bits, as arithmetic.
bit_and-ones : (n a : ℕ) → a < 2 ^ n → bit_and a (2 ^ n - 1) ≡ a
bit_and-ones zero a h = omega (arith, bit_and-le a 0)
bit_and-ones (suc n) a h =
    let half : (2 ^ suc n - 1) / 2 ≡ 2 ^ n - 1 = omega (arith, pow-suc 2 n) in
    let rest : bit_and (a / 2) ((2 ^ suc n - 1) / 2) ≡ a / 2 =
      rw half (bit_and-ones n (a / 2) (omega (arith, pow-suc 2 n))) in
    omega (arith, bit_and_step a (2 ^ suc n - 1), rest, pow-suc 2 n, one-le-pow n 2 (omega arith))

pub bit_and-clear :
    (n c a : ℕ) → c < n → a < 2 ^ n → bit c a ≡ 1 → bit_and a (2 ^ n - 1 - 2 ^ c) + 2 ^ c ≡ a
bit_and-clear zero c a lt h e = absurd (omega arith)
bit_and-clear (suc n) zero a lt h e =
    let half : (2 ^ suc n - 1 - 1) / 2 ≡ 2 ^ n - 1 = omega (arith, pow-suc 2 n) in
    let rest : bit_and (a / 2) ((2 ^ suc n - 1 - 1) / 2) ≡ a / 2 =
      rw half (bit_and-ones n (a / 2) (omega (arith, pow-suc 2 n))) in
    omega
      (arith, bit_and_step a (2 ^ suc n - 1 - 1), rest, pow-suc 2 n, one-le-pow n 2 (omega arith))
bit_and-clear (suc n) (suc c) a lt h e =
    let mask : ℕ = 2 ^ suc n - 1 - 2 ^ suc c in
    let below : 2 ^ c < 2 ^ n = omega (
      arith,
      pow-le-pow_right {n = 2} (omega arith) {i = suc c} {j = n} (omega arith),
      pow-suc 2 c,
      one-le-pow c 2 (omega arith),
    ) in
    let half : mask / 2 ≡ 2 ^ n - 1 - 2 ^ c = omega (arith, pow-suc 2 n, pow-suc 2 c, below) in
    let odd : mask % 2 ≡ 1 = omega (arith, pow-suc 2 n, pow-suc 2 c, below) in
    let rest : bit_and (a / 2) (2 ^ n - 1 - 2 ^ c) + 2 ^ c ≡ a / 2 =
      bit_and-clear n c (a / 2) (omega arith) (omega (arith, pow-suc 2 n)) (rw (← halve c a) e) in
    let step : bit_and a mask ≡ bit_and (a / 2) (2 ^ n - 1 - 2 ^ c) * 2 + a % 2 =
      rw (bit_and_step a mask, half, odd) (omega arith) in
    omega (arith, step, rest, pow-suc 2 c)
