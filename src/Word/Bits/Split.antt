-- ===== src/Word/Bits/Split.antt =====
-- `&` and `|` of two words, taken apart at a bit.
use native.Mathlib.Nat.{pow-suc}
use herve.Base.{
  ℕ, zero, suc, ◌+◌, ◌-◌, ◌*◌, ◌/◌, ◌%◌, ◌^◌, ◌<◌, ◌≡◌, arith, ap, refl, bit_and, bit_or,
}
use herve.Word.Bits.Step.{bit_and_step, bit_or_step}

-- The upper and lower part of two words of which each is taken apart at bit `k`.
pub bit_and-split :
    (k x y q p : ℕ)
    → x < 2 ^ k
    → y < 2 ^ k
    → bit_and (x + q * 2 ^ k) (y + p * 2 ^ k) ≡ bit_and x y + bit_and q p * 2 ^ k
bit_and-split zero x y q p hx hy =
    let none_x : x ≡ 0 = omega arith in
    let none_y : y ≡ 0 = omega arith in
    let same_q : 0 + q * 1 ≡ q = omega arith in
    let same_p : 0 + p * 1 ≡ p = omega arith in
    let nothing : bit_and 0 0 ≡ 0 = refl in
    rw (none_x, none_y, same_q, same_p, nothing) (omega arith)
bit_and-split (suc k) x y q p hx hy =
    let double = pow-suc 2 k in
    let up_q = ap (λ (t : ℕ). q * t) double in
    let up_p = ap (λ (t : ℕ). p * t) double in
    let up = ap (λ (t : ℕ). bit_and q p * t) double in
    let half_x : (x + q * 2 ^ suc k) / 2 ≡ x / 2 + q * 2 ^ k = omega (arith, up_q) in
    let half_y : (y + p * 2 ^ suc k) / 2 ≡ y / 2 + p * 2 ^ k = omega (arith, up_p) in
    let low_x : (x + q * 2 ^ suc k) % 2 ≡ x % 2 = omega (arith, up_q) in
    let low_y : (y + p * 2 ^ suc k) % 2 ≡ y % 2 = omega (arith, up_p) in
    let rest =
      bit_and-split k (x / 2) (y / 2) q p (omega (arith, double)) (omega (arith, double)) in
    rw
      (
        bit_and_step (x + q * 2 ^ suc k) (y + p * 2 ^ suc k),
        half_x,
        half_y,
        low_x,
        low_y,
        rest,
        bit_and_step x y,
      )
      (omega (arith, up))

pub bit_or-split :
    (k x y q p : ℕ)
    → x < 2 ^ k
    → y < 2 ^ k
    → bit_or (x + q * 2 ^ k) (y + p * 2 ^ k) ≡ bit_or x y + bit_or q p * 2 ^ k
bit_or-split zero x y q p hx hy =
    let none_x : x ≡ 0 = omega arith in
    let none_y : y ≡ 0 = omega arith in
    let same_q : 0 + q * 1 ≡ q = omega arith in
    let same_p : 0 + p * 1 ≡ p = omega arith in
    let nothing : bit_or 0 0 ≡ 0 = refl in
    rw (none_x, none_y, same_q, same_p, nothing) (omega arith)
bit_or-split (suc k) x y q p hx hy =
    let double = pow-suc 2 k in
    let up_q = ap (λ (t : ℕ). q * t) double in
    let up_p = ap (λ (t : ℕ). p * t) double in
    let up = ap (λ (t : ℕ). bit_or q p * t) double in
    let half_x : (x + q * 2 ^ suc k) / 2 ≡ x / 2 + q * 2 ^ k = omega (arith, up_q) in
    let half_y : (y + p * 2 ^ suc k) / 2 ≡ y / 2 + p * 2 ^ k = omega (arith, up_p) in
    let low_x : (x + q * 2 ^ suc k) % 2 ≡ x % 2 = omega (arith, up_q) in
    let low_y : (y + p * 2 ^ suc k) % 2 ≡ y % 2 = omega (arith, up_p) in
    let rest = bit_or-split k (x / 2) (y / 2) q p (omega (arith, double)) (omega (arith, double)) in
    rw
      (
        bit_or_step (x + q * 2 ^ suc k) (y + p * 2 ^ suc k),
        half_x,
        half_y,
        low_x,
        low_y,
        rest,
        bit_or_step x y,
      )
      (omega (arith, up))

pub bit_and-ones : (k x : ℕ) → x < 2 ^ k → bit_and x (2 ^ k - 1) ≡ x
bit_and-ones zero x h = let none : x ≡ 0 = omega arith in rw none refl
bit_and-ones (suc k) x h =
    let double = pow-suc 2 k in
    let half : (2 ^ suc k - 1) / 2 ≡ 2 ^ k - 1 = omega (arith, double) in
    let low : (2 ^ suc k - 1) % 2 ≡ 1 = omega (arith, double) in
    let rest = bit_and-ones k (x / 2) (omega (arith, double)) in
    rw (bit_and_step x (2 ^ suc k - 1), half, low, rest) (omega arith)

pub bit_and-none : (k x : ℕ) → x < 2 ^ k → bit_and x 0 ≡ 0
bit_and-none zero x h = let none : x ≡ 0 = omega arith in rw none refl
bit_and-none (suc k) x h =
    let rest = bit_and-none k (x / 2) (omega (arith, pow-suc 2 k)) in
    rw (bit_and_step x 0, rest) (omega arith)
