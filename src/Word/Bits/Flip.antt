-- ===== src/Word/Bits/Flip.antt =====
-- `^` with a power of two: one bit is flipped and the lower ones are kept.
use native.Mathlib.Nat.{pow-suc}
use herve.Base.{ℕ, zero, suc, ◌+◌, ◌-◌, ◌*◌, ◌/◌, ◌%◌, ◌^◌, ◌<◌, ◌≡◌, arith, ap, bit_xor}
use herve.Word.Bits.Step.{bit_xor_step}

pub bit_xor-power :
    (k x q : ℕ) → x < 2 ^ k → bit_xor (x + q * 2 ^ k) (2 ^ k) ≡ x + bit_xor q 1 * 2 ^ k
bit_xor-power zero zero q h = let same : 0 + q * 1 ≡ q = omega arith in rw same (omega arith)
bit_xor-power zero (suc x) q h = absurd (omega arith)
bit_xor-power (suc k) x q h =
    let double = pow-suc 2 k in
    let scaled = ap (λ (t : ℕ). q * t) double in
    let flipped = ap (λ (t : ℕ). bit_xor q 1 * t) double in
    let half : (x + q * 2 ^ suc k) / 2 ≡ x / 2 + q * 2 ^ k = omega (arith, scaled) in
    let half' : 2 ^ suc k / 2 ≡ 2 ^ k = omega (arith, double) in
    let low : (x + q * 2 ^ suc k + 2 ^ suc k) % 2 ≡ x % 2 = omega (arith, scaled, double) in
    let rest = bit_xor-power k (x / 2) q (omega (arith, double)) in
    rw (bit_xor_step (x + q * 2 ^ suc k) (2 ^ suc k), half, half', low, rest)
      (omega (arith, flipped))

-- The upper bit of a word of 64 bits.
pub bit_xor-sign :
    (x s : ℕ) → x < 2 ^ 63 → s < 2 → bit_xor (x + s * 2 ^ 63) (2 ^ 63) ≡ x + (1 - s) * 2 ^ 63
bit_xor-sign x zero h hs = bit_xor-power 63 x 0 h
bit_xor-sign x (suc zero) h hs = bit_xor-power 63 x 1 h
bit_xor-sign x (suc (suc s)) h hs = absurd (omega arith)
