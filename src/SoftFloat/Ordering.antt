-- ===== src/SoftFloat/Ordering.antt =====
-- The comparison of dpi-riscv/softfloat.c against the order of numbers.
use herve.Base.{ℕ, ◌+◌, ◌-◌, ◌^◌, ◌<◌, ◌≡◌, arith, ltb, ◌==◌, if◌then◌else◌}
use herve.SoftFloat.Compare.{
  Order, less, equal, greater, cmpdf3, one_if, eqdf2, nedf2, gtdf2, gedf2, ltdf2, ledf2,
}

-- The place of a double in the order of all patterns from the largest negative one to the largest
-- positive one: of two doubles that are no NaNs, the smaller one has the smaller place, and
-- -0 stands directly below +0.
abbrev pub place : ℕ → ℕ
place a = if ltb a (2 ^ 63) then 2 ^ 63 + a else 2 ^ 64 - 1 - a

abbrev pub order_of : ℕ → ℕ → Order
order_of x y = if ltb x y then less else if x == y then equal else greater

cmpdf3-order_of : (a b : ℕ) → a < 2 ^ 64 → b < 2 ^ 64 → cmpdf3 a b ≡ order_of (place a) (place b)
unfolding cmpdf3
cmpdf3-order_of a b ha hb = ground arith

-- The six comparisons of any two 64-bit patterns are those of their places in the order of all
-- patterns, as 1 and 0.
pub comparisons_place :
    (a b : ℕ)
    → a < 2 ^ 64
    → b < 2 ^ 64
    → (ltdf2 a b ≡ one_if (ltb (place a) (place b)))
      × (gtdf2 a b ≡ one_if (ltb (place b) (place a)))
      × (eqdf2 a b ≡ one_if (place a == place b))
      × (ledf2 a b ≡ 1 - gtdf2 a b)
      × (gedf2 a b ≡ 1 - ltdf2 a b)
      × (nedf2 a b ≡ 1 - eqdf2 a b)
unfolding ltdf2 gtdf2 eqdf2 ledf2 gedf2 nedf2
comparisons_place a b ha hb = rw (cmpdf3-order_of a b ha hb) (ground arith)
