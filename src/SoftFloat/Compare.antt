-- ===== src/SoftFloat/Compare.antt =====
-- `cmpdf3` and the six comparisons of dpi-riscv/softfloat.c.
use herve.Base.{ℕ, ◌%◌, ◌^◌, Bool, true, false, not, ◌==◌, ltb, if◌then◌else◌}
use herve.SoftFloat.Fields.{get_sign}

-- The results -1, 0 and 1.
pub data Order : Type 0 where
  less equal greater : Order

unfoldable pub cmpdf3 : ℕ → ℕ → Order
cmpdf3 a b =
    let sa = get_sign a in
    let sb = get_sign b in
    let mag_a = a % 2 ^ 63 in
    let mag_b = b % 2 ^ 63 in
    if a == b
    then equal
    else if not (sa == sb)
    then (if sa == 0 then greater else less)
    else if mag_a == mag_b
    then equal
    else if not (sa == 0)
    then (if ltb mag_b mag_a then less else greater)
    else if ltb mag_b mag_a
    then greater
    else less

-- `cmpdf3(a, b) < 0`, `== 0` and `> 0`.
abbrev pub is_less : Order → Bool
is_less less = true
is_less _ = false

abbrev pub is_equal : Order → Bool
is_equal equal = true
is_equal _ = false

abbrev pub is_greater : Order → Bool
is_greater greater = true
is_greater _ = false

-- `? 1 : 0`.
abbrev pub one_if : Bool → ℕ
one_if true = 1
one_if false = 0

unfoldable pub eqdf2 : ℕ → ℕ → ℕ
eqdf2 a b = one_if (is_equal (cmpdf3 a b))

unfoldable pub nedf2 : ℕ → ℕ → ℕ
nedf2 a b = one_if (not (is_equal (cmpdf3 a b)))

unfoldable pub gtdf2 : ℕ → ℕ → ℕ
gtdf2 a b = one_if (is_greater (cmpdf3 a b))

unfoldable pub gedf2 : ℕ → ℕ → ℕ
gedf2 a b = one_if (not (is_less (cmpdf3 a b)))

unfoldable pub ltdf2 : ℕ → ℕ → ℕ
ltdf2 a b = one_if (is_less (cmpdf3 a b))

unfoldable pub ledf2 : ℕ → ℕ → ℕ
ledf2 a b = one_if (not (is_greater (cmpdf3 a b)))
