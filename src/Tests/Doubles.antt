-- ===== src/Tests/Doubles.antt =====
-- The theorems on dpi-riscv/softfloat.c, applied to concrete numbers.
use herve.Base.{ℕ, ◌+◌, ◌-◌, ◌*◌, ◌/◌, ◌%◌, ◌^◌, ◌<◌, ◌≡◌, arith, inl, ltb, ◌==◌, if◌then◌else◌}
use herve.Word.Int.{pos, ◌+ℤ◌}
use herve.SoftFloat.Fields.{get_exp, get_mant, get_sign}
use herve.SoftFloat.Normalize.{normalize, pack}
use herve.SoftFloat.Multiply.{product_words, split_product}
use herve.SoftFloat.Compare.{one_if, ltdf2, gtdf2, eqdf2, ledf2, gedf2, nedf2}
use herve.SoftFloat.Convert.{floatunsidf, extendsfdf2, truncdfsf2}
use herve.SoftFloat.Ordering.{place, comparisons_place}
use herve.SoftFloat.Single.{truncdfsf2-extendsfdf2}
use herve.SoftFloat.Integers.{floatunsidf_value}
use herve.SoftFloat.Product.{split_product_lem}
use herve.SoftFloat.Rounding.{nearest, normalize-nearest}
use herve.SoftFloat.Sum.{IsOrdinary}

-- 1.5 and -2.
abbrev one_and_a_half : ℕ
one_and_a_half = 0x3FF8000000000000

abbrev minus_two : ℕ
minus_two = 0xC000000000000000

one_and_a_half-IsOrdinary : IsOrdinary one_and_a_half
one_and_a_half-IsOrdinary = record {
  word = omega arith;
  finite = omega arith;
  nonzero = omega arith;
}

minus_two-IsOrdinary : IsOrdinary minus_two
minus_two-IsOrdinary = record { word = omega arith; finite = omega arith; nonzero = omega arith }

comparisons_place_example :
    (ltdf2 minus_two one_and_a_half ≡ one_if (ltb (place minus_two) (place one_and_a_half)))
    × (gtdf2 minus_two one_and_a_half ≡ one_if (ltb (place one_and_a_half) (place minus_two)))
    × (eqdf2 minus_two one_and_a_half ≡ one_if (place minus_two == place one_and_a_half))
    × (ledf2 minus_two one_and_a_half ≡ 1 - gtdf2 minus_two one_and_a_half)
    × (gedf2 minus_two one_and_a_half ≡ 1 - ltdf2 minus_two one_and_a_half)
    × (nedf2 minus_two one_and_a_half ≡ 1 - eqdf2 minus_two one_and_a_half)
comparisons_place_example = comparisons_place minus_two one_and_a_half (omega arith) (omega arith)

-- -1.25 as a float.
truncdfsf2-extendsfdf2_example : truncdfsf2 (extendsfdf2 0xBFA00000) ≡ 0xBFA00000
truncdfsf2-extendsfdf2_example =
    truncdfsf2-extendsfdf2 0xBFA00000 (omega arith) (inl (omega arith, omega arith))

floatunsidf_value_example :
    ((2 ^ 52 + get_mant (floatunsidf 7)) * 2 ^ get_exp (floatunsidf 7) ≡ 7 * 2 ^ 1054)
    × (get_sign (floatunsidf 7) ≡ 0)
    × (floatunsidf 7 < 2 ^ 64)
floatunsidf_value_example = floatunsidf_value 7 (omega arith) (omega arith)

split_product_lem_example :
    split_product (product_words 0x18000000000001 0x1FFFFFFFFFFFFF)
    ≡ (0x18000000000001 * 0x1FFFFFFFFFFFFF / 2 ^ 53, 0x18000000000001 * 0x1FFFFFFFFFFFFF % 2 ^ 53)
split_product_lem_example =
    split_product_lem 0x18000000000001 0x1FFFFFFFFFFFFF (omega arith) (omega arith)

-- A product a little above 1.5, which is rounded up.
abbrev product_above : ℕ
product_above = 3 * 2 ^ 103 + 3 * 2 ^ 50

normalize-nearest_example :
    normalize (product_above / 2 ^ 53) (product_above % 2 ^ 53) (pos 1023) 0 ≡ (
      if ltb product_above (2 ^ 105)
      then pack (pos 1023) (nearest product_above - 2 ^ 52) 0
      else pack (pos 1023 +ℤ pos 1) (product_above / 2 ^ 53 - 2 ^ 52) 0)
normalize-nearest_example =
    normalize-nearest product_above (pos 1023) 0 (omega arith) (omega arith) (inl (omega arith))
