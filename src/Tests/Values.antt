-- ===== src/Tests/Values.antt =====
-- The theorems on immediates, products and quotients, applied to concrete words.
use herve.Compressed.Encode.{encode_cb, encode_cl, offset_b-encode, offset_lw-encode}
use herve.Compressed.Immediate.{offset_b, offset_lw}
use herve.Base.{◌<◌, ◌≤◌, ◌≡◌, refl, arith}
use herve.Word.{signed32}
use herve.Word.Int.{◌*ℤ◌, ◌+ℤ◌, nat_abs, pos_part, neg_part}
use herve.Word.Extend.{signed_field}
use herve.Execute.MulDiv.{div_value, rem_value}
use herve.Execute.Division.{div-rem_lem}
use herve.Execute.Product.{signed64, whole, mulh-mul}

-- -7 and 2.
div-rem_lem_example :
    let q = signed32 (div_value 0xFFFFFFF9 2) in
    let r = signed32 (rem_value 0xFFFFFFF9 2) in
    (q *ℤ signed32 2 +ℤ r ≡ signed32 0xFFFFFFF9)
    × (nat_abs r < nat_abs (signed32 2))
    × (pos_part r ≤ pos_part (signed32 0xFFFFFFF9))
    × (neg_part r ≤ neg_part (signed32 0xFFFFFFF9))
div-rem_lem_example = div-rem_lem 0xFFFFFFF9 2 (omega arith) (omega arith) (omega arith) refl

mulh-mul_example : signed64 (whole 1 0xFFFFFFF9 3) ≡ signed32 0xFFFFFFF9 *ℤ signed32 3
mulh-mul_example = mulh-mul 0xFFFFFFF9 3 (omega arith) (omega arith)

offset_b-encode_example : signed32 (offset_b (encode_cb 0xC001 0x0FE)) ≡ signed_field 9 0x07E
offset_b-encode_example = offset_b-encode 0xC001 0x0FE (omega arith) refl

offset_lw-encode_example : offset_lw (encode_cl 0x4000 0x44) ≡ 6
offset_lw-encode_example = offset_lw-encode 0x4000 0x44 (omega arith) refl
