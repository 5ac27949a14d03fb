-- ===== src/Compressed/Encode.antt =====
-- The immediates of compressed instructions against the formats of the RISC-V manual: an assembler
-- that places the bits of an immediate as the manual says, and what `execute_compressed` of
-- dpi-riscv/sim/iss/rv32_dpi.c takes from the instruction.
use herve.Base.{ℕ, ◌+◌, ◌*◌, ◌/◌, ◌%◌, ◌^◌, ◌<◌, ◌≡◌, refl, arith, bit_or, ◌∙◌}
use herve.Word.{field, signed32}
use herve.Word.Bits.{bit_or-low_high, bit_or-high_low}
use herve.Word.Extend.{signed32-sign_extend, signed_field}
use herve.Execute.Encode.{slice}
use herve.Compressed.Immediate.{move, imm_ci, imm_ci_signed, offset_lw, offset_j, offset_b}

-- CI format: imm[5] in bit 12 and imm[4:0] in bits 6:2.
abbrev pub encode_ci : ℕ → ℕ → ℕ
encode_ci rest imm =
    slice rest 1 0
    + slice imm 4 0 * 2 ^ 2
    + slice rest 11 7 * 2 ^ 7
    + slice imm 5 5 * 2 ^ 12
    + slice rest 15 13 * 2 ^ 13

-- CJ format: offset[11|4|9:8|10|6|7|3:1|5] in bits 12:2.
abbrev pub encode_cj : ℕ → ℕ → ℕ
encode_cj rest off =
    slice rest 1 0
    + slice off 5 5 * 2 ^ 2
    + slice off 3 1 * 2 ^ 3
    + slice off 7 7 * 2 ^ 6
    + slice off 6 6 * 2 ^ 7
    + slice off 10 10 * 2 ^ 8
    + slice off 9 8 * 2 ^ 9
    + slice off 4 4 * 2 ^ 11
    + slice off 11 11 * 2 ^ 12
    + slice rest 15 13 * 2 ^ 13

-- CB format: offset[8|4:3] in bits 12:10 and offset[7:6|2:1|5] in bits 6:2.
abbrev pub encode_cb : ℕ → ℕ → ℕ
encode_cb rest off =
    slice rest 1 0
    + slice off 5 5 * 2 ^ 2
    + slice off 2 1 * 2 ^ 3
    + slice off 6 6 * 2 ^ 5
    + slice off 7 7 * 2 ^ 6
    + slice rest 9 7 * 2 ^ 7
    + slice off 4 3 * 2 ^ 10
    + slice off 8 8 * 2 ^ 12
    + slice rest 15 13 * 2 ^ 13

-- CL and CS formats of words: offset[5:3] in bits 12:10, offset[2] in bit 6 and offset[6] in bit 5.
abbrev pub encode_cl : ℕ → ℕ → ℕ
encode_cl rest off =
    slice rest 4 0
    + slice off 6 6 * 2 ^ 5
    + slice off 2 2 * 2 ^ 6
    + slice rest 9 7 * 2 ^ 7
    + slice off 5 3 * 2 ^ 10
    + slice rest 15 13 * 2 ^ 13

-- For C.ADDI, C.LI and C.ANDI with a given 6-bit immediate, whatever the other bits, the decoder's
-- word stands for the immediate read as a signed number of 6 bits.
pub imm_ci_signed-encode :
    (rest imm : ℕ)
    → imm < 2 ^ 6
    → signed32 (imm_ci_signed (encode_ci rest imm)) ≡ signed_field 6 imm
unfolding imm_ci_signed imm_ci
imm_ci_signed-encode rest imm h =
    let insn = encode_ci rest imm in
    let high : field insn 12 1 ≡ imm / 2 ^ 5 = omega arith in
    let low : field insn 2 5 ≡ imm % 2 ^ 5 = omega arith in
    let joined : bit_or (move insn 12 5) (field insn 2 5) ≡ imm =
      rw (high, low, bit_or-high_low 5 (imm % 2 ^ 5) (imm / 2 ^ 5) (omega arith)) (omega arith) in
    rw joined (signed32-sign_extend imm 6 (omega arith) (omega arith) h)

joined_cj :
    (a b c d e f g h : ℕ)
    → a < 8
    → b < 2
    → c < 2
    → d < 2
    → e < 2
    → f < 4
    → g < 2
    → bit_or
        (bit_or
          (bit_or
            (bit_or
              (bit_or (bit_or (bit_or (a * 2) (b * 2 ^ 4)) (c * 2 ^ 5)) (d * 2 ^ 6))
              (e * 2 ^ 7))
            (f * 2 ^ 8))
          (g * 2 ^ 10))
        (h * 2 ^ 11)
      ≡ a * 2 + b * 2 ^ 4 + c * 2 ^ 5 + d * 2 ^ 6 + e * 2 ^ 7 + f * 2 ^ 8 + g * 2 ^ 10 + h * 2 ^ 11
joined_cj a b c d e f g h ha hb hc hd he hf hg =
    let p = a * 2 in
    let q = p + b * 2 ^ 4 in
    let r = q + c * 2 ^ 5 in
    let s = r + d * 2 ^ 6 in
    let t = s + e * 2 ^ 7 in
    let u = t + f * 2 ^ 8 in
    rw
      (
        bit_or-low_high 4 p b (omega arith),
        bit_or-low_high 5 q c (omega arith),
        bit_or-low_high 6 r d (omega arith),
        bit_or-low_high 7 s e (omega arith),
        bit_or-low_high 8 t f (omega arith),
        bit_or-low_high 10 u g (omega arith),
        bit_or-low_high 11 (u + g * 2 ^ 10) h (omega arith),
      )
      refl

-- For C.J and C.JAL with a given even offset of 12 bits, whatever the other bits, the decoder's word
-- stands for the offset read as a signed number of 12 bits.
pub offset_j-encode :
    (rest off : ℕ)
    → off < 2 ^ 12
    → off % 2 ≡ 0
    → signed32 (offset_j (encode_cj rest off)) ≡ signed_field 12 off
unfolding offset_j
offset_j-encode rest off small even =
    let insn = encode_cj rest off in
    let a : field insn 3 3 ≡ slice off 3 1 = omega arith in
    let b : field insn 11 1 ≡ slice off 4 4 = omega arith in
    let c : field insn 2 1 ≡ slice off 5 5 = omega arith in
    let d : field insn 7 1 ≡ slice off 6 6 = omega arith in
    let e : field insn 6 1 ≡ slice off 7 7 = omega arith in
    let f : field insn 9 2 ≡ slice off 9 8 = omega arith in
    let g : field insn 8 1 ≡ slice off 10 10 = omega arith in
    let h : field insn 12 1 ≡ slice off 11 11 = omega arith in
    let joined : _ ≡ off =
      joined_cj (field insn 3 3) (field insn 11 1) (field insn 2 1) (field insn 7 1)
        (field insn 6 1) (field insn 9 2) (field insn 8 1) (field insn 12 1) (omega arith)
        (omega arith) (omega arith) (omega arith) (omega arith) (omega arith) (omega arith)
      ∙ rw (a, b, c, d, e, f, g, h) (omega arith) in
    rw joined (signed32-sign_extend off 12 (omega arith) (omega arith) small)

joined_cb :
    (a b c d e : ℕ)
    → a < 4
    → b < 4
    → c < 2
    → d < 2
    → bit_or (bit_or (bit_or (bit_or (a * 2) (b * 2 ^ 3)) (c * 2 ^ 5)) (d * 2 ^ 6)) (e * 2 ^ 8)
      ≡ a * 2 + b * 2 ^ 3 + c * 2 ^ 5 + d * 2 ^ 6 + e * 2 ^ 8
joined_cb a b c d e ha hb hc hd =
    let p = a * 2 in
    let q = p + b * 2 ^ 3 in
    let r = q + c * 2 ^ 5 in
    rw
      (
        bit_or-low_high 3 p b (omega arith),
        bit_or-low_high 5 q c (omega arith),
        bit_or-low_high 6 r d (omega arith),
        bit_or-low_high 8 (r + d * 2 ^ 6) e (omega arith),
      )
      refl

-- For C.BEQZ and C.BNEZ with a given even offset of 9 bits, whatever the other bits, the decoder's
-- word stands for the offset without its bit 7, read as a signed number of 9 bits.
pub offset_b-encode :
    (rest off : ℕ)
    → off < 2 ^ 9
    → off % 2 ≡ 0
    → signed32 (offset_b (encode_cb rest off)) ≡ signed_field 9 (off % 2 ^ 7 + off / 2 ^ 8 * 2 ^ 8)
unfolding offset_b
offset_b-encode rest off small even =
    let insn = encode_cb rest off in
    let a : field insn 3 2 ≡ slice off 2 1 = omega arith in
    let b : field insn 10 2 ≡ slice off 4 3 = omega arith in
    let c : field insn 2 1 ≡ slice off 5 5 = omega arith in
    let d : field insn 5 1 ≡ slice off 6 6 = omega arith in
    let e : field insn 12 1 ≡ slice off 8 8 = omega arith in
    let joined : _ ≡ off % 2 ^ 7 + off / 2 ^ 8 * 2 ^ 8 =
      joined_cb (field insn 3 2) (field insn 10 2) (field insn 2 1) (field insn 5 1)
        (field insn 12 1) (omega arith) (omega arith) (omega arith) (omega arith)
      ∙ rw (a, b, c, d, e) (omega arith) in
    rw joined (signed32-sign_extend _ 9 (omega arith) (omega arith) (omega arith))

-- For C.LW and C.SW with a given offset of 7 bits that is a multiple of 4, whatever the other bits,
-- the decoder takes bit 6 of the offset for bit 1: it has the right offset below 64 only.
pub offset_lw-encode :
    (rest off : ℕ)
    → off < 2 ^ 7
    → off % 4 ≡ 0
    → offset_lw (encode_cl rest off) ≡ off % 2 ^ 6 + off / 2 ^ 6 * 2
unfolding offset_lw
offset_lw-encode rest off small aligned =
    let insn = encode_cl rest off in
    let a : field insn 10 3 ≡ slice off 5 3 = omega arith in
    let b : field insn 5 2 ≡ slice off 6 6 + slice off 2 2 * 2 = omega arith in
    rw (bit_or-high_low 3 (field insn 5 2 * 2) (field insn 10 3) (omega arith), a, b) (omega arith)
