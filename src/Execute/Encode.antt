-- ===== src/Execute/Encode.antt =====
-- The immediates of 32-bit instructions against the formats of the RISC-V manual: an assembler
-- that places the bits of an immediate as the manual says, and the decoder that takes them back.
use herve.Base.{ℕ, ◌+◌, ◌-◌, ◌*◌, ◌/◌, ◌%◌, ◌^◌, ◌<◌, ◌≡◌, refl, arith, bit_or, ◌∙◌}
use herve.Word.{field, signed32}
use herve.Word.Bits.{bit_or-low_high}
use herve.Word.Extend.{signed32-sign_extend, signed_field}
use herve.Execute.Decode.{imm_i, imm_s, imm_b, imm_j}

-- Bits `hi` down to `lo` of an immediate.
abbrev pub slice : ℕ → ℕ → ℕ → ℕ
slice imm hi lo = imm / 2 ^ lo % 2 ^ (hi + 1 - lo)

-- An I-type instruction from its low 20 bits and a 12-bit immediate: imm[11:0] in bits 31:20.
abbrev pub encode_i : ℕ → ℕ → ℕ
encode_i rest imm = rest % 2 ^ 20 + slice imm 11 0 * 2 ^ 20

-- S-type: imm[11:5] in bits 31:25, imm[4:0] in bits 11:7; the other fields from `rest`.
abbrev pub encode_s : ℕ → ℕ → ℕ
encode_s rest imm =
    slice rest 6 0 + slice imm 4 0 * 2 ^ 7 + slice rest 24 12 * 2 ^ 12 + slice imm 11 5 * 2 ^ 25

-- B-type: imm[12|10:5] in bits 31:25 and imm[4:1|11] in bits 11:7.
abbrev pub encode_b : ℕ → ℕ → ℕ
encode_b rest imm =
    slice rest 6 0
    + slice imm 11 11 * 2 ^ 7
    + slice imm 4 1 * 2 ^ 8
    + slice rest 24 12 * 2 ^ 12
    + slice imm 10 5 * 2 ^ 25
    + slice imm 12 12 * 2 ^ 31

-- J-type: imm[20|10:1|11|19:12] in bits 31:12.
abbrev pub encode_j : ℕ → ℕ → ℕ
encode_j rest imm =
    slice rest 11 0
    + slice imm 19 12 * 2 ^ 12
    + slice imm 11 11 * 2 ^ 20
    + slice imm 10 1 * 2 ^ 21
    + slice imm 20 20 * 2 ^ 31

-- The fields that the decoder joins, for a branch: they are disjoint, so that `|` adds them up.
joined_b :
    (a b c d : ℕ)
    → a < 2 ^ 4
    → b < 2 ^ 6
    → c < 2
    → bit_or (bit_or (bit_or (a * 2) (b * 2 ^ 5)) (c * 2 ^ 11)) (d * 2 ^ 12)
      ≡ a * 2 + b * 2 ^ 5 + c * 2 ^ 11 + d * 2 ^ 12
joined_b a b c d ha hb hc =
    rw
      (
        bit_or-low_high 5 (a * 2) b (omega arith),
        bit_or-low_high 11 (a * 2 + b * 2 ^ 5) c (omega arith),
        bit_or-low_high 12 (a * 2 + b * 2 ^ 5 + c * 2 ^ 11) d (omega arith),
      )
      refl

-- The same for JAL.
joined_j :
    (a b c d : ℕ)
    → a < 2 ^ 10
    → b < 2
    → c < 2 ^ 8
    → bit_or (bit_or (bit_or (a * 2) (b * 2 ^ 11)) (c * 2 ^ 12)) (d * 2 ^ 20)
      ≡ a * 2 + b * 2 ^ 11 + c * 2 ^ 12 + d * 2 ^ 20
joined_j a b c d ha hb hc =
    rw
      (
        bit_or-low_high 11 (a * 2) b (omega arith),
        bit_or-low_high 12 (a * 2 + b * 2 ^ 11) c (omega arith),
        bit_or-low_high 20 (a * 2 + b * 2 ^ 11 + c * 2 ^ 12) d (omega arith),
      )
      refl

-- For an I-type instruction with a given 12-bit immediate, whatever its other bits, the decoder's
-- word stands for the immediate read as a signed number of 12 bits.
pub imm_i-encode :
    (rest imm : ℕ) → imm < 2 ^ 12 → signed32 (imm_i (encode_i rest imm)) ≡ signed_field 12 imm
unfolding imm_i
imm_i-encode rest imm h =
    let taken : encode_i rest imm / 2 ^ 20 ≡ imm = omega arith in
    rw taken (signed32-sign_extend imm 12 (omega arith) (omega arith) h)

-- For an S-type instruction with a given 12-bit immediate, whatever its other bits, the decoder's
-- word stands for the immediate read as a signed number of 12 bits.
pub imm_s-encode :
    (rest imm : ℕ) → imm < 2 ^ 12 → signed32 (imm_s (encode_s rest imm)) ≡ signed_field 12 imm
unfolding imm_s
imm_s-encode rest imm h =
    let insn = encode_s rest imm in
    let low : field insn 7 5 ≡ imm % 2 ^ 5 = omega arith in
    let high : field insn 25 7 ≡ imm / 2 ^ 5 = omega arith in
    let joined : bit_or (field insn 7 5) (field insn 25 7 * 2 ^ 5) ≡ imm =
      rw (low, high, bit_or-low_high 5 (imm % 2 ^ 5) (imm / 2 ^ 5) (omega arith)) (omega arith) in
    rw joined (signed32-sign_extend imm 12 (omega arith) (omega arith) h)

-- For a branch with a given even offset of 13 bits, whatever its other bits, the decoder's word
-- stands for the offset read as a signed number of 13 bits.
pub imm_b-encode :
    (rest imm : ℕ)
    → imm < 2 ^ 13
    → imm % 2 ≡ 0
    → signed32 (imm_b (encode_b rest imm)) ≡ signed_field 13 imm
unfolding imm_b
imm_b-encode rest imm h even =
    let insn = encode_b rest imm in
    let a : field insn 8 4 ≡ slice imm 4 1 = omega arith in
    let b : field insn 25 6 ≡ slice imm 10 5 = omega arith in
    let c : field insn 7 1 ≡ slice imm 11 11 = omega arith in
    let d : insn / 2 ^ 31 ≡ slice imm 12 12 = omega arith in
    let joined : _ ≡ imm =
      joined_b (field insn 8 4) (field insn 25 6) (field insn 7 1) (insn / 2 ^ 31) (omega arith)
        (omega arith) (omega arith)
      ∙ rw (a, b, c, d) (omega arith) in
    rw joined (signed32-sign_extend imm 13 (omega arith) (omega arith) h)

-- For a JAL with a given even offset of 21 bits, whatever its other bits, the decoder's word
-- stands for the offset read as a signed number of 21 bits.
pub imm_j-encode :
    (rest imm : ℕ)
    → imm < 2 ^ 21
    → imm % 2 ≡ 0
    → signed32 (imm_j (encode_j rest imm)) ≡ signed_field 21 imm
unfolding imm_j
imm_j-encode rest imm h even =
    let insn = encode_j rest imm in
    let a : field insn 21 10 ≡ slice imm 10 1 = omega arith in
    let b : field insn 20 1 ≡ slice imm 11 11 = omega arith in
    let c : field insn 12 8 ≡ slice imm 19 12 = omega arith in
    let d : insn / 2 ^ 31 ≡ slice imm 20 20 = omega arith in
    let joined : _ ≡ imm =
      joined_j (field insn 21 10) (field insn 20 1) (field insn 12 8) (insn / 2 ^ 31) (omega arith)
        (omega arith) (omega arith)
      ∙ rw (a, b, c, d) (omega arith) in
    rw joined (signed32-sign_extend imm 21 (omega arith) (omega arith) h)
