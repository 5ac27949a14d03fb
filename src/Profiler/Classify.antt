-- ===== src/Profiler/Classify.antt =====
-- `classify_insn_32` and `classify_insn_16` of dpi-riscv/sim/iss/herve_profiler.c.
use herve.Base.{ℕ, ◌&&◌, ◌==◌, if◌then◌else◌}
use herve.Word.{field}
use herve.Profiler.Defs.{CfType, cf_none, cf_call, cf_ret, cf_jump}

unfoldable pub classify_insn_32 : ℕ → CfType
classify_insn_32 insn =
    let opcode = field insn 0 7 in
    let rd = field insn 7 5 in
    let rs1 = field insn 15 5 in
    if opcode == 0x6f
    then (if rd == 0 then cf_jump else cf_call)
    else if opcode == 0x67
    then (if rd == 0 then (if rs1 == 1 then cf_ret else cf_jump) else cf_call)
    else cf_none

unfoldable pub classify_insn_16 : ℕ → CfType
classify_insn_16 insn =
    let quadrant = field insn 0 2 in
    let funct3 = field insn 13 3 in
    let funct4 = field insn 12 4 in
    let rs2 = field insn 2 5 in
    let rs1 = field insn 7 5 in
    if quadrant == 1
    then (if funct3 == 1 then cf_call else if funct3 == 5 then cf_jump else cf_none)
    else if quadrant == 2
    then (if funct4 == 8 && rs2 == 0
        then (if rs1 == 1 then cf_ret else cf_jump)
        else if funct4 == 9 && rs2 == 0
        then cf_call
        else cf_none)
    else cf_none
