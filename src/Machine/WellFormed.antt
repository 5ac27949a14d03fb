-- ===== src/Machine/WellFormed.antt =====
-- The ranges of the static variables of dpi-riscv/sim/iss/rv32_dpi.c, by their C types.
use herve.Base.{
  ℕ, ◌^◌, ◌<◌, ◌≡◌, Bool, true, false, arith, ◌==◌, inl, inr, if◌then◌else◌, Bool-cases, update,
}
use herve.Profiler.{InsnType}
use herve.Machine.{Machine, write_reg, profile, profile_if_enabled}

pub record IsRegs (regs : ℕ → ℕ) : Type 0 where
  pub zero_reg : regs 0 ≡ 0
  pub regs_lt : (r : ℕ) → regs r < 2 ^ 32

pub record IsRam (memory : ℕ → ℕ) (size base : ℕ) : Type 0 where
  pub memory_lt : (i : ℕ) → memory i < 256
  pub size_lt : size < 2 ^ 32
  pub base_lt : base < 2 ^ 32

pub record IsCsrs (irq mstatus mtvec mepc mcause mie mcycle : ℕ) : Type 0 where
  pub irq_lt : irq < 2 ^ 32
  pub mstatus_lt : mstatus < 2 ^ 32
  pub mtvec_lt : mtvec < 2 ^ 32
  pub mepc_lt : mepc < 2 ^ 32
  pub mcause_lt : mcause < 2 ^ 32
  pub mie_lt : mie < 2 ^ 32
  pub mcycle_lt : mcycle < 2 ^ 64

pub record IsHtif (tohost_lo tohost_hi fromhost_lo fromhost_hi exit_code : ℕ) : Type 0 where
  pub tohost_lo_lt : tohost_lo < 2 ^ 32
  pub tohost_hi_lt : tohost_hi < 2 ^ 32
  pub fromhost_lo_lt : fromhost_lo < 2 ^ 32
  pub fromhost_hi_lt : fromhost_hi < 2 ^ 32
  pub exit_code_lt : exit_code < 2 ^ 31

abbrev pub IsCsrsOf : Machine → Type 0
IsCsrsOf s =
    IsCsrs s.irq_mask s.csr_mstatus s.csr_mtvec s.csr_mepc s.csr_mcause s.csr_mie s.csr_mcycle

abbrev pub IsHtifOf : Machine → Type 0
IsHtifOf s =
    IsHtif s.htif_tohost_lo s.htif_tohost_hi s.htif_fromhost_lo s.htif_fromhost_hi s.htif_exit_code

pub record IsWellFormed (s : Machine) : Type 0 where
  pub regs_ok : IsRegs s.regs
  pub ram_ok : IsRam s.memory s.memory_size s.memory_base
  pub pc_ok : s.pc < 2 ^ 32
  pub csrs_ok : IsCsrsOf s
  pub htif_ok : IsHtifOf s

-- A state with the same words is as well formed.
pub IsWellFormed-of_parts :
    (s : Machine)
    → IsRegs s.regs
    → IsRam s.memory s.memory_size s.memory_base
    → s.pc < 2 ^ 32
    → IsCsrsOf s
    → IsHtifOf s
    → IsWellFormed s
IsWellFormed-of_parts s r m p c h = record {
  regs_ok = r;
  ram_ok = m;
  pc_ok = p;
  csrs_ok = c;
  htif_ok = h;
}

pub if-IsWellFormed :
    (b : Bool) {s t : Machine} → IsWellFormed s → IsWellFormed t → IsWellFormed (if b then s else t)
if-IsWellFormed true ws wt = ws
if-IsWellFormed false ws wt = wt

pub update-lt : (f : ℕ → ℕ) (i v bound j : ℕ) → f j < bound → v < bound → update f i v j < bound
update-lt f i v bound j h k = ground arith

update_zero : (f : ℕ → ℕ) (i v : ℕ) → (i == 0) ≡ false → f 0 ≡ 0 → update f i v 0 ≡ 0
update_zero f i v h e = ground arith

pub write_reg-IsWellFormed :
    (reg value : ℕ) {s : Machine}
    → value < 2 ^ 32
    → IsWellFormed s
    → IsWellFormed (write_reg reg value s)
unfolding write_reg
write_reg-IsWellFormed reg value {s} h w = elim (Bool-cases (reg == 0)) [
  | inl e ↦ rw e w
  | inr e ↦ rw e (IsWellFormed-of_parts _ (regs e) w.ram_ok w.pc_ok w.csrs_ok w.htif_ok)
]
  where
    regs : (reg == 0) ≡ false → IsRegs (update s.regs reg value)
    regs e = record {
      zero_reg = update_zero s.regs reg value e w.regs_ok.zero_reg;
      regs_lt = λ r. update-lt s.regs reg value (2 ^ 32) r (w.regs_ok.regs_lt r) h;
    }

pub jump-IsWellFormed :
    (target : ℕ) {s : Machine}
    → target < 2 ^ 32
    → IsWellFormed s
    → IsWellFormed (record s { pc = target })
jump-IsWellFormed target h w = IsWellFormed-of_parts _ w.regs_ok w.ram_ok h w.csrs_ok w.htif_ok

pub profile-IsWellFormed :
    (type : InsnType) (at insn : ℕ) {s : Machine}
    → IsWellFormed s
    → IsWellFormed (profile type at insn s)
unfolding profile
profile-IsWellFormed type at insn w =
    IsWellFormed-of_parts _ w.regs_ok w.ram_ok w.pc_ok w.csrs_ok w.htif_ok

pub profile_if_enabled-IsWellFormed :
    (type : InsnType) (at insn : ℕ) {s : Machine}
    → IsWellFormed s
    → IsWellFormed (profile_if_enabled type at insn s)
unfolding profile_if_enabled
profile_if_enabled-IsWellFormed type at insn {s} w =
    if-IsWellFormed s.profiler.enabled (profile-IsWellFormed type at insn w) w
