-- ===== src/Boot/Establish.antt =====
-- What the initialisations of dpi-riscv/sim/iss/rv32_dpi.c establish, and what they leave as it is.
use herve.Base.{
  ℕ, zero, suc, ◌^◌, ◌<◌, ◌≡◌, refl, Bool, true, arith, Option, some, none, List, [], ◌∷◌,
  Bool-cases, inl, inr,
}
use herve.Word.{u32}
use herve.Machine.{Machine, Bus}
use herve.Step.{step}
use herve.Step.Halt.{step_halted, step_uninitialized}
use herve.Boot.{ram_bytes, byte_or_zero, set_ram, init, init_from_buffer}

-- A list of bytes.
abbrev pub IsBytes : List ℕ → Type 0
IsBytes [] = Unit
IsBytes (b ∷ bs) = (b < 256) × IsBytes bs

pub byte_or_zero-lt : (bs : List ℕ) (off : ℕ) → IsBytes bs → byte_or_zero bs off < 256
byte_or_zero-lt [] off h = omega arith
byte_or_zero-lt (b ∷ bs) zero h = h.0
byte_or_zero-lt (b ∷ bs) (suc off) h = byte_or_zero-lt bs off h.1

module _ (malloc : ℕ → Bool) where
  -- With memory of less than 2 ^ 32 bytes, `rv_init` with a file and `rv_init_from_buffer` with the
  -- content of the file lead to the same state.
  pub init-init_from_buffer :
      (image : List ℕ) (ram_size : ℕ) (s : Machine)
      → ram_size < 2 ^ 32
      → init malloc (some image) ram_size s ≡ init_from_buffer malloc image ram_size s
  unfolding init init_from_buffer
  init-init_from_buffer image ram_size s small =
      let same : u32 (ram_bytes ram_size) ≡ ram_bytes ram_size = ground arith in rw same refl

  -- Where `malloc` gives memory, a buffer that `rv_set_ram` provided before has no effect on
  -- `rv_init`: the state is the one without that call.
  pub init-set_ram :
      (firmware : Option (List ℕ)) (ram_size : ℕ) (buffer : ℕ → ℕ) (size : ℕ) (s : Machine)
      → malloc (ram_bytes ram_size) ≡ true
      → init malloc firmware ram_size (set_ram buffer size s) ≡ init malloc firmware ram_size s
  unfolding init set_ram
  init-set_ram none ram_size buffer size s enough = rw enough refl
  init-set_ram (some image) ram_size buffer size s enough = rw enough refl

  -- `rv_init` does not start a simulator again that an HTIF exit has halted: after it, `rv_step`
  -- executes nothing and changes nothing, with any firmware and any memory.
  pub init-step_halted :
      (dpi_mmio_read : Bus) (firmware : Option (List ℕ)) (ram_size max_instructions : ℕ)
      (s : Machine)
      → s.htif_halted ≡ true
      → step dpi_mmio_read max_instructions (init malloc firmware ram_size s)
        ≡ some (0, init malloc firmware ram_size s)
  unfolding init
  init-step_halted dpi_mmio_read none ram_size n s halted =
      elim (Bool-cases (malloc (ram_bytes ram_size))) [
        | inl e ↦ rw e (step_halted dpi_mmio_read n _ halted refl)
        | inr e ↦ rw e (step_uninitialized dpi_mmio_read n _ refl)
      ]
  init-step_halted dpi_mmio_read (some image) ram_size n s halted =
      elim (Bool-cases (malloc (ram_bytes ram_size))) [
        | inl e ↦ rw e (step_halted dpi_mmio_read n _ halted refl)
        | inr e ↦ rw e (step_uninitialized dpi_mmio_read n _ refl)
      ]
