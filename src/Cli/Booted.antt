-- ===== src/Cli/Booted.antt =====
-- `rv_init_elf` and `rv_reset` of dpi-riscv/sim/iss/rv32_dpi.c leave a program's start with no interrupt requested
-- and no cycle counted.
use herve.Base.{ℕ, ◌≡◌, ◌∙◌, refl, ap, Bool, Option, some, none, Bool-cases, inl, inr}
use herve.Machine.{Machine, Ensures, Ensures-map}
use herve.Boot.{reset}
use herve.Elf.Header.{Image}
use herve.Elf.File.{init_elf, reset_htif, no_ram, fresh_ram}
use herve.Elf.Reject.{IsByteImage}
use herve.Elf.Outcome.{IsOutcome, init_elf_cases}
use herve.Cli.Clock.{clock}

-- The file, if there is one, holds bytes.
abbrev pub HoldsBytes : Option Image → Type 0
HoldsBytes none = Unit
HoldsBytes (some image) = IsByteImage image

pub reset-clock : (pc : ℕ) (s : Machine) → clock s ≡ (0, 0) → clock (reset pc s) ≡ (0, 0)
unfolding reset
reset-clock pc s h = elim (Bool-cases s.initialized) [ inl e ↦ rw e refl | inr e ↦ rw e h ]

module _ (malloc fseek : ℕ → Bool) where
  outcome-clock :
      (image : Image) (s : Machine) (r : ℕ × Machine)
      → clock s ≡ (0, 0)
      → IsOutcome image s r
      → clock r.1 ≡ (0, 0)
  unfolding reset_htif no_ram fresh_ram
  outcome-clock image s r start (inl p) = ap (λ x. clock x.1) p ∙ start
  outcome-clock image s r start (inr (inl p)) = ap (λ x. clock x.1) p ∙ start
  outcome-clock image s r start (inr (inr (inl p))) = ap (λ x. clock x.1) p ∙ start
  outcome-clock image s r start (inr (inr (inr h))) = ap clock h.frame ∙ ap (λ c. (0, c.1)) start

  pub booted-clock :
      (image : Option Image) (ram_size : ℕ) (s : Machine)
      → HoldsBytes image
      → clock s ≡ (0, 0)
      → Ensures (λ r. clock r.1 ≡ (0, 0)) (init_elf malloc fseek image ram_size s)
  unfolding init_elf
  booted-clock none ram_size s bytes start = start
  booted-clock (some image) ram_size s bytes start =
      Ensures-map (init_elf malloc fseek (some image) ram_size s)
        (init_elf_cases malloc fseek image ram_size s bytes)
        (λ r h. outcome-clock image s r start h)
