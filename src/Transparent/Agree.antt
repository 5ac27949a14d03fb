-- ===== src/Transparent/Agree.antt =====
-- Two runs of the functions of dpi-riscv/sim/iss/rv32_dpi.c that differ in the profiler's variables.
use herve.Base.{
  ℕ, Bool, true, false, ◌==◌, ◌≡◌, ◌∙◌, sym, refl, ap, Option, none, some, if◌then◌else◌,
  Bool-cases, inl, inr,
}
use herve.Profiler.{Profiler}
use herve.Machine.{Machine, write_reg, ◌>>=◌}

-- The state with other variables of the profiler.
abbrev pub with_profiler : Profiler → Machine → Machine
with_profiler p s = record s { profiler = p }

abbrev pub map_option : {A B : Type 0} → (A → B) → Option A → Option B
map_option f none = none
map_option f (some a) = some (f a)

-- The state behind a value.
abbrev pub keep : {X : Type 0} → Profiler → X × Machine → X × Machine
keep p (x, s) = (x, with_profiler p s)

-- Two results that are the same where `erase` overwrites what they may differ in; one is undefined where
-- the other is.
pub record Agrees {A : Type 0} (erase : A → A) (m m' : Option A) : Type 0 where
  pub same : map_option erase m ≡ map_option erase m'

pub some-Agrees :
    {A : Type 0} {erase : A → A} {a a' : A} → erase a ≡ erase a' → Agrees erase (some a) (some a')
some-Agrees h = record { same = ap some h }

pub refl-Agrees : {A : Type 0} {erase : A → A} {m : Option A} → Agrees erase m m
refl-Agrees = record { same = refl }

pub if-Agrees :
    {A : Type 0} {erase : A → A} (b : Bool) {x y x' y' : Option A}
    → Agrees erase x x'
    → Agrees erase y y'
    → Agrees erase (if b then x else y) (if b then x' else y')
if-Agrees true h k = h
if-Agrees false h k = k

-- What goes on from results that agree, by `f` and `f'`, agrees where `f` from a state with any variables
-- of the profiler agrees with `f'`.
module _ {X B : Type 0} (r : Profiler) (erase : B → B) (f f' : X × Machine → Option B)
    (k : (p : Profiler) (a : X × Machine) → Agrees erase (f (keep p a)) (f' a)) where
  from_kept :
      (m : Option (X × Machine))
      → map_option erase (m >>= f) ≡ map_option erase (map_option (keep r) m >>= f')
  from_kept none = refl
  from_kept (some (x, s)) = (k s.profiler (x, with_profiler r s)).same

  to_kept :
      (m : Option (X × Machine))
      → map_option erase (m >>= f') ≡ map_option erase (map_option (keep r) m >>= f')
  to_kept none = refl
  to_kept (some (x, s)) = sym (k r (x, s)).same ∙ (k r (x, with_profiler r s)).same

  pub bind-Agrees :
      {m m' : Option (X × Machine)} → Agrees (keep r) m m' → Agrees erase (m >>= f) (m' >>= f')
  bind-Agrees {m} {m'} h = record {
    same = from_kept m ∙ ap (λ o. map_option erase (o >>= f')) h.same ∙ sym (to_kept m');
  }

pub write_reg-with_profiler :
    (p : Profiler) (reg value : ℕ) (s : Machine)
    → write_reg reg value (with_profiler p s) ≡ with_profiler p (write_reg reg value s)
unfolding write_reg
write_reg-with_profiler p reg value s = elim (Bool-cases (reg == 0)) [
  | inl e ↦ rw e refl
  | inr e ↦ rw e refl
]
