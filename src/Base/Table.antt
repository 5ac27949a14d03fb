-- ===== src/Base/Table.antt =====
-- A fact about all numbers of a small range, by evaluation of a test on each of them.
use Prim.Native.Nat.{ℕ, zero, suc, ◌<◌}
use mathlib.Core.Path.{◌≡◌}
use mathlib.Core.Bool.{Bool, true, ◌&&◌}
use native.Mathlib.Omega.{arith}

-- The test holds of every number below the bound.
unfoldable pub passes_below : (ℕ → Bool) → ℕ → Bool
passes_below test zero = true
passes_below test (suc bound) = passes_below test bound && test bound

pub passes_below_lem :
    (test : ℕ → Bool) (bound : ℕ)
    → passes_below test bound ≡ true
    → (i : ℕ) → i < bound
    → test i ≡ true
unfolding passes_below
passes_below_lem test zero all i small = absurd (omega arith)
passes_below_lem test (suc bound) all i small =
    ground (arith, λ (h : passes_below test bound ≡ true). passes_below_lem test bound h i)
