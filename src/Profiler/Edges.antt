-- ===== src/Profiler/Edges.antt =====
-- The call edges of dpi-riscv/sim/iss/herve_profiler.c as a table of counts: what
-- `record_call_edge` does to the count of each pair of names.
use herve.Base.{
  ℕ, ◌+◌, ◌≡◌, refl, sym, ap, ◌∙◌, Bool, true, false, ◌&&◌, arith, if◌then◌else◌, some, List, [],
  ◌∷◌, String, str_eq_iff, Bool-cases, inl, inr,
}
use herve.Word.{u64}
use herve.Profiler.Defs.{CallPair}
use herve.Profiler.Record.{same_edge, has_edge, bump_edge, record_call_edge}

-- The count of the first entry for a pair of names; 0 where there is none.
abbrev pub edge_count : String → String → List CallPair → ℕ
edge_count caller callee [] = 0
edge_count caller callee (cp ∷ cps) =
    if same_edge caller callee cp then cp.count else edge_count caller callee cps

if_head : {A : Type 0} (b : Bool) (x y : A) → b ≡ true → (if b then x else y) ≡ x
if_head b x y e = rw e refl

if_tail : {A : Type 0} (b : Bool) (x y : A) → b ≡ false → (if b then x else y) ≡ y
if_tail b x y e = rw e refl

both_true : (a b : Bool) → (a && b) ≡ true → (a ≡ true) × (b ≡ true)
both_true true b e = (refl, e)
both_true false b e = absurd (ground (arith, e))

same_edge_names :
    (caller callee : String) (cp : CallPair)
    → same_edge caller callee cp ≡ true
    → (cp.caller ≡ caller) × (cp.callee ≡ callee)
same_edge_names caller callee cp e =
    let both = both_true _ _ e in ((str_eq_iff _ _).0 both.0, (str_eq_iff _ _).0 both.1)

-- An entry for one pair of names is not one for another pair.
other_edge :
    (a b c d : String) (cp : CallPair)
    → ¬ ((a ≡ c) × (b ≡ d))
    → same_edge a b cp ≡ true
    → same_edge c d cp ≡ false
other_edge a b c d cp ne e = elim (Bool-cases (same_edge c d cp)) [
  | inl e' ↦
      let one = same_edge_names a b cp e in
      let two = same_edge_names c d cp e' in absurd (ne (sym one.0 ∙ two.0, sym one.1 ∙ two.1))
  | inr e' ↦ e'
]

same_edge_self :
    (a b : String) (cp : CallPair) → cp.caller ≡ a → cp.callee ≡ b → same_edge a b cp ≡ true
same_edge_self a b cp e f = rw ((str_eq_iff cp.caller a).1 e, (str_eq_iff cp.callee b).1 f) refl

edge_count_missing :
    (a b : String) (cps : List CallPair) → has_edge a b cps ≡ false → edge_count a b cps ≡ 0
unfolding has_edge
edge_count_missing a b [] h = refl
edge_count_missing a b (cp ∷ cps) h = elim (Bool-cases (same_edge a b cp)) [
  | inl e ↦ absurd (ground (arith, h, e))
  | inr e ↦ rw e (edge_count_missing a b cps (sym (if_tail _ _ _ e) ∙ h))
]

edge_count_bump_self :
    (a b : String) (cps : List CallPair)
    → has_edge a b cps ≡ true
    → edge_count a b (bump_edge a b cps) ≡ u64 (edge_count a b cps + 1)
unfolding has_edge bump_edge
edge_count_bump_self a b [] h = absurd (ground (arith, h))
edge_count_bump_self a b (cp ∷ cps) h = elim (Bool-cases (same_edge a b cp)) [
  | inl e ↦ rw e (if_head _ _ _ e)
  | inr e ↦ rw e (if_tail _ _ _ e ∙ edge_count_bump_self a b cps (sym (if_tail _ _ _ e) ∙ h))
]

edge_count_bump_other :
    (a b c d : String) (cps : List CallPair)
    → ¬ ((a ≡ c) × (b ≡ d))
    → edge_count c d (bump_edge a b cps) ≡ edge_count c d cps
unfolding bump_edge
edge_count_bump_other a b c d [] ne = refl
edge_count_bump_other a b c d (cp ∷ cps) ne = elim (Bool-cases (same_edge a b cp)) [
  | inl e ↦
      rw e
        (let other = other_edge a b c d cp ne e in if_tail _ _ _ other ∙ sym (if_tail _ _ _ other))
  | inr e ↦
      rw e
        (ap (λ n. if same_edge c d cp then cp.count else n) (edge_count_bump_other a b c d cps ne))
]

-- A recorded call counts on, in the table of call edges, the count of its own pair of names, with
-- the wrap-around of 64 bits, whether the pair is new or not; the count of any other pair of names
-- stays as it is.
pub record_call_edge-edge_count :
    (a b c d : String) (cps : List CallPair)
    → ¬ ((a ≡ c) × (b ≡ d))
    → (edge_count a b (record_call_edge (some a) b cps) ≡ u64 (edge_count a b cps + 1))
      × (edge_count c d (record_call_edge (some a) b cps) ≡ edge_count c d cps)
unfolding record_call_edge
record_call_edge-edge_count a b c d cps ne = elim (Bool-cases (has_edge a b cps)) [
  | inl e ↦ rw e (edge_count_bump_self a b cps e, edge_count_bump_other a b c d cps ne)
  | inr e ↦ rw e (
    let new : CallPair = record { caller = a; callee = b; count = 1 } in
        let own = same_edge_self a b new refl refl in
        if_head _ _ _ own ∙ rw (edge_count_missing a b cps e) refl,
    let new : CallPair = record { caller = a; callee = b; count = 1 } in
        if_tail _ _ _ (other_edge a b c d new ne (same_edge_self a b new refl refl)),
  )
]
