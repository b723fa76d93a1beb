-- ===== src/Scenarios/Plan/Snapshots.antt =====
-- The plan is numbered without a gap, keeps the phases, and encloses every mutation.
use chainbreak.Common.{
  ℕ, ◌+◌, ◌≡◌, refl, sym, ap, ◌∙◌, inl, inr, true, false, List, [], ◌∷◌, ◌++◌, arith, In, here,
  there, Bool-cases,
}
use chainbreak.Core.Enums.{PhaseKind}
use chainbreak.Scenarios.Spec.{PhaseSpec}
use chainbreak.Scenarios.Plan.{
  StepName, PlanStep, snapshot_step, phase_step, is_mutate, plan_from, build_plan,
}

-- The orders are a run of numbers.
abbrev pub IsNumberedFrom : ℕ → List PlanStep → Type 0
IsNumberedFrom order [] = Unit {0}
IsNumberedFrom order (step ∷ steps) = (step.order ≡ order) × IsNumberedFrom (order + 1) steps

-- The declared phases of a plan, each by its name and kind.
abbrev pub declared_steps : List PlanStep → List (StepName × PhaseKind)
declared_steps [] = []
declared_steps (step ∷ steps) =
    let rest = declared_steps steps in
    elim step.auto_inserted [ true ↦ rest | false ↦ (step.phase_name, step.kind) ∷ rest ]

abbrev pub phase_steps : List PhaseSpec → List (StepName × PhaseKind)
phase_steps [] = []
phase_steps (p ∷ ps) = (StepName.named p.name, p.kind) ∷ phase_steps ps

-- Where a step stands for a mutation, a snapshot of the same phase stands directly before it and
-- directly behind it.
abbrev pub IsEnclosed : List PlanStep → PhaseSpec → Type 0
IsEnclosed plan p =
    (before : List PlanStep) × (after : List PlanStep) × (order : ℕ) × (plan
      ≡ before
        ++ snapshot_step order (StepName.pre_snapshot p.name)
          ∷ phase_step (order + 1) p
          ∷ snapshot_step (order + 2) (StepName.post_snapshot p.name)
          ∷ after)

plan_from-IsNumbered : (order : ℕ) (ps : List PhaseSpec) → IsNumberedFrom order (plan_from order ps)
unfolding plan_from snapshot_step phase_step
plan_from-IsNumbered order [] = tt
plan_from-IsNumbered order (p ∷ ps) = elim (Bool-cases (is_mutate p.kind)) [
  | inl e ↦
      rw (plan_from, e)
        (refl, (refl, (omega arith, rw (three order) (plan_from-IsNumbered (order + 3) ps))))
  | inr e ↦ rw (plan_from, e) (refl, plan_from-IsNumbered (order + 1) ps)
]
  where
    three : (n : ℕ) → n + 1 + 1 + 1 ≡ n + 3
    three n = omega arith

plan_from-declared :
    (order : ℕ) (ps : List PhaseSpec) → declared_steps (plan_from order ps) ≡ phase_steps ps
unfolding plan_from snapshot_step phase_step
plan_from-declared order [] = refl
plan_from-declared order (p ∷ ps) = elim (Bool-cases (is_mutate p.kind)) [
  | inl e ↦ rw (plan_from, e, plan_from-declared (order + 3) ps) refl
  | inr e ↦ rw (plan_from, e, plan_from-declared (order + 1) ps) refl
]

IsEnclosed-cons :
    (step : PlanStep) (plan : List PlanStep) (p : PhaseSpec)
    → IsEnclosed plan p
    → IsEnclosed (step ∷ plan) p
IsEnclosed-cons step plan p (before, after, order, e) =
    (step ∷ before, after, order, ap (λ s. step ∷ s) e)

plan_from-IsEnclosed :
    (order : ℕ) (ps : List PhaseSpec) (p : PhaseSpec)
    → In p ps
    → is_mutate p.kind ≡ true
    → IsEnclosed (plan_from order ps) p
unfolding plan_from
plan_from-IsEnclosed order [] p m mutates = elim m [ ]
plan_from-IsEnclosed order (q ∷ ps) p (here same) mutates =
    let e : is_mutate q.kind ≡ true = ap (λ z. is_mutate z.kind) (sym same) ∙ mutates in
    rw same (rw (plan_from, e) ([], plan_from (order + 3) ps, order, refl))
plan_from-IsEnclosed order (q ∷ ps) p (there m) mutates = elim (Bool-cases (is_mutate q.kind)) [
  | inl e ↦
      rw (plan_from, e)
        (IsEnclosed-cons (snapshot_step order (StepName.pre_snapshot q.name)) _ p (
          IsEnclosed-cons (phase_step (order + 1) q) _ p (
            IsEnclosed-cons (snapshot_step (order + 2) (StepName.post_snapshot q.name)) _ p
              (plan_from-IsEnclosed (order + 3) ps p m mutates))))
  | inr e ↦
      rw (plan_from, e)
        (IsEnclosed-cons (phase_step order q) _ p (plan_from-IsEnclosed (order + 1) ps p m mutates))
]

-- The plan of a scenario is numbered from 0 without a gap, has the declared phases in their order and
-- beside them only inserted snapshots, and has a snapshot directly before and directly behind every
-- mutation.
pub build_plan_lem :
    (phases : List PhaseSpec)
    → IsNumberedFrom 0 (build_plan phases)
      × (declared_steps (build_plan phases) ≡ phase_steps phases)
      × ((p : PhaseSpec) → In p phases → is_mutate p.kind ≡ true → IsEnclosed (build_plan phases) p)
unfolding build_plan
build_plan_lem phases =
    (plan_from-IsNumbered 0 phases, plan_from-declared 0 phases, plan_from-IsEnclosed 0 phases)
