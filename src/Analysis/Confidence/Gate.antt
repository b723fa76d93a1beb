-- ===== src/Analysis/Confidence/Gate.antt =====
-- The confidence gate: when each level is given, and what the highest level says of the trials.
use chainbreak.Common.{
  ◌≤◌, ◌≡◌, ◌↔◌, sym, ap, ◌∙◌, Bool, true, false, List, [], ◌∷◌, arith, if◌then◌else◌, all, any, In,
  here, there, all-In, &&-eq-true,
}
use chainbreak.Core.Enums.{OutcomeClass, Confidence, rank, is_allowed, is_denial, is_error}
use chainbreak.Core.Enums.Equality.{same_outcome, same_outcome_iff}
use chainbreak.Analysis.Cells.{
  ProbeCellResult, unanimous, resolved, unanimous_trials, resolve_trials,
}
use chainbreak.Analysis.Confidence.{
  Coverage, at_least, has_error_outcome, gate_confidence, coverage_baseline_confidence,
}

-- The conditions of the three levels, for a list of cells that is not empty.
pub gate_confidence_levels :
    (coverage : Coverage) (c : ProbeCellResult) (cs : List ProbeCellResult) (snapshot : Bool)
    → ((gate_confidence coverage (c ∷ cs) snapshot ≡ Confidence.high) ↔ (
        (at_least coverage 10 ≡ true)
        × (all unanimous (c ∷ cs) ≡ true)
        × (has_error_outcome (c ∷ cs) ≡ false)
        × (snapshot ≡ true)))
      × ((gate_confidence coverage (c ∷ cs) snapshot ≡ Confidence.insufficient)
          ↔ (at_least coverage 7 ≡ false))
      × (rank (gate_confidence coverage (c ∷ cs) snapshot)
          ≤ rank (coverage_baseline_confidence coverage))
unfolding gate_confidence coverage_baseline_confidence at_least rank
gate_confidence_levels coverage c cs snapshot = (ground arith, ground arith, ground arith)

any-In :
    {A : Type 0} (p : A → Bool) (xs : List A) {x : A} → any p xs ≡ false → In x xs → p x ≡ false
any-In p [] h m = elim m [ ]
any-In p (y ∷ xs) h (here e) = rw e (ground arith)
any-In p (y ∷ xs) h (there m) = any-In p xs (ground arith) m

-- A predicate of the first outcome holds of all, where all are the same.
all-same :
    (p : OutcomeClass → Bool) (u : OutcomeClass) (us : List OutcomeClass)
    → all (same_outcome u) us ≡ true
    → all p (u ∷ us) ≡ p u
all-same p u [] h = ground arith
all-same p u (v ∷ vs) h =
    let (first, rest) = &&-eq-true (same_outcome u v) (all (same_outcome u) vs) h in
    let same : u ≡ v = (same_outcome_iff u v).0 first in
    ground (arith, ap p same, all-same p u vs rest)

by_class :
    (u : OutcomeClass)
    → is_error u ≡ false
    → (if is_allowed u
        then OutcomeClass.allowed
        else if is_denial u
        then (if true then u else OutcomeClass.denied_unattributed)
        else if false
        then u
        else OutcomeClass.indeterminate)
      ≡ u
unfolding is_allowed is_denial is_error
by_class u e = ground arith

resolve_trials-same :
    (u : OutcomeClass) (us : List OutcomeClass)
    → all (same_outcome u) us ≡ true
    → is_error u ≡ false
    → resolve_trials (u ∷ us) ≡ u
unfolding resolve_trials unanimous_trials
resolve_trials-same u us h e =
    rw (all-same is_allowed u us h, all-same is_denial u us h, all-same is_error u us h, h, e)
      (by_class u e)

unanimous_trials-same :
    (ts : List OutcomeClass) {t : OutcomeClass}
    → unanimous_trials ts ≡ true
    → any is_error ts ≡ false
    → In t ts
    → t ≡ resolve_trials ts
unfolding unanimous_trials
unanimous_trials-same [] h e m = elim m [ ]
unanimous_trials-same (u ∷ us) h e (here g) = g ∙ sym (resolve_trials-same u us h (ground arith))
unanimous_trials-same (u ∷ us) h e (there m) =
    sym ((same_outcome_iff u _).0 (all-In (same_outcome u) us h m))
    ∙ sym (resolve_trials-same u us h (ground arith))

-- A finding of the highest confidence rests on cells in which every trial had the outcome that
-- the cell is reported with, and no trial was an error.
pub gate_confidence_high :
    (coverage : Coverage) (cells : List ProbeCellResult) (snapshot : Bool) (cell : ProbeCellResult)
    (t : OutcomeClass)
    → gate_confidence coverage cells snapshot ≡ Confidence.high
    → In cell cells
    → In t cell.trials
    → (t ≡ resolved cell) × (is_error t ≡ false)
unfolding resolved has_error_outcome unanimous
gate_confidence_high coverage [] snapshot cell t h m n = elim m [ ]
gate_confidence_high coverage (c ∷ cs) snapshot cell t h m n =
    let (_, one, clean, _) = (gate_confidence_levels coverage c cs snapshot).0.0 h in
    let calm = any-In (λ cell. any is_error cell.trials) (c ∷ cs) clean m in
    (
      unanimous_trials-same cell.trials (all-In unanimous (c ∷ cs) one m) calm n,
      any-In is_error cell.trials calm n,
    )
