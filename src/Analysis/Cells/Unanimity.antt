-- ===== src/Analysis/Cells/Unanimity.antt =====
-- What the resolution of a cell says of its trials.
use chainbreak.Common.{
  ◌≡◌, refl, sym, ◌∙◌, ◌↔◌, true, false, ◌&&◌, ◌||◌, List, ◌∷◌, some, arith, all, In, all-In,
  In-all, is_none,
}
use chainbreak.Core.Enums.{OutcomeClass, is_denial, is_error, is_allowed}
use chainbreak.Analysis.Cells.{
  resolved, ProbeCellResult, resolve_trials, exclusion_by_outcome, resolve_outcome, resolve_cell,
}

-- A cell resolves to a denial exactly when every trial was a denial, and to an error exactly when
-- every trial was an error.
pub resolve_trials_kind :
    (t : OutcomeClass) (ts : List OutcomeClass)
    → (is_allowed (resolve_trials (t ∷ ts)) ≡ all is_allowed (t ∷ ts))
      × (is_denial (resolve_trials (t ∷ ts)) ≡ all is_denial (t ∷ ts))
      × (is_error (resolve_trials (t ∷ ts)) ≡ all is_error (t ∷ ts))
unfolding resolve_trials is_allowed is_denial is_error
resolve_trials_kind t ts = (ground arith, ground arith, ground arith)

is_allowed_iff : (o : OutcomeClass) → (is_allowed o ≡ true) ↔ (o ≡ OutcomeClass.allowed)
unfolding is_allowed
is_allowed_iff OutcomeClass.allowed = (λ _. refl, λ _. refl)
is_allowed_iff o = (ground arith, ground arith)

-- The resolved outcome of a cell that was tried is ALLOWED exactly when every trial was ALLOWED.
resolve_trials-allowed_iff :
    (t : OutcomeClass) (ts : List OutcomeClass)
    → (resolve_trials (t ∷ ts) ≡ OutcomeClass.allowed)
      ↔ ((x : OutcomeClass) → In x (t ∷ ts) → x ≡ OutcomeClass.allowed)
resolve_trials-allowed_iff t ts =
    let (kind, _, _) = resolve_trials_kind t ts in
    (
      λ e x m. (is_allowed_iff x).0 (
          all-In is_allowed (t ∷ ts) (sym kind ∙ (is_allowed_iff (resolve_trials (t ∷ ts))).1 e) m),
      λ every.
          (is_allowed_iff (resolve_trials (t ∷ ts))).0
            (kind ∙ In-all is_allowed (t ∷ ts) (λ x m. (is_allowed_iff x).1 (every x m))),
    )

-- The lookup in the exclusion table never fails: a resolved outcome is ALLOWED, a denial, or has
-- an exclusion reason, and never two of these.
pub resolve_outcome_total :
    (o : OutcomeClass)
    → (resolve_outcome o ≡ some (o, exclusion_by_outcome o))
      × (is_none (exclusion_by_outcome o) ≡ (is_allowed o || is_denial o))
      × ((is_allowed o && is_denial o) ≡ false)
unfolding resolve_outcome
resolve_outcome_total OutcomeClass.allowed = (refl, refl, refl)
resolve_outcome_total o = (refl, refl, refl)

pub resolve_cell_total :
    (cell : ProbeCellResult)
    → resolve_cell cell ≡ some (resolved cell, exclusion_by_outcome (resolved cell))
unfolding resolve_cell
resolve_cell_total cell = (resolve_outcome_total (resolved cell)).0
