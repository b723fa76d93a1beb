-- ===== src/Analysis/Cells.antt =====
-- `ProbeCellResult` (src/chainbreak/core/models.py) and its resolution by unanimity, with
-- `resolve_cell` (src/chainbreak/analysis/authority.py).
pub mod Unanimity
use chainbreak.Common.{
  ℕ, Bool, true, false, ◌&&◌, ◌||◌, List, [], ◌∷◌, Option, none, some, if◌then◌else◌, all,
}
use chainbreak.Core.Authority.{CapabilityId}
use chainbreak.Core.Enums.{
  OutcomeClass, ExclusionReason, PlanPhase, is_denial, is_error, is_allowed,
}
use chainbreak.Core.Enums.Equality.{same_outcome}

pub record ProbeCellResult : Type 0 where
  pub identity_id : ℕ
  pub capability_id : CapabilityId
  pub phase : PlanPhase
  pub trials : List OutcomeClass
  pub observation_ids : List ℕ

-- `len(set(trials)) == 1`
unfoldable pub unanimous_trials : List OutcomeClass → Bool
unanimous_trials [] = false
unanimous_trials (t ∷ ts) = all (same_outcome t) ts

-- `ProbeCellResult.resolved` on the trials. The model refuses an empty tuple; on one, Python's
-- `all` would hold and the set of distinct outcomes would be empty.
unfoldable pub resolve_trials : List OutcomeClass → OutcomeClass
unfolding unanimous_trials
resolve_trials [] = OutcomeClass.denied_unattributed
resolve_trials (t ∷ ts) =
    if all is_allowed (t ∷ ts)
    then OutcomeClass.allowed
    else if all is_denial (t ∷ ts)
    then (if unanimous_trials (t ∷ ts) then t else OutcomeClass.denied_unattributed)
    else if all is_error (t ∷ ts)
    then t
    else OutcomeClass.indeterminate

unfoldable pub resolved : ProbeCellResult → OutcomeClass
unfolding resolve_trials
resolved cell = resolve_trials cell.trials

unfoldable pub unanimous : ProbeCellResult → Bool
unfolding unanimous_trials
unanimous cell = unanimous_trials cell.trials

-- `_EXCLUSION_BY_OUTCOME`; `none` is a missing key.
unfoldable pub exclusion_by_outcome : OutcomeClass → Option ExclusionReason
exclusion_by_outcome OutcomeClass.indeterminate = some ExclusionReason.trials_disagreed
exclusion_by_outcome OutcomeClass.error_transient = some ExclusionReason.transient_errors_exhausted
exclusion_by_outcome OutcomeClass.error_infrastructure = some ExclusionReason.infrastructure_error
exclusion_by_outcome OutcomeClass.error_resource_missing = some ExclusionReason.infrastructure_error
exclusion_by_outcome _ = none

-- What `resolve_cell` does with a resolved outcome; `none` is the KeyError of the table.
unfoldable pub resolve_outcome : OutcomeClass → Option (OutcomeClass × Option ExclusionReason)
unfolding is_allowed is_denial exclusion_by_outcome
resolve_outcome outcome =
    if is_allowed outcome || is_denial outcome
    then some (outcome, none)
    else elim (exclusion_by_outcome outcome) [
      | none ↦ none
      | some reason ↦ some (outcome, some reason)
    ]

unfoldable pub resolve_cell : ProbeCellResult → Option (OutcomeClass × Option ExclusionReason)
unfolding resolve_outcome resolved
resolve_cell cell = resolve_outcome (resolved cell)
