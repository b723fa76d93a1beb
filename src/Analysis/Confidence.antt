-- ===== src/Analysis/Confidence.antt =====
-- src/chainbreak/analysis/confidence.py, `min_confidence` (src/chainbreak/core/models.py) and
-- src/chainbreak/scoring/confidence.py. A coverage is a float quotient in the source; here it is the
-- pair of its counts, compared with a decimal by cross-multiplication.
pub mod Gate
pub mod Minimum
use chainbreak.Common.{
  ℕ, ◌*◌, Bool, true, false, not, ◌&&◌, List, [], ◌∷◌, ltb, leb, ◌==◌, if◌then◌else◌, all, any,
}
use chainbreak.Core.Enums.{OutcomeClass, Confidence, rank, is_error}
use chainbreak.Core.Enums.Equality.{same_outcome}
use chainbreak.Analysis.Cells.{ProbeCellResult, unanimous, resolved}

-- `measured / applicable`, where `applicable` is not zero.
pub record Coverage : Type 0 where
  pub measured : ℕ
  pub applicable : ℕ

-- `coverage >= tenths / 10`
unfoldable pub at_least : Coverage → ℕ → Bool
at_least c tenths = leb (tenths * c.applicable) (10 * c.measured)

unfoldable pub has_error_outcome : List ProbeCellResult → Bool
has_error_outcome cells = any (λ cell. any is_error cell.trials) cells

unfoldable pub has_indeterminate : List ProbeCellResult → Bool
has_indeterminate cells =
    any (λ cell. same_outcome (resolved cell) OutcomeClass.indeterminate) cells

unfoldable pub gate_confidence : Coverage → List ProbeCellResult → Bool → Confidence
gate_confidence coverage [] policy_snapshot_ok = Confidence.insufficient
gate_confidence coverage (c ∷ cs) policy_snapshot_ok =
    if at_least coverage 10
      && all unanimous (c ∷ cs)
      && not (has_error_outcome (c ∷ cs))
      && policy_snapshot_ok
    then Confidence.high
    else if at_least coverage 9 && not (has_indeterminate (c ∷ cs))
    then Confidence.medium
    else if at_least coverage 7
    then Confidence.low
    else Confidence.insufficient

unfoldable pub coverage_baseline_confidence : Coverage → Confidence
unfolding at_least
coverage_baseline_confidence coverage =
    if at_least coverage 10
    then Confidence.high
    else if at_least coverage 9
    then Confidence.medium
    else if at_least coverage 7
    then Confidence.low
    else Confidence.insufficient

-- `min(collected, key=rank)`: the first of the smallest.
unfoldable pub first_minimum : Confidence → List Confidence → Confidence
unfolding rank
first_minimum best [] = best
first_minimum best (c ∷ cs) = first_minimum (if ltb (rank c) (rank best) then c else best) cs

unfoldable pub min_confidence : List Confidence → Confidence
unfolding first_minimum
min_confidence [] = Confidence.insufficient
min_confidence (c ∷ cs) = first_minimum c cs

-- `_poll_count_confidence` (src/chainbreak/analysis/rules.py) and `_poll_confidence`.
unfoldable pub poll_count_confidence : ℕ → Confidence
poll_count_confidence poll_count =
    if leb 5 poll_count
    then Confidence.high
    else if leb 3 poll_count
    then Confidence.medium
    else if leb 1 poll_count
    then Confidence.low
    else Confidence.insufficient
