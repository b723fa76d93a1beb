-- ===== src/Scoring/Categories.antt =====
-- src/chainbreak/scoring/categories.py: the six categories, and the step `_finalize` that each
-- evaluator ends in. Measurements and caveats, which it only passes on, are left out.
pub mod Finalize
use chainbreak.Common.{
  ℕ, Bool, true, false, not, ◌&&◌, List, [], ◌∷◌, ◌++◌, ltb, if◌then◌else◌, map, any, filter,
  length,
}
use chainbreak.Core.Enums.{FindingType, Confidence, CategoryStatus}
use chainbreak.Core.Enums.Equality.{same_finding}
use chainbreak.Core.Errors.{Result, ok, err, raise_if, value_error, ◌>>=◌, ◌>>◌}
use chainbreak.Core.Models.{EdgeDivergence}
use chainbreak.Analysis.Confidence.{Coverage, at_least}
use chainbreak.Analysis.Detector.{DetectorCheck, DetectorResult}
use chainbreak.Analysis.Findings.{Finding}
use chainbreak.Scoring.Coverage.{no_coverage, coverage_ratio, is_exercised, category_confidence}

pub data ScoringCategory : Type 0 where
  delegation_integrity scope_attenuation revocation_responsiveness : ScoringCategory
  authority_freshness failure_transparency credential_hygiene : ScoringCategory

pub record CategoryResult : Type 0 where
  pub category : ScoringCategory
  pub status : CategoryStatus
  pub finding_ids : List ℕ
  pub coverage : Coverage
  pub confidence : Confidence

unfoldable pub may_be_low : CategoryStatus → Bool
may_be_low CategoryStatus.not_measured = true
may_be_low CategoryStatus.detector_failed = true
may_be_low CategoryStatus.partial = true
may_be_low _ = false

-- The validator `_low_coverage_is_partial`.
unfoldable pub category_result : CategoryResult → Result CategoryResult
category_result r = do
  raise_if (not (at_least r.coverage 7) && not (may_be_low r.status)) value_error
  ok r

-- `_CATEGORY_FINDING_TYPES`
unfoldable pub category_finding_types : ScoringCategory → List FindingType
category_finding_types ScoringCategory.delegation_integrity = FindingType.authority_survival ∷ []
category_finding_types ScoringCategory.scope_attenuation =
    FindingType.authority_expansion ∷ FindingType.authority_narrowing ∷ FindingType.delegation_drift
    ∷ FindingType.expected_behavior ∷ []
category_finding_types ScoringCategory.revocation_responsiveness =
    FindingType.revocation_delay ∷ FindingType.no_transition_observed ∷ []
category_finding_types ScoringCategory.authority_freshness =
    FindingType.stale_authority ∷ FindingType.expired_credential_accepted ∷ []
category_finding_types ScoringCategory.failure_transparency =
    FindingType.silent_narrowing ∷ FindingType.capability_substituted
    ∷ FindingType.redelegation_attempted ∷ []
category_finding_types ScoringCategory.credential_hygiene = FindingType.lifetime_capped ∷ []

unfoldable pub is_failure : DetectorResult → Bool
is_failure DetectorResult.detector_failure = true
is_failure DetectorResult.detector_ok = false

unfoldable pub detector_failed : ScoringCategory → List DetectorCheck → Bool
detector_failed category checks =
    any
      (λ c.
        is_failure c.result && any (same_finding c.expected_type) (category_finding_types category))
      checks

-- The arguments of `_finalize`.
pub record Evaluation : Type 0 where
  pub category : ScoringCategory
  pub applicable : ℕ
  pub measured : ℕ
  pub is_divergent : Bool
  pub is_partial_signal : Bool
  pub contributing : List Finding
  pub detector_checks : List DetectorCheck

-- The status of a category that was exercised.
unfoldable pub measured_status : Evaluation → Coverage → CategoryStatus
measured_status e coverage =
    if not (at_least coverage 7)
    then CategoryStatus.partial
    else if e.is_divergent
    then CategoryStatus.divergent
    else if e.is_partial_signal
    then CategoryStatus.partial
    else CategoryStatus.consistent

unfoldable pub with_detector : Evaluation → CategoryStatus → CategoryStatus
with_detector e status =
    if detector_failed e.category e.detector_checks then CategoryStatus.detector_failed else status

unfoldable pub finalize : Evaluation → Result CategoryResult
finalize e =
    if not (is_exercised e.applicable e.measured)
    then category_result (record {
      category = e.category;
      status = with_detector e CategoryStatus.not_measured;
      finding_ids = [];
      coverage = no_coverage;
      confidence = Confidence.insufficient;
    })
    else (do
      coverage ← coverage_ratio e.measured e.applicable
      category_result (record {
        category = e.category;
        status = with_detector e (measured_status e coverage);
        finding_ids = map (λ f. f.finding_id) e.contributing;
        coverage = coverage;
        confidence = category_confidence coverage e.contributing;
      }))
