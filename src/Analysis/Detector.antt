-- ===== src/Analysis/Detector.antt =====
-- src/chainbreak/analysis/detector.py: does a run contain the finding that a negative control must
-- produce?
pub mod Check
use chainbreak.Common.{
  ℕ, Bool, true, false, not, ◌&&◌, ◌||◌, List, [], ◌∷◌, ◌++◌, Option, none, some, ltb, leb, ◌==◌,
  if◌then◌else◌,
}
use chainbreak.Core.Authority.{AuthoritySet, is_empty, is_subset_of}
use chainbreak.Core.Enums.{FindingType, Confidence, rank}
use chainbreak.Core.Enums.Equality.{same_finding}
use chainbreak.Core.Models.{IdentityId}
use chainbreak.Analysis.Findings.{Finding}

pub record CompiledExpectedFinding : Type 0 where
  pub type : FindingType
  pub identity_id : Option IdentityId
  pub capabilities : AuthoritySet
  pub min_confidence : Confidence

-- `result` is `DETECTOR_OK` or `DETECTOR_FAILURE`.
pub data DetectorResult : Type 0 where
  detector_ok detector_failure : DetectorResult

pub record DetectorCheck : Type 0 where
  pub negative_control_id : ℕ
  pub expected_type : FindingType
  pub produced : Bool
  pub result : DetectorResult

-- `mentioned`: all the values of `finding.delta`.
unfoldable pub mentioned : Finding → AuthoritySet
mentioned finding = finding.delta.unexpected_gain ++ finding.delta.unexpected_loss

unfoldable pub capabilities_satisfied : Finding → AuthoritySet → Bool
unfolding mentioned is_empty is_subset_of
capabilities_satisfied finding expected =
    if is_empty expected
    then true
    else if is_empty (mentioned finding)
    then true
    else is_subset_of expected (mentioned finding)

unfoldable pub check_negative_control : CompiledExpectedFinding → List Finding → ℕ → DetectorCheck
check_negative_control expected [] negative_control_id = record {
  negative_control_id = negative_control_id;
  expected_type = expected.type;
  produced = false;
  result = DetectorResult.detector_failure;
}
check_negative_control expected (finding ∷ findings) negative_control_id =
    let continue = check_negative_control expected findings negative_control_id in
    if not (same_finding finding.type expected.type)
    then continue
    else if (elim expected.identity_id [
      | none ↦ false
      | some identity ↦ not (elim finding.identity_id [ none ↦ false | some i ↦ i == identity ])
    ])
    then continue
    else if not (capabilities_satisfied finding expected.capabilities)
    then continue
    else if ltb (rank finding.confidence) (rank expected.min_confidence)
    then continue
    else record {
      negative_control_id = negative_control_id;
      expected_type = expected.type;
      produced = true;
      result = DetectorResult.detector_ok;
    }
