-- ===== src/Analysis/Tests.antt =====
-- The analysis code on a few cells, polls and findings.
use chainbreak.Core.Enums.Equality.{same_outcome}
use chainbreak.Common.{
  ℕ, ◌+◌, ◌≡◌, ◌≢◌, ◌↔◌, refl, true, false, ◌&&◌, List, [], ◌∷◌, none, some, mem, In, here, length,
  if◌then◌else◌,
}
use chainbreak.Common.Dict.{Dict, lookup}
use chainbreak.Core.Enums.{OutcomeClass, PlanPhase, Confidence, FindingType, SeverityHint, is_error}
use chainbreak.Core.Errors.{ok}
use chainbreak.Core.Models.{ObservedAuthority}
use chainbreak.Analysis.Cells.{ProbeCellResult, resolved, unanimous}
use chainbreak.Analysis.Authority.{build_observed_authority}
use chainbreak.Analysis.Authority.Partition.{is_held, reason_of, build_observed_authority_partition}
use chainbreak.Analysis.Confidence.{Coverage, gate_confidence, at_least, has_error_outcome}
use chainbreak.Analysis.Confidence.Gate.{gate_confidence_high}
use chainbreak.Analysis.Findings.{Finding, Candidate, Payload, SubjectKind, build}
use chainbreak.Analysis.Detector.{CompiledExpectedFinding, DetectorResult, check_negative_control}
use chainbreak.Analysis.Detector.Check.{Satisfies, check_negative_control_iff}

abbrev cell : ℕ → List OutcomeClass → ProbeCellResult
cell capability trials = record {
  identity_id = 3;
  capability_id = capability;
  phase = PlanPhase.post_delegation;
  trials = trials;
  observation_ids = 1 ∷ 2 ∷ [];
}

abbrev steady : ProbeCellResult
steady = cell 10 (OutcomeClass.allowed ∷ OutcomeClass.allowed ∷ [])

abbrev torn : ProbeCellResult
torn = cell 11 (OutcomeClass.allowed ∷ OutcomeClass.denied_implicit ∷ [])

abbrev cells : Dict ProbeCellResult
cells = (10, steady) ∷ (11, torn) ∷ []

build_observed_authority_partition_example :
    (o : ObservedAuthority) × (build_observed_authority PlanPhase.post_delegation 7
        (10 ∷ 11 ∷ 12 ∷ [])
        cells
      ≡ ok o)
    × ((c : ℕ) → mem c o.capabilities ≡ (mem c (10 ∷ 11 ∷ 12 ∷ []) && is_held cells c))
    × ((c : ℕ)
        → lookup c o.excluded ≡ (if mem c (10 ∷ 11 ∷ 12 ∷ []) then reason_of cells c else none))
    × (o.classified + length o.excluded ≡ o.attempted)
build_observed_authority_partition_example =
    build_observed_authority_partition PlanPhase.post_delegation 7 (10 ∷ 11 ∷ 12 ∷ []) cells

abbrev full : Coverage
full = record { measured = 4; applicable = 4 }

steady_is_high : gate_confidence full (steady ∷ []) true ≡ Confidence.high
unfolding gate_confidence at_least unanimous same_outcome has_error_outcome is_error
steady_is_high = refl

gate_confidence_high_example :
    (OutcomeClass.allowed ≡ resolved steady) × (is_error OutcomeClass.allowed ≡ false)
gate_confidence_high_example =
    gate_confidence_high full (steady ∷ []) true steady OutcomeClass.allowed steady_is_high
      (here refl) (here refl)

abbrev digest : Payload → ℕ
digest p = length p.observation_refs

abbrev expansion : Candidate
expansion = record {
  type = FindingType.authority_expansion;
  severity_hint = SeverityHint.review;
  subject_kind = SubjectKind.identity;
  identity_id = some 3;
  edge_id = none;
  hop_index = some 2;
  delta = record { unexpected_gain = 10 ∷ []; unexpected_loss = [] };
  drift_class = none;
  coverage = full;
  cells = steady ∷ [];
  policy_snapshot_ok = true;
  observation_refs = 1 ∷ 2 ∷ [];
  confidence_override = none;
}

expansion_named : expansion.type ≢ FindingType.inconclusive
expansion_named e = cc

abbrev control : CompiledExpectedFinding
control = record {
  type = FindingType.authority_expansion;
  identity_id = some 3;
  capabilities = 10 ∷ [];
  min_confidence = Confidence.medium;
}

check_negative_control_iff_example :
    ((check_negative_control control (build digest expansion ∷ []) 1).result
      ≡ DetectorResult.detector_ok)
    ↔ ((finding : Finding) × In finding (build digest expansion ∷ []) × Satisfies control finding)
check_negative_control_iff_example =
    check_negative_control_iff control (build digest expansion ∷ []) 1
