-- ===== src/Analysis/Rules.antt =====
-- The authority-axis rules of src/chainbreak/analysis/rules.py: which finding, if any, a node or an
-- edge gives. The texts are left out, with the expected and observed states that they repeat; the
-- digest of a finding's id is a parameter.
pub mod Reports
pub mod Nodes
mod Tests
use chainbreak.Common.{
  ℕ, Bool, true, false, not, ◌&&◌, ◌||◌, List, [], ◌∷◌, ◌++◌, Option, none, some, ◌==◌,
  if◌then◌else◌, map, is_none, length,
}
use chainbreak.Common.Dict.{Dict, lookup, keys}
use chainbreak.Core.Authority.{AuthoritySet, CapabilityId, is_empty, sorted}
use chainbreak.Core.Enums.{FindingType, SeverityHint, DriftClass}
use chainbreak.Core.Models.{
  IdentityNode, DelegationEdge, EdgeDivergence, ObservedAuthority, unexpected_gain, unexpected_loss,
  diverged,
}
use chainbreak.Analysis.Cells.{ProbeCellResult}
use chainbreak.Analysis.Confidence.{Coverage}
use chainbreak.Analysis.Findings.{Finding, Candidate, Payload, SubjectKind, Delta, build}

-- `_observation_refs`
unfoldable pub observation_refs_of : Dict ProbeCellResult → List CapabilityId → List ℕ
observation_refs_of cells [] = []
observation_refs_of cells (c ∷ cs) =
    let rest = observation_refs_of cells cs in
    elim (lookup c cells) [ none ↦ rest | some cell ↦ cell.observation_ids ++ rest ]

-- `_contributing_cells`
unfoldable pub contributing_cells : Dict ProbeCellResult → List CapabilityId → List ProbeCellResult
contributing_cells cells [] = []
contributing_cells cells (c ∷ cs) =
    let rest = contributing_cells cells cs in
    elim (lookup c cells) [ none ↦ rest | some cell ↦ cell ∷ rest ]

abbrev pub values : Dict ProbeCellResult → List ProbeCellResult
values [] = []
values ((_, cell) ∷ cells) = cell ∷ values cells

-- A quotient that is 0.0 where the divisor is zero.
unfoldable pub ratio : (measured applicable : ℕ) → Coverage
ratio measured applicable =
    if applicable == 0
    then record { measured = 0; applicable = 1 }
    else record { measured = measured; applicable = applicable }

-- `ObservedAuthority.coverage`
unfoldable pub coverage_of : ObservedAuthority → Coverage
unfolding ratio
coverage_of o = ratio o.classified o.attempted

-- A candidate about a node, with the capabilities that it rests on.
abbrev pub about_node :
    IdentityNode
    → ObservedAuthority
    → Dict ProbeCellResult
    → FindingType
    → SeverityHint
    → Option DriftClass
    → Delta
    → List ProbeCellResult
    → List CapabilityId
    → Candidate
about_node n o cells type severity drift delta backing capabilities = record {
  type = type;
  severity_hint = severity;
  subject_kind = SubjectKind.identity;
  identity_id = some n.identity_id;
  edge_id = none;
  hop_index = some n.hop_index;
  delta = delta;
  drift_class = drift;
  coverage = coverage_of o;
  cells = backing;
  policy_snapshot_ok = true;
  observation_refs = observation_refs_of cells capabilities;
  confidence_override = none;
}

abbrev pub no_delta : Delta
no_delta = record { unexpected_gain = []; unexpected_loss = [] }

unfoldable pub rule_expected_behavior :
    (Payload → ℕ) → IdentityNode → Dict ProbeCellResult → Option Finding
rule_expected_behavior digest n cells = elim n.observed_authority [
  | none ↦ none
  | some o ↦
      if diverged n
      then none
      else some (
          build digest (
            about_node n o cells FindingType.expected_behavior SeverityHint.informational none
              no_delta (values cells) (sorted (keys cells))))
]

-- `drift_class in (None, DriftClass.ORIGINATED)`
unfoldable pub is_origin : Option DriftClass → Bool
is_origin none = true
is_origin (some DriftClass.originated) = true
is_origin (some _) = false

-- A node with a gain is measured: without an observed authority the gain is empty.
unfoldable pub rule_authority_expansion :
    (Payload → ℕ) → IdentityNode → Option DriftClass → Dict ProbeCellResult → Option Finding
rule_authority_expansion digest n drift_class cells =
    let gain = unexpected_gain n in
    if is_empty gain || not (is_origin drift_class) then none else elim n.observed_authority [
      | none ↦ none
      | some o ↦ some (
          build digest (
            about_node n o cells FindingType.authority_expansion SeverityHint.review drift_class
              (record { unexpected_gain = sorted gain; unexpected_loss = [] })
              (contributing_cells cells (sorted gain)) (sorted gain)))
    ]

unfoldable pub rule_authority_narrowing :
    (Payload → ℕ) → IdentityNode → Dict ProbeCellResult → Option Finding
rule_authority_narrowing digest n cells =
    let loss = unexpected_loss n in
    if is_empty loss then none else elim n.observed_authority [
      | none ↦ none
      | some o ↦ some (
          build digest (
            about_node n o cells FindingType.authority_narrowing SeverityHint.informational none
              (record { unexpected_gain = []; unexpected_loss = sorted loss })
              (contributing_cells cells (sorted loss)) (sorted loss)))
    ]

-- `drift_class is None or drift_class is DriftClass.CORRECTED`
unfoldable pub is_quiet : Option DriftClass → Bool
is_quiet none = true
is_quiet (some DriftClass.corrected) = true
is_quiet (some _) = false

unfoldable pub rule_delegation_drift :
    (Payload → ℕ) → IdentityNode → Option DriftClass → Dict ProbeCellResult → Option Finding
rule_delegation_drift digest n drift_class cells =
    let gain = unexpected_gain n in
    if is_empty gain || n.hop_index == 0 || is_quiet drift_class
    then none
    else elim n.observed_authority [
      | none ↦ none
      | some o ↦ some (
          build digest (
            about_node n o cells FindingType.delegation_drift SeverityHint.review drift_class
              (record { unexpected_gain = sorted gain; unexpected_loss = [] })
              (contributing_cells cells (sorted gain)) (sorted gain)))
    ]

unfoldable pub rule_authority_survival :
    (Payload → ℕ) → DelegationEdge → EdgeDivergence → Dict ProbeCellResult → Option Finding
unfolding ratio
rule_authority_survival digest edge divergence target_cells =
    let survived = sorted divergence.survived_incorrectly in
    let contributing = contributing_cells target_cells survived in
    if is_empty divergence.survived_incorrectly
    then none
    else some (
        build digest (record {
          type = FindingType.authority_survival;
          severity_hint = SeverityHint.investigate;
          subject_kind = SubjectKind.edge;
          identity_id = some edge.target_id;
          edge_id = some edge.edge_id;
          hop_index = none;
          delta = record { unexpected_gain = survived; unexpected_loss = [] };
          drift_class = none;
          coverage = ratio (length contributing) (length survived);
          cells = contributing;
          policy_snapshot_ok = true;
          observation_refs = observation_refs_of target_cells survived;
          confidence_override = none;
        }))
