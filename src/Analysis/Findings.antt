-- ===== src/Analysis/Findings.antt =====
-- `Finding` and its evidence (src/chainbreak/core/models.py), and how `_build`
-- (src/chainbreak/analysis/rules.py) makes one. The texts of a finding are left out. Its id is the
-- start of a SHA-256 digest of the fields below, which is a parameter.
pub mod Gating
use chainbreak.Common.{ℕ, Bool, List, [], Option, none, some}
use chainbreak.Common.Dict.{Dict, lookup}
use chainbreak.Core.Authority.{AuthoritySet, CapabilityId}
use chainbreak.Core.Enums.{FindingType, SeverityHint, Confidence, DriftClass}
use chainbreak.Core.Models.{IdentityId}
use chainbreak.Analysis.Cells.{ProbeCellResult}
use chainbreak.Analysis.Confidence.{Coverage, gate_confidence}

pub data SubjectKind : Type 0 where
  identity edge path task credential run : SubjectKind

-- `delta`: the values under the keys `unexpected_gain` and `unexpected_loss`, where they are there.
pub record Delta : Type 0 where
  pub unexpected_gain : AuthoritySet
  pub unexpected_loss : AuthoritySet

pub record Finding : Type 0 where
  pub finding_id : ℕ
  pub type : FindingType
  pub severity_hint : SeverityHint
  pub confidence : Confidence
  pub subject_kind : SubjectKind
  pub identity_id : Option IdentityId
  pub edge_id : Option ℕ
  pub hop_index : Option ℕ
  pub delta : Delta
  pub drift_class : Option DriftClass
  pub observation_refs : List ℕ

-- What the digest of `_deterministic_finding_id` is taken of.
pub record Payload : Type 0 where
  pub type : FindingType
  pub subject_kind : SubjectKind
  pub identity_id : Option IdentityId
  pub edge_id : Option ℕ
  pub hop_index : Option ℕ
  pub observation_refs : List ℕ

-- The arguments of `_build`.
pub record Candidate : Type 0 where
  pub type : FindingType
  pub severity_hint : SeverityHint
  pub subject_kind : SubjectKind
  pub identity_id : Option IdentityId
  pub edge_id : Option ℕ
  pub hop_index : Option ℕ
  pub delta : Delta
  pub drift_class : Option DriftClass
  pub coverage : Coverage
  pub cells : List ProbeCellResult
  pub policy_snapshot_ok : Bool
  pub observation_refs : List ℕ
  pub confidence_override : Option Confidence

-- `INCONCLUSIVE if confidence is INSUFFICIENT else type`
unfoldable pub final_type : Confidence → FindingType → FindingType
final_type Confidence.insufficient type = FindingType.inconclusive
final_type _ type = type

unfoldable pub confidence_of : Candidate → Confidence
confidence_of c = elim c.confidence_override [
  | some confidence ↦ confidence
  | none ↦ gate_confidence c.coverage c.cells c.policy_snapshot_ok
]

unfoldable pub build : (Payload → ℕ) → Candidate → Finding
unfolding final_type confidence_of
build digest c =
    let confidence = confidence_of c in
    let type = final_type confidence c.type in
    record {
      finding_id = digest (record {
        type = type;
        subject_kind = c.subject_kind;
        identity_id = c.identity_id;
        edge_id = c.edge_id;
        hop_index = c.hop_index;
        observation_refs = c.observation_refs;
      });
      type = type;
      severity_hint = c.severity_hint;
      confidence = confidence;
      subject_kind = c.subject_kind;
      identity_id = c.identity_id;
      edge_id = c.edge_id;
      hop_index = c.hop_index;
      delta = c.delta;
      drift_class = c.drift_class;
      observation_refs = c.observation_refs;
    }
