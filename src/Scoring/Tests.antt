-- ===== src/Scoring/Tests.antt =====
-- The scoring code on a category with one divergent finding.
use chainbreak.Common.{ℕ, ◌≡◌, true, false, [], ◌∷◌, none, some, arith}
use chainbreak.Core.Enums.{Confidence, FindingType, SeverityHint}
use chainbreak.Core.Errors.{ok}
use chainbreak.Analysis.Findings.{Finding, SubjectKind}
use chainbreak.Scoring.Categories.{CategoryResult, Evaluation, ScoringCategory, finalize}
use chainbreak.Scoring.Categories.Finalize.{HasStatus, IsModest, finalize_total}

abbrev survival : Finding
survival = record {
  finding_id = 9;
  type = FindingType.authority_survival;
  severity_hint = SeverityHint.investigate;
  confidence = Confidence.medium;
  subject_kind = SubjectKind.edge;
  identity_id = some 3;
  edge_id = some 32;
  hop_index = none;
  delta = record { unexpected_gain = 12 ∷ []; unexpected_loss = [] };
  drift_class = none;
  observation_refs = [];
}

abbrev evaluation : ℕ → Evaluation
evaluation measured = record {
  category = ScoringCategory.delegation_integrity;
  applicable = 4;
  measured = measured;
  is_divergent = true;
  is_partial_signal = false;
  contributing = survival ∷ [];
  detector_checks = [];
}

finalize_total_example :
    (r : CategoryResult) × (finalize (evaluation 4) ≡ ok r)
    × HasStatus (evaluation 4) r.status
    × IsModest (evaluation 4) r
finalize_total_example = finalize_total (evaluation 4) (omega arith)
