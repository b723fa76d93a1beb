-- ===== src/Analysis/Tasks.antt =====
-- src/chainbreak/analysis/task_contract.py, with `TaskOutcome` (src/chainbreak/core/models.py) and the
-- three task rules of src/chainbreak/analysis/rules.py.
pub mod Contract
mod Tests
use chainbreak.Common.{
  ℕ, Bool, true, false, not, ◌&&◌, ◌||◌, List, [], ◌∷◌, ◌++◌, Option, none, some, ltb, ◌==◌,
  if◌then◌else◌,
}
use chainbreak.Core.Authority.{AuthoritySet, is_empty}
use chainbreak.Core.Enums.{FindingType, SeverityHint, Confidence, TaskStatus}
use chainbreak.Core.Models.{IdentityId}
use chainbreak.Analysis.Confidence.{Coverage}
use chainbreak.Analysis.Findings.{Finding, Candidate, Payload, SubjectKind, Delta, build}

pub record TaskOutcome : Type 0 where
  pub task_id : ℕ
  pub identity_id : IdentityId
  pub status : TaskStatus
  pub steps_total : ℕ
  pub steps_succeeded : ℕ
  pub substituted_capabilities : AuthoritySet
  pub redelegation_attempts : ℕ
  pub output_marker_written : Bool
  pub output_marker_verified_independently : Bool

unfoldable pub is_complete : TaskStatus → Bool
is_complete TaskStatus.complete = true
is_complete _ = false

unfoldable pub claims_complete_but_is_not : TaskOutcome → Bool
unfolding is_complete
claims_complete_but_is_not t = is_complete t.status && ltb t.steps_succeeded t.steps_total

unfoldable pub claims_output_that_does_not_exist : TaskOutcome → Bool
claims_output_that_does_not_exist t =
    t.output_marker_written && not t.output_marker_verified_independently

-- The fields of `TaskPlan` (src/chainbreak/core/models.py) that the contract reads.
pub record TaskPlan : Type 0 where
  pub task_id : ℕ
  pub must_not_substitute : Bool
  pub must_not_redelegate : Bool

-- What the three rules build, whichever the type.
abbrev pub about_task : TaskOutcome → FindingType → Candidate
about_task t type = record {
  type = type;
  severity_hint = SeverityHint.investigate;
  subject_kind = SubjectKind.task;
  identity_id = some t.identity_id;
  edge_id = none;
  hop_index = none;
  delta = record { unexpected_gain = []; unexpected_loss = [] };
  drift_class = none;
  coverage = record { measured = 1; applicable = 1 };
  cells = [];
  policy_snapshot_ok = true;
  observation_refs = [];
  confidence_override = some Confidence.high;
}

-- `if finding is not None: findings.append(finding)`
abbrev pub append_some : Option Finding → List Finding → List Finding
append_some none findings = findings
append_some (some f) findings = f ∷ findings

-- `plans_by_task_id.get(task_id)`: of two plans with one id, the later is kept.
unfoldable pub plan_of : List TaskPlan → ℕ → Option TaskPlan
plan_of [] task_id = none
plan_of (p ∷ ps) task_id =
    let later = plan_of ps task_id in
    elim later [ some q ↦ some q | none ↦ if p.task_id == task_id then some p else none ]

-- A missing plan leaves both checks on.
unfoldable pub forbids_substitution : Option TaskPlan → Bool
forbids_substitution none = true
forbids_substitution (some p) = p.must_not_substitute

unfoldable pub forbids_redelegation : Option TaskPlan → Bool
forbids_redelegation none = true
forbids_redelegation (some p) = p.must_not_redelegate

module _ (digest : Payload → ℕ) where
  unfoldable pub rule_silent_narrowing : TaskOutcome → Option Finding
  rule_silent_narrowing t =
      if not (claims_complete_but_is_not t || claims_output_that_does_not_exist t)
      then none
      else some (build digest (about_task t FindingType.silent_narrowing))

  unfoldable pub rule_capability_substituted : TaskOutcome → Bool → Option Finding
  rule_capability_substituted t must_not_substitute =
      if not must_not_substitute || is_empty t.substituted_capabilities
      then none
      else some (build digest (about_task t FindingType.capability_substituted))

  unfoldable pub rule_redelegation_attempted : TaskOutcome → Bool → Option Finding
  rule_redelegation_attempted t must_not_redelegate =
      if not must_not_redelegate || t.redelegation_attempts == 0
      then none
      else some (build digest (about_task t FindingType.redelegation_attempted))

  unfoldable pub task_contract_findings : List TaskOutcome → List TaskPlan → List Finding
  task_contract_findings [] plans = []
  task_contract_findings (t ∷ ts) plans =
      let rest = task_contract_findings ts plans in
      let plan = plan_of plans t.task_id in
      append_some (rule_silent_narrowing t) (
        append_some (rule_capability_substituted t (forbids_substitution plan))
          (append_some (rule_redelegation_attempted t (forbids_redelegation plan)) rest))
