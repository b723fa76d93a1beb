-- ===== src/Analysis/Tasks/Tests.antt =====
-- The contracts of two tasks, one of them without a plan.
use chainbreak.Common.{In, ◌+◌, ◌↔◌, some, ℕ, ◌≡◌, true, false, List, [], ◌∷◌, length}
use chainbreak.Core.Enums.{FindingType, TaskStatus, Confidence}
use chainbreak.Analysis.Findings.{Finding, Payload, build}
use chainbreak.Analysis.Tasks.{about_task, TaskOutcome, TaskPlan, task_contract_findings}
use chainbreak.Analysis.Tasks.Contract.{
  Calls, count, narrows, substitutes, redelegates, task_contract_findings_exact,
}

abbrev digest : Payload → ℕ
digest p = length p.observation_refs

abbrev outcome : ℕ → ℕ → ℕ → TaskOutcome
outcome task succeeded attempts = record {
  task_id = task;
  identity_id = 3;
  status = TaskStatus.complete;
  steps_total = 2;
  steps_succeeded = succeeded;
  substituted_capabilities = [];
  redelegation_attempts = attempts;
  output_marker_written = true;
  output_marker_verified_independently = true;
}

abbrev outcomes : List TaskOutcome
outcomes = outcome 1 1 0 ∷ outcome 2 2 4 ∷ []

abbrev plans : List TaskPlan
plans = (record { task_id = 1; must_not_substitute = true; must_not_redelegate = false }) ∷ []

task_contract_findings_exact_example :
    ((f : Finding)
      → In f (task_contract_findings digest outcomes plans)
        ↔ ((t : TaskOutcome) × In t outcomes × Calls digest plans t f))
    × (length (task_contract_findings digest outcomes plans)
        ≡ count narrows outcomes
          + count (substitutes plans) outcomes
          + count (redelegates plans) outcomes)
    × ((t : TaskOutcome) (type : FindingType)
        → ((build digest (about_task t type)).type ≡ type)
          × ((build digest (about_task t type)).identity_id ≡ some t.identity_id)
          × ((build digest (about_task t type)).confidence ≡ Confidence.high))
task_contract_findings_exact_example = task_contract_findings_exact digest outcomes plans
