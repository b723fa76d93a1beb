-- ===== src/Scenarios/Plan.antt =====
-- src/chainbreak/scenarios/plan.py: the order of execution, with a snapshot on either side of every
-- mutation.
pub mod Snapshots
use chainbreak.Common.{ℕ, ◌+◌, Bool, true, false, List, [], ◌∷◌}
use chainbreak.Core.Enums.{PhaseKind}
use chainbreak.Scenarios.Spec.{PhaseSpec}

-- A phase's name, or that name with `-pre-snapshot` or `-post-snapshot` behind it.
pub data StepName : Type 0 where
  named pre_snapshot post_snapshot : ℕ → StepName

-- `PlanStep` (src/chainbreak/core/models.py)
pub record PlanStep : Type 0 where
  pub order : ℕ
  pub phase_name : StepName
  pub kind : PhaseKind
  pub auto_inserted : Bool

unfoldable pub snapshot_step : ℕ → StepName → PlanStep
snapshot_step order name = record {
  order = order;
  phase_name = name;
  kind = PhaseKind.snapshot;
  auto_inserted = true;
}

unfoldable pub phase_step : ℕ → PhaseSpec → PlanStep
phase_step order phase = record {
  order = order;
  phase_name = StepName.named phase.name;
  kind = phase.kind;
  auto_inserted = false;
}

-- `is PhaseKind.MUTATE`
unfoldable pub is_mutate : PhaseKind → Bool
is_mutate PhaseKind.mutate = true
is_mutate _ = false

-- The loop, from an order on.
unfoldable pub plan_from : ℕ → List PhaseSpec → List PlanStep
plan_from order [] = []
plan_from order (phase ∷ phases) = elim (is_mutate phase.kind) [
  | true ↦
      snapshot_step order (StepName.pre_snapshot phase.name)
      ∷ phase_step (order + 1) phase
      ∷ snapshot_step (order + 2) (StepName.post_snapshot phase.name)
      ∷ plan_from (order + 3) phases
  | false ↦ phase_step order phase ∷ plan_from (order + 1) phases
]

unfoldable pub build_plan : List PhaseSpec → List PlanStep
build_plan phases = plan_from 0 phases
