-- ===== src/Scenarios/Phases.antt =====
-- The plans that the compiler makes of the phases of a scenario, by their kinds
-- (src/chainbreak/scenarios/compiler.py).
use chainbreak.Common.{gather_some, ℕ, List, [], ◌∷◌, Option, none, some}
use chainbreak.Common.Dict.{index_by, Dict, lookup}
use chainbreak.Core.Authority.{AuthoritySet, CapabilityId}
use chainbreak.Core.Capabilities.{CapabilityCatalog}
use chainbreak.Core.Enums.{PhaseKind}
use chainbreak.Core.Errors.{Result, ok, or_raise, key_error, ◌>>=◌}
use chainbreak.Core.Errors.Collect.{collect}
use chainbreak.Core.Graph.Validation.{AuthorizationGraph}
use chainbreak.Core.Models.{IdentityId}
use chainbreak.Execution.Polling.{PollPlan}
use chainbreak.Execution.Revert.{MutationPlan}
use chainbreak.Scenarios.Spec.{PhaseSpec, TaskSpec, ScenarioSpec}
use chainbreak.Scenarios.Universe.{named_capabilities, capability_universe}

-- The plan of one phase for a mutation, of which there may be none.
unfoldable pub mutation_plan : PhaseSpec → Option MutationPlan
mutation_plan p = elim p.kind [
  | PhaseKind.mutate ↦ elim p.mutation [
    | none ↦ none
    | some m ↦ some (record {
      target_identity = m.target_identity;
      kind = m.kind;
      denies_capabilities = m.denies;
      grants_capabilities = m.grants;
      record_receipt = m.record_receipt;
    })
  ]
  | _ ↦ none
]

-- `_build_mutation_plans`
unfoldable pub build_mutation_plans : List PhaseSpec → List MutationPlan
build_mutation_plans phases = gather_some mutation_plan phases

-- The plan of one phase for a poll, with the identity and the capability that it polls.
unfoldable pub poll_plan : PhaseSpec → Option (IdentityId × CapabilityId × PollPlan)
poll_plan p = elim p.kind [
  | PhaseKind.poll ↦ elim p.target_identity [
    | none ↦ none
    | some i ↦ elim p.capability [
      | none ↦ none
      | some c ↦ some (
        i,
        c,
        record {
          interval_ms = p.interval_ms;
          max_duration_seconds = p.max_duration_seconds;
          stop_on = p.stop_on;
          stability_count = p.stability_count;
        },
      )
    ]
  ]
  | _ ↦ none
]

-- `_build_poll_plans`
unfoldable pub build_poll_plans : List PhaseSpec → List (IdentityId × CapabilityId × PollPlan)
build_poll_plans phases = gather_some poll_plan phases

-- `WaitPlan` (src/chainbreak/core/models.py)
pub record WaitPlan : Type 0 where
  pub phase_name : ℕ
  pub wait_seconds : ℕ

unfoldable pub wait_plan : PhaseSpec → Option WaitPlan
wait_plan p = elim p.kind [
  | PhaseKind.wait ↦ some (record { phase_name = p.name; wait_seconds = p.wait_seconds })
  | _ ↦ none
]

-- `_build_wait_plans`
unfoldable pub build_wait_plans : List PhaseSpec → List WaitPlan
build_wait_plans phases = gather_some wait_plan phases

-- `DeferredExecutionPlan` (src/chainbreak/core/models.py)
pub record DeferredExecutionPlan : Type 0 where
  pub phase_name : ℕ
  pub target_identity : IdentityId
  pub capabilities : AuthoritySet
  pub credential_source : ℕ

-- The plan of one phase, of which there may be none.
unfoldable pub phase_deferred :
    ScenarioSpec
    → AuthorizationGraph
    → CapabilityCatalog
    → PhaseSpec
    → Result (Option DeferredExecutionPlan)
phase_deferred spec graph catalog p = elim p.kind [
  | PhaseKind.deferred_execution ↦ elim p.target_identity [
    | none ↦ ok none
    | some i ↦ elim p.credential_source [
      | none ↦ ok none
      | some source ↦ do
        capabilities ← capability_universe spec graph catalog (named_capabilities spec) (i ∷ [])
        ok (
            some (record {
              phase_name = p.name;
              target_identity = i;
              capabilities = capabilities;
              credential_source = source;
            }))
    ]
  ]
  | _ ↦ ok none
]

-- `_build_deferred_execution_plans`
unfoldable pub build_deferred_execution_plans :
    ScenarioSpec
    → AuthorizationGraph
    → CapabilityCatalog
    → List PhaseSpec
    → Result (List DeferredExecutionPlan)
build_deferred_execution_plans spec graph catalog phases =
    collect (phase_deferred spec graph catalog) phases

-- The plan of one phase, of which there may be none: the task with the phase's name.
unfoldable pub phase_task : Dict TaskSpec → PhaseSpec → Result (Option (ℕ × TaskSpec))
phase_task tasks p = elim p.kind [
  | PhaseKind.task ↦ elim p.task [
    | none ↦ ok none
    | some id ↦ do task ← or_raise (lookup id tasks) key_error; ok (some (p.name, task))
  ]
  | _ ↦ ok none
]

-- `_build_task_plans`
unfoldable pub build_task_plans : Dict TaskSpec → List PhaseSpec → Result (List (ℕ × TaskSpec))
build_task_plans tasks phases = collect (phase_task tasks) phases

unfoldable pub index_tasks : Dict TaskSpec → List TaskSpec → Dict TaskSpec
index_tasks d ts = index_by (λ t. t.id) d ts
