-- ===== src/Scenarios/Compiler.antt =====
-- `compile_scenario` (src/chainbreak/scenarios/compiler.py): from a scenario to what a run executes.
-- Texts, versions and the hash of the document are left out.
pub mod Compiled
use chainbreak.Common.{
  ℕ, Bool, true, false, not, List, [], ◌∷◌, ◌++◌, Option, none, some, ltb, ◌==◌, length,
  if◌then◌else◌,
}
use chainbreak.Common.Dict.{index_by, Dict, lookup, insert}
use chainbreak.Capabilities.Loader.{resolve_bindings}
use chainbreak.Capabilities.Registry.{BindingRegistry, for_provider}
use chainbreak.Core.Authority.{AuthoritySet, CapabilityId, union}
use chainbreak.Core.Capabilities.{CapabilityCatalog, ids}
use chainbreak.Core.Enums.{PhaseKind}
use chainbreak.Core.Errors.{
  Result, ok, err, or_raise, raise_if, key_error, scenario_semantic_error, value_error, ◌>>=◌, ◌>>◌,
}
use chainbreak.Core.Graph.Validation.{AuthorizationGraph, node}
use chainbreak.Core.Models.{IdentityId, DelegationEdge}
use chainbreak.Core.Safety.{ProbeMatrix}
use chainbreak.Execution.Polling.{PollPlan}
use chainbreak.Execution.Revert.{MutationPlan}
use chainbreak.Graph.Builder.{Warning, build_graph}
use chainbreak.Scenarios.Derivation.{build_nodes_and_edges}
use chainbreak.Scenarios.Plan.{PlanStep, build_plan}
use chainbreak.Scenarios.Spec.{
  IdentitySpec, DelegationSpec, PhaseSpec, MutationSpec, TaskSpec, TaskStepSpec, ExpectationSpec,
  ProbeUniverse, ScenarioSpec,
}
use chainbreak.Scenarios.Universe.{
  whoami, gather, or_empty, singleton_of, identity_names, phase_mentions, task_mentions,
  expectation_mentions, named_capabilities, expected_of, universe_base, capability_universe,
  probed_identities, matrix_trials, phase_matrix, build_probe_matrices,
}
use chainbreak.Scenarios.Phases.{
  build_mutation_plans, build_poll_plans, DeferredExecutionPlan, phase_deferred,
  build_deferred_execution_plans, phase_task, build_task_plans, index_tasks, WaitPlan,
  build_wait_plans,
}

unfoldable pub index_edges : Dict DelegationEdge → List DelegationEdge → Dict DelegationEdge
index_edges d es = index_by (λ e. e.edge_id) d es

-- `synthesize_policy` (src/chainbreak/scenarios/policy_synthesis.py), on the size of the document.
unfoldable pub synthesize_policy : (size size_limit_bytes : ℕ) → Result (Unit {0})
synthesize_policy size size_limit_bytes =
    raise_if (ltb size_limit_bytes size) scenario_semantic_error

-- The size of each artifact, where every one of them is within the limit.
unfoldable pub policy_artifacts :
    (document_size : AuthoritySet → ℕ) → Dict DelegationEdge → List DelegationSpec → Result (List ℕ)
policy_artifacts document_size edges [] = ok []
policy_artifacts document_size edges (d ∷ ds) = do
  edge ← or_raise (lookup d.id edges) key_error
  synthesize_policy (document_size edge.expected_effective) 2048
  rest ← policy_artifacts document_size edges ds
  ok (document_size edge.expected_effective ∷ rest)

-- `CompiledScenario` (src/chainbreak/core/models.py), without versions, hash and expectations.
pub record CompiledScenario : Type 0 where
  pub graph : AuthorizationGraph
  pub warnings : List Warning
  pub probe_matrices : List ProbeMatrix
  pub mutation_plans : List MutationPlan
  pub poll_plans : List (IdentityId × CapabilityId × PollPlan)
  pub wait_plans : List WaitPlan
  pub deferred_execution_plans : List DeferredExecutionPlan
  pub task_plans : List (ℕ × TaskSpec)
  pub plan : List PlanStep
  pub policy_sizes : List ℕ

-- `compile_scenario`, after the derivation of the nodes and edges.
unfoldable pub compile_graph :
    (document_size : AuthoritySet → ℕ)
    → CapabilityCatalog
    → BindingRegistry
    → (max_delegation_depth : ℕ) → ScenarioSpec
    → AuthorizationGraph
    → Result CompiledScenario
compile_graph document_size catalog registry max_delegation_depth spec derived = do
  (graph, warnings) ← build_graph derived (ids catalog) max_delegation_depth spec.suppresses_g3
  resolve_bindings catalog (named_capabilities spec) (for_provider registry spec.provider)
        spec.provider
      >>= λ _. do
        matrices ← build_probe_matrices spec graph catalog spec.phases
        deferred ← build_deferred_execution_plans spec graph catalog spec.phases
        tasks ← build_task_plans (index_tasks [] spec.tasks) spec.phases
        sizes ← policy_artifacts document_size (index_edges [] derived.edges) spec.delegations
        ok (record {
          graph = graph;
          warnings = warnings;
          probe_matrices = matrices;
          mutation_plans = build_mutation_plans spec.phases;
          poll_plans = build_poll_plans spec.phases;
          wait_plans = build_wait_plans spec.phases;
          deferred_execution_plans = deferred;
          task_plans = tasks;
          plan = build_plan spec.phases;
          policy_sizes = sizes;
        })

-- `compile_scenario`; `none` where the derivation ran out of fuel.
unfoldable pub compile_scenario :
    (fuel : ℕ)
    → (document_size : AuthoritySet → ℕ) → CapabilityCatalog
    → BindingRegistry
    → (max_delegation_depth : ℕ) → ScenarioSpec
    → Option (Result CompiledScenario)
compile_scenario fuel document_size catalog registry max_delegation_depth spec =
    elim (build_nodes_and_edges fuel spec) [
      | none ↦ none
      | some (err e) ↦ some (err e)
      | some (ok (nodes, edges)) ↦ some (
          compile_graph document_size catalog registry max_delegation_depth spec
            (record { nodes = nodes; edges = edges }))
    ]
