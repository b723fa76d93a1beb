-- ===== src/Scenarios/Compiler/Compiled.antt =====
-- What a compiled scenario is: the derivation, the checks of the graph and of the bindings, and the
-- universe of the matrices, put together.
pub mod Matrices
pub mod Plans
use chainbreak.Common.{
  ℕ, ◌≡◌, ◌≢◌, ◌≤◌, ◌↔◌, refl, sym, ap, ◌∙◌, ◌⊎◌, inl, inr, Bool, true, false, List, [], ◌∷◌,
  Option, none, some, mem, In, Option-cases, length, ◌<◌,
}
use chainbreak.Capabilities.Loader.{resolve_bindings}
use chainbreak.Capabilities.Loader.Resolution.{IsBound, resolve_bindings_lem}
use chainbreak.Capabilities.Registry.{BindingRegistry, for_provider}
use chainbreak.Core.Authority.{AuthoritySet, CapabilityId}
use chainbreak.Core.Capabilities.{CapabilityCatalog, ProviderCapabilityBinding, ids}
use chainbreak.Core.Enums.{PhaseKind}
use chainbreak.Core.Errors.{ok_eq, Result, ok, err, >>=-eq-ok, Result-cases, ◌>>=◌}
use chainbreak.Core.Graph.Validation.{AuthorizationGraph}
use chainbreak.Core.Models.{IdentityId, IdentityNode, DelegationEdge}
use chainbreak.Core.Safety.{ProbeMatrix}
use chainbreak.Graph.Builder.{build_graph, Warning}
use chainbreak.Graph.Builder.Guarantees.{IsGuarded, build_graph-IsGuarded}
use chainbreak.Scenarios.Derivation.{build_nodes_and_edges}
use chainbreak.Scenarios.Derivation.Attenuates.{
  IsRooted, IsDerived, build_nodes_and_edges-IsDerived,
}
use chainbreak.Scenarios.Spec.{
  ScenarioSpec, ProbeUniverse, PhaseSpec, TaskSpec, DelegationSpec, MutationSpec,
}
use chainbreak.Scenarios.Universe.{
  matrix_trials, probed_identities, whoami, named_capabilities, build_probe_matrices,
}
use chainbreak.Execution.Polling.{PollPlan}
use chainbreak.Execution.Revert.{MutationPlan}
use chainbreak.Scenarios.Plan.{build_plan}
use chainbreak.Scenarios.Phases.{
  WaitPlan, build_mutation_plans, build_poll_plans, build_wait_plans, DeferredExecutionPlan,
  build_deferred_execution_plans, build_task_plans, index_tasks,
}
use chainbreak.Scenarios.Compiler.{
  policy_artifacts, index_edges, CompiledScenario, compile_graph, compile_scenario,
}
use chainbreak.Scenarios.Universe.Named.{IsNamed, named_capabilities_iff}
use chainbreak.Scenarios.Compiler.Compiled.Matrices.{
  AsksFor, InUniverse, build_probe_matrices-AsksFor, build_probe_matrices-covers,
}
use chainbreak.Scenarios.Compiler.Compiled.Plans.{
  build_mutation_plans-covers, build_poll_plans-covers, build_wait_plans-covers,
  build_deferred_execution_plans-covers, build_task_plans-covers, policy_artifacts-fit,
}

-- A scenario compiled without the opt-out: its graph is derived from the scenario and guarded, every
-- capability that it names has a valid binding, every phase that probes someone has its matrix and
-- every phase that mutates, polls, waits, defers or runs a task its plan, a matrix asks for the
-- whole universe, and the policy of every delegation is within the limit.
pub record IsCompiled (document_size : AuthoritySet → ℕ) (catalog : CapabilityCatalog)
    (registry : BindingRegistry) (ceiling : ℕ) (spec : ScenarioSpec) (r : IsRooted spec)
    (c : CompiledScenario) : Type 0 where
  pub derived : IsDerived spec r.root c.graph.nodes c.graph.edges
  pub guarded : IsGuarded c.graph (ids catalog) ceiling
  pub bound :
      (name : CapabilityId)
      → IsNamed spec name
      → (b : ProviderCapabilityBinding) × IsBound catalog
          (for_provider registry spec.provider)
          spec.provider
          name
          b
  pub matrices : (m : ProbeMatrix) → In m c.probe_matrices → AsksFor spec c.graph catalog m
  pub probed :
      (p : PhaseSpec) (trials : ℕ)
      → In p spec.phases
      → matrix_trials spec p.kind ≡ some trials
      → probed_identities p ≢ []
      → (m : ProbeMatrix) × In m c.probe_matrices
        × (m.identities ≡ probed_identities p)
        × (m.trials ≡ trials)
  pub mutations :
      (p : PhaseSpec) (m : MutationSpec)
      → In p spec.phases
      → p.kind ≡ PhaseKind.mutate
      → p.mutation ≡ some m
      → In
          (record {
            target_identity = m.target_identity;
            kind = m.kind;
            denies_capabilities = m.denies;
            grants_capabilities = m.grants;
            record_receipt = m.record_receipt;
          })
          c.mutation_plans
  pub polls :
      (p : PhaseSpec) (i : IdentityId) (name : CapabilityId)
      → In p spec.phases
      → p.kind ≡ PhaseKind.poll
      → p.target_identity ≡ some i
      → p.capability ≡ some name
      → In
          (
            i,
            name,
            record {
              interval_ms = p.interval_ms;
              max_duration_seconds = p.max_duration_seconds;
              stop_on = p.stop_on;
              stability_count = p.stability_count;
            },
          )
          c.poll_plans
  pub waits :
      (p : PhaseSpec)
      → In p spec.phases
      → p.kind ≡ PhaseKind.wait
      → In (record { phase_name = p.name; wait_seconds = p.wait_seconds }) c.wait_plans
  pub in_plan : c.plan ≡ build_plan spec.phases
  pub deferred :
      (p : PhaseSpec) (i : IdentityId) (source : ℕ)
      → In p spec.phases
      → p.kind ≡ PhaseKind.deferred_execution
      → p.target_identity ≡ some i
      → p.credential_source ≡ some source
      → (d : DeferredExecutionPlan) × In d c.deferred_execution_plans
        × (d.phase_name ≡ p.name)
        × (d.target_identity ≡ i)
        × (d.credential_source ≡ source)
        × ((name : CapabilityId)
            → (mem name d.capabilities ≡ true) ↔ (
                (name ≡ whoami)
                ⊎ InUniverse spec.probe_universe spec c.graph catalog (i ∷ []) name))
  pub tasks :
      (p : PhaseSpec) (id : ℕ)
      → In p spec.phases
      → p.kind ≡ PhaseKind.task
      → p.task ≡ some id
      → (t : TaskSpec) × In (p.name, t) c.task_plans × In t spec.tasks × (t.id ≡ id)
  pub fits :
      (d : DelegationSpec)
      → In d spec.delegations
      → (x : DelegationEdge) × In x c.graph.edges
        × (x.edge_id ≡ d.id)
        × (document_size x.expected_effective ≤ 2048)

-- What `compile_graph` got through.
record Parts (document_size : AuthoritySet → ℕ) (catalog : CapabilityCatalog)
    (registry : BindingRegistry) (ceiling : ℕ) (spec : ScenarioSpec) (derived : AuthorizationGraph)
    (c : CompiledScenario) : Type 0 where
  warnings : List Warning
  built : build_graph derived (ids catalog) ceiling spec.suppresses_g3 ≡ ok (c.graph, warnings)
  resolved : List (ℕ × ProviderCapabilityBinding)
  bindings :
      resolve_bindings catalog
        (named_capabilities spec)
        (for_provider registry spec.provider)
        spec.provider
      ≡ ok resolved
  matrices : build_probe_matrices spec c.graph catalog spec.phases ≡ ok c.probe_matrices
  deferred :
      build_deferred_execution_plans spec c.graph catalog spec.phases
      ≡ ok c.deferred_execution_plans
  tasks : build_task_plans (index_tasks [] spec.tasks) spec.phases ≡ ok c.task_plans
  mutations : build_mutation_plans spec.phases ≡ c.mutation_plans
  polls : build_poll_plans spec.phases ≡ c.poll_plans
  waits : build_wait_plans spec.phases ≡ c.wait_plans
  in_plan : c.plan ≡ build_plan spec.phases
  sizes :
      policy_artifacts document_size (index_edges [] derived.edges) spec.delegations
      ≡ ok c.policy_sizes

some_eq {ℓ} : {A : Type ℓ} {x y : A} → some x ≡ some y → x ≡ y
some_eq h = cc

compile_graph-Parts :
    (document_size : AuthoritySet → ℕ) (catalog : CapabilityCatalog) (registry : BindingRegistry)
    (ceiling : ℕ) (spec : ScenarioSpec) (derived : AuthorizationGraph) (c : CompiledScenario)
    → compile_graph document_size catalog registry ceiling spec derived ≡ ok c
    → Parts document_size catalog registry ceiling spec derived c
unfolding compile_graph
compile_graph-Parts document_size catalog registry ceiling spec derived c made =
    let ((graph, warnings), built, k1) =
      >>=-eq-ok (build_graph derived (ids catalog) ceiling spec.suppresses_g3) _ made in
    let (resolved, bindings, k2) =
      >>=-eq-ok
        (resolve_bindings catalog (named_capabilities spec) (for_provider registry spec.provider)
          spec.provider)
        _ k1 in
    let (matrices, asked, k3) =
      >>=-eq-ok (build_probe_matrices spec graph catalog spec.phases) _ k2 in
    let (deferred, deferring, k4) =
      >>=-eq-ok (build_deferred_execution_plans spec graph catalog spec.phases) _ k3 in
    let (tasks, tasking, k5) =
      >>=-eq-ok (build_task_plans (index_tasks [] spec.tasks) spec.phases) _ k4 in
    let (sizes, sizing, last) =
      >>=-eq-ok (policy_artifacts document_size (index_edges [] derived.edges) spec.delegations) _
        k5 in
    let graph_is : graph ≡ c.graph = ap (λ z. z.graph) (ok_eq last) in
    let matrices_are : matrices ≡ c.probe_matrices = ap (λ z. z.probe_matrices) (ok_eq last) in
    record {
      warnings = warnings;
      built = built ∙ ap (λ z. ok (z, warnings)) graph_is;
      resolved = resolved;
      bindings = bindings;
      matrices = (rw (sym graph_is) (asked ∙ ap ok matrices_are));
      deferred =
          (rw (sym graph_is) (deferring ∙ ap (λ z. ok z.deferred_execution_plans) (ok_eq last)));
      tasks = tasking ∙ ap (λ z. ok z.task_plans) (ok_eq last);
      mutations = ap (λ z. z.mutation_plans) (ok_eq last);
      polls = ap (λ z. z.poll_plans) (ok_eq last);
      waits = ap (λ z. z.wait_plans) (ok_eq last);
      in_plan = sym (ap (λ z. z.plan) (ok_eq last));
      sizes = sizing ∙ ap (λ z. ok z.policy_sizes) (ok_eq last);
    }

assembled :
    (fuel : ℕ) (document_size : AuthoritySet → ℕ) (catalog : CapabilityCatalog)
    (registry : BindingRegistry) (ceiling : ℕ) (spec : ScenarioSpec) (r : IsRooted spec)
    (c : CompiledScenario) (nodes : List IdentityNode) (edges : List DelegationEdge)
    → spec.suppresses_g3 ≡ false
    → build_nodes_and_edges fuel spec ≡ some (ok (nodes, edges))
    → compile_graph document_size catalog registry ceiling spec
        (record { nodes = nodes; edges = edges })
      ≡ ok c
    → IsCompiled document_size catalog registry ceiling spec r c
assembled fuel document_size catalog registry ceiling spec r c nodes edges strict derived made =
    let graph : AuthorizationGraph = record { nodes = nodes; edges = edges } in
    let parts = compile_graph-Parts document_size catalog registry ceiling spec graph c made in
    let (same, guarded) =
      build_graph-IsGuarded graph c.graph (ids catalog) ceiling parts.warnings
        (rw strict at parts.built) in
    record {
      derived = (rw same (build_nodes_and_edges-IsDerived fuel spec r nodes edges derived));
      guarded = guarded;
      bound = λ name named.
          let (b, is_bound, _) =
            ((resolve_bindings_lem catalog (for_provider registry spec.provider) spec.provider
                  (named_capabilities spec)).1
                parts.resolved parts.bindings name).0
              ((named_capabilities_iff spec name).1 named) in
          (b, is_bound);
      matrices =
          build_probe_matrices-AsksFor spec c.graph catalog spec.phases c.probe_matrices
            parts.matrices;
      probed = λ p trials at.
          build_probe_matrices-covers spec c.graph catalog spec.phases c.probe_matrices
            parts.matrices p trials at;
      deferred = λ p i source at.
          build_deferred_execution_plans-covers spec c.graph catalog spec.phases
            c.deferred_execution_plans parts.deferred p i source at;
      mutations = (rw (← parts.mutations) (build_mutation_plans-covers spec.phases));
      polls = (rw (← parts.polls) (build_poll_plans-covers spec.phases));
      waits = (rw (← parts.waits) (build_wait_plans-covers spec.phases));
      in_plan = parts.in_plan;
      tasks = λ p id at.
          build_task_plans-covers spec.tasks spec.phases c.task_plans parts.tasks p id at;
      fits =
          (rw same
            (policy_artifacts-fit document_size edges spec.delegations c.policy_sizes parts.sizes));
    }

-- A scenario that is rooted and compiles without the opt-out is compiled as it means: its graph is
-- the one derived by intersection and is guarded, every capability that it names has a
-- valid binding of its provider, every phase that probes someone has its matrix and every phase that
-- mutates, polls, waits, defers or runs a task its plan with what it declares, each matrix and
-- deferred plan asks for its whole universe, the steps are those of the execution plan, and the
-- policy of every delegation is within 2048 bytes. Named are the capabilities of identities,
-- delegations, phases, tasks and expectations, not what only the expected finding of a negative
-- control has.
pub compile_scenario-IsCompiled :
    (fuel : ℕ) (document_size : AuthoritySet → ℕ) (catalog : CapabilityCatalog)
    (registry : BindingRegistry) (ceiling : ℕ) (spec : ScenarioSpec) (r : IsRooted spec)
    (c : CompiledScenario)
    → spec.suppresses_g3 ≡ false
    → compile_scenario fuel document_size catalog registry ceiling spec ≡ some (ok c)
    → IsCompiled document_size catalog registry ceiling spec r c
unfolding compile_scenario
compile_scenario-IsCompiled fuel document_size catalog registry ceiling spec r c strict made =
    elim (Option-cases (build_nodes_and_edges fuel spec)) [
      | inl out ↦ let made' = rw (compile_scenario, out) at made in cc
      | inr (result, ended) ↦ elim (Result-cases result) [
        | inl (x, failed) ↦ let made' = rw (compile_scenario, ended, failed) at made in cc
        | inr ((nodes, edges), succeeded) ↦
            let made' = rw (compile_scenario, ended, succeeded) at made in
            assembled fuel document_size catalog registry ceiling spec r c nodes edges strict
              (ended ∙ ap some succeeded) (some_eq made')
      ]
    ]
