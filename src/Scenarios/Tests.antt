-- ===== src/Scenarios/Tests.antt =====
-- A root, an agent and a sub-agent, with a probe and a mutation; and scenarios that the compiler does
-- not get through.
use chainbreak.Graph.Builder.{
  build_graph, observed_references, node_references, edge_references, check_g5_bounded_depth,
  check_g4_capability_closure, check_g3_monotone_intent,
}
use chainbreak.Core.Graph.Kahn.{
  visit_all, sources, release, indegree, drain, decrement, assert_acyclic,
}
use chainbreak.Core.Enums.Equality.{same_provider, same_kind}
use chainbreak.Capabilities.Loader.{validate_binding, resolve_each, resolve_bindings, candidate}
use chainbreak.Core.Graph.Validation.{the_root, node, depth_of, depth, authorization_graph}
use chainbreak.Common.Nodup.{all_distinct}
use chainbreak.Common.{
  ℕ, ◌≡◌, ◌≢◌, ◌↔◌, refl, sym, ap, ◌∙◌, true, false, List, [], ◌∷◌, Option, none, some, arith, In,
  here, there, mem, length,
}
use chainbreak.Capabilities.Registry.{for_provider, BindingRegistry}
use chainbreak.Core.Authority.{
  union, sorted, set_eq, is_subset_of, is_empty, inter, insert, diff, AuthoritySet,
}
use chainbreak.Core.Capabilities.{
  is_dangerous, get, Capability, CapabilityCatalog, ProviderCapabilityBinding,
}
use chainbreak.Core.Enums.{
  DelegationMechanism, MutationKind, PhaseKind, Provider, ProbeKind, Sensitivity,
}
use chainbreak.Core.Errors.{Result, ok}
use chainbreak.Core.Models.{delegation_edge, identity_node, IdentityNode, DelegationEdge}
use chainbreak.Execution.Polling.{StopOn}
use chainbreak.Scenarios.Spec.{
  mutation_target, refers_to, phase_refers, phase_names, check_references, spec_roots, spec_ids,
  check_identities, IdentitySpec, DelegationSpec, PhaseSpec, MutationSpec, ScenarioSpec,
  ProbeUniverse, scenario_spec,
}
use chainbreak.Scenarios.Derivation.{
  declared_capabilities, nodes_in_order, finish_derivation, open_delegation, children_of,
  visit_each, check_declared, index_identities, enter_identity, visit, add_delegation,
  index_delegations, build_nodes_and_edges,
}
use chainbreak.Scenarios.Derivation.Attenuates.{
  IsRooted, IsDerived, build_nodes_and_edges-IsDerived, build_nodes_and_edges_ends,
}
use chainbreak.Scenarios.Plan.{snapshot_step, plan_from, phase_step, is_mutate, build_plan}
use chainbreak.Scenarios.Plan.Snapshots.{
  IsNumberedFrom, IsEnclosed, declared_steps, phase_steps, build_plan_lem,
}
use chainbreak.Scenarios.Bounded.{Value, Items, assert_bounded, max_node_count, max_nesting_depth}
use chainbreak.Scenarios.Bounded.Exact.{size, level, Decides, assert_bounded-Decides}
use chainbreak.Scenarios.Universe.{
  universe_base, task_mentions, probed_identities, phase_mentions, phase_matrix, matrix_trials,
  identity_names, expected_of, expectation_mentions, capability_universe, build_probe_matrices,
  named_capabilities,
}
use chainbreak.Scenarios.Phases.{
  phase_task, phase_deferred, index_tasks, build_task_plans, build_poll_plans, build_mutation_plans,
  build_deferred_execution_plans,
}
use chainbreak.Scenarios.Compiler.{
  compile_graph, synthesize_policy, policy_artifacts, index_edges, CompiledScenario,
  compile_scenario,
}
use chainbreak.Scenarios.Universe.Named.{IsNamed, named_capabilities-IsNamed}
use chainbreak.Scenarios.Compiler.Compiled.{IsCompiled, compile_scenario-IsCompiled}

abbrev root : IdentitySpec
root = record {
  id = 1;
  is_root = true;
  capabilities = some (2 ∷ 3 ∷ 4 ∷ []);
  expect_capabilities = none;
}

abbrev agent : ℕ → IdentitySpec
agent i = record { id = i; is_root = false; capabilities = none; expect_capabilities = none }

abbrev delegation : ℕ → ℕ → ℕ → AuthoritySet → DelegationSpec
delegation id from_ to intended = record {
  id = id;
  from_ = from_;
  to = to;
  mechanism = DelegationMechanism.role_chain;
  intended_capabilities = intended;
  has_session_policy = false;
}

abbrev phase : ℕ → PhaseKind → Option MutationSpec → PhaseSpec
phase name kind mutation = record {
  name = name;
  kind = kind;
  targets = 1 ∷ 2 ∷ 3 ∷ [];
  target_identity = none;
  capability = none;
  mutation = mutation;
  interval_ms = 500;
  max_duration_seconds = 300;
  stop_on = StopOn.stable_denial;
  stability_count = 3;
  wait_seconds = 0;
  credential_source = none;
  task = none;
}

abbrev denial : MutationSpec
denial = record {
  target_identity = 2;
  kind = MutationKind.attach_inline_deny;
  denies = 4 ∷ [];
  grants = [];
  record_receipt = true;
}

abbrev scenario : List DelegationSpec → ScenarioSpec
scenario delegations = record {
  provider = Provider.fake;
  trials = 3;
  probe_universe = ProbeUniverse.scenario;
  identities = root ∷ agent 2 ∷ agent 3 ∷ [];
  delegations = delegations;
  phases = phase 50 PhaseKind.probe none ∷ phase 51 PhaseKind.mutate (some denial) ∷ [];
  tasks = [];
  expectations = [];
  suppresses_g3 = false;
  expected_finding_capabilities = [];
}

abbrev chained : ScenarioSpec
chained = scenario (delegation 10 1 2 (3 ∷ 4 ∷ []) ∷ delegation 11 2 3 (3 ∷ []) ∷ [])

not_root : (d : DelegationSpec) → In d chained.delegations → d.to ≢ 1
not_root d m = elim m [
  | here e ↦ λ to_root. absurd (omega (arith, sym (ap (λ z. z.to) e) ∙ to_root))
  | there n ↦ elim n [
    | here e ↦ λ to_root. absurd (omega (arith, sym (ap (λ z. z.to) e) ∙ to_root))
    | there k ↦ elim k [ ]
  ]
]

chained-IsRooted : IsRooted chained
unfolding scenario_spec check_identities all_distinct spec_ids spec_roots check_references
    phase_names phase_refers refers_to mutation_target
chained-IsRooted = record {
  accepted = refl;
  named = refl;
  root = root;
  found = refl;
  untargeted = not_root;
}

derived :
    (n : List IdentityNode × List DelegationEdge) × (build_nodes_and_edges 3 chained ≡ some (ok n))
unfolding build_nodes_and_edges index_delegations add_delegation visit enter_identity
    index_identities check_declared identity_node visit_each children_of open_delegation
    delegation_edge finish_derivation nodes_in_order
derived = (_, refl)

build_nodes_and_edges-IsDerived_example :
    IsDerived chained chained-IsRooted.root derived.0.0 derived.0.1
build_nodes_and_edges-IsDerived_example =
    build_nodes_and_edges-IsDerived 3 chained chained-IsRooted derived.0.0 derived.0.1 derived.1

build_nodes_and_edges_ends_example :
    (result : Result (List IdentityNode × List DelegationEdge)) × (build_nodes_and_edges 3 chained
      ≡ some result)
build_nodes_and_edges_ends_example =
    build_nodes_and_edges_ends 3 chained chained-IsRooted (omega arith)

-- A delegation back to the root: the schema accepts it, and the derivation does not end.
abbrev cyclic : ScenarioSpec
cyclic =
    scenario
      (delegation 10 1 2 (3 ∷ []) ∷ delegation 11 2 1 (3 ∷ []) ∷ delegation 12 2 3 (3 ∷ []) ∷ [])

cyclic_accepted : scenario_spec cyclic ≡ ok cyclic
unfolding scenario_spec check_identities all_distinct spec_ids spec_roots check_references
    phase_names phase_refers refers_to mutation_target
cyclic_accepted = refl

cyclic_endless : build_nodes_and_edges 40 cyclic ≡ none
unfolding build_nodes_and_edges index_delegations add_delegation visit enter_identity
    index_identities check_declared identity_node visit_each children_of open_delegation
    delegation_edge
cyclic_endless = refl

-- Two delegations of one name do not end either.
abbrev namesakes : ScenarioSpec
namesakes = scenario (delegation 10 2 3 (3 ∷ []) ∷ delegation 10 1 2 (3 ∷ []) ∷ [])

namesakes_accepted : scenario_spec namesakes ≡ ok namesakes
unfolding scenario_spec check_identities all_distinct spec_ids spec_roots check_references
    phase_names phase_refers refers_to mutation_target
namesakes_accepted = refl

namesakes_endless : build_nodes_and_edges 40 namesakes ≡ none
unfolding build_nodes_and_edges index_delegations add_delegation visit enter_identity
    index_identities check_declared identity_node visit_each children_of open_delegation
    delegation_edge
namesakes_endless = refl

build_plan_lem_example :
    IsNumberedFrom 0 (build_plan chained.phases)
    × (declared_steps (build_plan chained.phases) ≡ phase_steps chained.phases)
    × ((p : PhaseSpec)
        → In p chained.phases
        → is_mutate p.kind ≡ true
        → IsEnclosed (build_plan chained.phases) p)
build_plan_lem_example = build_plan_lem chained.phases

-- A list of a mapping and a scalar.
abbrev document : Value
document = Value.sequence (
    Items.cons (Value.mapping (Items.cons Value.scalar Items.nil))
      (Items.cons Value.scalar Items.nil))

assert_bounded-Decides_example :
    Decides max_node_count max_nesting_depth
      (assert_bounded 20002 document)
      (size document)
      (level document 0)
assert_bounded-Decides_example = assert_bounded-Decides 20002 document (omega arith)

named_capabilities-IsNamed_example :
    ((mem 4 (named_capabilities chained) ≡ true) ↔ IsNamed chained 4)
    × ((s : AuthoritySet)
        → named_capabilities (record chained { expected_finding_capabilities = s })
          ≡ named_capabilities chained)
named_capabilities-IsNamed_example = named_capabilities-IsNamed chained 4

abbrev capability_of : ℕ → Capability
capability_of i = record {
  id = i;
  probe_kind = ProbeKind.read_marker;
  sensitivity = Sensitivity.benign_read;
  mutates_state = false;
  is_control = false;
  requires_precondition = [];
}

abbrev binding_of : ℕ → ProviderCapabilityBinding
binding_of i = record {
  capability_id = i;
  provider = Provider.fake;
  actions = i ∷ [];
  resource_template = i;
  probe_kind = ProbeKind.read_marker;
  preconditions = [];
}

abbrev catalog : CapabilityCatalog
catalog = capability_of 2 ∷ capability_of 3 ∷ capability_of 4 ∷ []

abbrev registry : BindingRegistry
registry = binding_of 2 ∷ binding_of 3 ∷ binding_of 4 ∷ []

compiled :
    (c : CompiledScenario) × (compile_scenario 3 length catalog registry 6 chained ≡ some (ok c))
unfolding compile_scenario authorization_graph candidate resolve_bindings resolve_each
    validate_binding for_provider all_distinct diff insert inter is_empty is_subset_of set_eq sorted
    union get is_dangerous same_kind same_provider assert_acyclic decrement drain indegree release
    sources visit_all depth depth_of node the_root check_g3_monotone_intent
    check_g4_capability_closure check_g5_bounded_depth edge_references node_references
    observed_references build_deferred_execution_plans build_mutation_plans build_poll_plans
    build_probe_matrices build_task_plans capability_universe expectation_mentions expected_of
    identity_names index_edges index_tasks matrix_trials named_capabilities phase_deferred
    phase_matrix phase_mentions phase_task policy_artifacts probed_identities synthesize_policy
    task_mentions universe_base declared_capabilities build_plan is_mutate phase_step plan_from
    snapshot_step build_nodes_and_edges index_delegations add_delegation visit enter_identity
    index_identities check_declared identity_node visit_each children_of open_delegation
    delegation_edge finish_derivation nodes_in_order compile_graph build_graph
compiled = (_, refl)

compile_scenario-IsCompiled_example :
    IsCompiled length catalog registry 6 chained chained-IsRooted compiled.0
compile_scenario-IsCompiled_example =
    compile_scenario-IsCompiled 3 length catalog registry 6 chained chained-IsRooted compiled.0 refl
      compiled.1
