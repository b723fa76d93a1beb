-- ===== src/Scenarios/Universe.antt =====
-- The probe universe of a scenario and the matrices that ask for it: `_named_capabilities`,
-- `_capability_universe` and `_build_probe_matrices` of src/chainbreak/scenarios/compiler.py.
pub mod Named
use chainbreak.Common.{
  ℕ, Bool, true, false, not, List, [], ◌∷◌, ◌++◌, Option, none, some, ltb, ◌==◌, length,
  if◌then◌else◌,
}
use chainbreak.Common.Dict.{Dict, lookup, insert}
use chainbreak.Capabilities.Loader.{resolve_bindings}
use chainbreak.Capabilities.Registry.{BindingRegistry, for_provider}
use chainbreak.Core.Authority.{AuthoritySet, CapabilityId, union}
use chainbreak.Core.Capabilities.{CapabilityCatalog, ids}
use chainbreak.Core.Enums.{PhaseKind}
use chainbreak.Core.Errors.{
  Result, ok, err, or_raise, raise_if, key_error, scenario_semantic_error, value_error, ◌>>=◌, ◌>>◌,
}
use chainbreak.Core.Errors.Collect.{collect}
use chainbreak.Core.Graph.Validation.{AuthorizationGraph, node}
use chainbreak.Core.Models.{IdentityId, DelegationEdge}
use chainbreak.Core.Safety.{ProbeMatrix}
use chainbreak.Execution.Polling.{PollPlan}
use chainbreak.Execution.Revert.{MutationPlan}
use chainbreak.Graph.Builder.{Warning, build_graph}
use chainbreak.Scenarios.Derivation.{build_nodes_and_edges}
use chainbreak.Scenarios.Plan.{PlanStep, build_plan}
use chainbreak.Scenarios.Spec.{
  IdentitySpec, DelegationSpec, PhaseSpec, MutationSpec, TaskSpec, TaskStepSpec, ExpectationSpec,
  ProbeUniverse, ScenarioSpec,
}

-- `identity.whoami`, at its place in the catalog's order.
abbrev pub whoami : CapabilityId
whoami = 2

-- The union over a sequence.
abbrev pub gather {ℓ} : {A : Type ℓ} → (A → AuthoritySet) → List A → AuthoritySet
gather f [] = []
gather f (x ∷ xs) = f x ++ gather f xs

abbrev pub or_empty : Option AuthoritySet → AuthoritySet
or_empty none = []
or_empty (some s) = s

abbrev pub singleton_of : Option CapabilityId → AuthoritySet
singleton_of none = []
singleton_of (some c) = c ∷ []

unfoldable pub identity_names : IdentitySpec → AuthoritySet
identity_names i = or_empty i.capabilities ++ or_empty i.expect_capabilities

unfoldable pub phase_mentions : PhaseSpec → AuthoritySet
phase_mentions p =
    singleton_of p.capability ++ elim p.mutation [ none ↦ [] | some m ↦ union m.denies m.grants ]

unfoldable pub task_mentions : TaskSpec → AuthoritySet
task_mentions t = t.requires_capabilities ++ gather (λ s. s.use_ ∷ []) t.steps

unfoldable pub expectation_mentions : ExpectationSpec → AuthoritySet
expectation_mentions e = e.allow ++ (e.deny ++ singleton_of e.capability)

-- `_named_capabilities`
unfoldable pub named_capabilities : ScenarioSpec → AuthoritySet
named_capabilities spec =
    gather identity_names spec.identities
    ++ (gather (λ d. d.intended_capabilities) spec.delegations
        ++ (gather phase_mentions spec.phases
            ++ (gather task_mentions spec.tasks ++ gather expectation_mentions spec.expectations)))

-- The loop of the `declared` universe.
unfoldable pub expected_of : AuthorizationGraph → List IdentityId → Result AuthoritySet
expected_of graph [] = ok []
expected_of graph (i ∷ is) = do
  n ← node graph i
  rest ← expected_of graph is
  ok (n.expected_authority.capabilities ++ rest)

-- `_capability_universe`, before `identity.whoami` is added.
unfoldable pub universe_base :
    ProbeUniverse
    → AuthorizationGraph
    → CapabilityCatalog
    → AuthoritySet
    → List IdentityId
    → Result AuthoritySet
universe_base ProbeUniverse.catalog graph catalog named identities = ok (ids catalog)
universe_base ProbeUniverse.declared graph catalog named identities = expected_of graph identities
universe_base ProbeUniverse.scenario graph catalog named identities = ok named

-- `_capability_universe`
unfoldable pub capability_universe :
    ScenarioSpec
    → AuthorizationGraph
    → CapabilityCatalog
    → AuthoritySet
    → List IdentityId
    → Result AuthoritySet
capability_universe spec graph catalog named identities = do
  capabilities ← universe_base spec.probe_universe graph catalog named identities
  ok (union capabilities (whoami ∷ []))

-- `phase.targets or ((phase.target_identity,) if phase.target_identity else ())`
unfoldable pub probed_identities : PhaseSpec → List IdentityId
probed_identities p = elim p.targets [
  | [] ↦ elim p.target_identity [ none ↦ [] | some i ↦ i ∷ [] ]
  | i ∷ is ↦ i ∷ is
]

-- The trials of the matrix of a phase; `none` where its kind has no matrix.
unfoldable pub matrix_trials : ScenarioSpec → PhaseKind → Option ℕ
matrix_trials spec PhaseKind.probe = some spec.trials
matrix_trials spec PhaseKind.deferred_execution = some 2
matrix_trials spec _ = none

-- The matrix of a phase, of which there may be none.
unfoldable pub phase_matrix :
    ScenarioSpec → AuthorizationGraph → CapabilityCatalog → PhaseSpec → Result (Option ProbeMatrix)
phase_matrix spec graph catalog p = elim (matrix_trials spec p.kind) [
  | none ↦ ok none
  | some trials ↦ elim (probed_identities p) [
    | [] ↦ ok none
    | i ∷ is ↦ do
      capabilities ← capability_universe spec graph catalog (named_capabilities spec) (i ∷ is)
      ok (some (record { identities = i ∷ is; capabilities = capabilities; trials = trials }))
  ]
]

-- `_build_probe_matrices`: a phase without a matrix is skipped.
unfoldable pub build_probe_matrices :
    ScenarioSpec
    → AuthorizationGraph
    → CapabilityCatalog
    → List PhaseSpec
    → Result (List ProbeMatrix)
build_probe_matrices spec graph catalog phases = collect (phase_matrix spec graph catalog) phases
