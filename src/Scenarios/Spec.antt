-- ===== src/Scenarios/Spec.antt =====
-- src/chainbreak/scenarios/schema.py: the parts of a scenario that the compiler reads, with their
-- validators as functions into `Result`. Names of phases, tasks and delegations are numbers, since
-- they are only compared; texts, defaults and single-field ranges are left out.
use chainbreak.Common.{
  ℕ, Bool, true, false, not, ◌&&◌, ◌||◌, List, [], ◌∷◌, Option, none, some, ◌==◌, all, mem, length,
  is_none, if◌then◌else◌,
}
use chainbreak.Common.Nodup.{all_distinct}
use chainbreak.Core.Authority.{AuthoritySet, is_empty}
use chainbreak.Core.Enums.{DelegationMechanism, MutationKind, PhaseKind, Provider}
use chainbreak.Core.Errors.{Result, ok, raise_if, value_error, ◌>>◌}
use chainbreak.Core.Models.{IdentityId}
use chainbreak.Execution.Polling.{StopOn}

pub record IdentitySpec : Type 0 where
  pub id : IdentityId
  pub is_root : Bool
  pub capabilities : Option AuthoritySet
  pub expect_capabilities : Option AuthoritySet

-- An absent or an empty tuple.
unfoldable pub is_falsy : Option AuthoritySet → Bool
is_falsy none = true
is_falsy (some s) = is_empty s

-- The validator `_root_declares_capabilities`.
unfoldable pub identity_spec : IdentitySpec → Result IdentitySpec
identity_spec i = do
  raise_if (i.is_root && is_falsy i.capabilities) value_error
  raise_if (not i.is_root && not (is_falsy i.capabilities)) value_error
  ok i

pub record DelegationSpec : Type 0 where
  pub id : ℕ
  pub from_ : IdentityId
  pub to : IdentityId
  pub mechanism : DelegationMechanism
  pub intended_capabilities : AuthoritySet
  pub has_session_policy : Bool

unfoldable pub is_unsupported : DelegationMechanism → Bool
is_unsupported DelegationMechanism.federated_token = true
is_unsupported DelegationMechanism.workload_identity = true
is_unsupported _ = false

unfoldable pub is_scoped : DelegationMechanism → Bool
is_scoped DelegationMechanism.session_policy_scoped = true
is_scoped DelegationMechanism.role_chain_with_session_policy = true
is_scoped _ = false

-- The validator `_mechanism_supported`.
unfoldable pub delegation_spec : DelegationSpec → Result DelegationSpec
delegation_spec d = do
  raise_if (is_unsupported d.mechanism) value_error
  raise_if (d.from_ == d.to) value_error
  raise_if (is_scoped d.mechanism && not d.has_session_policy) value_error
  ok d

pub record MutationSpec : Type 0 where
  pub target_identity : IdentityId
  pub kind : MutationKind
  pub denies : AuthoritySet
  pub grants : AuthoritySet
  pub record_receipt : Bool

pub record PhaseSpec : Type 0 where
  pub name : ℕ
  pub kind : PhaseKind
  pub targets : List IdentityId
  pub target_identity : Option IdentityId
  pub capability : Option ℕ
  pub mutation : Option MutationSpec
  pub interval_ms : ℕ
  pub max_duration_seconds : ℕ
  pub stop_on : StopOn
  pub stability_count : ℕ
  pub wait_seconds : ℕ
  pub credential_source : Option ℕ
  pub task : Option ℕ

-- The validator `PhaseSpec._kind_requirements`.
unfoldable pub phase_spec : PhaseSpec → Result PhaseSpec
phase_spec p = elim p.kind [
  | PhaseKind.probe ↦ do raise_if (length p.targets == 0) value_error; ok p
  | PhaseKind.mutate ↦ do raise_if (is_none p.mutation) value_error; ok p
  | PhaseKind.poll ↦ do
    raise_if (is_none p.target_identity || is_none p.capability) value_error
    ok p
  | PhaseKind.deferred_execution ↦ do
    raise_if (is_none p.credential_source) value_error
    raise_if (is_none p.target_identity) value_error
    ok p
  | PhaseKind.wait ↦ do raise_if (p.wait_seconds == 0) value_error; ok p
  | PhaseKind.task ↦ do raise_if (is_none p.task) value_error; ok p
  | PhaseKind.snapshot ↦ ok p
]

pub data OnFailure : Type 0 where
  proceed abort retry : OnFailure

pub record TaskStepSpec : Type 0 where
  pub use_ : ℕ
  pub on_failure : OnFailure

pub record TaskSpec : Type 0 where
  pub id : ℕ
  pub identity : IdentityId
  pub requires_capabilities : AuthoritySet
  pub steps : List TaskStepSpec
  pub must_report_partial : Bool
  pub must_not_substitute : Bool
  pub must_not_redelegate : Bool

pub record ExpectationSpec : Type 0 where
  pub identity : Option IdentityId
  pub allow : AuthoritySet
  pub deny : AuthoritySet
  pub path : List IdentityId
  pub capability : Option ℕ
  pub task : Option ℕ

pub data ProbeUniverse : Type 0 where
  declared scenario catalog : ProbeUniverse

pub record ScenarioSpec : Type 0 where
  pub provider : Provider
  pub trials : ℕ
  pub probe_universe : ProbeUniverse
  pub identities : List IdentitySpec
  pub delegations : List DelegationSpec
  pub phases : List PhaseSpec
  pub tasks : List TaskSpec
  pub expectations : List ExpectationSpec
  -- `"G-3" in spec.negative_control.suppress_graph_check`, `false` without a negative control.
  pub suppresses_g3 : Bool
  -- `spec.negative_control.expect_finding.capabilities`, empty without a negative control.
  pub expected_finding_capabilities : AuthoritySet

unfoldable pub spec_ids : List IdentitySpec → List IdentityId
spec_ids [] = []
spec_ids (i ∷ is) = i.id ∷ spec_ids is

unfoldable pub spec_roots : List IdentitySpec → List IdentitySpec
spec_roots [] = []
spec_roots (i ∷ is) = let rest = spec_roots is in if i.is_root then i ∷ rest else rest

unfoldable pub phase_names : List PhaseSpec → List ℕ
phase_names [] = []
phase_names (p ∷ ps) = p.name ∷ phase_names ps

unfoldable pub task_ids : List TaskSpec → List ℕ
task_ids [] = []
task_ids (t ∷ ts) = t.id ∷ task_ids ts

-- A reference that is absent or known.
unfoldable pub refers_to : List ℕ → Option ℕ → Bool
refers_to known none = true
refers_to known (some r) = mem r known

unfoldable pub mutation_target : PhaseSpec → Option IdentityId
mutation_target p = elim p.mutation [ none ↦ none | some m ↦ some m.target_identity ]

-- The checks of `_referential_integrity` on the identities and the delegations.
unfoldable pub check_identities : ScenarioSpec → Result (Unit {0})
check_identities spec = do
  let ids = spec_ids spec.identities
  raise_if (not (all_distinct ids)) value_error
  raise_if (not (length (spec_roots spec.identities) == 1)) value_error
  raise_if (not (all (λ d. mem d.from_ ids && mem d.to ids) spec.delegations)) value_error

unfoldable pub phase_refers : (ids phases tasks : List ℕ) → PhaseSpec → Bool
phase_refers ids phases tasks p =
    all (λ t. mem t ids) p.targets
    && refers_to ids p.target_identity
    && refers_to ids (mutation_target p)
    && refers_to tasks p.task
    && refers_to phases p.credential_source

unfoldable pub expectation_refers : (ids tasks : List ℕ) → ExpectationSpec → Bool
expectation_refers ids tasks e =
    refers_to ids e.identity && all (λ h. mem h ids) e.path && refers_to tasks e.task

-- Its checks on the phases, the tasks and the expectations.
unfoldable pub check_references : ScenarioSpec → Result (Unit {0})
check_references spec = do
  let ids = spec_ids spec.identities
  let phases = phase_names spec.phases
  let tasks = task_ids spec.tasks
  raise_if (not (all_distinct phases)) value_error
  raise_if (not (all (phase_refers ids phases tasks) spec.phases)) value_error
  raise_if (not (all (λ t. mem t.identity ids) spec.tasks)) value_error
  raise_if (not (all (expectation_refers ids tasks) spec.expectations)) value_error

-- The validator `ScenarioSpec._referential_integrity`.
unfoldable pub scenario_spec : ScenarioSpec → Result ScenarioSpec
scenario_spec spec = do check_identities spec; check_references spec; ok spec
