-- ===== src/Core/Enums.antt =====
-- The enumerations of src/chainbreak/core/enums.py that the modelled code branches on, with the
-- properties that the source defines on their members.
pub mod Equality
use chainbreak.Common.{ℕ, Bool, true, false}

pub data Provider : Type 0 where
  aws fake : Provider

pub data ProbeKind : Type 0 where
  read_marker write_scratch list_prefix invoke_noop self_describe delegate : ProbeKind

pub data Sensitivity : Type 0 where
  benign_read benign_write benign_invoke delegation dangerous : Sensitivity

pub data DelegationMechanism : Type 0 where
  direct_role_assumption role_chain session_policy_scoped : DelegationMechanism
  role_chain_with_session_policy resource_policy_grant : DelegationMechanism
  federated_token workload_identity : DelegationMechanism

pub data PhaseKind : Type 0 where
  probe mutate poll wait deferred_execution task snapshot : PhaseKind

pub data PlanPhase : Type 0 where
  baseline post_delegation pre_mutation post_mutation deferred_execution : PlanPhase
  paired_fresh_credential post_expiry task_execution final : PlanPhase

pub data OutcomeClass : Type 0 where
  allowed denied_explicit denied_implicit denied_unattributed : OutcomeClass
  error_resource_missing error_transient error_infrastructure indeterminate : OutcomeClass

-- `OutcomeClass.is_denial`, with the set `_DENIALS`.
unfoldable pub is_denial : OutcomeClass → Bool
is_denial OutcomeClass.denied_explicit = true
is_denial OutcomeClass.denied_implicit = true
is_denial OutcomeClass.denied_unattributed = true
is_denial _ = false

-- `OutcomeClass.is_error`, with the set `_ERRORS`.
unfoldable pub is_error : OutcomeClass → Bool
is_error OutcomeClass.error_resource_missing = true
is_error OutcomeClass.error_transient = true
is_error OutcomeClass.error_infrastructure = true
is_error _ = false

-- `OutcomeClass.counts_as_authority`; also the test `is OutcomeClass.ALLOWED`.
unfoldable pub is_allowed : OutcomeClass → Bool
is_allowed OutcomeClass.allowed = true
is_allowed _ = false

pub data DenialAttribution : Type 0 where
  explicit_deny implicit_no_allow session_policy trust_policy : DenialAttribution
  resource_policy permission_boundary undisclosed : DenialAttribution

pub data ExclusionReason : Type 0 where
  precondition_failed transient_errors_exhausted infrastructure_error : ExclusionReason
  trials_disagreed no_binding_in_scenario not_probed control_capability_failed : ExclusionReason

pub data Confidence : Type 0 where
  high medium low insufficient : Confidence

-- `Confidence.rank`
unfoldable pub rank : Confidence → ℕ
rank Confidence.high = 3
rank Confidence.medium = 2
rank Confidence.low = 1
rank Confidence.insufficient = 0

pub data FindingType : Type 0 where
  expected_behavior authority_expansion authority_survival authority_narrowing : FindingType
  delegation_drift revocation_delay no_transition_observed stale_authority : FindingType
  expired_credential_accepted silent_narrowing capability_substituted : FindingType
  redelegation_attempted lifetime_capped inconclusive execution_error : FindingType
  configuration_error detector_failure : FindingType

pub data SeverityHint : Type 0 where
  informational review investigate : SeverityHint

pub data DriftClass : Type 0 where
  originated propagated amplified corrected : DriftClass

pub data DivergenceKind : Type 0 where
  expansion narrowing mixed unmeasured : DivergenceKind

pub data MutationKind : Type 0 where
  attach_inline_deny remove_inline_policy replace_inline_policy : MutationKind
  update_trust_policy revoke_older_sessions delete_session_policy_scope : MutationKind

pub data StaleAuthorityClass : Type 0 where
  current_authority stale_authority_live_credential expired_credential_honored : StaleAuthorityClass
  credential_expired session_scope_cached indeterminate : StaleAuthorityClass

pub data TaskStatus : Type 0 where
  complete partial failed : TaskStatus

pub data CategoryStatus : Type 0 where
  consistent divergent partial not_measured detector_failed : CategoryStatus
