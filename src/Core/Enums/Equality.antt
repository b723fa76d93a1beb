-- ===== src/Core/Enums/Equality.antt =====
-- `is` and `==` on members of an enumeration: each member has a number, by which it is compared.
use chainbreak.Common.{ℕ, ◌≡◌, ◌↔◌, Bool, true, arith, ◌==◌}
use chainbreak.Core.Enums.{OutcomeClass, PlanPhase, FindingType, Provider, ProbeKind}

abbrev outcome_number : OutcomeClass → ℕ
outcome_number OutcomeClass.allowed = 0
outcome_number OutcomeClass.denied_explicit = 1
outcome_number OutcomeClass.denied_implicit = 2
outcome_number OutcomeClass.denied_unattributed = 3
outcome_number OutcomeClass.error_resource_missing = 4
outcome_number OutcomeClass.error_transient = 5
outcome_number OutcomeClass.error_infrastructure = 6
outcome_number OutcomeClass.indeterminate = 7

unfoldable pub same_outcome : OutcomeClass → OutcomeClass → Bool
same_outcome a b = outcome_number a == outcome_number b

pub same_outcome_iff : (a b : OutcomeClass) → (same_outcome a b ≡ true) ↔ (a ≡ b)
unfolding same_outcome
same_outcome_iff a b = ground arith

abbrev phase_number : PlanPhase → ℕ
phase_number PlanPhase.baseline = 0
phase_number PlanPhase.post_delegation = 1
phase_number PlanPhase.pre_mutation = 2
phase_number PlanPhase.post_mutation = 3
phase_number PlanPhase.deferred_execution = 4
phase_number PlanPhase.paired_fresh_credential = 5
phase_number PlanPhase.post_expiry = 6
phase_number PlanPhase.task_execution = 7
phase_number PlanPhase.final = 8

unfoldable pub same_phase : PlanPhase → PlanPhase → Bool
same_phase a b = phase_number a == phase_number b

pub same_phase_iff : (a b : PlanPhase) → (same_phase a b ≡ true) ↔ (a ≡ b)
unfolding same_phase
same_phase_iff a b = ground arith

abbrev finding_number : FindingType → ℕ
finding_number FindingType.expected_behavior = 0
finding_number FindingType.authority_expansion = 1
finding_number FindingType.authority_survival = 2
finding_number FindingType.authority_narrowing = 3
finding_number FindingType.delegation_drift = 4
finding_number FindingType.revocation_delay = 5
finding_number FindingType.no_transition_observed = 6
finding_number FindingType.stale_authority = 7
finding_number FindingType.expired_credential_accepted = 8
finding_number FindingType.silent_narrowing = 9
finding_number FindingType.capability_substituted = 10
finding_number FindingType.redelegation_attempted = 11
finding_number FindingType.lifetime_capped = 12
finding_number FindingType.inconclusive = 13
finding_number FindingType.execution_error = 14
finding_number FindingType.configuration_error = 15
finding_number FindingType.detector_failure = 16

unfoldable pub same_finding : FindingType → FindingType → Bool
same_finding a b = finding_number a == finding_number b

pub same_finding_iff : (a b : FindingType) → (same_finding a b ≡ true) ↔ (a ≡ b)
unfolding same_finding
same_finding_iff a b = ground arith

abbrev provider_number : Provider → ℕ
provider_number Provider.aws = 0
provider_number Provider.fake = 1

unfoldable pub same_provider : Provider → Provider → Bool
same_provider a b = provider_number a == provider_number b

pub same_provider_iff : (a b : Provider) → (same_provider a b ≡ true) ↔ (a ≡ b)
unfolding same_provider
same_provider_iff a b = ground arith

abbrev kind_number : ProbeKind → ℕ
kind_number ProbeKind.read_marker = 0
kind_number ProbeKind.write_scratch = 1
kind_number ProbeKind.list_prefix = 2
kind_number ProbeKind.invoke_noop = 3
kind_number ProbeKind.self_describe = 4
kind_number ProbeKind.delegate = 5

unfoldable pub same_kind : ProbeKind → ProbeKind → Bool
same_kind a b = kind_number a == kind_number b

pub same_kind_iff : (a b : ProbeKind) → (same_kind a b ≡ true) ↔ (a ≡ b)
unfolding same_kind
same_kind_iff a b = ground arith
