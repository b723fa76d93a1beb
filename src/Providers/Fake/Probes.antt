-- ===== src/Providers/Fake/Probes.antt =====
-- src/chainbreak/providers/fake/probes.py: a policy decision packaged into the outcome of a probe.
pub mod Overrides
use chainbreak.Common.{
  ℕ, Bool, true, false, not, ◌&&◌, List, [], ◌∷◌, Option, none, some, is_some, if◌then◌else◌,
}
use chainbreak.Common.Text.{Text}
use chainbreak.Core.Authority.{AuthoritySet, CapabilityId, contains}
use chainbreak.Core.Capabilities.{Capability}
use chainbreak.Core.Enums.{OutcomeClass, DenialAttribution, is_denial}
use chainbreak.Core.Errors.{Result, ok, raise_if, value_error, ◌>>=◌, ◌>>◌}
use chainbreak.Capabilities.Preconditions.{PreconditionRegistry, register, verify}

-- The texts of `disambiguation_path` that the simulated provider uses.
pub data Disambiguation : Type 0 where
  fault_injection_throttle fault_injection_transient session_revoked : Disambiguation
  precondition_failed control_capability policy_engine : Disambiguation

-- `ProbeOutcome` (src/chainbreak/core/models.py), the fields that the simulated provider sets.
pub record ProbeOutcome : Type 0 where
  pub outcome_class : OutcomeClass
  pub denial_attribution : Option DenialAttribution
  pub disambiguation_path : Disambiguation

-- The validator `_attribution_only_for_denials`.
unfoldable pub probe_outcome : ProbeOutcome → Result ProbeOutcome
unfolding is_denial
probe_outcome o = do
  raise_if (is_some o.denial_attribution && not (is_denial o.outcome_class)) value_error
  ok o

pub record MarkerStore : Type 0 where
  pub objectstore_marker_present : Bool
  pub keyvalue_marker_present : Bool
  pub function_alive : Bool
  pub queue_present : Bool

-- The names of the preconditions of the catalog.
abbrev pub objectstore_marker : ℕ
objectstore_marker = 0

abbrev pub keyvalue_marker : ℕ
keyvalue_marker = 1

abbrev pub function_alive_name : ℕ
function_alive_name = 2

abbrev pub queue_present_name : ℕ
queue_present_name = 3

unfoldable pub build_fake_preconditions : MarkerStore → Result (PreconditionRegistry Text)
unfolding register
build_fake_preconditions markers = do
  one ← register [] objectstore_marker (λ _. markers.objectstore_marker_present)
  two ← register one keyvalue_marker (λ _. markers.keyvalue_marker_present)
  three ← register two function_alive_name (λ _. markers.function_alive)
  register three queue_present_name (λ _. markers.queue_present)

-- `_denial_attribution`
unfoldable pub denial_attribution_of :
    OutcomeClass → AuthoritySet → CapabilityId → Bool → Option DenialAttribution
denial_attribution_of OutcomeClass.denied_explicit identity_allow capability_id narrowed =
    some DenialAttribution.explicit_deny
denial_attribution_of OutcomeClass.denied_implicit identity_allow capability_id narrowed =
    if narrowed && contains identity_allow capability_id
    then some DenialAttribution.session_policy
    else some DenialAttribution.implicit_no_allow
denial_attribution_of _ identity_allow capability_id narrowed = none

-- The loop over the required preconditions: whether one of them fails. A name without a verifier
-- raises.
unfoldable pub a_precondition_fails : PreconditionRegistry Text → List ℕ → Text → Result Bool
unfolding verify
a_precondition_fails preconditions [] ref = ok false
a_precondition_fails preconditions (name ∷ names) ref = do
  holds ← verify preconditions name ref
  elim holds [ true ↦ a_precondition_fails preconditions names ref | false ↦ ok true ]

unfoldable pub build_probe_outcome :
    PreconditionRegistry Text
    → (provisioning_identity : Text) → Capability
    → OutcomeClass
    → (identity_allow : AuthoritySet) → (session_allow : Option AuthoritySet) → Result ProbeOutcome
unfolding a_precondition_fails denial_attribution_of probe_outcome
build_probe_outcome preconditions provisioning_identity capability outcome_class identity_allow
      session_allow =
    do
      fails ←
          a_precondition_fails preconditions capability.requires_precondition provisioning_identity
      if fails
          then probe_outcome (record {
            outcome_class = OutcomeClass.error_infrastructure;
            denial_attribution = none;
            disambiguation_path = precondition_failed;
          })
          else if capability.is_control
          then probe_outcome (record {
            outcome_class = OutcomeClass.allowed;
            denial_attribution = none;
            disambiguation_path = control_capability;
          })
          else probe_outcome (record {
            outcome_class = outcome_class;
            denial_attribution =
                denial_attribution_of outcome_class identity_allow capability.id
                  (is_some session_allow);
            disambiguation_path = policy_engine;
          })
