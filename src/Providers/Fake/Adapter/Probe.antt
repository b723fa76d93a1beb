-- ===== src/Providers/Fake/Adapter/Probe.antt =====
-- `FakeProviderAdapter.probe` (src/chainbreak/providers/fake/adapter.py). Whether the fault
-- generator's draw falls below the error rate is an argument; it is read only where the code draws.
use chainbreak.Common.{
  ℕ, suc, ◌*◌, Bool, false, not, List, [], ◌∷◌, Option, none, some, mem, ltb, leb, if◌then◌else◌,
}
use chainbreak.Common.Dict.{lookup, erase}
use chainbreak.Common.Text.{Text, lookup_text}
use chainbreak.Core.Authority.{AuthoritySet, CapabilityId}
use chainbreak.Core.Capabilities.{Capability, ProviderCapabilityBinding, get}
use chainbreak.Core.Enums.{OutcomeClass, DenialAttribution}
use chainbreak.Core.Errors.{Result, ok, err, or_raise, key_error, ◌>>=◌, ◌>>◌}
use chainbreak.Core.Models.{IdentityId}
use chainbreak.Capabilities.Guard.{guarded}
use chainbreak.Providers.Fake.Consistency.{is_visible}
use chainbreak.Providers.Fake.Engine.{evaluate, evaluate_against, state_of}
use chainbreak.Providers.Fake.Probes.{
  ProbeOutcome, Disambiguation, probe_outcome, build_fake_preconditions, build_probe_outcome,
}
use chainbreak.Providers.Fake.Session.{is_live}
use chainbreak.Providers.Namespace.{assert_namespace}
use chainbreak.Providers.Fake.Adapter.{FakeProviderAdapter, PendingTransition, make_ref}

-- `ProbeRequest` (src/chainbreak/providers/base/types.py)
pub record ProbeRequest : Type 0 where
  pub identity_ref : Text
  pub capability_id : CapabilityId
  pub binding : ProviderCapabilityBinding
  pub namespace : Text

-- `ProbeResult`, with the instants of its timing.
pub record ProbeResult : Type 0 where
  pub outcome : ProbeOutcome
  pub monotonic_start_ns : ℕ
  pub monotonic_end_ns : ℕ
  pub wall_start_ms : ℕ

unfoldable pub is_throttled : FakeProviderAdapter → Bool
is_throttled adapter = elim adapter.config.throttle_after_n_calls [
  | none ↦ false
  | some calls ↦ ltb calls adapter.call_count
]

-- `credential_ids[-1]`, where there is one.
unfoldable pub last_of : List ℕ → Option ℕ
last_of [] = none
last_of (c ∷ []) = some c
last_of (_ ∷ c ∷ cs) = last_of (c ∷ cs)

unfoldable pub latest_credential : FakeProviderAdapter → IdentityId → Option ℕ
latest_credential adapter identity_id = elim (lookup identity_id adapter.credentials_by_identity) [
  | none ↦ none
  | some credential_ids ↦ last_of credential_ids
]

unfoldable pub session_is_dead : FakeProviderAdapter → IdentityId → ℕ → Bool
session_is_dead adapter identity_id at_ms = elim (latest_credential adapter identity_id) [
  | none ↦ false
  | some credential_id ↦ not (is_live adapter.sessions credential_id at_ms)
]

-- `self._session_scope.get(identity_id)`
unfoldable pub session_allow_of : FakeProviderAdapter → IdentityId → Option AuthoritySet
session_allow_of adapter identity_id = elim (lookup identity_id adapter.session_scope) [
  | none ↦ none
  | some scope ↦ scope
]

-- The policy frozen at the issue of the credential in use, for an identity that caches.
unfoldable pub cached_snapshot :
    FakeProviderAdapter → IdentityId → Option (AuthoritySet × AuthoritySet)
cached_snapshot adapter identity_id = elim (latest_credential adapter identity_id) [
  | none ↦ none
  | some credential_id ↦
      if mem identity_id adapter.authority_cached_identities
      then lookup credential_id adapter.credential_snapshot
      else none
]

-- A transition is dropped once it has settled.
unfoldable pub drop_settled : FakeProviderAdapter → IdentityId → ℕ → FakeProviderAdapter
drop_settled adapter identity_id at_ms = elim (lookup identity_id adapter.pending) [
  | none ↦ adapter
  | some transition ↦
      if leb transition.visibility.settle_at_ms at_ms
      then record adapter { pending = erase identity_id adapter.pending }
      else adapter
]

-- The transition that a probe does not see yet.
unfoldable pub hidden_transition : FakeProviderAdapter → IdentityId → ℕ → Option PendingTransition
hidden_transition adapter identity_id at_ms = elim (lookup identity_id adapter.pending) [
  | none ↦ none
  | some transition ↦ if is_visible transition.visibility at_ms then none else some transition
]

unfoldable pub packaged_outcome :
    FakeProviderAdapter
    → IdentityId
    → Capability
    → OutcomeClass
    → AuthoritySet
    → Result ProbeOutcome
packaged_outcome adapter identity_id capability outcome_class identity_allow = do
  preconditions ← build_fake_preconditions adapter.markers
  build_probe_outcome preconditions (make_ref adapter.config identity_id) capability outcome_class
      identity_allow (session_allow_of adapter identity_id)

-- The decision against the live policy, or the one before a transition that is not seen yet.
unfoldable pub decide_live : FakeProviderAdapter → IdentityId → Capability → ℕ → Result ProbeOutcome
decide_live adapter identity_id capability at_ms =
    let session_allow = session_allow_of adapter identity_id in
    elim (hidden_transition adapter identity_id at_ms) [
      | some transition ↦
          packaged_outcome adapter identity_id capability
            (evaluate_against transition.pre_allow transition.pre_deny capability.id session_allow
              none)
            transition.pre_allow
      | none ↦ do
        outcome_class ← evaluate adapter.engine identity_id capability.id session_allow none
        state ← state_of adapter.engine identity_id
        packaged_outcome adapter identity_id capability outcome_class state.allow
    ]

unfoldable pub decide_outcome :
    FakeProviderAdapter
    → (fault : Bool) → IdentityId
    → Capability
    → ℕ
    → Result ProbeOutcome × FakeProviderAdapter
decide_outcome adapter fault identity_id capability at_ms =
    if is_throttled adapter
    then (
      probe_outcome (record {
        outcome_class = OutcomeClass.error_transient;
        denial_attribution = none;
        disambiguation_path = Disambiguation.fault_injection_throttle;
      }),
      adapter,
    )
    else if fault
    then (
      probe_outcome (record {
        outcome_class = OutcomeClass.error_transient;
        denial_attribution = none;
        disambiguation_path = Disambiguation.fault_injection_transient;
      }),
      adapter,
    )
    else if session_is_dead adapter identity_id at_ms
    then (
      probe_outcome (record {
        outcome_class = OutcomeClass.denied_implicit;
        denial_attribution = some DenialAttribution.undisclosed;
        disambiguation_path = Disambiguation.session_revoked;
      }),
      adapter,
    )
    else elim (cached_snapshot adapter identity_id) [
      | some (snap_allow, snap_deny) ↦ (
        packaged_outcome adapter identity_id capability
            (evaluate_against snap_allow snap_deny capability.id
              (session_allow_of adapter identity_id) none)
            snap_allow,
        adapter,
      )
      | none ↦
          let dropped = drop_settled adapter identity_id at_ms in
          (decide_live dropped identity_id capability at_ms, dropped)
    ]

-- The two namespace checks, before anything is counted.
unfoldable pub check_namespaces : FakeProviderAdapter → ProbeRequest → Result (Unit {0})
check_namespaces adapter request = do
  assert_namespace request.identity_ref adapter.config.namespace
  assert_namespace
      (adapter.config.format_template request.binding.resource_template request.namespace)
      adapter.config.namespace

unfoldable pub probe :
    FakeProviderAdapter → (fault : Bool) → ProbeRequest → Result ProbeResult × FakeProviderAdapter
probe adapter fault request = elim (check_namespaces adapter request) [
  | err e ↦ (err e, adapter)
  | ok _ ↦
      let counted = record adapter { call_count = suc adapter.call_count } in
      let start_ms = adapter.now_ms in
      let target : Result (Capability × IdentityId) = (do
        capability ← get adapter.config.catalog request.capability_id
        identity_id ←
            or_raise (lookup_text request.identity_ref adapter.ref_to_identity_id) key_error
        ok (capability, identity_id)) in
      elim target [
        | err e ↦ (err e, counted)
        | ok (capability, identity_id) ↦
            let (decided, after) = decide_outcome counted fault identity_id capability start_ms in
            let result : Result ProbeResult = (do
              outcome ← guarded request.binding request.binding.actions decided
              ok (record {
                outcome = outcome;
                monotonic_start_ns = start_ms * 1000000;
                monotonic_end_ns = start_ms * 1000000;
                wall_start_ms = start_ms;
              })) in
            (result, after)
      ]
]
