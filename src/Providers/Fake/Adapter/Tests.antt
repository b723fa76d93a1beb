-- ===== src/Providers/Fake/Adapter/Tests.antt =====
-- The simulated provider with one registered identity, one delegated one, and a mutation that takes
-- a second to settle.
use chainbreak.Providers.Namespace.{assert_namespace}
use chainbreak.Common.{
  ℕ, ◌*◌, ◌≤◌, ◌<◌, ◌≡◌, refl, true, false, [], ◌∷◌, none, some, arith, mem, ◌==◌, if◌then◌else◌,
  Bool-cases, inl, inr,
}
use chainbreak.Common.Dict.{lookup}
use chainbreak.Common.Int.{pos}
use chainbreak.Common.Text.{same_text}
use chainbreak.Core.Capabilities.{Capability, get}
use chainbreak.Core.Credentials.{CredentialRecord}
use chainbreak.Core.Enums.{
  Provider, ProbeKind, Sensitivity, MutationKind, OutcomeClass, DelegationMechanism,
}
use chainbreak.Core.Errors.{ok, err, mutation_target_forbidden_error}
use chainbreak.Core.Models.{IdentityId}
use chainbreak.Providers.Fake.Consistency.{is_visible, schedule}
use chainbreak.Providers.Fake.Engine.{PolicyEngine, IdentityPolicyState, is_registered}
use chainbreak.Providers.Fake.Probes.{
  a_precondition_fails, build_fake_preconditions, ProbeOutcome, Disambiguation,
}
use chainbreak.Providers.Fake.Session.{is_live}
use chainbreak.Providers.Fake.Session.Lifetime.{IsNumbered}
use chainbreak.Providers.Fake.Adapter.{
  Config, FakeProviderAdapter, make_ref, enable_authority_caching, new_adapter, register_identity,
}
use chainbreak.Providers.Fake.Adapter.Delegate.{
  scopes_session, is_stale_control, DelegationRequest, DelegationResult, check_request, delegate,
}
use chainbreak.Providers.Fake.Adapter.Delegated.{precondition_fails, grants, delegate_then_decide}
use chainbreak.Providers.Fake.Adapter.Effects.{
  policy_after, policy_of, mutated, apply_policy_mutation_effect,
}
use chainbreak.Providers.Fake.Adapter.Frozen.{enable_authority_caching_freezes}
use chainbreak.Providers.Fake.Adapter.Issued.{IsIssued}
use chainbreak.Providers.Fake.Adapter.Mutate.{
  PolicyMutation, MutationReceipt, credentials_of, apply_policy_mutation,
}
use chainbreak.Providers.Fake.Adapter.Probe.{
  session_allow_of, session_is_dead, last_of, ProbeRequest, ProbeResult, is_throttled,
  latest_credential, check_namespaces, decide_outcome, probe,
}
use chainbreak.Providers.Fake.Adapter.Reached.{reach-IsSound}
use chainbreak.Providers.Fake.Adapter.Revoked.{revoke_older_sessions_kills}
use chainbreak.Providers.Fake.Adapter.Sees.{IsUndisturbed, decided_by, revoked_outcome}
use chainbreak.Providers.Fake.Adapter.Watched.{Watches, apply_policy_mutation_visibility}
use chainbreak.Providers.Fake.Adapter.Sound.{IsSound}
use chainbreak.Providers.Fake.Adapter.Steps.{Step, Reach}
use chainbreak.Providers.Fake.Adapter.Total.{probe_answers}

abbrev pub read : Capability
read = record {
  id = 6;
  probe_kind = ProbeKind.read_marker;
  sensitivity = Sensitivity.benign_read;
  mutates_state = false;
  is_control = false;
  requires_precondition = 0 ∷ [];
}

abbrev pub config : Config
config = record {
  negative_control_bindings = true;
  account_ref = 53 ∷ [];
  region = 1;
  namespace = 99 ∷ 98 ∷ [];
  throttle_after_n_calls = none;
  protected_identities = 0 ∷ [];
  catalog = read ∷ [];
  bindings = [];
  consistency = record {
    propagation_delay_ms = 1000;
    jitter_ms = 0;
    oscillate = false;
    oscillation_flip_count = 0;
  };
  identity_text = λ i. i ∷ [];
  format_template = λ template namespace. namespace;
}

-- Identity 1 may read and holds credential 5, which lives until the instant 9000.
abbrev policy : IdentityPolicyState
policy = record { allow = 6 ∷ []; deny = [] }

abbrev pub lab : FakeProviderAdapter
lab = record {
  config = config;
  engine = (1, policy) ∷ [];
  sessions = record { max_session_duration_s = 3600; counter = 5; live = (5, 9000) ∷ [] };
  markers = record {
    objectstore_marker_present = true;
    keyvalue_marker_present = true;
    function_alive = true;
    queue_present = true;
  };
  now_ms = 100;
  ref_to_identity_id = (99 ∷ 98 ∷ [], 1) ∷ [];
  session_scope = [];
  credentials_by_identity = (1, 5 ∷ []) ∷ [];
  pending = [];
  authority_cached_identities = [];
  trust_policy_blocked_identities = [];
  provider_bindings_by_identity = [];
  credential_snapshot = (5, (6 ∷ [], [])) ∷ [];
  scratch_markers = [];
  snapshot_counter = 0;
  call_count = 0;
}

abbrev pub highest : ℕ → ℕ → ℕ
highest i top = top

pub highest_in_range : (i top : ℕ) → 0 < top → (1 ≤ highest i top) × (highest i top ≤ top)
highest_in_range i top h = (omega (arith, h), omega arith)

abbrev deny_read : PolicyMutation
deny_read = record {
  kind = MutationKind.attach_inline_deny;
  target_identity = 1;
  denies_capabilities = 6 ∷ [];
  grants_capabilities = [];
}

abbrev revoke_all : PolicyMutation
revoke_all = record deny_read { kind = MutationKind.revoke_older_sessions }

apply_policy_mutation_effect_example :
    (mem 1 (0 ∷ []) ≡ true
      → apply_policy_mutation (pos 0) highest lab deny_read ≡ err mutation_target_forbidden_error)
    × (mem 1 (0 ∷ []) ≡ false
        → (engine : PolicyEngine) × (apply_policy_mutation (pos 0) highest lab deny_read
            ≡ ok (
              record { confirmed = true; monotonic_sent_ns = 100 * 1000000 },
              mutated (pos 0) highest lab deny_read engine,
            ))
          × (lookup 1 engine ≡ some (policy_after deny_read (policy_of lab.engine 1)))
          × ((j : IdentityId) → (j == 1) ≡ false → lookup j engine ≡ lookup j lab.engine))
apply_policy_mutation_effect_example = apply_policy_mutation_effect (pos 0) highest lab deny_read

apply_policy_mutation_visibility_example :
    (receipt : MutationReceipt) × (after : FakeProviderAdapter) × (apply_policy_mutation
        (pos 0)
        highest
        lab
        deny_read
      ≡ ok (receipt, after))
    × ((t : ℕ)
        → (t < 100 → is_visible (schedule (pos 0) highest config.consistency 100) t ≡ false)
          × ((schedule (pos 0) highest config.consistency 100).settle_at_ms ≤ t
              → is_visible (schedule (pos 0) highest config.consistency 100) t ≡ true))
    × ((b : FakeProviderAdapter) (c : Capability)
        → Watches after b
        → IsUndisturbed b 1 b.now_ms
        → (decide_outcome b false 1 c b.now_ms).0
          ≡ decided_by lab 1 c (
              if is_visible (schedule (pos 0) highest config.consistency 100) b.now_ms
              then policy_after deny_read (policy_of lab.engine 1)
              else policy_of lab.engine 1))
apply_policy_mutation_visibility_example =
    apply_policy_mutation_visibility (pos 0) highest highest_in_range lab deny_read refl

latest : latest_credential lab 1 ≡ some 5
unfolding latest_credential last_of
latest = refl

calm : is_throttled lab ≡ false
unfolding is_throttled
calm = refl

revoke_older_sessions_kills_example :
    (receipt : MutationReceipt) × (after : FakeProviderAdapter) × (apply_policy_mutation
        (pos 0)
        highest
        lab
        revoke_all
      ≡ ok (receipt, after))
    × ((c : Capability) (t : ℕ) → decide_outcome after false 1 c t ≡ (ok revoked_outcome, after))
    × ((j t : ℕ)
        → mem j (credentials_of lab 1) ≡ false
        → is_live after.sessions j t ≡ is_live lab.sessions j t)
revoke_older_sessions_kills_example =
    revoke_older_sessions_kills (pos 0) highest lab revoke_all 5 refl refl latest calm

-- Identity 2 is delegated to, with a session scoped to reading.
abbrev request : DelegationRequest
request = record {
  source_identity = 99 ∷ 98 ∷ [];
  target_identity_id = 2;
  target_provider_binding = none;
  mechanism = DelegationMechanism.session_policy_scoped;
  requested_duration_s = 900;
  intended_capabilities = 6 ∷ [];
}

numbered : IsNumbered lab.sessions
numbered id t h = ground (arith, h)

allowed : check_request lab request ≡ ok tt
unfolding check_request assert_namespace is_stale_control
allowed = refl

delegate_then_decide_example :
    (result : DelegationResult) × (after : FakeProviderAdapter) × (delegate lab request
      ≡ (ok result, after))
    × ((c : Capability) (t : ℕ)
        → (t < result.credential.expires_at
            → precondition_fails lab 2 c ≡ ok false
            → c.is_control ≡ false
            → (outcome : ProbeOutcome) × (decide_outcome after false 2 c t ≡ (ok outcome, after))
              × (outcome.outcome_class ≡ (
                  if grants lab request c
                  then OutcomeClass.allowed
                  else OutcomeClass.denied_implicit)))
          × (result.credential.expires_at ≤ t
              → (outcome : ProbeOutcome) × (decide_outcome after false 2 c t ≡ (ok outcome, after))
                × (outcome.outcome_class ≡ OutcomeClass.denied_implicit)
                × (outcome.disambiguation_path ≡ Disambiguation.session_revoked)))
delegate_then_decide_example =
    delegate_then_decide lab request numbered allowed (omega arith) (omega arith) refl refl refl
      calm

-- Identity 1, as a delegation for it would have left it.
abbrev own_request : DelegationRequest
own_request = record request {
  target_identity_id = 1;
  mechanism = DelegationMechanism.direct_role_assumption;
}

abbrev credential : CredentialRecord
credential = record {
  credential_id = 5;
  identity_id = 1;
  mechanism = DelegationMechanism.direct_role_assumption;
  issued_at = 0;
  expires_at = 9000;
  requested_duration_s = 9;
  granted_duration_s = 9;
  scope_capabilities = 6 ∷ [];
}

abbrev referred : FakeProviderAdapter
referred = record lab { ref_to_identity_id = (make_ref config 1, 1) ∷ [] }

issued : IsIssued referred own_request policy credential
unfolding latest_credential last_of session_is_dead is_live scopes_session session_allow_of make_ref
issued = record {
  policy = refl;
  frozen = refl;
  current = refl;
  lives = λ t. refl;
  scoped = refl;
  known = refl;
}

enable_authority_caching_freezes_example :
    (receipt : MutationReceipt) × (after : FakeProviderAdapter) × (apply_policy_mutation
        (pos 0)
        highest
        (enable_authority_caching referred 1)
        deny_read
      ≡ ok (receipt, after))
    × ((c : Capability) (t : ℕ)
        → t < 9000
        → (decide_outcome after false 1 c t ≡ (decided_by referred 1 c policy, after))
          × (decide_outcome (enable_authority_caching referred 1) false 1 c t
              ≡ (decided_by referred 1 c policy, enable_authority_caching referred 1)))
unfolding make_ref is_throttled
enable_authority_caching_freezes_example =
    enable_authority_caching_freezes (pos 0) highest referred own_request policy credential
      deny_read issued calm refl refl

sound : IsSound lab
unfolding is_registered
sound = record {
  numbered = numbered;
  counted = λ i c h. ground (arith, h);
  snapshotted = λ i c h. ground (arith, h);
  known = λ t i h. elim (Bool-cases (same_text t (99 ∷ 98 ∷ []))) [
    | inl e ↦ let same : 1 ≡ i = (let g = rw e at h in cc) in rw (← same) refl
    | inr e ↦ let g = rw e at h in cc
  ];
  ordered = λ i. tt;
}

abbrev cached : FakeProviderAdapter
cached = enable_authority_caching lab 1

-- A new adapter registers identity 1 and then delegates from it.
abbrev registered : FakeProviderAdapter
registered = (register_identity (new_adapter config) 1 (6 ∷ []) none).1

path : Reach (new_adapter config) (delegate registered request).1
path =
    Reach.then_step registered (delegate registered request).1
      (Reach.then_step (new_adapter config) registered Reach.start (Step.registers 1 (6 ∷ []) none))
      (Step.delegates request)

reach-IsSound_example : IsSound (delegate registered request).1
reach-IsSound_example = reach-IsSound config (delegate registered request).1 path

abbrev probe_request : ProbeRequest
probe_request = record {
  identity_ref = 99 ∷ 98 ∷ [];
  capability_id = 6;
  binding = record {
    capability_id = 6;
    provider = Provider.fake;
    actions = 7 ∷ [];
    resource_template = 0;
    probe_kind = ProbeKind.read_marker;
    preconditions = 0 ∷ [];
  };
  namespace = 99 ∷ 98 ∷ [];
}

short_path : Reach lab cached
short_path = Reach.then_step lab cached Reach.start (Step.caches 1)

named : check_namespaces cached probe_request ≡ ok tt
unfolding check_namespaces assert_namespace enable_authority_caching
named = refl

found : get config.catalog 6 ≡ ok read
unfolding get
found = refl

holds : precondition_fails cached 1 read ≡ ok false
unfolding build_fake_preconditions a_precondition_fails enable_authority_caching
holds = refl

probe_answers_example :
    (result : ProbeResult) × ((probe cached false probe_request).0 ≡ ok result)
    × (result.monotonic_start_ns ≡ 100 * 1000000)
unfolding enable_authority_caching
probe_answers_example =
    probe_answers lab cached sound short_path false probe_request read 1 false named found refl
      holds
