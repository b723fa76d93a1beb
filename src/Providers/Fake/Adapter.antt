-- ===== src/Providers/Fake/Adapter.antt =====
-- src/chainbreak/providers/fake/adapter.py: the state of the simulated provider and its operations
-- beside delegation, probes and mutations, which are the children of this module.
pub mod Delegate
pub mod Probe
pub mod Mutate
pub mod Effects
pub mod Sees
pub mod Issued
pub mod Delegated
pub mod Revoked
pub mod Frozen
pub mod Steps
pub mod Sound
pub mod Kept
pub mod Preserved
pub mod Watched
pub mod Reached
pub mod Total
pub mod Tests
use chainbreak.Common.{
  ℕ, suc, ◌+◌, ◌*◌, max, any, all, Bool, true, false, ◌&&◌, List, [], ◌∷◌, ◌++◌, Option, none, some,
  mem, ◌==◌, filter, not, if◌then◌else◌,
}
use chainbreak.Common.Dict.{Dict, lookup, insert}
use chainbreak.Common.Int.{ℤ}
use chainbreak.Common.Text.{Text, insert_text, lookup_text, same_text}
use chainbreak.Core.Authority.{AuthoritySet, CapabilityId, empty_authority, union, sorted, is_empty}
use chainbreak.Core.Capabilities.{CapabilityCatalog, ProviderCapabilityBinding}
use chainbreak.Core.Errors.{
  Result, ok, err, or_raise, capability_resolution_error, key_error, ◌>>=◌,
}
use chainbreak.Core.Models.{IdentityId}
use chainbreak.Providers.Fake.Clock.{advance}
use chainbreak.Providers.Fake.Consistency.{ConsistencyModel, MutationVisibility}
use chainbreak.Providers.Fake.Engine.{PolicyEngine, state_of}
use chainbreak.Providers.Fake.Engine
use chainbreak.Providers.Fake.Probes.{MarkerStore}
use chainbreak.Providers.Fake.Session.{SessionStore}

-- What construction fixes. `identity_text` is the text of an identity, and `format_template` what
-- `str.format` makes of a binding's template and a namespace.
pub record Config : Type 0 where
  pub negative_control_bindings : Bool
  pub account_ref : Text
  pub region : ℕ
  pub namespace : Text
  pub throttle_after_n_calls : Option ℕ
  pub protected_identities : List IdentityId
  pub catalog : CapabilityCatalog
  pub bindings : Dict ProviderCapabilityBinding
  pub consistency : ConsistencyModel
  pub identity_text : IdentityId → Text
  pub format_template : ℕ → Text → Text

-- `_PendingTransition`
pub record PendingTransition : Type 0 where
  pub pre_allow : AuthoritySet
  pub pre_deny : AuthoritySet
  pub visibility : MutationVisibility

pub record FakeProviderAdapter : Type 0 where
  pub config : Config
  pub engine : PolicyEngine
  pub sessions : SessionStore
  pub markers : MarkerStore
  pub now_ms : ℕ
  pub ref_to_identity_id : List (Text × IdentityId)
  pub session_scope : Dict (Option AuthoritySet)
  pub credentials_by_identity : Dict (List ℕ)
  pub pending : Dict PendingTransition
  pub authority_cached_identities : List IdentityId
  pub trust_policy_blocked_identities : List IdentityId
  pub provider_bindings_by_identity : Dict (Option ℕ)
  pub credential_snapshot : Dict (AuthoritySet × AuthoritySet)
  pub scratch_markers : List Text
  pub snapshot_counter : ℕ
  pub call_count : ℕ

-- The adapter as constructed. Preconditions are those of its markers.
unfoldable pub new_adapter : Config → FakeProviderAdapter
new_adapter config = record {
  config = config;
  engine = [];
  sessions = record { max_session_duration_s = 43200; counter = 0; live = [] };
  markers = record {
    objectstore_marker_present = true;
    keyvalue_marker_present = true;
    function_alive = true;
    queue_present = true;
  };
  now_ms = 0;
  ref_to_identity_id = [];
  session_scope = [];
  credentials_by_identity = [];
  pending = [];
  authority_cached_identities = [];
  trust_policy_blocked_identities = [];
  provider_bindings_by_identity = [];
  credential_snapshot = [];
  scratch_markers = [];
  snapshot_counter = 0;
  call_count = 0;
}

-- The provider bindings of the negative controls.
abbrev pub agent_b_expansion_role_arn : ℕ
agent_b_expansion_role_arn = 0

abbrev pub agent_b_survival_role_arn : ℕ
agent_b_survival_role_arn = 1

abbrev pub agent_c_nonmonotone_role_arn : ℕ
agent_c_nonmonotone_role_arn = 2

abbrev pub stale_control_binding : ℕ
stale_control_binding = 3

-- The capabilities that the code names, at their places in the catalog's order.
abbrev pub function_invoke : CapabilityId
function_invoke = 0

abbrev pub keyvalue_read : CapabilityId
keyvalue_read = 3

abbrev pub keyvalue_write : CapabilityId
keyvalue_write = 4

-- `_negative_control_grant`, the function.
unfoldable pub control_grant : Option ℕ → AuthoritySet
control_grant none = empty_authority
control_grant (some binding) =
    if binding == agent_b_expansion_role_arn
    then keyvalue_read ∷ []
    else if binding == agent_b_survival_role_arn
    then function_invoke ∷ []
    else if binding == agent_c_nonmonotone_role_arn
    then keyvalue_write ∷ []
    else empty_authority

-- `_negative_control_grant`, the method.
unfoldable pub negative_control_grant : Config → Option ℕ → AuthoritySet
negative_control_grant config provider_binding =
    if config.negative_control_bindings then control_grant provider_binding else empty_authority

-- `fake:`, `:role/` and `-`
abbrev fake_prefix : Text
fake_prefix = 102 ∷ 97 ∷ 107 ∷ 101 ∷ 58 ∷ []

abbrev role_part : Text
role_part = 58 ∷ 114 ∷ 111 ∷ 108 ∷ 101 ∷ 47 ∷ []

-- The `value` of the reference that `_make_ref` makes.
unfoldable pub make_ref : Config → IdentityId → Text
make_ref config identity_id =
    (fake_prefix ++ config.account_ref ++ role_part)
    ++ config.namespace
    ++ 45 ∷ config.identity_text identity_id

unfoldable pub advance_clock : FakeProviderAdapter → ℤ → Result FakeProviderAdapter
advance_clock adapter milliseconds = do
  now_ms ← advance adapter.now_ms milliseconds
  ok (record adapter { now_ms = now_ms })

unfoldable pub record_scratch_marker : FakeProviderAdapter → Text → FakeProviderAdapter
record_scratch_marker adapter marker_id = record adapter {
  scratch_markers = marker_id ∷ adapter.scratch_markers;
}

unfoldable pub scratch_marker_exists : FakeProviderAdapter → Text → Bool
scratch_marker_exists adapter marker_id = any (same_text marker_id) adapter.scratch_markers

unfoldable pub enable_authority_caching : FakeProviderAdapter → IdentityId → FakeProviderAdapter
enable_authority_caching adapter identity_id = record adapter {
  authority_cached_identities = identity_id ∷ adapter.authority_cached_identities;
}

unfoldable pub register_identity :
    FakeProviderAdapter → IdentityId → AuthoritySet → Option ℕ → Text × FakeProviderAdapter
register_identity adapter identity_id allow provider_binding =
    let ref = make_ref adapter.config identity_id in
    let granted = union allow (negative_control_grant adapter.config provider_binding) in
    (
      ref,
      record adapter {
        engine = Engine.register_identity adapter.engine identity_id granted;
        provider_bindings_by_identity =
            insert identity_id provider_binding adapter.provider_bindings_by_identity;
        ref_to_identity_id = insert_text ref identity_id adapter.ref_to_identity_id;
      },
    )

unfoldable pub resolve_capability :
    FakeProviderAdapter → CapabilityId → Result ProviderCapabilityBinding
resolve_capability adapter cap_id =
    or_raise (lookup cap_id adapter.config.bindings) capability_resolution_error

unfoldable pub restore_declared_policy :
    FakeProviderAdapter → IdentityId → AuthoritySet → FakeProviderAdapter
restore_declared_policy adapter target_identity declared_capabilities = record adapter {
  engine = Engine.replace adapter.engine target_identity declared_capabilities empty_authority;
}

unfoldable pub restore_trust_policy : FakeProviderAdapter → IdentityId → FakeProviderAdapter
restore_trust_policy adapter target_identity = record adapter {
  trust_policy_blocked_identities =
      filter (λ i. not (i == target_identity)) adapter.trust_policy_blocked_identities;
}

-- What `preflight` reads of a `SafetyEnvelope` (src/chainbreak/core/models.py).
pub record Envelope : Type 0 where
  pub allowed_account_ids : List Text
  pub allowed_regions : List ℕ
  pub namespace : Text

-- The verdicts of the checks on account, region and namespace, and whether all of them pass.
unfoldable pub preflight : FakeProviderAdapter → Envelope → Bool × List Bool
preflight adapter envelope =
    let checks =
      any (same_text adapter.config.account_ref) envelope.allowed_account_ids
      ∷ mem adapter.config.region envelope.allowed_regions
      ∷ same_text adapter.config.namespace envelope.namespace
      ∷ [] in
    (all (λ passed. passed) checks, checks)

-- `PolicyStateSnapshot` (src/chainbreak/core/models.py), with its one fingerprint.
pub record PolicyStateSnapshot : Type 0 where
  pub snapshot_id : ℕ
  pub identity_id : IdentityId
  pub monotonic_ns : ℕ
  pub document_sha256 : ℕ
  pub statement_count : ℕ
  pub has_explicit_deny : Bool

-- `digest` is the fingerprint of the canonical document of the two sorted sets.
unfoldable pub snapshot_policy_state :
    (digest : List CapabilityId → List CapabilityId → ℕ)
    → FakeProviderAdapter
    → Text
    → Result (PolicyStateSnapshot × FakeProviderAdapter)
snapshot_policy_state digest adapter identity_ref = do
  identity_id ← or_raise (lookup_text identity_ref adapter.ref_to_identity_id) key_error
  state ← state_of adapter.engine identity_id
  let statements = (if is_empty state.allow then 0 else 1) + (if is_empty state.deny then 0 else 1)
  let taken = suc adapter.snapshot_counter
  ok (
    record {
      snapshot_id = taken;
      identity_id = identity_id;
      monotonic_ns = adapter.now_ms * 1000000;
      document_sha256 = digest (sorted state.allow) (sorted state.deny);
      statement_count = max 1 statements;
      has_explicit_deny = not (is_empty state.deny);
    },
    record adapter { snapshot_counter = taken },
  )
