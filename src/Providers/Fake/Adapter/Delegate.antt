-- ===== src/Providers/Fake/Adapter/Delegate.antt =====
-- `FakeProviderAdapter.delegate` (src/chainbreak/providers/fake/adapter.py). What was changed before
-- an exception stays changed.
use chainbreak.Common.{
  ℕ, Bool, true, false, ◌&&◌, List, [], ◌∷◌, ◌++◌, Option, none, some, mem, ◌==◌, if◌then◌else◌,
}
use chainbreak.Common.Dict.{Dict, lookup, insert}
use chainbreak.Common.Text.{Text, insert_text}
use chainbreak.Core.Authority.{AuthoritySet, union}
use chainbreak.Core.Credentials.{CredentialRecord}
use chainbreak.Core.Enums.{DelegationMechanism}
use chainbreak.Core.Errors.{Result, ok, err, raise_if, delegation_error, ◌>>◌}
use chainbreak.Core.Models.{IdentityId}
use chainbreak.Providers.Fake.Engine.{IdentityPolicyState, is_registered, state_of}
use chainbreak.Providers.Fake.Engine
use chainbreak.Providers.Fake.Session.{issue}
use chainbreak.Providers.Namespace.{assert_namespace}
use chainbreak.Providers.Fake.Adapter.{
  FakeProviderAdapter, negative_control_grant, make_ref, stale_control_binding,
}

-- `DelegationRequest` (src/chainbreak/providers/base/types.py)
pub record DelegationRequest : Type 0 where
  pub source_identity : Text
  pub target_identity_id : IdentityId
  pub target_provider_binding : Option ℕ
  pub mechanism : DelegationMechanism
  pub requested_duration_s : ℕ
  pub intended_capabilities : AuthoritySet

-- `DelegationResult` (src/chainbreak/providers/base/types.py), without the secret material.
pub record DelegationResult : Type 0 where
  pub identity_ref : Text
  pub credential : CredentialRecord

unfoldable pub is_stale_control : Option ℕ → Bool
is_stale_control none = false
is_stale_control (some binding) = binding == stale_control_binding

-- The checks before anything changes.
unfoldable pub check_request : FakeProviderAdapter → DelegationRequest → Result (Unit {0})
check_request adapter request = do
  assert_namespace request.source_identity adapter.config.namespace
  raise_if
      (is_stale_control request.target_provider_binding
        && mem request.target_identity_id adapter.trust_policy_blocked_identities)
      delegation_error

-- An identity that the engine does not know is registered; one that it knows keeps its policy.
unfoldable pub register_target : FakeProviderAdapter → DelegationRequest → FakeProviderAdapter
register_target adapter request =
    let id = request.target_identity_id in
    let granted =
      union request.intended_capabilities
        (negative_control_grant adapter.config request.target_provider_binding) in
    record adapter {
      engine =
          if is_registered adapter.engine id
          then adapter.engine
          else Engine.register_identity adapter.engine id granted;
      provider_bindings_by_identity =
          insert id request.target_provider_binding adapter.provider_bindings_by_identity;
    }

unfoldable pub scopes_session : DelegationMechanism → Bool
scopes_session DelegationMechanism.session_policy_scoped = true
scopes_session DelegationMechanism.role_chain_with_session_policy = true
scopes_session _ = false

-- `d.setdefault(key, []).append(value)`
unfoldable pub append_credential : ℕ → ℕ → Dict (List ℕ) → Dict (List ℕ)
append_credential key value d = elim (lookup key d) [
  | none ↦ insert key (value ∷ []) d
  | some values ↦ insert key (values ++ value ∷ []) d
]

-- What is recorded of an issued credential, with the policy of its identity at that moment.
unfoldable pub record_credential :
    FakeProviderAdapter
    → DelegationRequest
    → CredentialRecord
    → IdentityPolicyState
    → FakeProviderAdapter
record_credential adapter request credential state =
    let id = request.target_identity_id in
    record adapter {
      ref_to_identity_id = insert_text (make_ref adapter.config id) id adapter.ref_to_identity_id;
      credentials_by_identity =
          append_credential id credential.credential_id adapter.credentials_by_identity;
      credential_snapshot =
          insert credential.credential_id (state.allow, state.deny) adapter.credential_snapshot;
      session_scope =
          insert id
            (if scopes_session request.mechanism then some request.intended_capabilities else none)
            adapter.session_scope;
    }

unfoldable pub delegate :
    FakeProviderAdapter → DelegationRequest → Result DelegationResult × FakeProviderAdapter
delegate adapter request = elim (check_request adapter request) [
  | err e ↦ (err e, adapter)
  | ok _ ↦
      let registered = register_target adapter request in
      let (result, sessions) = issue registered.sessions (record {
        target_identity_id = request.target_identity_id;
        mechanism = request.mechanism;
        requested_duration_s = request.requested_duration_s;
        intended_capabilities = request.intended_capabilities;
        issued_at_ms = registered.now_ms;
      }) in
      let issued = record registered { sessions = sessions } in
      elim result [
        | err e ↦ (err e, issued)
        | ok credential ↦ elim (state_of issued.engine request.target_identity_id) [
          | err e ↦ (err e, issued)
          | ok state ↦ (
            ok (record {
              identity_ref = make_ref issued.config request.target_identity_id;
              credential = credential;
            }),
            record_credential issued request credential state,
          )
        ]
      ]
]
