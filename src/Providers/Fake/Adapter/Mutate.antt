-- ===== src/Providers/Fake/Adapter/Mutate.antt =====
-- `FakeProviderAdapter.apply_policy_mutation` (src/chainbreak/providers/fake/adapter.py). The draws
-- of the consistency model are arguments.
use chainbreak.Common.{ℕ, ◌*◌, Bool, true, List, [], ◌∷◌, Option, none, some, mem, if◌then◌else◌}
use chainbreak.Common.Dict.{lookup, insert}
use chainbreak.Common.Int.{ℤ}
use chainbreak.Core.Authority.{AuthoritySet, empty_authority}
use chainbreak.Core.Enums.{MutationKind}
use chainbreak.Core.Errors.{Result, ok, raise_if, mutation_target_forbidden_error, ◌>>=◌, ◌>>◌}
use chainbreak.Core.Models.{IdentityId}
use chainbreak.Providers.Fake.Consistency.{schedule}
use chainbreak.Providers.Fake.Engine.{
  PolicyEngine, is_registered, state_of, apply_deny, remove_allow, replace, register_identity,
}
use chainbreak.Providers.Fake.Session.{SessionStore, revoke}
use chainbreak.Providers.Fake.Adapter.{FakeProviderAdapter}
use chainbreak.Providers.Fake.Adapter.Delegate.{is_stale_control}

-- `PolicyMutation` (src/chainbreak/core/models.py)
pub record PolicyMutation : Type 0 where
  pub kind : MutationKind
  pub target_identity : IdentityId
  pub denies_capabilities : AuthoritySet
  pub grants_capabilities : AuthoritySet

-- `MutationReceipt` (src/chainbreak/core/models.py), the fields that vary.
pub record MutationReceipt : Type 0 where
  pub confirmed : Bool
  pub monotonic_sent_ns : ℕ

unfoldable pub revoke_each : SessionStore → List ℕ → SessionStore
revoke_each sessions [] = sessions
revoke_each sessions (credential_id ∷ rest) = revoke_each (revoke sessions credential_id) rest

-- `d.get(key, [])`, once the key was looked up.
abbrev pub or_empty : Option (List ℕ) → List ℕ
or_empty none = []
or_empty (some xs) = xs

-- `self._credentials_by_identity.get(target, [])`
unfoldable pub credentials_of : FakeProviderAdapter → IdentityId → List ℕ
credentials_of adapter identity_id = or_empty (lookup identity_id adapter.credentials_by_identity)

unfoldable pub binding_of : FakeProviderAdapter → IdentityId → Option ℕ
binding_of adapter identity_id = elim (lookup identity_id adapter.provider_bindings_by_identity) [
  | none ↦ none
  | some binding ↦ binding
]

-- `engine.register_identity(target)` where the engine does not know the target.
unfoldable pub registered_engine : PolicyEngine → IdentityId → PolicyEngine
registered_engine engine target =
    if is_registered engine target then engine else register_identity engine target empty_authority

-- The `match` on the kind of the mutation.
unfoldable pub change_by_kind : FakeProviderAdapter → PolicyMutation → Result FakeProviderAdapter
change_by_kind adapter mutation =
    let target = mutation.target_identity in
    elim mutation.kind [
      | MutationKind.attach_inline_deny ↦ do
        engine ← apply_deny adapter.engine target mutation.denies_capabilities
        ok (record adapter { engine = engine })
      | MutationKind.remove_inline_policy ↦ do
        engine ← remove_allow adapter.engine target mutation.denies_capabilities
        ok (record adapter { engine = engine })
      | MutationKind.replace_inline_policy ↦ ok (record adapter {
        engine =
            replace adapter.engine target mutation.grants_capabilities mutation.denies_capabilities;
      })
      | MutationKind.revoke_older_sessions ↦ ok (record adapter {
        sessions = revoke_each adapter.sessions (credentials_of adapter target);
      })
      | MutationKind.update_trust_policy ↦ ok (record adapter {
        trust_policy_blocked_identities =
            if is_stale_control (binding_of adapter target)
            then target ∷ adapter.trust_policy_blocked_identities
            else adapter.trust_policy_blocked_identities;
      })
      | MutationKind.delete_session_policy_scope ↦ ok adapter
    ]

unfoldable pub apply_policy_mutation :
    (jitter_draw : ℤ) (randint : ℕ → ℕ → ℕ)
    → FakeProviderAdapter
    → PolicyMutation
    → Result (MutationReceipt × FakeProviderAdapter)
apply_policy_mutation jitter_draw randint adapter mutation =
    let target = mutation.target_identity in
    (do
      raise_if (mem target adapter.config.protected_identities) mutation_target_forbidden_error
      let registered = record adapter { engine = registered_engine adapter.engine target }
      state ← state_of registered.engine target
      changed ← change_by_kind registered mutation
      let visibility = schedule jitter_draw randint adapter.config.consistency adapter.now_ms
      ok (
        record { confirmed = true; monotonic_sent_ns = adapter.now_ms * 1000000 },
        record changed {
          pending =
              insert target
                (record { pre_allow = state.allow; pre_deny = state.deny; visibility = visibility })
                adapter.pending;
        },
      ))
