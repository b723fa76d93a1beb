-- ===== src/Providers/Fake/Adapter/Effects.antt =====
-- What a policy mutation does to the state of the simulated provider.
use chainbreak.Common.{
  ℕ, ◌*◌, ◌≡◌, refl, ap, ◌∙◌, true, false, List, [], ◌∷◌, none, some, mem, arith, ◌==◌,
  if◌then◌else◌, inl, inr, Option-cases,
}
use chainbreak.Common.Dict.{lookup, insert, lookup-insert}
use chainbreak.Common.Int.{ℤ}
use chainbreak.Core.Authority.{AuthoritySet, union, diff}
use chainbreak.Core.Enums.{MutationKind}
use chainbreak.Core.Errors.{ok, err, or_raise, key_error, mutation_target_forbidden_error}
use chainbreak.Core.Models.{IdentityId}
use chainbreak.Providers.Fake.Consistency.{schedule}
use chainbreak.Providers.Fake.Engine.{
  PolicyEngine, IdentityPolicyState, state_of, is_registered, update_state, apply_deny,
  remove_allow, replace, register_identity,
}
use chainbreak.Providers.Fake.Session.{SessionStore}
use chainbreak.Providers.Fake.Adapter.{FakeProviderAdapter}
use chainbreak.Providers.Fake.Adapter.Delegate.{is_stale_control}
use chainbreak.Providers.Fake.Adapter.Mutate.{
  PolicyMutation, revoke_each, credentials_of, binding_of, registered_engine, change_by_kind,
  apply_policy_mutation,
}

-- The policy of the target after a mutation.
abbrev pub policy_after : PolicyMutation → IdentityPolicyState → IdentityPolicyState
policy_after m s = elim m.kind [
  | MutationKind.attach_inline_deny ↦ record {
    allow = s.allow;
    deny = union s.deny m.denies_capabilities;
  }
  | MutationKind.remove_inline_policy ↦ record {
    allow = diff s.allow m.denies_capabilities;
    deny = s.deny;
  }
  | MutationKind.replace_inline_policy ↦ record {
    allow = m.grants_capabilities;
    deny = m.denies_capabilities;
  }
  | _ ↦ s
]

abbrev pub sessions_after : FakeProviderAdapter → PolicyMutation → SessionStore
sessions_after a m = elim m.kind [
  | MutationKind.revoke_older_sessions ↦ revoke_each a.sessions (credentials_of a m.target_identity)
  | _ ↦ a.sessions
]

abbrev pub blocked_after : FakeProviderAdapter → PolicyMutation → List IdentityId
blocked_after a m = elim m.kind [
  | MutationKind.update_trust_policy ↦
      if is_stale_control (binding_of a m.target_identity)
      then m.target_identity ∷ a.trust_policy_blocked_identities
      else a.trust_policy_blocked_identities
  | _ ↦ a.trust_policy_blocked_identities
]

-- The policy that an identity has, with the empty one for an identity that is not registered.
abbrev pub policy_of : PolicyEngine → IdentityId → IdentityPolicyState
policy_of engine i = elim (lookup i engine) [ none ↦ record { allow = []; deny = [] } | some s ↦ s ]

registered_engine-lookup :
    (engine : PolicyEngine) (i : IdentityId)
    → lookup i (registered_engine engine i) ≡ some (policy_of engine i)
unfolding registered_engine is_registered register_identity
registered_engine-lookup engine i = elim (Option-cases (lookup i engine)) [
  | inl e ↦ ground (arith, e, lookup-insert i i (record { allow = []; deny = [] }) engine)
  | inr (s, e) ↦ ground (arith, e)
]

registered_engine-other :
    (engine : PolicyEngine) (i j : IdentityId)
    → (j == i) ≡ false
    → lookup j (registered_engine engine i) ≡ lookup j engine
unfolding registered_engine is_registered register_identity
registered_engine-other engine i j ne =
    ground (arith, ne, lookup-insert j i (record { allow = []; deny = [] }) engine)

-- What the change by the kind amounts to.
abbrev Effect : FakeProviderAdapter → PolicyMutation → IdentityPolicyState → Type 0
Effect a m s =
    (engine : PolicyEngine) × (change_by_kind a m
      ≡ ok (record a {
        engine = engine;
        sessions = sessions_after a m;
        trust_policy_blocked_identities = blocked_after a m;
      }))
    × (lookup m.target_identity engine ≡ some (policy_after m s))
    × ((j : IdentityId) → (j == m.target_identity) ≡ false → lookup j engine ≡ lookup j a.engine)

module _ (a : FakeProviderAdapter) (i : IdentityId) (s : IdentityPolicyState) where
  -- The two changes of the state in place.
  updated :
      (change : IdentityPolicyState → IdentityPolicyState)
      → lookup i a.engine ≡ some s
      → update_state a.engine i change ≡ ok (insert i (change s) a.engine)
  unfolding update_state state_of
  updated change h = ground (arith, h)

  replaced :
      (p : IdentityPolicyState)
      → (lookup i (insert i p a.engine) ≡ some p)
        × ((j : IdentityId) → (j == i) ≡ false → lookup j (insert i p a.engine) ≡ lookup j a.engine)
  replaced p = (
    ground (arith, lookup-insert i i p a.engine),
    λ j ne. ground (arith, lookup-insert j i p a.engine, ne),
  )

  Effect-of_kind :
      (kind : MutationKind) (denies grants : AuthoritySet)
      → lookup i a.engine ≡ some s
      → Effect a
          (record {
            kind = kind;
            target_identity = i;
            denies_capabilities = denies;
            grants_capabilities = grants;
          })
          s
  unfolding change_by_kind apply_deny remove_allow replace
  Effect-of_kind MutationKind.attach_inline_deny denies grants h =
      let p : IdentityPolicyState = record { allow = s.allow; deny = union s.deny denies } in
      (insert i p a.engine, rw (updated _ h) refl, (replaced p).0, (replaced p).1)
  Effect-of_kind MutationKind.remove_inline_policy denies grants h =
      let p : IdentityPolicyState = record { allow = diff s.allow denies; deny = s.deny } in
      (insert i p a.engine, rw (updated _ h) refl, (replaced p).0, (replaced p).1)
  Effect-of_kind MutationKind.replace_inline_policy denies grants h =
      let p : IdentityPolicyState = record { allow = grants; deny = denies } in
      (insert i p a.engine, refl, (replaced p).0, (replaced p).1)
  Effect-of_kind MutationKind.revoke_older_sessions denies grants h =
      (a.engine, refl, h, λ j _. refl)
  Effect-of_kind MutationKind.update_trust_policy denies grants h = (a.engine, refl, h, λ j _. refl)
  Effect-of_kind MutationKind.delete_session_policy_scope denies grants h =
      (a.engine, refl, h, λ j _. refl)

-- What a mutation leaves, once it has been accepted.
abbrev pub mutated :
    ℤ → (ℕ → ℕ → ℕ) → FakeProviderAdapter → PolicyMutation → PolicyEngine → FakeProviderAdapter
mutated jitter randint a m engine = record a {
  engine = engine;
  sessions = sessions_after a m;
  trust_policy_blocked_identities = blocked_after a m;
  pending =
      insert m.target_identity
        (record {
          pre_allow = (policy_of a.engine m.target_identity).allow;
          pre_deny = (policy_of a.engine m.target_identity).deny;
          visibility = schedule jitter randint a.config.consistency a.now_ms;
        })
        a.pending;
}

-- SI-12, and the effect of a mutation: for a protected identity it raises, and nothing is changed.
-- For every other it is confirmed with the instant of its sending; the target gets the policy that
-- the kind calls for, every other identity keeps its own, the sessions change only by a revocation
-- of the target's own credentials, the issue of credentials is blocked only by a trust policy
-- update, and the policy before is kept with the schedule of the change.
pub apply_policy_mutation_effect :
    (jitter : ℤ) (randint : ℕ → ℕ → ℕ) (a : FakeProviderAdapter) (m : PolicyMutation)
    → (mem m.target_identity a.config.protected_identities ≡ true
        → apply_policy_mutation jitter randint a m ≡ err mutation_target_forbidden_error)
      × (mem m.target_identity a.config.protected_identities ≡ false
          → (engine : PolicyEngine) × (apply_policy_mutation jitter randint a m
              ≡ ok (
                record { confirmed = true; monotonic_sent_ns = a.now_ms * 1000000 },
                mutated jitter randint a m engine,
              ))
            × (lookup m.target_identity engine
                ≡ some (policy_after m (policy_of a.engine m.target_identity)))
            × ((j : IdentityId)
                → (j == m.target_identity) ≡ false
                → lookup j engine ≡ lookup j a.engine))
unfolding apply_policy_mutation state_of credentials_of binding_of
apply_policy_mutation_effect jitter randint a m = (
  λ h. rw h refl,
  λ h.
      let i = m.target_identity in
      let s = policy_of a.engine i in
      let registered = record a { engine = registered_engine a.engine i } in
      let known = registered_engine-lookup a.engine i in
      let state : state_of registered.engine i ≡ ok s = ap (λ o. or_raise o key_error) known in
      let (engine, made, target, other) =
        Effect-of_kind registered i s m.kind m.denies_capabilities m.grants_capabilities known in
      (
        engine,
        rw (h, state, made) refl,
        target,
        λ j ne. other j ne ∙ registered_engine-other a.engine i j ne,
      ),
)
