-- ===== src/Providers/Fake/Adapter/Revoked.antt =====
-- The revocation of the sessions of an identity, and its probes from then on.
use chainbreak.Common.{
  ℕ, ◌*◌, ◌≡◌, refl, true, false, not, ◌&&◌, List, [], ◌∷◌, some, mem, arith, Option-cases, inl,
  inr,
}
use chainbreak.Common.Dict.{lookup}
use chainbreak.Common.Int.{ℤ}
use chainbreak.Core.Capabilities.{Capability}
use chainbreak.Core.Enums.{MutationKind}
use chainbreak.Core.Errors.{ok}
use chainbreak.Core.Models.{IdentityId}
use chainbreak.Providers.Fake.Session.{SessionStore, is_live, revoke}
use chainbreak.Providers.Fake.Session.Lifetime.{revoke_kills}
use chainbreak.Providers.Fake.Adapter.{FakeProviderAdapter}
use chainbreak.Providers.Fake.Adapter.Effects.{
  mutated, sessions_after, apply_policy_mutation_effect,
}
use chainbreak.Providers.Fake.Adapter.Mutate.{
  PolicyMutation, MutationReceipt, revoke_each, credentials_of, apply_policy_mutation,
}
use chainbreak.Providers.Fake.Adapter.Probe.{
  is_throttled, last_of, latest_credential, session_is_dead, decide_outcome,
}
use chainbreak.Providers.Fake.Adapter.Sees.{revoked_outcome, decide_outcome-dead}

revoke_each-is_live :
    (sessions : SessionStore) (cs : List ℕ) (j t : ℕ)
    → is_live (revoke_each sessions cs) j t ≡ (not (mem j cs) && is_live sessions j t)
unfolding revoke_each
revoke_each-is_live sessions [] j t = refl
revoke_each-is_live sessions (c ∷ cs) j t =
    ground (arith, revoke_each-is_live (revoke sessions c) cs j t, revoke_kills sessions c j t)

last_of-mem : (cs : List ℕ) (c : ℕ) → last_of cs ≡ some c → mem c cs ≡ true
unfolding last_of
last_of-mem [] c h = cc
last_of-mem (b ∷ []) c h = let same : b ≡ c = cc in ground (arith, same)
last_of-mem (b ∷ d ∷ cs) c h = ground (arith, last_of-mem (d ∷ cs) c h)

latest-mem :
    (a : FakeProviderAdapter) (i : IdentityId) (c : ℕ)
    → latest_credential a i ≡ some c
    → mem c (credentials_of a i) ≡ true
unfolding latest_credential credentials_of
latest-mem a i c h = elim (Option-cases (lookup i a.credentials_by_identity)) [
  | inl e ↦ let absurd = rw (latest_credential, e) at h in cc
  | inr (cs, e) ↦ rw (credentials_of, e) (last_of-mem cs c (rw (latest_credential, e) at h))
]

-- The revocation of the sessions of an identity that is not protected and holds a credential: in
-- the state that it leaves, a probe of that identity, at any instant and of any capability, a
-- control capability included, is denied as that of a dead session and changes nothing, where it
-- meets no throttling and no injected fault. A credential that is not the identity's lives as
-- before.
pub revoke_older_sessions_kills :
    (jitter : ℤ) (randint : ℕ → ℕ → ℕ) (a : FakeProviderAdapter) (m : PolicyMutation) (id : ℕ)
    → m.kind ≡ MutationKind.revoke_older_sessions
    → mem m.target_identity a.config.protected_identities ≡ false
    → latest_credential a m.target_identity ≡ some id
    → is_throttled a ≡ false
    → (receipt : MutationReceipt) × (after : FakeProviderAdapter) × (apply_policy_mutation jitter
          randint a m
        ≡ ok (receipt, after))
      × ((c : Capability) (t : ℕ)
          → decide_outcome after false m.target_identity c t ≡ (ok revoked_outcome, after))
      × ((j t : ℕ)
          → mem j (credentials_of a m.target_identity) ≡ false
          → is_live after.sessions j t ≡ is_live a.sessions j t)
unfolding is_throttled session_is_dead latest_credential
revoke_older_sessions_kills jitter randint a m id kind allowed latest calm =
    let i = m.target_identity in
    let (engine, made, _, _) = (apply_policy_mutation_effect jitter randint a m).1 allowed in
    let after = mutated jitter randint a m engine in
    let held = latest-mem a i id latest in
    let sessions : after.sessions ≡ revoke_each a.sessions (credentials_of a i) =
      rw (sessions_after, kind) refl in
    (
      record { confirmed = true; monotonic_sent_ns = a.now_ms * 1000000 },
      after,
      made,
      λ c t. decide_outcome-dead after i c t calm (
          rw
            (
              session_is_dead,
              latest,
              sessions,
              revoke_each-is_live a.sessions (credentials_of a i) id t,
              held,
            )
            refl),
      λ j t other.
          rw (sessions, revoke_each-is_live a.sessions (credentials_of a i) j t, other) refl,
    )
