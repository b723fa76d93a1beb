-- ===== src/Providers/Fake/Adapter/Frozen.antt =====
-- Authority caching: a probe that consults the policy frozen at the issue of its credential.
use chainbreak.Common.{
  ℕ, ◌*◌, ◌<◌, ◌≡◌, refl, ◌∙◌, true, false, some, mem, arith, Option-cases, inl, inr,
}
use chainbreak.Common.Dict.{lookup}
use chainbreak.Common.Int.{ℤ}
use chainbreak.Core.Capabilities.{Capability}
use chainbreak.Core.Credentials.{CredentialRecord}
use chainbreak.Core.Errors.{ok}
use chainbreak.Core.Models.{IdentityId}
use chainbreak.Providers.Fake.Engine.{IdentityPolicyState}
use chainbreak.Providers.Fake.Adapter.{FakeProviderAdapter, enable_authority_caching}
use chainbreak.Providers.Fake.Adapter.Delegate.{DelegationRequest}
use chainbreak.Providers.Fake.Adapter.Effects.{
  mutated, sessions_after, apply_policy_mutation_effect,
}
use chainbreak.Providers.Fake.Adapter.Issued.{IsIssued}
use chainbreak.Providers.Fake.Adapter.Mutate.{
  PolicyMutation, MutationReceipt, credentials_of, apply_policy_mutation,
}
use chainbreak.Providers.Fake.Adapter.Probe.{
  is_throttled, latest_credential, session_is_dead, session_allow_of, cached_snapshot,
  packaged_outcome, decide_outcome,
}
use chainbreak.Providers.Fake.Adapter.Sees.{decided_by}

decide_outcome-frozen :
    (a : FakeProviderAdapter) (i : IdentityId) (c : Capability) (t : ℕ) (p : IdentityPolicyState)
    → is_throttled a ≡ false
    → session_is_dead a i t ≡ false
    → cached_snapshot a i ≡ some (p.allow, p.deny)
    → decide_outcome a false i c t ≡ (decided_by a i c p, a)
unfolding decide_outcome packaged_outcome
decide_outcome-frozen a i c t p calm alive frozen = rw (decide_outcome, calm, alive, frozen) refl

session_is_dead-same :
    (a b : FakeProviderAdapter) (i : IdentityId) (t : ℕ)
    → b.credentials_by_identity ≡ a.credentials_by_identity
    → b.sessions ≡ a.sessions
    → session_is_dead b i t ≡ session_is_dead a i t
unfolding session_is_dead latest_credential
session_is_dead-same a b i t e f =
    let same : latest_credential b i ≡ latest_credential a i = rw (latest_credential, e) refl in
    elim (Option-cases (latest_credential a i)) [
      | inl n ↦ rw (session_is_dead, same, n) refl
      | inr (id, h) ↦ rw (session_is_dead, same, h, f) refl
    ]

cached_snapshot-some :
    (a : FakeProviderAdapter) (i : IdentityId) (id : ℕ) (p : IdentityPolicyState)
    → latest_credential a i ≡ some id
    → mem i a.authority_cached_identities ≡ true
    → lookup id a.credential_snapshot ≡ some (p.allow, p.deny)
    → cached_snapshot a i ≡ some (p.allow, p.deny)
unfolding cached_snapshot
cached_snapshot-some a i id p latest cached found = rw (cached_snapshot, latest, cached) found

-- A credential was issued, and caching is then enabled for its identity. After one mutation that is
-- accepted and leaves the sessions as they were, of that identity or another, a probe while the
-- credential lives, without throttling and without an injected fault, is decided by the policy
-- from the credential's issue, exactly as before the mutation; and the probe changes nothing.
pub enable_authority_caching_freezes :
    (jitter : ℤ) (randint : ℕ → ℕ → ℕ) (a : FakeProviderAdapter) (r : DelegationRequest)
    (p : IdentityPolicyState) (credential : CredentialRecord) (m : PolicyMutation)
    → IsIssued a r p credential
    → is_throttled a ≡ false
    → mem m.target_identity a.config.protected_identities ≡ false
    → sessions_after a m ≡ a.sessions
    → (receipt : MutationReceipt) × (after : FakeProviderAdapter) × (apply_policy_mutation jitter
          randint
          (enable_authority_caching a r.target_identity_id)
          m
        ≡ ok (receipt, after))
      × ((c : Capability) (t : ℕ)
          → t < credential.expires_at
          → (decide_outcome after false r.target_identity_id c t
              ≡ (decided_by a r.target_identity_id c p, after))
            × (decide_outcome
                  (enable_authority_caching a r.target_identity_id)
                  false
                  r.target_identity_id
                  c
                  t
                ≡ (
                  decided_by a r.target_identity_id c p,
                  enable_authority_caching a r.target_identity_id,
                )))
unfolding enable_authority_caching is_throttled latest_credential packaged_outcome session_allow_of
    credentials_of
enable_authority_caching_freezes jitter randint a r p credential m issued calm allowed kept =
    let i = r.target_identity_id in
    let caching = enable_authority_caching a i in
    let (engine, made, _, _) = (apply_policy_mutation_effect jitter randint caching m).1 allowed in
    let after = mutated jitter randint caching m engine in
    let cached : mem i caching.authority_cached_identities ≡ true = ground arith in
    let alive : (t : ℕ) → t < credential.expires_at → session_is_dead a i t ≡ false =
      λ t before. ground (arith, issued.lives t) in
    (
      record { confirmed = true; monotonic_sent_ns = a.now_ms * 1000000 },
      after,
      made,
      λ c t before. (
        decide_outcome-frozen after i c t p calm
            (session_is_dead-same a after i t refl kept ∙ alive t before)
            (cached_snapshot-some after i credential.credential_id p issued.current cached
              issued.frozen),
        decide_outcome-frozen caching i c t p calm
            (session_is_dead-same a caching i t refl refl ∙ alive t before)
            (cached_snapshot-some caching i credential.credential_id p issued.current cached
              issued.frozen),
      ),
    )
