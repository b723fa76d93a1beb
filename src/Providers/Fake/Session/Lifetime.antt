-- ===== src/Providers/Fake/Session/Lifetime.antt =====
-- How long a credential lives, and that the credentials of a store do not disturb each other.
use chainbreak.Common.{
  ℕ, suc, ◌+◌, ◌*◌, ◌≤◌, ◌<◌, ◌≡◌, refl, true, not, ◌&&◌, some, arith, ltb, ◌==◌,
}
use chainbreak.Common.Dict.{lookup, lookup-insert, lookup-erase}
use chainbreak.Core.Errors.{ok}
use chainbreak.Core.Credentials.{CredentialRecord, credential_record, lifetime_capped}
use chainbreak.Providers.Fake.Session.{
  SessionStore, Request, is_chained, granted_duration, issue, is_live, revoke,
}

-- The duration granted is the shortest of the one requested, the store's maximum and, for a chained
-- mechanism, the cap of one hour: it is below each, and it is one of them.
pub granted_duration_shortest :
    (store : SessionStore) (r : Request)
    → (granted_duration store r ≤ r.requested_duration_s)
      × (granted_duration store r ≤ store.max_session_duration_s)
      × (is_chained r.mechanism ≡ true → granted_duration store r ≤ 3600)
      × ((d : ℕ)
          → d ≤ r.requested_duration_s
          → d ≤ store.max_session_duration_s
          → (is_chained r.mechanism ≡ true → d ≤ 3600)
          → d ≤ granted_duration store r)
unfolding granted_duration
granted_duration_shortest store r = (ground arith, ground arith, ground arith, ground arith)

-- Every live credential has a number that the counter has passed.
abbrev pub IsNumbered : SessionStore → Type 0
IsNumbered store = (id t : ℕ) → lookup id store.live ≡ some t → id ≤ store.counter

granted_duration-positive :
    (store : SessionStore) (r : Request)
    → 0 < r.requested_duration_s
    → 0 < store.max_session_duration_s
    → 0 < granted_duration store r
granted_duration-positive store r h g =
    let (_, _, _, shortest) = granted_duration_shortest store r in shortest 1 h g (λ _. omega arith)

credential_record-ok :
    (c : CredentialRecord)
    → 0 < c.requested_duration_s
    → 0 < c.granted_duration_s
    → c.issued_at < c.expires_at
    → credential_record c ≡ ok c
unfolding credential_record
credential_record-ok c h g l = ground arith

-- Issuing a credential, where the requested and the maximal duration are not zero, succeeds. The
-- credential then lives exactly until it expires, every credential issued before lives as before,
-- and the numbering stays one: no number is used twice.
pub issue_lives :
    (store : SessionStore) (r : Request)
    → IsNumbered store
    → 0 < r.requested_duration_s
    → 0 < store.max_session_duration_s
    → (c : CredentialRecord) × ((issue store r).0 ≡ ok c)
      × (c.expires_at ≡ r.issued_at_ms + 1000 * granted_duration store r)
      × (lifetime_capped c ≡ ltb (granted_duration store r) r.requested_duration_s)
      × ((t : ℕ) → is_live (issue store r).1 c.credential_id t ≡ ltb t c.expires_at)
      × ((id t : ℕ) → id ≤ store.counter → is_live (issue store r).1 id t ≡ is_live store id t)
      × IsNumbered (issue store r).1
unfolding issue is_live lifetime_capped
issue_lives store r numbered requested maximal =
    let granted = granted_duration store r in
    let positive : 0 < granted = granted_duration-positive store r requested maximal in
    let id = suc store.counter in
    let expires = r.issued_at_ms + 1000 * granted in
    (
      record {
        credential_id = id;
        identity_id = r.target_identity_id;
        mechanism = r.mechanism;
        issued_at = r.issued_at_ms;
        expires_at = expires;
        requested_duration_s = r.requested_duration_s;
        granted_duration_s = granted;
        scope_capabilities = r.intended_capabilities;
      },
      credential_record-ok _ requested positive (omega (arith, positive)),
      refl,
      refl,
      λ t. ground (arith, lookup-insert id id expires store.live),
      λ j t h. ground (arith, lookup-insert j id expires store.live, h),
      λ j t h. ground (arith, lookup-insert j id expires store.live, h, numbered j t),
    )

-- A revoked credential is dead at every instant, and no other credential is touched.
pub revoke_kills :
    (store : SessionStore) (id j t : ℕ)
    → is_live (revoke store id) j t ≡ (not (j == id) && is_live store j t)
unfolding revoke is_live
revoke_kills store id j t = ground (arith, lookup-erase j id store.live)
