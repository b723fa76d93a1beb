-- ===== src/Providers/Fake/Adapter/Issued.antt =====
-- What a delegation leaves, and what a probe of its target finds.
use chainbreak.Common.{
  ℕ, ◌*◌, ◌+◌, ◌<◌, ◌≡◌, refl, ap, not, List, [], ◌∷◌, ◌++◌, none, some, ltb, if◌then◌else◌, inl,
  inr, Option-cases,
}
use chainbreak.Common.Dict.{Dict, lookup, lookup-insert_same}
use chainbreak.Common.Text.{lookup_text, lookup_text-insert_text}
use chainbreak.Core.Authority.{union}
use chainbreak.Core.Credentials.{CredentialRecord}
use chainbreak.Core.Errors.{ok, or_raise, key_error}
use chainbreak.Providers.Fake.Engine.{
  IdentityPolicyState, is_registered, state_of, register_identity,
}
use chainbreak.Providers.Fake.Session.{Request, granted_duration, issue, is_live}
use chainbreak.Providers.Fake.Session.Lifetime.{IsNumbered, issue_lives}
use chainbreak.Providers.Fake.Adapter.{FakeProviderAdapter, make_ref, negative_control_grant}
use chainbreak.Providers.Fake.Adapter.Delegate.{
  DelegationRequest, check_request, register_target, scopes_session, append_credential,
  record_credential, delegate,
}
use chainbreak.Providers.Fake.Adapter.Probe.{
  last_of, latest_credential, session_is_dead, session_allow_of,
}

last_of-append : (cs : List ℕ) (c : ℕ) → last_of (cs ++ c ∷ []) ≡ some c
unfolding last_of
last_of-append [] c = refl
last_of-append (b ∷ []) c = refl
last_of-append (b ∷ d ∷ cs) c = last_of-append (d ∷ cs) c

-- The credential ids of an identity after one is appended: it is the last.
append_credential-last :
    (i c : ℕ) (d : Dict (List ℕ))
    → (cs : List ℕ) × (lookup i (append_credential i c d) ≡ some cs) × (last_of cs ≡ some c)
unfolding append_credential last_of
append_credential-last i c d = elim (Option-cases (lookup i d)) [
  | inl e ↦ (c ∷ [], rw (append_credential, e) (lookup-insert_same i (c ∷ []) d), refl)
  | inr (cs, e) ↦ (
    cs ++ c ∷ [],
    rw (append_credential, e) (lookup-insert_same i (cs ++ c ∷ []) d),
    last_of-append cs c,
  )
]

-- The policy that the target of a delegation has.
abbrev pub target_policy : FakeProviderAdapter → DelegationRequest → IdentityPolicyState
target_policy a r = elim (lookup r.target_identity_id a.engine) [
  | some s ↦ s
  | none ↦ record {
    allow =
        union r.intended_capabilities (negative_control_grant a.config r.target_provider_binding);
    deny = [];
  }
]

register_target-state :
    (a : FakeProviderAdapter) (r : DelegationRequest)
    → lookup r.target_identity_id (register_target a r).engine ≡ some (target_policy a r)
unfolding register_target is_registered register_identity
register_target-state a r = elim (Option-cases (lookup r.target_identity_id a.engine)) [
  | inl e ↦
      rw (target_policy, e)
        (lookup-insert_same r.target_identity_id
          (record {
            allow =
                union r.intended_capabilities
                  (negative_control_grant a.config r.target_provider_binding);
            deny = [];
          })
          a.engine)
  | inr (s, e) ↦ rw (target_policy, e) e
]

-- The request for a credential that a delegation makes.
abbrev pub session_request : FakeProviderAdapter → DelegationRequest → Request
session_request a r = record {
  target_identity_id = r.target_identity_id;
  mechanism = r.mechanism;
  requested_duration_s = r.requested_duration_s;
  intended_capabilities = r.intended_capabilities;
  issued_at_ms = a.now_ms;
}

-- What a probe consults of the state, as a delegation leaves it.
pub record IsIssued (after : FakeProviderAdapter) (r : DelegationRequest) (p : IdentityPolicyState)
    (c : CredentialRecord) : Type 0 where
  pub policy : lookup r.target_identity_id after.engine ≡ some p
  pub frozen : lookup c.credential_id after.credential_snapshot ≡ some (p.allow, p.deny)
  pub current : latest_credential after r.target_identity_id ≡ some c.credential_id
  pub lives : (t : ℕ) → session_is_dead after r.target_identity_id t ≡ not (ltb t c.expires_at)
  pub scoped :
      session_allow_of after r.target_identity_id
      ≡ (if scopes_session r.mechanism then some r.intended_capabilities else none)
  pub known :
      lookup_text (make_ref after.config r.target_identity_id) after.ref_to_identity_id
      ≡ some r.target_identity_id

record_credential-IsIssued :
    (a : FakeProviderAdapter) (r : DelegationRequest) (p : IdentityPolicyState)
    (c : CredentialRecord)
    → lookup r.target_identity_id a.engine ≡ some p
    → ((t : ℕ) → is_live a.sessions c.credential_id t ≡ ltb t c.expires_at)
    → IsIssued (record_credential a r c p) r p c
unfolding record_credential latest_credential session_is_dead session_allow_of
record_credential-IsIssued a r p c h lives =
    let i = r.target_identity_id in
    let (cs, listed, last) = append_credential-last i c.credential_id a.credentials_by_identity in
    record {
      policy = h;
      frozen = lookup-insert_same c.credential_id (p.allow, p.deny) a.credential_snapshot;
      current = rw (latest_credential, listed) last;
      lives = λ t. rw (session_is_dead, latest_credential, listed, last, lives t) refl;
      scoped =
          rw
            (
              session_allow_of,
              lookup-insert_same i
                  (if scopes_session r.mechanism then some r.intended_capabilities else none)
                  a.session_scope,
            )
            refl;
      known = lookup_text-insert_text (make_ref a.config i) i a.ref_to_identity_id;
    }

-- What a delegation that succeeds leaves.
abbrev pub delegated :
    FakeProviderAdapter → DelegationRequest → CredentialRecord → FakeProviderAdapter
delegated a r c =
    record_credential
      (record (register_target a r) { sessions = (issue a.sessions (session_request a r)).1 }) r c
      (target_policy a r)

delegate-eq :
    (a : FakeProviderAdapter) (r : DelegationRequest) (c : CredentialRecord)
    → check_request a r ≡ ok tt
    → (issue a.sessions (session_request a r)).0 ≡ ok c
    → state_of (register_target a r).engine r.target_identity_id ≡ ok (target_policy a r)
    → delegate a r ≡ (
      ok (record { identity_ref = make_ref a.config r.target_identity_id; credential = c }),
      delegated a r c,
    )
unfolding delegate register_target
delegate-eq a r c checked made state = rw (delegate, checked, made, state) refl

-- A delegation that comes from within the namespace, to a target that no trust policy blocks, for
-- a positive duration, succeeds. The new credential is the target's current one and lives exactly
-- until it expires; the target keeps the policy it had, or gets the intended one with the grant of
-- its binding; that policy is kept as the credential's snapshot; and the session is scoped to the
-- intended capabilities exactly where the mechanism scopes sessions.
pub delegate-IsIssued :
    (a : FakeProviderAdapter) (r : DelegationRequest)
    → IsNumbered a.sessions
    → check_request a r ≡ ok tt
    → 0 < r.requested_duration_s
    → 0 < a.sessions.max_session_duration_s
    → (c : CredentialRecord) × (delegate a r ≡ (
      ok (record { identity_ref = make_ref a.config r.target_identity_id; credential = c }),
      delegated a r c,
    ))
      × (c.expires_at ≡ a.now_ms + 1000 * granted_duration a.sessions (session_request a r))
      × IsIssued (delegated a r c) r (target_policy a r) c
      × IsNumbered (delegated a r c).sessions
unfolding register_target state_of record_credential
delegate-IsIssued a r numbered checked requested maximal =
    let i = r.target_identity_id in
    let p = target_policy a r in
    let (c, made, expires, _, lives, _, numbered') =
      issue_lives a.sessions (session_request a r) numbered requested maximal in
    let issued = record (register_target a r) {
      sessions = (issue a.sessions (session_request a r)).1;
    } in
    (
      c,
      delegate-eq a r c checked made (ap (λ o. or_raise o key_error) (register_target-state a r)),
      expires,
      record_credential-IsIssued issued r p c (register_target-state a r) lives,
      numbered',
    )
