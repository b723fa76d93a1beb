-- ===== src/Providers/Fake/Adapter/Preserved.antt =====
-- A delegation and a probe preserve the invariant of the simulated provider.
use chainbreak.Common.{
  ℕ, suc, ◌≡◌, refl, ◌⊎◌, inl, inr, Bool, true, false, leb, Bool-cases, Option-cases,
}
use chainbreak.Common.Dict.{lookup}
use chainbreak.Common.Text.{lookup_text}
use chainbreak.Core.Capabilities.{Capability, get}
use chainbreak.Core.Credentials.{CredentialRecord}
use chainbreak.Core.Errors.{ok, Result-cases}
use chainbreak.Core.Models.{IdentityId}
use chainbreak.Providers.Fake.Engine.{IdentityPolicyState, state_of}
use chainbreak.Providers.Fake.Session.{issue}
use chainbreak.Providers.Fake.Adapter.{FakeProviderAdapter}
use chainbreak.Providers.Fake.Adapter.Delegate.{
  DelegationRequest, check_request, register_target, record_credential, delegate,
}
use chainbreak.Providers.Fake.Adapter.Issued.{session_request}
use chainbreak.Providers.Fake.Adapter.Probe.{
  is_throttled, session_is_dead, cached_snapshot, decide_outcome, drop_settled, check_namespaces,
  ProbeRequest, probe,
}
use chainbreak.Providers.Fake.Adapter.Sound.{IsSound, issue-credential_id}
use chainbreak.Providers.Fake.Adapter.Kept.{
  without_pending-IsSound, counted-issue, issued-IsSound, record_credential-IsSound,
  register_target-IsSound,
}

-- The state after a delegation: untouched, or with a credential issued, which is recorded where
-- the issue succeeded.
delegate-cases :
    (a : FakeProviderAdapter) (r : DelegationRequest)
    → let issued = record (register_target a r) {
      sessions = (issue (register_target a r).sessions (session_request (register_target a r) r)).1;
    } in
      ((delegate a r).1 ≡ a)
      ⊎ (((delegate a r).1 ≡ issued)
          ⊎ ((c : CredentialRecord) × (p : IdentityPolicyState) × ((issue
                  (register_target a r).sessions
                  (session_request (register_target a r) r)).0
                ≡ ok c)
              × ((delegate a r).1 ≡ record_credential issued r c p)))
unfolding delegate
delegate-cases a r = elim (Result-cases (check_request a r)) [
  | inl (e, h) ↦ inl (rw (delegate, h) refl)
  | inr (_, h) ↦
      elim (Result-cases
        (issue (register_target a r).sessions (session_request (register_target a r) r)).0) [
          | inl (e, g) ↦ inr (inl (rw (delegate, h, g) refl))
          | inr (c, g) ↦
              elim (Result-cases (state_of (register_target a r).engine r.target_identity_id)) [
                | inl (e, k) ↦ inr (inl (rw (delegate, h, g, k) refl))
                | inr (p, k) ↦ inr (inr (c, p, g, rw (delegate, h, g, k) refl))
              ]
        ]
]

pub delegate-IsSound :
    (a : FakeProviderAdapter) (r : DelegationRequest) → IsSound a → IsSound (delegate a r).1
delegate-IsSound a r s =
    let registered = register_target a r in
    let request = session_request registered r in
    let issued = record registered { sessions = (issue registered.sessions request).1 } in
    let (sound, known) = register_target-IsSound a r s in
    let after_issue : IsSound issued = issued-IsSound registered request sound in
    elim (delegate-cases a r) [
      | inl e ↦ rw e s
      | inr (inl e) ↦ rw e after_issue
      | inr (inr (c, p, made, e)) ↦ rw e (
          record_credential-IsSound issued r c p after_issue known (
            rw (issue-credential_id registered.sessions request c made)
              (counted-issue registered.sessions request)))
    ]

decide_outcome-cases :
    (a : FakeProviderAdapter) (fault : Bool) (i : IdentityId) (c : Capability) (t : ℕ)
    → ((decide_outcome a fault i c t).1 ≡ a)
      ⊎ ((decide_outcome a fault i c t).1 ≡ drop_settled a i t)
unfolding decide_outcome
decide_outcome-cases a true i c t = elim (Bool-cases (is_throttled a)) [
  | inl e ↦ inl (rw (decide_outcome, e) refl)
  | inr e ↦ inl (rw (decide_outcome, e) refl)
]
decide_outcome-cases a false i c t = elim (Bool-cases (is_throttled a)) [
  | inl e ↦ inl (rw (decide_outcome, e) refl)
  | inr e ↦ elim (Bool-cases (session_is_dead a i t)) [
    | inl dead ↦ inl (rw (decide_outcome, e, dead) refl)
    | inr alive ↦ elim (Option-cases (cached_snapshot a i)) [
      | inl n ↦ inr (rw (decide_outcome, e, alive, n) refl)
      | inr (p, f) ↦ inl (rw (decide_outcome, e, alive, f) refl)
    ]
  ]
]

drop_settled-IsSound :
    (a : FakeProviderAdapter) (i : IdentityId) (t : ℕ) → IsSound a → IsSound (drop_settled a i t)
unfolding drop_settled
drop_settled-IsSound a i t s = elim (Option-cases (lookup i a.pending)) [
  | inl e ↦ rw (drop_settled, e) s
  | inr (p, e) ↦ elim (Bool-cases (leb p.visibility.settle_at_ms t)) [
    | inl settled ↦ rw (drop_settled, e, settled) (without_pending-IsSound a i s)
    | inr unsettled ↦ rw (drop_settled, e, unsettled) s
  ]
]

pub decide_outcome-IsSound :
    (a : FakeProviderAdapter) (fault : Bool) (i : IdentityId) (c : Capability) (t : ℕ)
    → IsSound a
    → IsSound (decide_outcome a fault i c t).1
decide_outcome-IsSound a fault i c t s = elim (decide_outcome-cases a fault i c t) [
  | inl e ↦ rw e s
  | inr e ↦ rw e (drop_settled-IsSound a i t s)
]

pub probe-cases :
    (a : FakeProviderAdapter) (fault : Bool) (r : ProbeRequest)
    → let counted = record a { call_count = suc a.call_count } in
      ((probe a fault r).1 ≡ a)
      ⊎ (((probe a fault r).1 ≡ counted)
          ⊎ ((i : IdentityId) × (c : Capability) × ((probe a fault r).1
                ≡ (decide_outcome counted fault i c a.now_ms).1)))
unfolding probe
probe-cases a fault r = elim (Result-cases (check_namespaces a r)) [
  | inl (e, h) ↦ inl (rw (probe, h) refl)
  | inr (_, h) ↦ elim (Result-cases (get a.config.catalog r.capability_id)) [
    | inl (e, g) ↦ inr (inl (rw (probe, h, g) refl))
    | inr (c, g) ↦ elim (Option-cases (lookup_text r.identity_ref a.ref_to_identity_id)) [
      | inl k ↦ inr (inl (rw (probe, h, g, k) refl))
      | inr (i, k) ↦ inr (inr (i, c, rw (probe, h, g, k) refl))
    ]
  ]
]

pub probe-IsSound :
    (a : FakeProviderAdapter) (fault : Bool) (r : ProbeRequest)
    → IsSound a
    → IsSound (probe a fault r).1
probe-IsSound a fault r s = elim (probe-cases a fault r) [
  | inl e ↦ rw e s
  | inr (inl e) ↦ rw e s
  | inr (inr (i, c, e)) ↦
      rw e
        (decide_outcome-IsSound (record a { call_count = suc a.call_count }) fault i c a.now_ms s)
]
