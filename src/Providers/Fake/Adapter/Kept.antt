-- ===== src/Providers/Fake/Adapter/Kept.antt =====
-- How single changes of the simulated provider's state keep its invariant.
use chainbreak.Common.{
  ℕ, suc, ◌≤◌, ◌≡◌, ap, ◌∙◌, inl, inr, true, [], Option, arith, ◌==◌, Bool-cases,
}
use chainbreak.Common.Dict.{insert, erase, lookup-insert, lookup-erase}
use chainbreak.Common.Text.{Text, insert_text}
use chainbreak.Core.Authority.{AuthoritySet, union}
use chainbreak.Core.Credentials.{CredentialRecord}
use chainbreak.Core.Models.{IdentityId}
use chainbreak.Providers.Fake.Consistency.Visibility.{IsOrdered}
use chainbreak.Providers.Fake.Engine.{
  PolicyEngine, IdentityPolicyState, state_of, is_registered, replace,
}
use chainbreak.Providers.Fake.Engine
use chainbreak.Providers.Fake.Session.{SessionStore, Request, issue}
use chainbreak.Providers.Fake.Adapter.{
  FakeProviderAdapter, PendingTransition, make_ref, negative_control_grant, register_identity,
}
use chainbreak.Providers.Fake.Adapter.Delegate.{
  DelegationRequest, register_target, append_credential, record_credential,
}
use chainbreak.Providers.Fake.Adapter.Sound.{
  IsSound, is_registered-insert, lookup_text-insert_text_inv, mem-append_credential,
  issue-IsNumbered,
}

-- The engine may change, where the registered identities stay so.
pub with_engine-IsSound :
    (a : FakeProviderAdapter) (engine : PolicyEngine)
    → ((j : IdentityId) → is_registered a.engine j ≡ true → is_registered engine j ≡ true)
    → IsSound a
    → IsSound (record a { engine = engine })
with_engine-IsSound a engine kept s = record {
  numbered = s.numbered;
  counted = s.counted;
  snapshotted = s.snapshotted;
  known = λ t j h. kept j (s.known t j h);
  ordered = s.ordered;
}

-- A reference to a registered identity is recorded.
pub with_ref-IsSound :
    (a : FakeProviderAdapter) (ref : Text) (i : IdentityId)
    → is_registered a.engine i ≡ true
    → IsSound a
    → IsSound (record a { ref_to_identity_id = insert_text ref i a.ref_to_identity_id })
with_ref-IsSound a ref i registered s = record {
  numbered = s.numbered;
  counted = s.counted;
  snapshotted = s.snapshotted;
  known = λ t j h. elim (lookup_text-insert_text_inv t ref j i a.ref_to_identity_id h) [
    | inl same ↦ ap (is_registered a.engine) same ∙ registered
    | inr old ↦ s.known t j old
  ];
  ordered = s.ordered;
}

-- A transition with an ordered schedule is recorded, or one is dropped.
pub with_pending-IsSound :
    (a : FakeProviderAdapter) (i : IdentityId) (p : PendingTransition)
    → IsOrdered p.visibility
    → IsSound a
    → IsSound (record a { pending = insert i p a.pending })
with_pending-IsSound a i p ordered s = record {
  numbered = s.numbered;
  counted = s.counted;
  snapshotted = s.snapshotted;
  known = s.known;
  ordered = λ j. elim (Bool-cases (j == i)) [
    | inl e ↦ rw (lookup-insert j i p a.pending, e) ordered
    | inr e ↦ rw (lookup-insert j i p a.pending, e) (s.ordered j)
  ];
}

pub without_pending-IsSound :
    (a : FakeProviderAdapter) (i : IdentityId)
    → IsSound a
    → IsSound (record a { pending = erase i a.pending })
without_pending-IsSound a i s = record {
  numbered = s.numbered;
  counted = s.counted;
  snapshotted = s.snapshotted;
  known = s.known;
  ordered = λ j. elim (Bool-cases (j == i)) [
    | inl e ↦ rw (lookup-erase j i a.pending, e) tt
    | inr e ↦ rw (lookup-erase j i a.pending, e) (s.ordered j)
  ];
}

-- A credential that the counter has passed is recorded with its snapshot.
pub with_credential-IsSound :
    (a : FakeProviderAdapter) (i id : ℕ) (policy : AuthoritySet × AuthoritySet)
    → id ≤ a.sessions.counter
    → IsSound a
    → IsSound (record a {
      credentials_by_identity = append_credential i id a.credentials_by_identity;
      credential_snapshot = insert id policy a.credential_snapshot;
    })
with_credential-IsSound a i id policy bound s = record {
  numbered = s.numbered;
  counted = λ j c h. ground (
    arith,
    rw (mem-append_credential j i c id a.credentials_by_identity) at h,
    s.counted j c,
    bound,
  );
  snapshotted = λ j c h. ground (
    arith,
    rw (mem-append_credential j i c id a.credentials_by_identity) at h,
    s.snapshotted j c,
    lookup-insert c id policy a.credential_snapshot,
  );
  known = s.known;
  ordered = s.ordered;
}

pub counted-issue :
    (store : SessionStore) (r : Request) → suc store.counter ≤ (issue store r).1.counter
unfolding issue
counted-issue store r = omega arith

pub issued-IsSound :
    (a : FakeProviderAdapter) (r : Request)
    → IsSound a
    → IsSound (record a { sessions = (issue a.sessions r).1 })
unfolding issue
issued-IsSound a r s = record {
  numbered = issue-IsNumbered a.sessions r s.numbered;
  counted = λ i c h. (let bound = s.counted i c h in omega (arith, bound));
  snapshotted = s.snapshotted;
  known = s.known;
  ordered = s.ordered;
}

pub record_credential-IsSound :
    (a : FakeProviderAdapter) (r : DelegationRequest) (c : CredentialRecord)
    (p : IdentityPolicyState)
    → IsSound a
    → is_registered a.engine r.target_identity_id ≡ true
    → c.credential_id ≤ a.sessions.counter
    → IsSound (record_credential a r c p)
unfolding record_credential
record_credential-IsSound a r c p s registered bound =
    let i = r.target_identity_id in
    let referred = record a {
      ref_to_identity_id = insert_text (make_ref a.config i) i a.ref_to_identity_id;
    } in
    with_credential-IsSound referred i c.credential_id (p.allow, p.deny) bound
      (with_ref-IsSound a (make_ref a.config i) i registered s)

pub registered-kept :
    (engine : PolicyEngine) (i j : IdentityId) (p : IdentityPolicyState)
    → is_registered engine j ≡ true
    → is_registered (insert i p engine) j ≡ true
registered-kept engine i j p h = ground (arith, is_registered-insert i j p engine, h)

pub registered-now :
    (engine : PolicyEngine) (i : IdentityId) (p : IdentityPolicyState)
    → is_registered (insert i p engine) i ≡ true
registered-now engine i p = ground (arith, is_registered-insert i i p engine)

pub register_identity-IsSound :
    (a : FakeProviderAdapter) (i : IdentityId) (allow : AuthoritySet) (binding : Option ℕ)
    → IsSound a
    → IsSound (register_identity a i allow binding).1
unfolding register_identity Engine.register_identity
register_identity-IsSound a i allow binding s =
    let p : IdentityPolicyState = record {
      allow = union allow (negative_control_grant a.config binding);
      deny = [];
    } in
    with_ref-IsSound (record a { engine = insert i p a.engine }) (make_ref a.config i) i
      (registered-now a.engine i p)
      (with_engine-IsSound a (insert i p a.engine) (λ j. registered-kept a.engine i j p) s)

pub register_target-IsSound :
    (a : FakeProviderAdapter) (r : DelegationRequest)
    → IsSound a
    → IsSound (register_target a r)
      × (is_registered (register_target a r).engine r.target_identity_id ≡ true)
unfolding register_target Engine.register_identity
register_target-IsSound a r s =
    let i = r.target_identity_id in
    let p : IdentityPolicyState = record {
      allow =
          union r.intended_capabilities (negative_control_grant a.config r.target_provider_binding);
      deny = [];
    } in
    elim (Bool-cases (is_registered a.engine i)) [
      | inl e ↦ (rw e s, rw e e)
      | inr e ↦ (
        rw e (with_engine-IsSound a (insert i p a.engine) (λ j. registered-kept a.engine i j p) s),
        rw e (registered-now a.engine i p),
      )
    ]
