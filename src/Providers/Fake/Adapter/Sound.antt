-- ===== src/Providers/Fake/Adapter/Sound.antt =====
-- The invariant of the simulated provider's state, and the lemmas on its parts.
use chainbreak.Common.{
  ℕ, suc, ◌+◌, ◌*◌, ◌≤◌, ◌≡◌, sym, ap, ◌∙◌, ◌⊎◌, inl, inr, true, ◌&&◌, ◌||◌, List, [], ◌∷◌, ◌++◌,
  Option, none, some, mem, arith, leb, ◌==◌, ==_iff, is_some, Bool-cases, Option-cases,
}
use chainbreak.Common.Dict.{Dict, lookup, insert, lookup-insert}
use chainbreak.Common.Text.{Text, lookup_text, insert_text, same_text, same_text-eq}
use chainbreak.Core.Authority.{AuthoritySet}
use chainbreak.Core.Authority.Algebra.{mem-append}
use chainbreak.Core.Credentials.{CredentialRecord, credential_record}
use chainbreak.Core.Errors.{ok, value_error, raise_if_then-eq-ok}
use chainbreak.Core.Models.{IdentityId}
use chainbreak.Providers.Fake.Consistency.Visibility.{IsOrdered}
use chainbreak.Providers.Fake.Engine.{PolicyEngine, IdentityPolicyState, is_registered}
use chainbreak.Providers.Fake.Session.{SessionStore, Request, issue, granted_duration}
use chainbreak.Providers.Fake.Session.Lifetime.{IsNumbered}
use chainbreak.Providers.Fake.Adapter.{FakeProviderAdapter, PendingTransition}
use chainbreak.Providers.Fake.Adapter.Delegate.{append_credential}
use chainbreak.Providers.Fake.Adapter.Mutate.{or_empty}

-- A transition that is looked up has a schedule in order.
abbrev pub IsScheduled : Option PendingTransition → Type 0
IsScheduled none = Unit
IsScheduled (some p) = IsOrdered p.visibility

-- The credentials are numbered by the counter; every listed credential has a number that the
-- counter has passed and a snapshot; every known reference is that of a registered identity; and
-- every pending transition has a schedule in order.
pub record IsSoundState (sessions : SessionStore) (credentials : Dict (List ℕ))
    (snapshots : Dict (AuthoritySet × AuthoritySet)) (refs : List (Text × IdentityId))
    (pending : Dict PendingTransition) (engine : PolicyEngine) : Type 0 where
  pub numbered : IsNumbered sessions
  pub counted : (i c : ℕ) → mem c (or_empty (lookup i credentials)) ≡ true → c ≤ sessions.counter
  pub snapshotted :
      (i c : ℕ)
      → mem c (or_empty (lookup i credentials)) ≡ true
      → is_some (lookup c snapshots) ≡ true
  pub known :
      (t : Text) (i : IdentityId) → lookup_text t refs ≡ some i → is_registered engine i ≡ true
  pub ordered : (i : IdentityId) → IsScheduled (lookup i pending)

abbrev pub IsSound : FakeProviderAdapter → Type 0
IsSound a =
    IsSoundState a.sessions a.credentials_by_identity a.credential_snapshot a.ref_to_identity_id
      a.pending a.engine

-- `register_identity` and every change in place keep the registered identities.
pub is_registered-insert :
    (i j : IdentityId) (s : IdentityPolicyState) (engine : PolicyEngine)
    → is_registered (insert i s engine) j ≡ (j == i || is_registered engine j)
unfolding is_registered
is_registered-insert i j s engine = ground (arith, lookup-insert j i s engine)

pub lookup_text-insert_text_inv :
    (t key : Text) (i v : IdentityId) (d : List (Text × IdentityId))
    → lookup_text t (insert_text key v d) ≡ some i
    → (i ≡ v) ⊎ (lookup_text t d ≡ some i)
lookup_text-insert_text_inv t key i v [] h = elim (Bool-cases (same_text t key)) [
  | inl e ↦ inl (let g = rw e at h in cc)
  | inr e ↦ let absurd = rw e at h in cc
]
lookup_text-insert_text_inv t key i v ((name, old) ∷ d) h = elim (Bool-cases (same_text key name)) [
  | inl e ↦ let same = same_text-eq key name e in ground (arith, rw e at h, ap (same_text t) same)
  | inr e ↦ ground (arith, rw e at h, lookup_text-insert_text_inv t key i v d)
]

-- The credential ids of an identity, after one was appended for some identity.
pub mem-append_credential :
    (i k c id : ℕ) (d : Dict (List ℕ))
    → mem c (or_empty (lookup i (append_credential k id d)))
      ≡ (mem c (or_empty (lookup i d)) || (i == k && c == id))
unfolding append_credential
mem-append_credential i k c id d = elim (Option-cases (lookup k d)) [
  | inl e ↦ elim (Bool-cases (i == k)) [
    | inl same ↦
        let at_key : lookup i d ≡ none = ap (λ j. lookup j d) ((==_iff i k).0 same) ∙ e in
        rw (append_credential, e, lookup-insert i k (id ∷ []) d, same, at_key) (ground arith)
    | inr ne ↦ rw (append_credential, e, lookup-insert i k (id ∷ []) d, ne) (ground arith)
  ]
  | inr (cs, e) ↦ elim (Bool-cases (i == k)) [
    | inl same ↦
        let at_key : lookup i d ≡ some cs = ap (λ j. lookup j d) ((==_iff i k).0 same) ∙ e in
        rw (append_credential, e, lookup-insert i k (cs ++ id ∷ []) d, same, at_key)
          (ground (arith, mem-append c cs (id ∷ [])))
    | inr ne ↦ rw (append_credential, e, lookup-insert i k (cs ++ id ∷ []) d, ne) (ground arith)
  ]
]

-- Whatever the request, the numbering goes on.
pub issue-IsNumbered :
    (store : SessionStore) (r : Request) → IsNumbered store → IsNumbered (issue store r).1
unfolding issue
issue-IsNumbered store r numbered j t h = ground (
  arith,
  lookup-insert j (suc store.counter) (r.issued_at_ms + 1000 * granted_duration store r) store.live,
  h,
  numbered j t,
)

credential_record-eq-ok : (c d : CredentialRecord) → credential_record c ≡ ok d → c ≡ d
unfolding credential_record
credential_record-eq-ok c d h =
    let (_, g) = raise_if_then-eq-ok (c.requested_duration_s == 0) value_error _ h in
    let (_, k) = raise_if_then-eq-ok (c.granted_duration_s == 0) value_error _ g in
    let (_, l) = raise_if_then-eq-ok (leb c.expires_at c.issued_at) value_error (ok c) k in cc

-- The number of a credential that was issued.
pub issue-credential_id :
    (store : SessionStore) (r : Request) (c : CredentialRecord)
    → (issue store r).0 ≡ ok c
    → c.credential_id ≡ suc store.counter
unfolding issue
issue-credential_id store r c h = ap (λ d. d.credential_id) (sym (credential_record-eq-ok _ c h))
