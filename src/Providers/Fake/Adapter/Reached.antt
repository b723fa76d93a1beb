-- ===== src/Providers/Fake/Adapter/Reached.antt =====
-- The invariant of the simulated provider in every state that its operations reach.
use chainbreak.Common.{
  ℕ, suc, ◌+◌, ◌≡◌, refl, inl, inr, true, false, List, [], ◌∷◌, some, mem, arith, ◌==◌, ==_iff,
  Bool-cases,
}
use chainbreak.Common.Dict.{lookup, lookup-erase}
use chainbreak.Common.Int.{ℤ, pos, negsuc}
use chainbreak.Common.Text.{Text, lookup_text}
use chainbreak.Core.Authority.{AuthoritySet}
use chainbreak.Core.Enums.{MutationKind}
use chainbreak.Core.Errors.{ok, or_raise, key_error, >>=-eq-ok}
use chainbreak.Core.Models.{IdentityId}
use chainbreak.Providers.Fake.Clock.{advance}
use chainbreak.Providers.Fake.Consistency.{schedule}
use chainbreak.Providers.Fake.Consistency.Visibility.{schedule-IsOrdered}
use chainbreak.Providers.Fake.Engine.{PolicyEngine, IdentityPolicyState, is_registered, state_of}
use chainbreak.Providers.Fake.Engine
use chainbreak.Providers.Fake.Session.{SessionStore, revoke}
use chainbreak.Providers.Fake.Session.Lifetime.{IsNumbered}
use chainbreak.Providers.Fake.Adapter.{
  Config, new_adapter, FakeProviderAdapter, advance_clock, record_scratch_marker,
  enable_authority_caching, restore_declared_policy, restore_trust_policy, PolicyStateSnapshot,
  snapshot_policy_state,
}
use chainbreak.Providers.Fake.Adapter.Effects.{
  mutated, policy_after, policy_of, sessions_after, apply_policy_mutation_effect,
}
use chainbreak.Providers.Fake.Adapter.Kept.{
  with_engine-IsSound, with_pending-IsSound, registered-kept, register_identity-IsSound,
}
use chainbreak.Providers.Fake.Adapter.Mutate.{
  MutationReceipt, PolicyMutation, revoke_each, apply_policy_mutation,
}
use chainbreak.Providers.Fake.Adapter.Preserved.{delegate-IsSound, probe-IsSound}
use chainbreak.Providers.Fake.Adapter.Sound.{IsSound}
use chainbreak.Providers.Fake.Adapter.Steps.{Step, Reach, DrawsInRange}

revoke-IsNumbered :
    (store : SessionStore) (id : ℕ) → IsNumbered store → IsNumbered (revoke store id)
unfolding revoke
revoke-IsNumbered store id numbered j t h =
    ground (arith, lookup-erase j id store.live, h, numbered j t)

revoke_each-IsNumbered :
    (store : SessionStore) (ids : List ℕ)
    → IsNumbered store
    → IsNumbered (revoke_each store ids) × ((revoke_each store ids).counter ≡ store.counter)
unfolding revoke_each revoke
revoke_each-IsNumbered store [] numbered = (numbered, refl)
revoke_each-IsNumbered store (id ∷ ids) numbered =
    revoke_each-IsNumbered (revoke store id) ids (revoke-IsNumbered store id numbered)

module _ (a : FakeProviderAdapter) (i : IdentityId) (denies grants : AuthoritySet) where
  sessions_after-IsNumbered :
      (kind : MutationKind)
      → let m : PolicyMutation = record {
        kind = kind;
        target_identity = i;
        denies_capabilities = denies;
        grants_capabilities = grants;
      } in
        IsNumbered a.sessions
        → IsNumbered (sessions_after a m) × ((sessions_after a m).counter ≡ a.sessions.counter)
  sessions_after-IsNumbered MutationKind.revoke_older_sessions numbered =
      revoke_each-IsNumbered a.sessions _ numbered
  sessions_after-IsNumbered MutationKind.attach_inline_deny numbered = (numbered, refl)
  sessions_after-IsNumbered MutationKind.remove_inline_policy numbered = (numbered, refl)
  sessions_after-IsNumbered MutationKind.replace_inline_policy numbered = (numbered, refl)
  sessions_after-IsNumbered MutationKind.update_trust_policy numbered = (numbered, refl)
  sessions_after-IsNumbered MutationKind.delete_session_policy_scope numbered = (numbered, refl)

with_sessions-IsSound :
    (a : FakeProviderAdapter) (sessions : SessionStore)
    → IsNumbered sessions
    → sessions.counter ≡ a.sessions.counter
    → IsSound a
    → IsSound (record a { sessions = sessions })
with_sessions-IsSound a sessions numbered same s = record {
  numbered = numbered;
  counted = λ i c h. rw same (s.counted i c h);
  snapshotted = s.snapshotted;
  known = s.known;
  ordered = s.ordered;
}

-- An engine in which one identity has a policy and the others have theirs keeps the registrations.
changed-kept :
    (engine engine' : PolicyEngine) (i j : IdentityId) (p : IdentityPolicyState)
    → lookup i engine' ≡ some p
    → ((k : IdentityId) → (k == i) ≡ false → lookup k engine' ≡ lookup k engine)
    → is_registered engine j ≡ true
    → is_registered engine' j ≡ true
unfolding is_registered
changed-kept engine engine' i j p h frame r = elim (Bool-cases (j == i)) [
  | inl e ↦ let same : j ≡ i = (==_iff j i).0 e in rw (same, h) refl
  | inr e ↦ rw (frame j e) r
]

advance-IsSound :
    (a b : FakeProviderAdapter) (milliseconds : ℤ)
    → advance_clock a milliseconds ≡ ok b
    → IsSound a
    → IsSound b
unfolding advance_clock advance
advance-IsSound a b (pos n) h s =
    let same : record a { now_ms = a.now_ms + n } ≡ b = cc in rw (← same) s
advance-IsSound a b (negsuc n) h s = cc

snapshot-IsSound :
    (digest : List ℕ → List ℕ → ℕ) (a b : FakeProviderAdapter) (ref : Text)
    (taken : PolicyStateSnapshot)
    → snapshot_policy_state digest a ref ≡ ok (taken, b)
    → IsSound a
    → IsSound b
unfolding snapshot_policy_state
snapshot-IsSound digest a b ref taken h s =
    let (i, _, g) = >>=-eq-ok (or_raise (lookup_text ref a.ref_to_identity_id) key_error) _ h in
    let (p, _, k) = >>=-eq-ok (state_of a.engine i) _ g in
    let same : record a { snapshot_counter = suc a.snapshot_counter } ≡ b = cc in rw (← same) s

module _ (randint : ℕ → ℕ → ℕ) (in_range : DrawsInRange randint) where
  mutate-IsSound :
      (jitter : ℤ) (a : FakeProviderAdapter) (m : PolicyMutation) (receipt : MutationReceipt)
      (after : FakeProviderAdapter)
      → apply_policy_mutation jitter randint a m ≡ ok (receipt, after)
      → IsSound a
      → IsSound after
  mutate-IsSound jitter a m receipt after h s =
      let i = m.target_identity in
      let (refused, accepted) = apply_policy_mutation_effect jitter randint a m in
      elim (Bool-cases (mem i a.config.protected_identities)) [
        | inl e ↦ let absurd = refused e in cc
        | inr e ↦
            let (engine, made, target, other) = accepted e in
            let same : mutated jitter randint a m engine ≡ after = cc in
            let (numbered, counter) =
              sessions_after-IsNumbered a i m.denies_capabilities m.grants_capabilities m.kind
                s.numbered in
            let with_engine =
              with_engine-IsSound a engine
                (λ j.
                  changed-kept a.engine engine i j (policy_after m (policy_of a.engine i)) target
                    other)
                s in
            let with_sessions =
              with_sessions-IsSound (record a { engine = engine }) (sessions_after a m) numbered
                counter with_engine in
            rw (← same) (
              with_pending-IsSound (record a { engine = engine; sessions = sessions_after a m }) i
                (record {
                  pre_allow = (policy_of a.engine i).allow;
                  pre_deny = (policy_of a.engine i).deny;
                  visibility = schedule jitter randint a.config.consistency a.now_ms;
                })
                (schedule-IsOrdered randint in_range jitter a.config.consistency a.now_ms).0
                with_sessions)
      ]

Step-IsSound : (a b : FakeProviderAdapter) → Step a b → IsSound a → IsSound b
unfolding enable_authority_caching record_scratch_marker restore_declared_policy Engine.replace
    restore_trust_policy
Step-IsSound a b (Step.registers i allow binding) s = register_identity-IsSound a i allow binding s
Step-IsSound a b (Step.delegates r) s = delegate-IsSound a r s
Step-IsSound a b (Step.probes fault r) s = probe-IsSound a fault r s
Step-IsSound a b (Step.mutates jitter randint m receipt after in_range h) s =
    mutate-IsSound randint in_range jitter a m receipt after h s
Step-IsSound a b (Step.advances milliseconds after h) s = advance-IsSound a after milliseconds h s
Step-IsSound a b (Step.caches i) s = s
Step-IsSound a b (Step.marks marker_id) s = s
Step-IsSound a b (Step.restores i declared) s =
    with_engine-IsSound a (Engine.replace a.engine i declared [])
      (λ j. registered-kept a.engine i j (record { allow = declared; deny = [] })) s
Step-IsSound a b (Step.snapshots digest ref taken after h) s =
    snapshot-IsSound digest a after ref taken h s
Step-IsSound a b (Step.restores_trust i) s = s

pub Reach-IsSound : (a b : FakeProviderAdapter) → Reach a b → IsSound a → IsSound b
Reach-IsSound a b Reach.start s = s
Reach-IsSound a b (Reach.then_step c d path step) s =
    Step-IsSound c d step (Reach-IsSound a c path s)

pub new_adapter-IsSound : (config : Config) → IsSound (new_adapter config)
unfolding new_adapter
new_adapter-IsSound config = record {
  numbered = λ j t h. cc;
  counted = λ i c h. ground (arith, h);
  snapshotted = λ i c h. ground (arith, h);
  known = λ t i h. cc;
  ordered = λ i. tt;
}

-- An adapter as constructed, whatever its configuration: whatever calls are made in whatever order,
-- with whatever is drawn within range for each mutation, the state that they reach is sound: the
-- credentials are numbered by the counter, every listed credential has a number that the counter
-- has passed and a snapshot, every known reference is that of a registered identity, and every
-- pending transition has a schedule in order.
pub reach-IsSound :
    (config : Config) (b : FakeProviderAdapter) → Reach (new_adapter config) b → IsSound b
reach-IsSound config b path = Reach-IsSound (new_adapter config) b path (new_adapter-IsSound config)
