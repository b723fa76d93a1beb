-- ===== src/Providers/Fake/Adapter/Sees.antt =====
-- Which policy a probe sees, while a mutation propagates and after.
use chainbreak.Common.{
  ℕ, ◌≡◌, refl, true, false, none, some, arith, leb, ==_refl, if◌then◌else◌, Bool-cases, inl, inr,
}
use chainbreak.Common.Dict.{lookup, erase, lookup-erase}
use chainbreak.Core.Capabilities.{Capability}
use chainbreak.Core.Enums.{OutcomeClass, DenialAttribution, is_denial}
use chainbreak.Core.Errors.{Result, ok}
use chainbreak.Core.Models.{IdentityId}
use chainbreak.Providers.Fake.Consistency.{is_visible}
use chainbreak.Providers.Fake.Engine.{IdentityPolicyState, state_of, evaluate, evaluate_against}
use chainbreak.Providers.Fake.Probes.{ProbeOutcome, Disambiguation, probe_outcome}
use chainbreak.Providers.Fake.Adapter.{FakeProviderAdapter, PendingTransition}
use chainbreak.Providers.Fake.Adapter.Probe.{
  is_throttled, session_is_dead, session_allow_of, cached_snapshot, drop_settled, hidden_transition,
  packaged_outcome, decide_live, decide_outcome,
}

-- The outcome of a probe that is decided by a policy.
abbrev pub decided_by :
    FakeProviderAdapter → IdentityId → Capability → IdentityPolicyState → Result ProbeOutcome
decided_by a i c p =
    packaged_outcome a i c (evaluate_against p.allow p.deny c.id (session_allow_of a i) none)
      p.allow

-- Nothing decides a probe before the policy does: no throttling, no dead session, no frozen policy.
pub record IsUndisturbed (a : FakeProviderAdapter) (i : IdentityId) (t : ℕ) : Type 0 where
  pub calm : is_throttled a ≡ false
  pub alive : session_is_dead a i t ≡ false
  pub live : cached_snapshot a i ≡ none

pub decide_outcome-live :
    (a : FakeProviderAdapter) (i : IdentityId) (c : Capability) (t : ℕ)
    → IsUndisturbed a i t
    → decide_outcome a false i c t ≡ (decide_live (drop_settled a i t) i c t, drop_settled a i t)
unfolding decide_outcome
decide_outcome-live a i c t u = rw (u.calm, u.alive, u.live) refl

-- The outcome of every probe of a session that is dead.
abbrev pub revoked_outcome : ProbeOutcome
revoked_outcome = record {
  outcome_class = OutcomeClass.denied_implicit;
  denial_attribution = some DenialAttribution.undisclosed;
  disambiguation_path = Disambiguation.session_revoked;
}

pub decide_outcome-dead :
    (a : FakeProviderAdapter) (i : IdentityId) (c : Capability) (t : ℕ)
    → is_throttled a ≡ false
    → session_is_dead a i t ≡ true
    → decide_outcome a false i c t ≡ (ok revoked_outcome, a)
unfolding decide_outcome probe_outcome is_denial
decide_outcome-dead a i c t calm dead = rw (decide_outcome, calm, dead) refl

-- Without a transition under way, the policy in force decides.
pub decide_live-settled :
    (a : FakeProviderAdapter) (i : IdentityId) (c : Capability) (t : ℕ) (s : IdentityPolicyState)
    → lookup i a.engine ≡ some s
    → hidden_transition a i t ≡ none
    → decide_live a i c t ≡ decided_by a i c s
unfolding decide_live packaged_outcome evaluate state_of
decide_live-settled a i c t s h n = rw (decide_live, n, evaluate, state_of, h) refl

pub decide_live-hidden :
    (a : FakeProviderAdapter) (i : IdentityId) (c : Capability) (t : ℕ) (p : PendingTransition)
    → hidden_transition a i t ≡ some p
    → decide_live a i c t ≡ decided_by a i c (record { allow = p.pre_allow; deny = p.pre_deny })
unfolding decide_live packaged_outcome
decide_live-hidden a i c t p h = rw (decide_live, h) refl

-- With a transition under way, its visibility decides which policy a probe sees. The settled
-- transition is dropped, which makes no difference to what is seen.
pub decide_outcome-pending :
    (a : FakeProviderAdapter) (i : IdentityId) (c : Capability) (t : ℕ) (s : IdentityPolicyState)
    (p : PendingTransition)
    → IsUndisturbed a i t
    → lookup i a.engine ≡ some s
    → lookup i a.pending ≡ some p
    → (leb p.visibility.settle_at_ms t ≡ true → is_visible p.visibility t ≡ true)
    → (decide_outcome a false i c t).0
      ≡ decided_by a i c (
          if is_visible p.visibility t
          then s
          else record { allow = p.pre_allow; deny = p.pre_deny })
unfolding packaged_outcome session_allow_of hidden_transition drop_settled
decide_outcome-pending a i c t s p u known pending settled =
    elim (Bool-cases (leb p.visibility.settle_at_ms t)) [
      | inl e ↦
          let dropped = record a { pending = erase i a.pending } in
          let gone : lookup i dropped.pending ≡ none =
            ground (arith, lookup-erase i i a.pending, ==_refl i) in
          rw (decide_outcome-live a i c t u, drop_settled, pending, e, settled e)
            (decide_live-settled dropped i c t s known (rw (hidden_transition, gone) refl))
      | inr e ↦
          rw (decide_outcome-live a i c t u, drop_settled, pending, e)
            (elim (Bool-cases (is_visible p.visibility t)) [
              | inl v ↦
                  rw v
                    (decide_live-settled a i c t s known (rw (hidden_transition, pending, v) refl))
              | inr v ↦
                  rw v (decide_live-hidden a i c t p (rw (hidden_transition, pending, v) refl))
            ])
    ]
