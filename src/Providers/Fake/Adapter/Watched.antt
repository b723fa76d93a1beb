-- ===== src/Providers/Fake/Adapter/Watched.antt =====
-- A mutation that is watched by any number of probes while it propagates.
use chainbreak.Common.{
  ℕ, suc, ◌+◌, ◌*◌, ◌≤◌, ◌<◌, ◌≡◌, refl, ap, ◌∙◌, ◌⊎◌, Bool, true, false, none, some, mem, arith,
  leb, leb→le, ==_iff, ◌==◌, if◌then◌else◌, Bool-cases, Option-cases, inl, inr,
}
use chainbreak.Common.Dict.{Dict, lookup, erase, lookup-insert_same, lookup-erase}
use chainbreak.Common.Int.{ℤ, pos, negsuc}
use chainbreak.Core.Capabilities.{Capability}
use chainbreak.Core.Errors.{ok}
use chainbreak.Core.Models.{IdentityId}
use chainbreak.Providers.Fake.Clock.{advance}
use chainbreak.Providers.Fake.Consistency.{is_visible, schedule}
use chainbreak.Providers.Fake.Consistency.Visibility.{
  odd_until, is_visible_phases, schedule-IsOrdered,
}
use chainbreak.Providers.Fake.Engine.{IdentityPolicyState}
use chainbreak.Providers.Fake.Adapter.{FakeProviderAdapter, PendingTransition, advance_clock}
use chainbreak.Providers.Fake.Adapter.Effects.{
  policy_after, policy_of, mutated, apply_policy_mutation_effect,
}
use chainbreak.Providers.Fake.Adapter.Mutate.{
  PolicyMutation, MutationReceipt, apply_policy_mutation,
}
use chainbreak.Providers.Fake.Adapter.Preserved.{probe-cases}
use chainbreak.Providers.Fake.Adapter.Probe.{
  ProbeRequest, is_throttled, session_is_dead, session_allow_of, cached_snapshot, drop_settled,
  hidden_transition, packaged_outcome, decide_outcome, probe,
}
use chainbreak.Providers.Fake.Adapter.Sees.{
  decided_by, IsUndisturbed, decide_outcome-live, decide_outcome-pending, decide_live-settled,
}
use chainbreak.Providers.Fake.Adapter.Steps.{DrawsInRange}

pub drop_settled-cases :
    (a : FakeProviderAdapter) (i : IdentityId) (t : ℕ)
    → (drop_settled a i t ≡ a)
      ⊎ ((p : PendingTransition) × (lookup i a.pending ≡ some p)
          × (p.visibility.settle_at_ms ≤ t)
          × (drop_settled a i t ≡ record a { pending = erase i a.pending }))
unfolding drop_settled
drop_settled-cases a i t = elim (Option-cases (lookup i a.pending)) [
  | inl e ↦ inl (rw (drop_settled, e) refl)
  | inr (p, e) ↦ elim (Bool-cases (leb p.visibility.settle_at_ms t)) [
    | inl settled ↦
        inr (p, e, leb→le p.visibility.settle_at_ms t settled, rw (drop_settled, e, settled) refl)
    | inr unsettled ↦ inl (rw (drop_settled, e, unsettled) refl)
  ]
]

-- The state that a probe leaves, by which identity it dropped, if any.
decide_outcome-state :
    (a : FakeProviderAdapter) (fault : Bool) (i : IdentityId) (c : Capability) (t : ℕ)
    → ((decide_outcome a fault i c t).1 ≡ a)
      ⊎ ((decide_outcome a fault i c t).1 ≡ drop_settled a i t)
unfolding decide_outcome
decide_outcome-state a fault i c t = elim (Bool-cases (is_throttled a)) [
  | inl e ↦ inl (rw (decide_outcome, e) refl)
  | inr e ↦ elim (Bool-cases fault) [
    | inl f ↦ inl (rw (decide_outcome, e, f) refl)
    | inr f ↦ elim (Bool-cases (session_is_dead a i t)) [
      | inl dead ↦ inl (rw (decide_outcome, e, f, dead) refl)
      | inr alive ↦ elim (Option-cases (cached_snapshot a i)) [
        | inl n ↦ inr (rw (decide_outcome, e, f, alive, n) refl)
        | inr (s, h) ↦ inl (rw (decide_outcome, e, f, alive, h) refl)
      ]
    ]
  ]
]

-- Probes, of whatever identities and with whatever faults, and the passage of time.
pub data Watches (a : FakeProviderAdapter) : FakeProviderAdapter → Type 0 where
  begins : Watches a a
  probes :
      (b : FakeProviderAdapter) (fault : Bool) (r : ProbeRequest)
      → Watches a b
      → Watches a (probe b fault r).1
  waits :
      (b c : FakeProviderAdapter) (milliseconds : ℤ)
      → Watches a b
      → advance_clock b milliseconds ≡ ok c
      → Watches a c

-- What probes and the passage of time change.
abbrev changed :
    FakeProviderAdapter → (calls now_ms : ℕ) → Dict PendingTransition → FakeProviderAdapter
changed a calls now_ms pending = record a { call_count = calls; now_ms = now_ms; pending = pending }

module _ (a : FakeProviderAdapter) (i : IdentityId) (p : PendingTransition) where
  -- A later state, in which the transition of the identity is pending or has settled.
  record IsLater (b : FakeProviderAdapter) : Type 0 where
    calls : ℕ
    pending : Dict PendingTransition
    is : b ≡ changed a calls b.now_ms pending
    follows :
        (lookup i b.pending ≡ some p)
        ⊎ ((lookup i b.pending ≡ none) × (p.visibility.settle_at_ms ≤ b.now_ms))

  counted-IsLater :
      (b : FakeProviderAdapter) → IsLater b → IsLater (record b { call_count = suc b.call_count })
  counted-IsLater b l = record {
    calls = suc b.call_count;
    pending = b.pending;
    is = ap (λ z. changed z (suc b.call_count) (b.now_ms) (b.pending)) l.is;
    follows = l.follows;
  }

  dropped-IsLater :
      (b : FakeProviderAdapter) (j : IdentityId) → IsLater b → IsLater (drop_settled b j b.now_ms)
  dropped-IsLater b j l = elim (drop_settled-cases b j b.now_ms) [
    | inl e ↦ rw e l
    | inr (q, found, settled, e) ↦ rw e (record {
      calls = b.call_count;
      pending = erase j b.pending;
      is = ap (λ z. changed z (b.call_count) (b.now_ms) (erase j b.pending)) l.is;
      follows = elim (Bool-cases (i == j)) [
        | inl same ↦
            let eq : i ≡ j = (==_iff i j).0 same in
            let gone : lookup i (erase j b.pending) ≡ none =
              ground (arith, lookup-erase i j b.pending, same) in
            elim l.follows [
              | inl now_there ↦
                  let found' = rw (← eq) at found in
                  let is_p : q ≡ p = cc in inr (gone, rw (← is_p) settled)
              | inr (_, late) ↦ inr (gone, late)
            ]
        | inr other ↦
            let kept : lookup i (erase j b.pending) ≡ lookup i b.pending =
              ground (arith, lookup-erase i j b.pending, other) in
            rw kept l.follows
      ];
    })
  ]

  probe-IsLater :
      (b : FakeProviderAdapter) (fault : Bool) (r : ProbeRequest)
      → IsLater b
      → IsLater (probe b fault r).1
  probe-IsLater b fault r l = elim (probe-cases b fault r) [
    | inl e ↦ rw e l
    | inr (inl e) ↦ rw e (counted-IsLater b l)
    | inr (inr (j, c, e)) ↦
        let counted = record b { call_count = suc b.call_count } in
        elim (decide_outcome-state counted fault j c b.now_ms) [
          | inl same ↦ rw (e, same) (counted-IsLater b l)
          | inr same ↦ rw (e, same) (dropped-IsLater counted j (counted-IsLater b l))
        ]
  ]

  advance-IsLater :
      (b c : FakeProviderAdapter) (milliseconds : ℤ)
      → advance_clock b milliseconds ≡ ok c
      → IsLater b
      → IsLater c
  unfolding advance_clock advance
  advance-IsLater b c (pos n) h l =
      let same : record b { now_ms = b.now_ms + n } ≡ c = cc in
      rw (← same) (record {
        calls = b.call_count;
        pending = b.pending;
        is = ap (λ z. changed z (b.call_count) (b.now_ms + n) (b.pending)) l.is;
        follows = elim l.follows [ inl x ↦ inl x | inr (x, y) ↦ inr (x, omega (arith, y)) ];
      })
  advance-IsLater b c (negsuc n) h l = cc

  Watches-IsLater :
      (b : FakeProviderAdapter) → lookup i a.pending ≡ some p → Watches a b → IsLater b
  Watches-IsLater b there (Watches.begins) = record {
    calls = a.call_count;
    pending = a.pending;
    is = refl;
    follows = inl there;
  }
  Watches-IsLater b there (Watches.probes c fault r w) =
      probe-IsLater c fault r (Watches-IsLater c there w)
  Watches-IsLater b there (Watches.waits c d ms w h) =
      advance-IsLater c d ms h (Watches-IsLater c there w)

  decided_by-IsLater :
      (b : FakeProviderAdapter) (c : Capability) (s : IdentityPolicyState)
      → IsLater b
      → decided_by b i c s ≡ decided_by a i c s
  unfolding packaged_outcome session_allow_of
  decided_by-IsLater b c s l = ap (λ z. decided_by z i c s) l.is

  decide_outcome-later :
      (b : FakeProviderAdapter) (c : Capability) (s : IdentityPolicyState)
      → IsLater b
      → lookup i a.engine ≡ some s
      → ((t : ℕ) → p.visibility.settle_at_ms ≤ t → is_visible p.visibility t ≡ true)
      → IsUndisturbed b i b.now_ms
      → (decide_outcome b false i c b.now_ms).0
        ≡ decided_by a i c (
            if is_visible p.visibility b.now_ms
            then s
            else record { allow = p.pre_allow; deny = p.pre_deny })
  unfolding drop_settled hidden_transition
  decide_outcome-later b c s l known settles u =
      let known_b : lookup i b.engine ≡ some s = ap (λ z. lookup i z.engine) l.is ∙ known in
      elim l.follows [
        | inl there ↦
            decide_outcome-pending b i c b.now_ms s p u known_b there
              (λ e. settles b.now_ms (leb→le p.visibility.settle_at_ms b.now_ms e))
            ∙ decided_by-IsLater b c _ l
        | inr (gone, late) ↦
            let kept : drop_settled b i b.now_ms ≡ b = rw (drop_settled, gone) refl in
            rw (decide_outcome-live b i c b.now_ms u, kept, settles b.now_ms late)
              (decide_live-settled b i c b.now_ms s known_b (rw (hidden_transition, gone) refl)
                ∙ decided_by-IsLater b c s l)
      ]

-- A mutation that is accepted, and then any number of probes, of whatever identities and with
-- whatever faults, while the clock goes on: a further probe of its target at that instant, where
-- nothing else disturbs it, is decided by the policy that the mutation calls for exactly when the
-- mutation is visible at that instant, and by the policy from before otherwise, back and forth where
-- the visibility oscillates. The mutation is visible from its settling on; before its instant it
-- is not.
pub apply_policy_mutation_visibility :
    (jitter : ℤ) (randint : ℕ → ℕ → ℕ)
    → DrawsInRange randint
    → (a : FakeProviderAdapter) (m : PolicyMutation)
    → mem m.target_identity a.config.protected_identities ≡ false
    → (receipt : MutationReceipt) × (after : FakeProviderAdapter) × (apply_policy_mutation jitter
          randint a m
        ≡ ok (receipt, after))
      × ((t : ℕ)
          → (t < a.now_ms
              → is_visible (schedule jitter randint a.config.consistency a.now_ms) t ≡ false)
            × ((schedule jitter randint a.config.consistency a.now_ms).settle_at_ms ≤ t
                → is_visible (schedule jitter randint a.config.consistency a.now_ms) t ≡ true))
      × ((b : FakeProviderAdapter) (c : Capability)
          → Watches after b
          → IsUndisturbed b m.target_identity b.now_ms
          → (decide_outcome b false m.target_identity c b.now_ms).0
            ≡ decided_by a m.target_identity c (
                if is_visible (schedule jitter randint a.config.consistency a.now_ms) b.now_ms
                then policy_after m (policy_of a.engine m.target_identity)
                else policy_of a.engine m.target_identity))
unfolding packaged_outcome session_allow_of schedule
apply_policy_mutation_visibility jitter randint in_range a m allowed =
    let v = schedule jitter randint a.config.consistency a.now_ms in
    let i = m.target_identity in
    let s = policy_of a.engine i in
    let (engine, made, target, _) = (apply_policy_mutation_effect jitter randint a m).1 allowed in
    let after = mutated jitter randint a m engine in
    let ordered = (schedule-IsOrdered randint in_range jitter a.config.consistency a.now_ms).0 in
    let phases : (t : ℕ)
        → (t < v.applied_at_ms → is_visible v t ≡ false)
          × (v.settle_at_ms ≤ t → is_visible v t ≡ true)
          × (v.applied_at_ms ≤ t
              → t < v.settle_at_ms
              → is_visible v t ≡ odd_until t v.oscillation_flips_ms) =
      λ t. is_visible_phases v t ordered.0 ordered.1 in
    let p : PendingTransition = record { pre_allow = s.allow; pre_deny = s.deny; visibility = v } in
    (
      record { confirmed = true; monotonic_sent_ns = a.now_ms * 1000000 },
      after,
      made,
      λ t. ((phases t).0, (phases t).1),
      λ b c w u.
          decide_outcome-later after i p b c (policy_after m s)
            (Watches-IsLater after i p b (lookup-insert_same i p a.pending) w) target
            (λ t. (phases t).1) u,
    )
