-- ===== src/Providers/Fake/Adapter/Total.antt =====
-- A probe of a known reference answers in every state that the operations reach.
use chainbreak.Common.{
  ℕ, suc, ◌*◌, ◌≡◌, refl, ap, ◌∙◌, inl, inr, Bool, true, none, some, Bool-cases, Option-cases,
}
use chainbreak.Common.Dict.{lookup, erase}
use chainbreak.Common.Text.{lookup_text}
use chainbreak.Core.Capabilities.{Capability, get}
use chainbreak.Core.Enums.{OutcomeClass}
use chainbreak.Core.Errors.{Result, ok}
use chainbreak.Core.Models.{IdentityId}
use chainbreak.Capabilities.Guard.Confined.{guarded_lem}
use chainbreak.Providers.Fake.Engine.{IdentityPolicyState, is_registered, evaluate_against}
use chainbreak.Providers.Fake.Probes.Overrides.{packaged}
use chainbreak.Providers.Fake.Probes.{ProbeOutcome, Disambiguation, probe_outcome}
use chainbreak.Providers.Fake.Adapter.{FakeProviderAdapter}
use chainbreak.Providers.Fake.Adapter.Delegated.{precondition_fails, packaged_outcome-packaged}
use chainbreak.Providers.Fake.Adapter.Probe.{
  ProbeRequest, ProbeResult, is_throttled, session_is_dead, session_allow_of, cached_snapshot,
  drop_settled, hidden_transition, decide_live, decide_outcome, check_namespaces, probe,
}
use chainbreak.Providers.Fake.Adapter.Reached.{Reach-IsSound}
use chainbreak.Providers.Fake.Adapter.Sees.{
  decide_outcome-dead, decide_live-settled, decide_live-hidden, revoked_outcome,
}
use chainbreak.Providers.Fake.Adapter.Watched.{drop_settled-cases}
use chainbreak.Providers.Fake.Adapter.Sound.{IsSound}
use chainbreak.Providers.Fake.Adapter.Steps.{Reach}

-- An answer, whichever.
abbrev Answers {ℓ} : {A : Type ℓ} → Result A → Type ℓ
Answers {A = A} r = (x : A) × (r ≡ ok x)

registered-lookup :
    (a : FakeProviderAdapter) (i : IdentityId)
    → is_registered a.engine i ≡ true
    → (s : IdentityPolicyState) × (lookup i a.engine ≡ some s)
unfolding is_registered
registered-lookup a i h = elim (Option-cases (lookup i a.engine)) [
  | inl e ↦ let absurd = rw e at h in cc
  | inr found ↦ found
]

decide_live-Answers :
    (a : FakeProviderAdapter) (i : IdentityId) (c : Capability) (t : ℕ) (fails : Bool)
    → is_registered a.engine i ≡ true
    → precondition_fails a i c ≡ ok fails
    → Answers (decide_live a i c t)
decide_live-Answers a i c t fails registered checked =
    let (s, found) = registered-lookup a i registered in
    elim (Option-cases (hidden_transition a i t)) [
      | inl n ↦ (
        _,
        decide_live-settled a i c t s found n
            ∙ packaged_outcome-packaged a i c _ s.allow fails checked,
      )
      | inr (p, h) ↦ (
        _,
        decide_live-hidden a i c t p h
            ∙ packaged_outcome-packaged a i c _ p.pre_allow fails checked,
      )
    ]

drop_settled-Answers :
    (a : FakeProviderAdapter) (i : IdentityId) (c : Capability) (t : ℕ) (fails : Bool)
    → is_registered a.engine i ≡ true
    → precondition_fails a i c ≡ ok fails
    → Answers (decide_live (drop_settled a i t) i c t)
drop_settled-Answers a i c t fails registered checked = elim (drop_settled-cases a i t) [
  | inl e ↦ rw e (decide_live-Answers a i c t fails registered checked)
  | inr (_, _, _, e) ↦ rw e (
      decide_live-Answers (record a { pending = erase i a.pending }) i c t fails registered checked)
]

transient : Disambiguation → ProbeOutcome
transient path = record {
  outcome_class = OutcomeClass.error_transient;
  denial_attribution = none;
  disambiguation_path = path;
}

decide_outcome-Answers :
    (a : FakeProviderAdapter) (fault : Bool) (i : IdentityId) (c : Capability) (t : ℕ)
    (fails : Bool)
    → is_registered a.engine i ≡ true
    → precondition_fails a i c ≡ ok fails
    → Answers (decide_outcome a fault i c t).0
unfolding decide_outcome probe_outcome transient
decide_outcome-Answers a fault i c t fails registered checked = elim (Bool-cases (is_throttled a)) [
  | inl e ↦ (transient Disambiguation.fault_injection_throttle, rw (decide_outcome, e) refl)
  | inr e ↦ elim (Bool-cases fault) [
    | inl f ↦ (transient Disambiguation.fault_injection_transient, rw (decide_outcome, e, f) refl)
    | inr f ↦ elim (Bool-cases (session_is_dead a i t)) [
      | inl dead ↦ (revoked_outcome, rw f (ap (λ r. r.0) (decide_outcome-dead a i c t e dead)))
      | inr alive ↦ elim (Option-cases (cached_snapshot a i)) [
        | inl n ↦
            let (x, answered) = drop_settled-Answers a i c t fails registered checked in
            (x, rw (decide_outcome, e, f, alive, n) answered)
        | inr ((allow, deny), h) ↦
            let o = evaluate_against allow deny c.id (session_allow_of a i) none in
            (
              packaged fails c o allow (session_allow_of a i),
              rw (decide_outcome, e, f, alive, h)
                  (packaged_outcome-packaged a i c o allow fails checked),
            )
      ]
    ]
  ]
]

-- In every state that is reached from a sound one, such as an adapter as constructed, a probe whose
-- reference and target are in the namespace, of a known reference, for a capability of the catalog
-- whose preconditions all have a verifier, answers: it raises nothing, whatever mutations,
-- revocations and delegations came before and whatever was drawn for them, whether it is throttled
-- or meets a fault, and with the instant of its start.
pub probe_answers :
    (start a : FakeProviderAdapter)
    → IsSound start
    → Reach start a
    → (fault : Bool) (r : ProbeRequest) (c : Capability) (i : IdentityId) (fails : Bool)
    → check_namespaces a r ≡ ok tt
    → get a.config.catalog r.capability_id ≡ ok c
    → lookup_text r.identity_ref a.ref_to_identity_id ≡ some i
    → precondition_fails a i c ≡ ok fails
    → (result : ProbeResult) × ((probe a fault r).0 ≡ ok result)
      × (result.monotonic_start_ns ≡ a.now_ms * 1000000)
unfolding probe
probe_answers start a sound path fault r c i fails named found known checked =
    let counted = record a { call_count = suc a.call_count } in
    let s = Reach-IsSound start a path sound in
    let (outcome, decided) =
      decide_outcome-Answers counted fault i c a.now_ms fails (s.known r.identity_ref i known)
        checked in
    let guard =
      (guarded_lem r.binding r.binding.actions (decide_outcome counted fault i c a.now_ms).0).0
        (λ op m. m) in
    (
      record {
        outcome = outcome;
        monotonic_start_ns = a.now_ms * 1000000;
        monotonic_end_ns = a.now_ms * 1000000;
        wall_start_ms = a.now_ms;
      },
      rw (probe, named, found, known, guard, decided) refl,
      refl,
    )
