-- ===== src/Providers/Fake/Adapter/Delegated.antt =====
-- A delegation followed by probes of its target: the two operations composed.
use chainbreak.Common.{
  ℕ, ◌≤◌, ◌<◌, ◌≡◌, refl, ap, ◌∙◌, Bool, false, not, ◌&&◌, ◌||◌, [], none, some, mem, arith,
  if◌then◌else◌, Bool-cases, inl, inr,
}
use chainbreak.Common.Dict.{lookup}
use chainbreak.Core.Authority.{AuthoritySet, union}
use chainbreak.Core.Authority.Algebra.{mem-union}
use chainbreak.Core.Capabilities.{Capability}
use chainbreak.Core.Credentials.{CredentialRecord}
use chainbreak.Core.Enums.{OutcomeClass}
use chainbreak.Core.Errors.{Result, ok, ◌>>=◌}
use chainbreak.Core.Models.{IdentityId}
use chainbreak.Providers.Fake.Engine.{IdentityPolicyState, evaluate_against}
use chainbreak.Providers.Fake.Engine.Evaluation.{evaluate_against_order}
use chainbreak.Providers.Fake.Probes.{
  ProbeOutcome, Disambiguation, build_fake_preconditions, a_precondition_fails,
}
use chainbreak.Providers.Fake.Probes.Overrides.{packaged, build_probe_outcome-packaged}
use chainbreak.Providers.Fake.Adapter.{FakeProviderAdapter, make_ref, negative_control_grant}
use chainbreak.Providers.Fake.Adapter.Delegate.{
  DelegationRequest, DelegationResult, check_request, scopes_session, delegate, register_target,
  record_credential,
}
use chainbreak.Providers.Fake.Adapter.Issued.{IsIssued, target_policy, delegated, delegate-IsIssued}
use chainbreak.Providers.Fake.Adapter.Probe.{
  is_throttled, session_allow_of, cached_snapshot, drop_settled, hidden_transition,
  packaged_outcome, decide_live, decide_outcome,
}
use chainbreak.Providers.Fake.Adapter.Sees.{
  decided_by, IsUndisturbed, revoked_outcome, decide_outcome-live, decide_outcome-dead,
  decide_live-settled,
}
use chainbreak.Providers.Fake.Session.Lifetime.{IsNumbered}

-- Whether a precondition of the capability fails, by the markers of the adapter.
abbrev pub precondition_fails : FakeProviderAdapter → IdentityId → Capability → Result Bool
precondition_fails a i c = build_fake_preconditions a.markers >>= λ preconditions.
    a_precondition_fails preconditions c.requires_precondition (make_ref a.config i)

pub packaged_outcome-packaged :
    (a : FakeProviderAdapter) (i : IdentityId) (c : Capability) (o : OutcomeClass)
    (allow : AuthoritySet) (fails : Bool)
    → precondition_fails a i c ≡ ok fails
    → packaged_outcome a i c o allow ≡ ok (packaged fails c o allow (session_allow_of a i))
unfolding packaged_outcome build_fake_preconditions
packaged_outcome-packaged a i c o allow fails h =
    build_probe_outcome-packaged _ (make_ref a.config i) c o allow (session_allow_of a i) fails h

-- A probe that the policy decides, of a capability that is not a control and whose preconditions
-- hold.
pub decided_by-class :
    (a : FakeProviderAdapter) (i : IdentityId) (c : Capability) (p : IdentityPolicyState)
    → precondition_fails a i c ≡ ok false
    → c.is_control ≡ false
    → (outcome : ProbeOutcome) × (decided_by a i c p ≡ ok outcome)
      × (outcome.outcome_class ≡ evaluate_against p.allow p.deny c.id (session_allow_of a i) none)
unfolding packaged
decided_by-class a i c p holds plain =
    let o = evaluate_against p.allow p.deny c.id (session_allow_of a i) none in
    (
      packaged false c o p.allow (session_allow_of a i),
      packaged_outcome-packaged a i c o p.allow false holds,
      rw plain refl,
    )

-- Without a transition of the target, the policy in force decides.
pub decide_outcome-quiet :
    (a : FakeProviderAdapter) (i : IdentityId) (c : Capability) (t : ℕ) (s : IdentityPolicyState)
    → IsUndisturbed a i t
    → lookup i a.engine ≡ some s
    → lookup i a.pending ≡ none
    → decide_outcome a false i c t ≡ (decided_by a i c s, a)
unfolding drop_settled hidden_transition
decide_outcome-quiet a i c t s u known quiet =
    let same : drop_settled a i t ≡ a = rw (drop_settled, quiet) refl in
    decide_outcome-live a i c t u
    ∙ ap (λ b. (decide_live b i c t, b)) same
    ∙ ap (λ o. (o, a)) (decide_live-settled a i c t s known (rw (hidden_transition, quiet) refl))

issued-IsUndisturbed :
    (a : FakeProviderAdapter) (r : DelegationRequest) (p : IdentityPolicyState)
    (c : CredentialRecord) (t : ℕ)
    → IsIssued a r p c
    → is_throttled a ≡ false
    → mem r.target_identity_id a.authority_cached_identities ≡ false
    → t < c.expires_at
    → IsUndisturbed a r.target_identity_id t
unfolding cached_snapshot
issued-IsUndisturbed a r p c t issued calm uncached before = record {
  calm = calm;
  alive = ground (arith, issued.lives t);
  live = rw (cached_snapshot, issued.current, uncached) refl;
}

-- What the target of a fresh delegation is granted.
abbrev pub grants : FakeProviderAdapter → DelegationRequest → Capability → Bool
grants a r c =
    mem c.id r.intended_capabilities
    || (not (scopes_session r.mechanism)
        && mem c.id (negative_control_grant a.config r.target_provider_binding))

fresh_class :
    (intended extra : AuthoritySet) (scoped : Bool) (c : ℕ)
    → evaluate_against (union intended extra) [] c (if scoped then some intended else none) none ≡ (
        if mem c intended || (not scoped && mem c extra)
        then OutcomeClass.allowed
        else OutcomeClass.denied_implicit)
fresh_class intended extra scoped c =
    let (_, allowed, denied) =
      evaluate_against_order (union intended extra) [] c (if scoped then some intended else none)
        none in
    elim (Bool-cases scoped) [
      | inl e ↦
          rw e (ground (arith, (rw e at allowed), (rw e at denied), mem-union c intended extra))
      | inr e ↦
          rw e (ground (arith, (rw e at allowed), (rw e at denied), mem-union c intended extra))
    ]

-- A target that nobody registered before is delegated to, as the delegation requires, and its
-- session probed while it lives, with no throttling, no injected fault, no transition of the target
-- and no frozen policy. For a capability whose preconditions hold and that is not a control, the probe is
-- allowed exactly where the delegation intended the capability, or the mechanism does not scope the
-- session and the binding grants it beside; else it is denied implicitly. Once the credential has
-- expired, every probe is denied as that of a dead session. Neither probe changes the provider.
pub delegate_then_decide :
    (a : FakeProviderAdapter) (r : DelegationRequest)
    → IsNumbered a.sessions
    → check_request a r ≡ ok tt
    → 0 < r.requested_duration_s
    → 0 < a.sessions.max_session_duration_s
    → lookup r.target_identity_id a.engine ≡ none
    → lookup r.target_identity_id a.pending ≡ none
    → mem r.target_identity_id a.authority_cached_identities ≡ false
    → is_throttled a ≡ false
    → (result : DelegationResult) × (after : FakeProviderAdapter) × (delegate a r
        ≡ (ok result, after))
      × ((c : Capability) (t : ℕ)
          → (t < result.credential.expires_at
              → precondition_fails a r.target_identity_id c ≡ ok false
              → c.is_control ≡ false
              → (outcome : ProbeOutcome) × (decide_outcome after false r.target_identity_id c t
                  ≡ (ok outcome, after))
                × (outcome.outcome_class ≡ (
                    if grants a r c then OutcomeClass.allowed else OutcomeClass.denied_implicit)))
            × (result.credential.expires_at ≤ t
                → (outcome : ProbeOutcome) × (decide_outcome after false r.target_identity_id c t
                    ≡ (ok outcome, after))
                  × (outcome.outcome_class ≡ OutcomeClass.denied_implicit)
                  × (outcome.disambiguation_path ≡ Disambiguation.session_revoked)))
unfolding register_target record_credential is_throttled
delegate_then_decide a r numbered checked requested maximal fresh quiet uncached calm =
    let i = r.target_identity_id in
    let p = target_policy a r in
    let extra = negative_control_grant a.config r.target_provider_binding in
    let fresh_p : p ≡ record { allow = union r.intended_capabilities extra; deny = [] } =
      rw (target_policy, fresh) refl in
    let (credential, made, _, issued, _) =
      delegate-IsIssued a r numbered checked requested maximal in
    let after = delegated a r credential in
    (
      record { identity_ref = make_ref a.config i; credential = credential },
      after,
      made,
      λ c t. (
        λ before holds plain.
            let u = issued-IsUndisturbed after r p credential t issued calm uncached before in
            let (outcome, decided, class) = decided_by-class after i c p holds plain in
            (
              outcome,
              decide_outcome-quiet after i c t p u issued.policy quiet
                  ∙ ap (λ o. (o, after)) decided,
              class
                  ∙ rw (issued.scoped, fresh_p)
                      (fresh_class r.intended_capabilities extra (scopes_session r.mechanism) c.id),
            ),
        λ expired. (
          revoked_outcome,
          decide_outcome-dead after i c t calm (ground (arith, issued.lives t)),
          refl,
          refl,
        ),
      ),
    )
