-- ===== src/Providers/Fake/Engine/Mutation.antt =====
-- What a policy mutation changes in the outcomes, and what it leaves alone.
use chainbreak.Common.{
  ◌≡◌, inl, inr, refl, sym, ap, ◌∙◌, ==_iff, Bool-cases, true, false, Option, arith, ◌==◌, mem,
}
use chainbreak.Common.Dict.{insert, lookup-insert}
use chainbreak.Core.Authority.{AuthoritySet, CapabilityId, union, diff}
use chainbreak.Core.Authority.Algebra.{mem-union, mem-diff}
use chainbreak.Core.Enums.{OutcomeClass}
use chainbreak.Core.Errors.{ok, ◌>>=◌}
use chainbreak.Core.Models.{IdentityId}
use chainbreak.Providers.Fake.Engine.{
  PolicyEngine, IdentityPolicyState, state_of, update_state, apply_deny, remove_deny, evaluate,
  evaluate_against,
}
use chainbreak.Providers.Fake.Engine.Evaluation.{evaluate_against_order}

-- The engine after a change of one identity's state: that state is changed, the others are not.
update_state-frame :
    (engine : PolicyEngine) (i : IdentityId) (s : IdentityPolicyState)
    (change : IdentityPolicyState → IdentityPolicyState)
    → state_of engine i ≡ ok s
    → (update_state engine i change ≡ ok (insert i (change s) engine))
      × (state_of (insert i (change s) engine) i ≡ ok (change s))
      × ((j : IdentityId)
          → (j == i) ≡ false
          → state_of (insert i (change s) engine) j ≡ state_of engine j)
unfolding update_state state_of
update_state-frame engine i s change h = (
  rw h refl,
  ground (arith, lookup-insert i i (change s) engine),
  λ j ne. ground (arith, lookup-insert j i (change s) engine, ne),
)

-- The evaluation of a request goes by the state of its identity.
evaluate-state :
    (engine : PolicyEngine) (i : IdentityId) (s : IdentityPolicyState) (c : CapabilityId)
    (session resource : Option AuthoritySet)
    → state_of engine i ≡ ok s
    → evaluate engine i c session resource ≡ ok (evaluate_against s.allow s.deny c session resource)
unfolding evaluate
evaluate-state engine i s c session resource h = rw h refl

evaluate-other :
    (engine engine' : PolicyEngine) (j : IdentityId) (c : CapabilityId)
    (session resource : Option AuthoritySet)
    → state_of engine' j ≡ state_of engine j
    → evaluate engine' j c session resource ≡ evaluate engine j c session resource
unfolding evaluate
evaluate-other engine engine' j c session resource h = rw h refl

with_deny :
    (allow deny deny' : AuthoritySet) (c : CapabilityId) (session resource : Option AuthoritySet)
    → mem c deny' ≡ mem c deny
    → evaluate_against allow deny' c session resource
      ≡ evaluate_against allow deny c session resource
unfolding evaluate_against
with_deny allow deny deny' c session resource h = rw h refl

-- Attaching a denial to a registered identity succeeds. From then on each denied capability is
-- denied explicitly to that identity, whatever its session or a resource policy grants; its other
-- capabilities, and the other identities, are evaluated as before.
apply_deny_effect :
    (engine : PolicyEngine) (i : IdentityId) (s : IdentityPolicyState) (caps : AuthoritySet)
    → state_of engine i ≡ ok s
    → (engine' : PolicyEngine) × (apply_deny engine i caps ≡ ok engine')
      × ((c : CapabilityId) (session resource : Option AuthoritySet)
          → (mem c caps ≡ true
              → evaluate engine' i c session resource ≡ ok OutcomeClass.denied_explicit)
            × (mem c caps ≡ false
                → evaluate engine' i c session resource ≡ evaluate engine i c session resource)
            × ((j : IdentityId)
                → (j == i) ≡ false
                → evaluate engine' j c session resource ≡ evaluate engine j c session resource))
unfolding apply_deny
apply_deny_effect engine i s caps h =
    let change : IdentityPolicyState → IdentityPolicyState =
      λ s. record { allow = s.allow; deny = union s.deny caps } in
    let engine' = insert i (change s) engine in
    let (made, changed, frame) = update_state-frame engine i s change h in
    (
      engine',
      made,
      λ c session resource.
          let after = evaluate-state engine' i (change s) c session resource changed in
          let member = mem-union c s.deny caps in
          (
            λ m.
                after
                ∙ ap ok (
                    (evaluate_against_order s.allow (union s.deny caps) c session resource).0.1
                      (ground (arith, m, member))),
            λ m.
                after
                ∙ ap ok (
                    with_deny s.allow s.deny (union s.deny caps) c session resource
                      (ground (arith, m, member)))
                ∙ sym (evaluate-state engine i s c session resource h),
            λ j ne. evaluate-other engine engine' j c session resource (frame j ne),
          ),
    )

-- Detaching a denial that was just attached, where none of its capabilities was denied before,
-- gives back every evaluation: the two mutations cancel.
pub remove_deny-apply_deny :
    (engine : PolicyEngine) (i : IdentityId) (s : IdentityPolicyState) (caps : AuthoritySet)
    → state_of engine i ≡ ok s
    → ((c : CapabilityId) → mem c caps ≡ true → mem c s.deny ≡ false)
    → (engine' : PolicyEngine) × ((apply_deny engine i caps >>= λ e. remove_deny e i caps)
        ≡ ok engine')
      × ((j : IdentityId) (c : CapabilityId) (session resource : Option AuthoritySet)
          → evaluate engine' j c session resource ≡ evaluate engine j c session resource)
unfolding apply_deny remove_deny
remove_deny-apply_deny engine i s caps h apart =
    let attach : IdentityPolicyState → IdentityPolicyState =
      λ s. record { allow = s.allow; deny = union s.deny caps } in
    let detach : IdentityPolicyState → IdentityPolicyState =
      λ s. record { allow = s.allow; deny = diff s.deny caps } in
    let middle = insert i (attach s) engine in
    let last = insert i (detach (attach s)) middle in
    let (made, attached, frame) = update_state-frame engine i s attach h in
    let (made', detached, frame') = update_state-frame middle i (attach s) detach attached in
    (
      last,
      rw made made',
      λ j c session resource. elim (Bool-cases (j == i)) [
        | inl e ↦
            let same : j ≡ i = (==_iff j i).0 e in
            rw same (
              evaluate-state last i (detach (attach s)) c session resource detached
              ∙ ap ok (
                  with_deny s.allow s.deny (diff (union s.deny caps) caps) c session resource (
                    ground (
                      arith,
                      mem-diff c (union s.deny caps) caps,
                      mem-union c s.deny caps,
                      apart c,
                    )))
              ∙ sym (evaluate-state engine i s c session resource h))
        | inr ne ↦ evaluate-other engine last j c session resource (frame' j ne ∙ frame j ne)
      ],
    )
