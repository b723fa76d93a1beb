-- ===== src/Providers/Fake/Engine/Evaluation.antt =====
-- The order of evaluation: an explicit denial wins, a session narrows, a resource policy grants
-- across.
use chainbreak.Common.{
  ◌≡◌, ◌↔◌, refl, Bool, true, false, ◌&&◌, ◌||◌, Option, none, some, arith, mem,
}
use chainbreak.Core.Authority.{AuthoritySet, CapabilityId, inter}
use chainbreak.Core.Authority.Algebra.{mem-inter, mem-union}
use chainbreak.Core.Enums.{OutcomeClass}
use chainbreak.Providers.Fake.Engine.{effective_allow, evaluate_against}

-- What a policy that may be absent says of a capability: `b` where there is none.
abbrev pub in_policy : Bool → Option AuthoritySet → CapabilityId → Bool
in_policy b none c = b
in_policy b (some s) c = mem c s

mem-effective_allow :
    (c : CapabilityId) (allow : AuthoritySet) (session resource : Option AuthoritySet)
    → mem c (effective_allow allow session resource)
      ≡ (mem c allow && in_policy true session c || in_policy false resource c)
unfolding effective_allow
mem-effective_allow c allow none none = by_cases (mem c allow)
  where
    by_cases : (b : Bool) → b ≡ (b && true || false)
    by_cases true = refl
    by_cases false = refl
mem-effective_allow c allow none (some r) = ground (arith, mem-union c allow r)
mem-effective_allow c allow (some s) none = ground (arith, mem-inter c allow s)
mem-effective_allow c allow (some s) (some r) =
    ground (arith, mem-union c (inter allow s) r, mem-inter c allow s)

-- The outcome of every request: denied explicitly exactly when the capability is on the deny list;
-- else allowed exactly when the resource policy grants it, or the identity policy does and the
-- session policy, where there is one, does too; else denied implicitly.
pub evaluate_against_order :
    (allow deny : AuthoritySet) (c : CapabilityId) (session resource : Option AuthoritySet)
    → ((evaluate_against allow deny c session resource ≡ OutcomeClass.denied_explicit)
        ↔ (mem c deny ≡ true))
      × ((evaluate_against allow deny c session resource ≡ OutcomeClass.allowed) ↔ (
          (mem c deny ≡ false)
          × ((mem c allow && in_policy true session c || in_policy false resource c) ≡ true)))
      × ((evaluate_against allow deny c session resource ≡ OutcomeClass.denied_implicit) ↔ (
          (mem c deny ≡ false)
          × ((mem c allow && in_policy true session c || in_policy false resource c) ≡ false)))
unfolding evaluate_against
evaluate_against_order allow deny c session resource =
    let e = mem-effective_allow c allow session resource in
    (ground (arith, e), ground (arith, e), ground (arith, e))

-- A session policy never grants: what is allowed under it is allowed without it.
evaluate_against_narrows :
    (allow deny scope : AuthoritySet) (c : CapabilityId) (resource : Option AuthoritySet)
    → evaluate_against allow deny c (some scope) resource ≡ OutcomeClass.allowed
    → evaluate_against allow deny c none resource ≡ OutcomeClass.allowed
evaluate_against_narrows allow deny scope c resource h =
    let (_, with_session, _) = evaluate_against_order allow deny c (some scope) resource in
    let (_, without, _) = evaluate_against_order allow deny c none resource in
    let (undenied, granted) = with_session.0 h in without.1 (undenied, ground (arith, granted))
