-- ===== src/Providers/Fake/Engine.antt =====
-- src/chainbreak/providers/fake/engine.py: the policies of the identities and their evaluation.
pub mod Evaluation
pub mod Mutation
use chainbreak.Common.{ℕ, Bool, Option, none, some, if◌then◌else◌, is_some}
use chainbreak.Common.Dict.{Dict, lookup, insert}
use chainbreak.Core.Authority.{
  AuthoritySet, CapabilityId, empty_authority, contains, diff, inter, union,
}
use chainbreak.Core.Enums.{OutcomeClass}
use chainbreak.Core.Errors.{Result, ok, err, or_raise, key_error, ◌>>=◌}
use chainbreak.Core.Models.{IdentityId}

pub record IdentityPolicyState : Type 0 where
  pub allow : AuthoritySet
  pub deny : AuthoritySet

-- `identity_policies`
abbrev pub PolicyEngine : Type 0
PolicyEngine = Dict IdentityPolicyState

unfoldable pub register_identity : PolicyEngine → IdentityId → AuthoritySet → PolicyEngine
register_identity engine identity_id allow =
    insert identity_id (record { allow = allow; deny = empty_authority }) engine

-- `_state`
unfoldable pub state_of : PolicyEngine → IdentityId → Result IdentityPolicyState
state_of engine identity_id = or_raise (lookup identity_id engine) key_error

unfoldable pub is_registered : PolicyEngine → IdentityId → Bool
is_registered engine identity_id = is_some (lookup identity_id engine)

unfoldable pub effective_allow :
    AuthoritySet → Option AuthoritySet → Option AuthoritySet → AuthoritySet
effective_allow allow session_allow resource_allow =
    let narrowed : AuthoritySet = elim session_allow [ none ↦ allow | some s ↦ inter allow s ] in
    elim resource_allow [ none ↦ narrowed | some r ↦ union narrowed r ]

unfoldable pub evaluate_against :
    (allow deny : AuthoritySet) (capability_id : CapabilityId)
    (session_allow resource_allow : Option AuthoritySet)
    → OutcomeClass
evaluate_against allow deny capability_id session_allow resource_allow =
    if contains deny capability_id
    then OutcomeClass.denied_explicit
    else if contains (effective_allow allow session_allow resource_allow) capability_id
    then OutcomeClass.allowed
    else OutcomeClass.denied_implicit

unfoldable pub evaluate :
    PolicyEngine
    → IdentityId
    → CapabilityId
    → Option AuthoritySet
    → Option AuthoritySet
    → Result OutcomeClass
unfolding state_of
evaluate engine identity_id capability_id session_allow resource_allow = do
  state ← state_of engine identity_id
  ok (evaluate_against state.allow state.deny capability_id session_allow resource_allow)

-- A change of the state of one identity, in place.
unfoldable pub update_state :
    PolicyEngine → IdentityId → (IdentityPolicyState → IdentityPolicyState) → Result PolicyEngine
unfolding state_of
update_state engine identity_id change = do
  state ← state_of engine identity_id
  ok (insert identity_id (change state) engine)

unfoldable pub apply_deny : PolicyEngine → IdentityId → AuthoritySet → Result PolicyEngine
unfolding update_state
apply_deny engine identity_id capabilities =
    update_state engine identity_id
      λ s. record { allow = s.allow; deny = union s.deny capabilities }

unfoldable pub remove_deny : PolicyEngine → IdentityId → AuthoritySet → Result PolicyEngine
unfolding update_state
remove_deny engine identity_id capabilities =
    update_state engine identity_id λ s. record { allow = s.allow; deny = diff s.deny capabilities }

unfoldable pub apply_allow : PolicyEngine → IdentityId → AuthoritySet → Result PolicyEngine
unfolding update_state
apply_allow engine identity_id capabilities =
    update_state engine identity_id
      λ s. record { allow = union s.allow capabilities; deny = s.deny }

unfoldable pub remove_allow : PolicyEngine → IdentityId → AuthoritySet → Result PolicyEngine
unfolding update_state
remove_allow engine identity_id capabilities =
    update_state engine identity_id λ s. record { allow = diff s.allow capabilities; deny = s.deny }

unfoldable pub replace : PolicyEngine → IdentityId → (allow deny : AuthoritySet) → PolicyEngine
replace engine identity_id allow deny =
    insert identity_id (record { allow = allow; deny = deny }) engine
