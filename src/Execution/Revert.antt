-- ===== src/Execution/Revert.antt =====
-- src/chainbreak/execution/mutation.py and revert.py, on the simulated provider: a policy change, and
-- the restoring of what it changed. Event identifiers and texts are left out.
pub mod Restores
use chainbreak.Common.{
  ℕ, Bool, true, false, not, ◌&&◌, List, [], ◌∷◌, Option, none, some, mem, if◌then◌else◌,
}
use chainbreak.Common.Int.{ℤ}
use chainbreak.Core.Authority.{AuthoritySet, sorted}
use chainbreak.Core.Enums.{MutationKind}
use chainbreak.Core.Errors.{
  Result, ok, err, raise_if, execution_error, mutation_not_confirmed_error, ◌>>=◌, ◌>>◌,
}
use chainbreak.Core.Graph.Validation.{AuthorizationGraph, node}
use chainbreak.Core.Models.{IdentityId}
use chainbreak.Providers.Fake.Adapter.{
  FakeProviderAdapter, restore_declared_policy, restore_trust_policy,
}
use chainbreak.Providers.Fake.Adapter.Mutate.{
  PolicyMutation, MutationReceipt, apply_policy_mutation,
}

-- `MutationPlan` (src/chainbreak/core/models.py)
pub record MutationPlan : Type 0 where
  pub target_identity : IdentityId
  pub kind : MutationKind
  pub denies_capabilities : AuthoritySet
  pub grants_capabilities : AuthoritySet
  pub record_receipt : Bool

-- The event POLICY_MUTATION_APPLIED.
pub record MutationEvent : Type 0 where
  pub sequence : ℕ
  pub mutation_kind : MutationKind
  pub target_identity : IdentityId
  pub denies_capabilities : List ℕ
  pub grants_capabilities : List ℕ
  pub monotonic_ns : ℕ
  pub confirmed : Bool

unfoldable pub mutation_of : MutationPlan → PolicyMutation
mutation_of plan = record {
  kind = plan.kind;
  target_identity = plan.target_identity;
  denies_capabilities = plan.denies_capabilities;
  grants_capabilities = plan.grants_capabilities;
}

-- `apply_mutation`; the identities of `materialized.refs` are a list.
unfoldable pub apply_mutation :
    (jitter : ℤ) (randint : ℕ → ℕ → ℕ)
    → FakeProviderAdapter
    → (materialized : List IdentityId) → MutationPlan
    → (sequence : ℕ) → Result (MutationEvent × FakeProviderAdapter)
apply_mutation jitter randint adapter materialized plan sequence = do
  raise_if (not (mem plan.target_identity materialized)) execution_error
  (receipt, applied) ← apply_policy_mutation jitter randint adapter (mutation_of plan)
  raise_if (plan.record_receipt && not receipt.confirmed) mutation_not_confirmed_error
  ok (
    record {
      sequence = sequence;
      mutation_kind = plan.kind;
      target_identity = plan.target_identity;
      denies_capabilities = sorted plan.denies_capabilities;
      grants_capabilities = sorted plan.grants_capabilities;
      monotonic_ns = receipt.monotonic_sent_ns;
      confirmed = receipt.confirmed;
    },
    applied,
  )

-- `RevertPlan`, without the text of its action.
pub record RevertPlan : Type 0 where
  pub target_identity : IdentityId
  pub mutation_kind : MutationKind
  pub declared_capabilities : AuthoritySet
  pub actionable : Bool

-- `mutation_kind in _LIVE_STATE_KINDS`
unfoldable pub is_live_state : MutationKind → Bool
is_live_state MutationKind.attach_inline_deny = true
is_live_state MutationKind.remove_inline_policy = true
is_live_state MutationKind.replace_inline_policy = true
is_live_state _ = false

-- The kinds for which `build_revert_plan` names an action.
unfoldable pub is_actionable : MutationKind → Bool
is_actionable MutationKind.revoke_older_sessions = true
is_actionable MutationKind.update_trust_policy = true
is_actionable kind = is_live_state kind

unfoldable pub build_revert_plan :
    AuthorizationGraph → IdentityId → MutationKind → Result RevertPlan
build_revert_plan graph target_identity mutation_kind = do
  target ← node graph target_identity
  ok (record {
    target_identity = target_identity;
    mutation_kind = mutation_kind;
    declared_capabilities = target.expected_authority.capabilities;
    actionable = is_actionable mutation_kind;
  })

-- The event MUTATION_REVERTED.
pub record RevertEvent : Type 0 where
  pub sequence : ℕ
  pub target_identity : IdentityId
  pub original_mutation_kind : MutationKind

-- `revert_mutation`, on an adapter that has both of the restoring calls.
unfoldable pub revert_mutation :
    FakeProviderAdapter → RevertPlan → (sequence : ℕ) → Option RevertEvent × FakeProviderAdapter
revert_mutation adapter plan sequence =
    let event : RevertEvent = record {
      sequence = sequence;
      target_identity = plan.target_identity;
      original_mutation_kind = plan.mutation_kind;
    } in
    let declared =
      restore_declared_policy adapter plan.target_identity plan.declared_capabilities in
    if not plan.actionable then (none, adapter) else elim plan.mutation_kind [
      | MutationKind.update_trust_policy ↦
          (some event, restore_trust_policy adapter plan.target_identity)
      | _ ↦ (some event, declared)
    ]
