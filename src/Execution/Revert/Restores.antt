-- ===== src/Execution/Revert/Restores.antt =====
-- A mutation and its reversion, one after the other.
use chainbreak.Common.{
  ℕ, ◌*◌, ◌≤◌, ◌<◌, ◌≡◌, refl, ap, ◌∙◌, Bool, true, false, List, [], some, mem, ◌==◌, if◌then◌else◌,
  Bool-cases, inl, inr,
}
use chainbreak.Common.Dict.{lookup, lookup-insert_same, lookup-insert_other}
use chainbreak.Common.Int.{ℤ}
use chainbreak.Core.Authority.{sorted}
use chainbreak.Core.Capabilities.{Capability}
use chainbreak.Core.Enums.{MutationKind}
use chainbreak.Core.Errors.{ok}
use chainbreak.Core.Graph.Validation.{AuthorizationGraph, node}
use chainbreak.Core.Models.{IdentityId, IdentityNode}
use chainbreak.Providers.Fake.Consistency.{is_visible, schedule}
use chainbreak.Providers.Fake.Consistency.Visibility.{is_visible_phases, schedule-IsOrdered}
use chainbreak.Providers.Fake.Engine.{PolicyEngine, IdentityPolicyState, replace}
use chainbreak.Providers.Fake.Adapter.{FakeProviderAdapter, restore_declared_policy}
use chainbreak.Providers.Fake.Adapter.Effects.{mutated, policy_of, apply_policy_mutation_effect}
use chainbreak.Providers.Fake.Adapter.Probe.{decide_outcome}
use chainbreak.Providers.Fake.Adapter.Sees.{IsUndisturbed, decided_by, decide_outcome-pending}
use chainbreak.Execution.Revert.{
  MutationPlan, MutationEvent, mutation_of, apply_mutation, RevertPlan, RevertEvent, is_live_state,
  is_actionable, build_revert_plan, revert_mutation,
}

abbrev pub declared_policy : IdentityNode → IdentityPolicyState
declared_policy n = record { allow = n.expected_authority.capabilities; deny = [] }

-- The policy of the target after the reversion of a mutation: the declared one, where the kind is
-- one that changes what a live session may do, or revokes sessions.
abbrev pub restores_declared : MutationKind → Bool
restores_declared MutationKind.update_trust_policy = false
restores_declared kind = is_actionable kind

plan_for : IdentityId → IdentityNode → MutationKind → RevertPlan
plan_for i n kind = record {
  target_identity = i;
  mutation_kind = kind;
  declared_capabilities = n.expected_authority.capabilities;
  actionable = is_actionable kind;
}

revert_declared :
    (a : FakeProviderAdapter) (i : IdentityId) (n : IdentityNode) (sequence : ℕ)
    (kind : MutationKind)
    → restores_declared kind ≡ true
    → (event : RevertEvent) × (revert_mutation a (plan_for i n kind) sequence
        ≡ (some event, restore_declared_policy a i n.expected_authority.capabilities))
unfolding revert_mutation is_actionable is_live_state plan_for
revert_declared a i n sequence MutationKind.attach_inline_deny h = (_, refl)
revert_declared a i n sequence MutationKind.remove_inline_policy h = (_, refl)
revert_declared a i n sequence MutationKind.replace_inline_policy h = (_, refl)
revert_declared a i n sequence MutationKind.revoke_older_sessions h = (_, refl)
revert_declared a i n sequence MutationKind.update_trust_policy h = cc
revert_declared a i n sequence MutationKind.delete_session_policy_scope h = cc

apply_mutation-mutated :
    (jitter : ℤ) (randint : ℕ → ℕ → ℕ) (a : FakeProviderAdapter) (materialized : List IdentityId)
    (plan : MutationPlan) (sequence : ℕ)
    → mem plan.target_identity materialized ≡ true
    → mem plan.target_identity a.config.protected_identities ≡ false
    → (event : MutationEvent) × (engine : PolicyEngine) × (apply_mutation jitter randint a
          materialized plan sequence
        ≡ ok (event, mutated jitter randint a (mutation_of plan) engine))
      × (event.monotonic_ns ≡ a.now_ms * 1000000)
      × ((j : IdentityId)
          → (j == plan.target_identity) ≡ false
          → lookup j engine ≡ lookup j a.engine)
unfolding apply_mutation mutation_of
apply_mutation-mutated jitter randint a materialized plan sequence known allowed =
    let (engine, made, _, other) =
      (apply_policy_mutation_effect jitter randint a (mutation_of plan)).1 allowed in
    (
      record {
        sequence = sequence;
        mutation_kind = plan.kind;
        target_identity = plan.target_identity;
        denies_capabilities = sorted plan.denies_capabilities;
        grants_capabilities = sorted plan.grants_capabilities;
        monotonic_ns = a.now_ms * 1000000;
        confirmed = true;
      },
      engine,
      rw (apply_mutation, known, made)
          (elim (Bool-cases plan.record_receipt) [ inl e ↦ rw e refl | inr e ↦ rw e refl ]),
      refl,
      other,
    )

-- A mutation of a materialized identity that is not protected, of a kind that changes what a live
-- session may do or revokes sessions, followed by its reversion: both succeed. The event of the
-- mutation has the instant of its sending. After the reversion the engine gives the target exactly
-- its declared capabilities and no denial, and every other identity the policy that it had before
-- the mutation. A probe of the target that nothing else disturbs, at an instant from the settling of
-- the mutation on, is decided by the declared policy.
pub revert_mutation_restores :
    (jitter : ℤ) (randint : ℕ → ℕ → ℕ)
    → ((i top : ℕ) → 0 < top → (1 ≤ randint i top) × (randint i top ≤ top))
    → (a : FakeProviderAdapter) (materialized : List IdentityId) (plan : MutationPlan)
      (graph : AuthorizationGraph) (n : IdentityNode) (sequence later : ℕ)
    → node graph plan.target_identity ≡ ok n
    → mem plan.target_identity materialized ≡ true
    → mem plan.target_identity a.config.protected_identities ≡ false
    → restores_declared plan.kind ≡ true
    → (event : MutationEvent) × (after : FakeProviderAdapter) × (revert : RevertPlan)
      × (done : RevertEvent) × (reverted : FakeProviderAdapter) × (apply_mutation jitter randint a
            materialized plan sequence
          ≡ ok (event, after))
      × (event.monotonic_ns ≡ a.now_ms * 1000000)
      × (build_revert_plan graph plan.target_identity plan.kind ≡ ok revert)
      × (revert_mutation after revert later ≡ (some done, reverted))
      × (lookup plan.target_identity reverted.engine ≡ some (declared_policy n))
      × ((j : IdentityId)
          → (j == plan.target_identity) ≡ false
          → lookup j reverted.engine ≡ lookup j a.engine)
      × ((c : Capability) (t : ℕ)
          → (schedule jitter randint a.config.consistency a.now_ms).settle_at_ms ≤ t
          → IsUndisturbed reverted plan.target_identity t
          → (decide_outcome reverted false plan.target_identity c t).0
            ≡ decided_by reverted plan.target_identity c (declared_policy n))
unfolding build_revert_plan plan_for restore_declared_policy replace mutation_of
revert_mutation_restores jitter randint in_range a materialized plan graph n sequence later declared
      known allowed kind =
    let i = plan.target_identity in
    let v = schedule jitter randint a.config.consistency a.now_ms in
    let (event, engine, made, sent, other) =
      apply_mutation-mutated jitter randint a materialized plan sequence known allowed in
    let after = mutated jitter randint a (mutation_of plan) engine in
    let (done, reverting) = revert_declared after i n later plan.kind kind in
    let reverted = restore_declared_policy after i n.expected_authority.capabilities in
    let order = (schedule-IsOrdered randint in_range jitter a.config.consistency a.now_ms).0 in
    let p = declared_policy n in
    let held : lookup i reverted.engine ≡ some p = lookup-insert_same i p engine in
    (
      event,
      after,
      plan_for i n plan.kind,
      done,
      reverted,
      made,
      sent,
      rw (build_revert_plan, declared) refl,
      reverting,
      held,
      λ j ne. lookup-insert_other j i p engine ne ∙ other j ne,
      λ c t settled u.
          (let phases : (v.settle_at_ms ≤ t → is_visible v t ≡ true) =
              (is_visible_phases v t order.0 order.1).1 in
            let visible : is_visible v t ≡ true = phases settled in
            decide_outcome-pending reverted i c t p
              (record {
                pre_allow = (policy_of a.engine i).allow;
                pre_deny = (policy_of a.engine i).deny;
                visibility = v;
              })
              u held (lookup-insert_same i _ a.pending) (λ _. visible)
            ∙ ap (λ b. decided_by reverted i c (if b then p else policy_of a.engine i)) visible),
    )
