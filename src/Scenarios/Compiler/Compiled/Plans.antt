-- ===== src/Scenarios/Compiler/Compiled/Plans.antt =====
-- The plans and the policies of a compiled scenario.
use chainbreak.Common.{
  In-gather_some, ℕ, ◌≡◌, ◌↔◌, ◌≤◌, refl, sym, ap, ◌∙◌, ◌⊎◌, inl, inr, true, List, [], ◌∷◌, some,
  arith, ltb, mem, In, first_or_later,
}
use chainbreak.Common.Dict.{lookup, lookup-index_by}
use chainbreak.Core.Authority.{AuthoritySet, CapabilityId}
use chainbreak.Core.Capabilities.{CapabilityCatalog}
use chainbreak.Core.Enums.{PhaseKind}
use chainbreak.Core.Errors.{
  ok, ok_eq, or_raise, key_error, scenario_semantic_error, >>=-eq-ok, raise_if_then-eq-ok,
}
use chainbreak.Core.Errors.Collect.{collect-into}
use chainbreak.Core.Graph.Validation.{AuthorizationGraph}
use chainbreak.Core.Models.{IdentityId, DelegationEdge}
use chainbreak.Scenarios.Compiler.{synthesize_policy, policy_artifacts, index_edges}
use chainbreak.Scenarios.Compiler.Compiled.Matrices.{InUniverse, capability_universe_iff}
use chainbreak.Scenarios.Derivation.Calls.{or_raise-eq}
use chainbreak.Scenarios.Phases.{
  mutation_plan, build_mutation_plans, poll_plan, build_poll_plans, wait_plan, build_wait_plans,
  DeferredExecutionPlan, phase_deferred, build_deferred_execution_plans, phase_task,
  build_task_plans, index_tasks,
}
use chainbreak.Scenarios.Spec.{DelegationSpec, MutationSpec, PhaseSpec, ScenarioSpec, TaskSpec}
use chainbreak.Scenarios.Universe.{whoami, named_capabilities, capability_universe}

-- A deferred phase has its plan, which asks for the universe of its identity.
pub build_deferred_execution_plans-covers :
    (spec : ScenarioSpec) (graph : AuthorizationGraph) (catalog : CapabilityCatalog)
    (ps : List PhaseSpec) (ds : List DeferredExecutionPlan)
    → build_deferred_execution_plans spec graph catalog ps ≡ ok ds
    → (p : PhaseSpec) (i : IdentityId) (source : ℕ) → In p ps
    → p.kind ≡ PhaseKind.deferred_execution
    → p.target_identity ≡ some i
    → p.credential_source ≡ some source
    → (d : DeferredExecutionPlan) × In d ds
      × (d.phase_name ≡ p.name)
      × (d.target_identity ≡ i)
      × (d.credential_source ≡ source)
      × ((c : CapabilityId)
          → (mem c d.capabilities ≡ true)
            ↔ ((c ≡ whoami) ⊎ InUniverse spec.probe_universe spec graph catalog (i ∷ []) c))
unfolding build_deferred_execution_plans phase_deferred
build_deferred_execution_plans-covers spec graph catalog ps ds made p i source at kind target from =
    let (built, is_built, kept) =
      collect-into (phase_deferred spec graph catalog) ps ds made p at in
    let is_built' = rw (phase_deferred, kind, target, from) at is_built in
    let (s, universe, last) =
      >>=-eq-ok (capability_universe spec graph catalog (named_capabilities spec) (i ∷ [])) _
        is_built' in
    let plan : DeferredExecutionPlan = record {
      phase_name = p.name;
      target_identity = i;
      capabilities = s;
      credential_source = source;
    } in
    (
      plan,
      kept plan (sym (ok_eq last)),
      refl,
      refl,
      refl,
      λ c. capability_universe_iff spec graph catalog (i ∷ []) s c universe,
    )

-- A task phase has its plan, which is a task of the scenario with the id that the phase gives.
pub build_task_plans-covers :
    (ts : List TaskSpec) (ps : List PhaseSpec) (plans : List (ℕ × TaskSpec))
    → build_task_plans (index_tasks [] ts) ps ≡ ok plans
    → (p : PhaseSpec) (id : ℕ) → In p ps
    → p.kind ≡ PhaseKind.task
    → p.task ≡ some id
    → (t : TaskSpec) × In (p.name, t) plans × In t ts × (t.id ≡ id)
unfolding build_task_plans phase_task index_tasks
build_task_plans-covers ts ps plans made p id at kind task =
    let (built, is_built, kept) =
      collect-into (phase_task (index_tasks [] ts)) ps plans made p at in
    let is_built' = rw (phase_task, kind, task) at is_built in
    let (t, found, last) =
      >>=-eq-ok (or_raise (lookup id (index_tasks [] ts)) key_error) _ is_built' in
    let stored = or_raise-eq (lookup id (index_tasks [] ts)) key_error found in
    elim (lookup-index_by (λ t. t.id) ts [] id stored) [
      | inl none_there ↦ cc
      | inr (m, is) ↦ (t, kept (p.name, t) (sym (ok_eq last)), m, is)
    ]

-- Every delegation has an edge whose policy is within the limit.
pub policy_artifacts-fit :
    (document_size : AuthoritySet → ℕ) (es : List DelegationEdge) (ds : List DelegationSpec)
    (sizes : List ℕ)
    → policy_artifacts document_size (index_edges [] es) ds ≡ ok sizes
    → (d : DelegationSpec) → In d ds
    → (x : DelegationEdge) × In x es
      × (x.edge_id ≡ d.id)
      × (document_size x.expected_effective ≤ 2048)
unfolding policy_artifacts synthesize_policy index_edges
policy_artifacts-fit document_size es [] sizes made d at = elim at [ ]
policy_artifacts-fit document_size es (d' ∷ ds) sizes made d at =
    let (x, found, k) = >>=-eq-ok (or_raise (lookup d'.id (index_edges [] es)) key_error) _ made in
    let size = document_size x.expected_effective in
    let (within, k') = raise_if_then-eq-ok (ltb 2048 size) scenario_semantic_error _ k in
    let (rest, later, _) = >>=-eq-ok (policy_artifacts document_size (index_edges [] es) ds) _ k' in
    elim (first_or_later at) [
      | inl e ↦
          let stored = or_raise-eq (lookup d'.id (index_edges [] es)) key_error found in
          elim (lookup-index_by (λ x. x.edge_id) es [] d'.id stored) [
            | inl none_there ↦ cc
            | inr (m, is) ↦ (x, m, is ∙ ap (λ z. z.id) (sym e), ground (arith, within))
          ]
      | inr m ↦ policy_artifacts-fit document_size es ds rest later d m
    ]

-- A phase that mutates, polls or waits has its plan, which carries what the phase declares.
pub build_mutation_plans-covers :
    (ps : List PhaseSpec) (p : PhaseSpec) (m : MutationSpec)
    → In p ps
    → p.kind ≡ PhaseKind.mutate
    → p.mutation ≡ some m
    → In
        (record {
          target_identity = m.target_identity;
          kind = m.kind;
          denies_capabilities = m.denies;
          grants_capabilities = m.grants;
          record_receipt = m.record_receipt;
        })
        (build_mutation_plans ps)
unfolding build_mutation_plans mutation_plan
build_mutation_plans-covers ps p m at kind mutation =
    In-gather_some mutation_plan ps at (rw (mutation_plan, kind, mutation) refl)

pub build_poll_plans-covers :
    (ps : List PhaseSpec) (p : PhaseSpec) (i : IdentityId) (c : CapabilityId)
    → In p ps
    → p.kind ≡ PhaseKind.poll
    → p.target_identity ≡ some i
    → p.capability ≡ some c
    → In
        (
          i,
          c,
          record {
            interval_ms = p.interval_ms;
            max_duration_seconds = p.max_duration_seconds;
            stop_on = p.stop_on;
            stability_count = p.stability_count;
          },
        )
        (build_poll_plans ps)
unfolding build_poll_plans poll_plan
build_poll_plans-covers ps p i c at kind target capability =
    In-gather_some poll_plan ps at (rw (poll_plan, kind, target, capability) refl)

pub build_wait_plans-covers :
    (ps : List PhaseSpec) (p : PhaseSpec)
    → In p ps
    → p.kind ≡ PhaseKind.wait
    → In (record { phase_name = p.name; wait_seconds = p.wait_seconds }) (build_wait_plans ps)
unfolding build_wait_plans wait_plan
build_wait_plans-covers ps p at kind = In-gather_some wait_plan ps at (rw (wait_plan, kind) refl)
