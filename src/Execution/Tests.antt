-- ===== src/Execution/Tests.antt =====
-- A provider whose denial becomes visible after two polls, and a mutation that is reverted.
use chainbreak.Common.{
  ℕ, ◌+◌, ◌*◌, ◌≤◌, ◌<◌, ◌≡◌, ◌⊎◌, refl, true, false, List, [], ◌∷◌, ◌++◌, none, some, arith, leb,
  ◌==◌, if◌then◌else◌, All, length,
}
use chainbreak.Common.Dict.{lookup}
use chainbreak.Common.Int.{pos}
use chainbreak.Core.Capabilities.{Capability, ProviderCapabilityBinding}
use chainbreak.Core.Clock.{arm, check, remaining}
use chainbreak.Core.Enums.{OutcomeClass, MutationKind, ProbeKind, Provider, is_denial}
use chainbreak.Core.Errors.{Error, Result, ok, err, execution_error}
use chainbreak.Core.Graph.Validation.{node}
use chainbreak.Core.Models.{IdentityId, IdentityNode}
use chainbreak.Execution.Polling.{
  finished, count_on, is_stable, check_clock, StopOn, PollPlan, PollObservation, PollRun, PollCalls,
  matches_target, may_stabilize, poll, pass_time, poll_loop, run_poll_phase,
}
use chainbreak.Execution.Polling.Settles.{Match, run_poll_phase_settles, run_poll_phase_reason}
use chainbreak.Execution.Polling.Stops.{IsExplained, Polls, Raises, run_poll_phase_stops}
use chainbreak.Execution.Polling.Waiting.{BackToBack, run_poll_phase_never_waits}
use chainbreak.Execution.Revert.{
  MutationPlan, MutationEvent, apply_mutation, RevertPlan, RevertEvent, is_actionable,
  is_live_state, build_revert_plan, revert_mutation,
}
use chainbreak.Execution.Revert.Restores.{declared_policy, revert_mutation_restores}
use chainbreak.Core.Graph.Tests.{chain, node_at}
use chainbreak.Providers.Fake.Adapter.Tests.{lab, config, highest, highest_in_range}
use chainbreak.Providers.Fake.Adapter.{FakeProviderAdapter}
use chainbreak.Providers.Fake.Adapter.Probe.{decide_outcome}
use chainbreak.Providers.Fake.Adapter.Sees.{IsUndisturbed, decided_by}
use chainbreak.Providers.Fake.Consistency.{schedule}

-- The state is the virtual instant, in milliseconds.
abbrev outcome_at : ℕ → OutcomeClass
outcome_at t = if leb 1000 t then OutcomeClass.denied_explicit else OutcomeClass.allowed

abbrev virtual : PollCalls ℕ
virtual = record {
  advance_clock = some λ t interval. ok (t + interval);
  probe = λ t. ok (outcome_at t, t);
  sleep = λ t d. t;
  now_ns = λ t. t * 1000000;
  clock = none;
}

abbrev plan : PollPlan
plan = record {
  interval_ms = 500;
  max_duration_seconds = 3;
  stop_on = StopOn.stable_denial;
  stability_count = 2;
}

abbrev binding : ProviderCapabilityBinding
binding = record {
  capability_id = 6;
  provider = Provider.fake;
  actions = 7 ∷ [];
  resource_template = 0;
  probe_kind = ProbeKind.read_marker;
  preconditions = [];
}

-- Polls at 500, 1000 and 1500: allowed, denied, denied.
abbrev run_of_three : PollRun
run_of_three = record {
  observations =
      record { sequence = 40; outcome_class = OutcomeClass.allowed }
      ∷ record { sequence = 41; outcome_class = OutcomeClass.denied_explicit }
      ∷ record { sequence = 42; outcome_class = OutcomeClass.denied_explicit }
      ∷ [];
  next_sequence = 43;
  stop_reason = StopOn.stable_denial;
  poll_count = 3;
}

polled : run_poll_phase virtual plan 7 true (ok binding) 0 40 ≡ some (ok (run_of_three, 1500))
unfolding run_poll_phase poll_loop poll pass_time check_clock is_stable may_stabilize count_on
    matches_target is_denial finished
polled = refl

run_poll_phase_stops_example :
    (result : Result (PollRun × ℕ)) × (run_poll_phase virtual plan 7 true (ok binding) 0 40
      ≡ some result)
    × (true ≡ false → result ≡ err execution_error)
    × ((e : Error) → true ≡ true → ok binding ≡ err e → result ≡ err e)
    × ((b : ProviderCapabilityBinding) (e : Error)
        → true ≡ true
        → ok binding ≡ ok b
        → result ≡ err e
        → Raises virtual plan 0 e)
    × ((run : PollRun) (after : ℕ)
        → result ≡ ok (run, after)
        → IsExplained virtual plan run × Polls virtual plan 0 run.observations after)
run_poll_phase_stops_example =
    run_poll_phase_stops virtual plan 7 true (ok binding) 0 40 (omega arith)

abbrev Settled : ℕ → Type 0
Settled t = 1000 ≤ t

answers :
    (t : ℕ)
    → Settled t
    → (outcome : OutcomeClass) × (after : ℕ) × (poll virtual plan t ≡ ok (outcome, after))
      × (matches_target outcome StopOn.stable_denial ≡ true)
      × Settled after
unfolding matches_target is_denial poll pass_time check_clock
answers t h = (
  OutcomeClass.denied_explicit,
  t + 500,
  (let e : leb 1000 (t + 500) ≡ true = ground (arith, h) in rw (poll, e) refl),
  refl,
  omega (arith, h),
)

run_poll_phase_settles_example :
    (after : ℕ) × (run : PollRun) × (run_poll_phase virtual plan 2 true (ok binding) 1000 40
      ≡ some (ok (run, after)))
    × Settled after
    × (run.stop_reason ≡ StopOn.stable_denial)
    × (run.poll_count ≡ 2)
unfolding may_stabilize
run_poll_phase_settles_example =
    run_poll_phase_settles virtual plan Settled answers refl 1 1 binding 1000 40 (omega arith) refl
      (omega arith) (omega arith)

run_poll_phase_reason_example :
    ((may_stabilize StopOn.stable_denial ≡ true)
      × (run_of_three.stop_reason ≡ StopOn.stable_denial)
      × ((before : List PollObservation) × (last : List PollObservation)
          × (run_of_three.observations ≡ before ++ last)
          × (2 ≤ length last)
          × All (Match virtual plan) last))
    ⊎ ((run_of_three.stop_reason ≡ StopOn.timeout)
        × (3 * 1000 ≤ 3 * 500)
        × ((may_stabilize StopOn.stable_denial ≡ false)
            ⊎ ((before last : List PollObservation)
                → run_of_three.observations ≡ before ++ last
                → All (Match virtual plan) last
                → length last < 2)))
run_poll_phase_reason_example =
    run_poll_phase_reason virtual plan 7 true (ok binding) 0 40 run_of_three 1500 (omega arith)
      polled

-- A provider without a virtual clock, under a deadline of a minute; the state is in nanoseconds.
abbrev real : PollCalls ℕ
real = record {
  advance_clock = none;
  probe = λ t. ok (OutcomeClass.allowed, t);
  sleep = λ t d. t + d;
  now_ns = λ t. t;
  clock = some (arm 60 0);
}

-- Six polls at one instant, where the interval asks for half a second between them.
real_polled : (r : PollRun × ℕ) × (run_poll_phase real plan 7 true (ok binding) 7 40 ≡ some (ok r))
unfolding run_poll_phase poll_loop poll pass_time check_clock is_stable may_stabilize count_on
    matches_target is_denial finished arm check remaining
real_polled = (_, refl)

run_poll_phase_never_waits_example : BackToBack real 7 real_polled.0.0.observations real_polled.0.1
run_poll_phase_never_waits_example =
    run_poll_phase_never_waits real plan (arm 60 0) refl refl (λ s d. omega arith) (omega arith) 7
      true (ok binding) 7 40 real_polled.0.0 real_polled.0.1 (omega arith) real_polled.1

abbrev deny_plan : MutationPlan
deny_plan = record {
  target_identity = 1;
  kind = MutationKind.attach_inline_deny;
  denies_capabilities = 6 ∷ [];
  grants_capabilities = [];
  record_receipt = true;
}

abbrev root_node : IdentityNode
root_node = node_at 1 true 0 none (10 ∷ 11 ∷ 12 ∷ []) (some (10 ∷ 11 ∷ 12 ∷ []))

declared : node chain 1 ≡ ok root_node
unfolding node
declared = refl

revert_mutation_restores_example :
    (event : MutationEvent) × (after : FakeProviderAdapter) × (revert : RevertPlan)
    × (done : RevertEvent) × (reverted : FakeProviderAdapter) × (apply_mutation
          (pos 0)
          highest
          lab
          (1 ∷ [])
          deny_plan
          8
        ≡ ok (event, after))
    × (event.monotonic_ns ≡ 100 * 1000000)
    × (build_revert_plan chain 1 MutationKind.attach_inline_deny ≡ ok revert)
    × (revert_mutation after revert 9 ≡ (some done, reverted))
    × (lookup 1 reverted.engine ≡ some (declared_policy root_node))
    × ((j : IdentityId) → (j == 1) ≡ false → lookup j reverted.engine ≡ lookup j lab.engine)
    × ((c : Capability) (t : ℕ)
        → (schedule (pos 0) highest config.consistency 100).settle_at_ms ≤ t
        → IsUndisturbed reverted 1 t
        → (decide_outcome reverted false 1 c t).0
          ≡ decided_by reverted 1 c (declared_policy root_node))
unfolding is_actionable is_live_state
revert_mutation_restores_example =
    revert_mutation_restores (pos 0) highest highest_in_range lab (1 ∷ []) deny_plan chain root_node
      8 9 declared refl refl refl
