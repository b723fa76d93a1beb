-- ===== src/Execution/Polling/Settles.antt =====
-- What a stop for stability says, and when it is reached.
use chainbreak.Common.{
  Bool, ℕ, zero, suc, ◌+◌, ◌*◌, ◌≤◌, ◌<◌, ◌≡◌, refl, ap, ◌∙◌, ◌⊎◌, inl, inr, true, false, ◌&&◌,
  List, [], ◌∷◌, ◌++◌, some, arith, leb, leb→le, length, length-append, Bool-cases, All, &&-eq-true,
}
use native.Mathlib.Nat.{suc-mul}
use chainbreak.Core.Capabilities.{ProviderCapabilityBinding}
use chainbreak.Core.Enums.{OutcomeClass}
use chainbreak.Core.Errors.{Result, ok}
use chainbreak.Execution.Polling.{
  StopOn, PollPlan, PollObservation, PollRun, PollCalls, matches_target, may_stabilize, poll,
  count_on, is_stable, finished, poll_loop, run_poll_phase,
}
use chainbreak.Execution.Polling.Stops.{matching_tail, IsExplained, run_poll_phase-IsExplained}

impossible : (left : ℕ) → suc left ≤ 0 → ⊥
impossible left h = omega (arith, h)

module _ {State : Type 0} (provider : PollCalls State) (plan : PollPlan) where
  abbrev pub Match : PollObservation → Type 0
  Match o = matches_target o.outcome_class plan.stop_on ≡ true

  matching_tail-suffix :
      (count : ℕ) (os : List PollObservation)
      → ((matching_tail provider plan count os ≡ count + length os) × All Match os)
        ⊎ ((before : List PollObservation) × (last : List PollObservation) × (os ≡ before ++ last)
            × (length last ≡ matching_tail provider plan count os)
            × All Match last)
  unfolding count_on
  matching_tail-suffix count [] = inl (omega arith, tt)
  matching_tail-suffix count (o ∷ os) =
      elim (Bool-cases
        (may_stabilize plan.stop_on && matches_target o.outcome_class plan.stop_on)) [
          | inl e ↦
              let (_, hit) = &&-eq-true (may_stabilize plan.stop_on) _ e in
              let counted : count_on provider plan count o.outcome_class ≡ suc count = rw e refl in
              elim (matching_tail-suffix (suc count) os) [
                | inl (long, all) ↦ inl (rw counted (omega (arith, long)), (hit, all))
                | inr (before, last, split, long, all) ↦
                    inr (o ∷ before, last, ap (λ l. o ∷ l) split, rw counted long, all)
              ]
          | inr e ↦
              let counted : count_on provider plan count o.outcome_class ≡ 0 = rw e refl in
              elim (matching_tail-suffix 0 os) [
                | inl (long, all) ↦ inr (o ∷ [], os, refl, rw counted (omega (arith, long)), all)
                | inr (before, last, split, long, all) ↦
                    inr (o ∷ before, last, ap (λ l. o ∷ l) split, rw counted long, all)
              ]
        ]

  -- A poll after which the phase goes on.
  poll_loop-goes_on :
      (fuel : ℕ) (s after : State) (os : List PollObservation) (sequence count count' elapsed : ℕ)
      (outcome : OutcomeClass)
      → poll provider plan s ≡ ok (outcome, after)
      → count_on provider plan count outcome ≡ count'
      → is_stable provider plan count' ≡ false
      → leb (plan.max_duration_seconds * 1000) (elapsed + plan.interval_ms) ≡ false
      → poll_loop provider plan (suc fuel) s os sequence count elapsed
        ≡ poll_loop provider plan fuel after
            (os ++ record { sequence = sequence; outcome_class = outcome } ∷ [])
            (suc sequence)
            count'
            (elapsed + plan.interval_ms)
  unfolding poll_loop
  poll_loop-goes_on fuel s after os sequence count count' elapsed outcome polled counted unstable
        early =
      rw (poll_loop, polled, counted, unstable, early) refl

  module _ (settled : State → Type 0)
      (answers : (s : State)
        → settled s
        → (outcome : OutcomeClass) × (after : State) × (poll provider plan s ≡ ok (outcome, after))
          × (matches_target outcome plan.stop_on ≡ true)
          × settled after)
      (stabilizes : may_stabilize plan.stop_on ≡ true) where
    poll_loop-settles :
        (left fuel : ℕ) (s : State) (os : List PollObservation) (sequence count elapsed : ℕ)
        → settled s
        → left ≤ fuel
        → suc left + count ≡ plan.stability_count
        → elapsed + left * plan.interval_ms < plan.max_duration_seconds * 1000
        → (after : State) × (run : PollRun) × (poll_loop provider plan
              (suc fuel)
              s
              os
              sequence
              count
              elapsed
            ≡ some (ok (run, after)))
          × settled after
          × (run.stop_reason ≡ plan.stop_on)
          × (run.poll_count ≡ length os + suc left)
    unfolding poll_loop finished count_on is_stable
    poll_loop-settles zero fuel s os sequence count elapsed ready fuelled goal time =
        let (outcome, after, polled, hit, ready') = answers s ready in
        let o : PollObservation = record { sequence = sequence; outcome_class = outcome } in
        let counted : count_on provider plan count outcome ≡ suc count =
          rw (stabilizes, hit) refl in
        let stable : is_stable provider plan (suc count) ≡ true =
          rw stabilizes (ground (arith, goal)) in
        (
          after,
          finished provider plan (os ++ o ∷ []) (suc sequence) plan.stop_on,
          rw (poll_loop, polled, counted, stable) refl,
          ready',
          refl,
          length-append os (o ∷ []),
        )
    poll_loop-settles (suc left) zero s os sequence count elapsed ready fuelled goal time =
        elim (impossible left fuelled) [ ]
    poll_loop-settles (suc left) (suc fuel) s os sequence count elapsed ready fuelled goal time =
        let (outcome, after, polled, hit, ready') = answers s ready in
        let o : PollObservation = record { sequence = sequence; outcome_class = outcome } in
        let (end, run, ended, settled_end, reason, polls) =
          poll_loop-settles left fuel after (os ++ o ∷ []) (suc sequence) (suc count)
            (elapsed + plan.interval_ms) ready' (omega (arith, fuelled)) (omega (arith, goal))
            (omega (arith, time, suc-mul left plan.interval_ms)) in
        let counted : count_on provider plan count outcome ≡ suc count =
          rw (stabilizes, hit) refl in
        let unstable : is_stable provider plan (suc count) ≡ false =
          rw stabilizes (ground (arith, goal)) in
        let early : leb (plan.max_duration_seconds * 1000) (elapsed + plan.interval_ms) ≡ false =
          ground (arith, time, suc-mul left plan.interval_ms) in
        (
          end,
          run,
          poll_loop-goes_on (suc fuel) s after os sequence count (suc count) elapsed outcome polled
                counted unstable early
              ∙ ended,
          settled_end,
          reason,
          omega (arith, polls, length-append os (o ∷ [])),
        )

    -- A provider that, from this state on, answers every poll with an outcome that matches the
    -- target, within a duration that has room for the polls that stability takes: the phase stops
    -- for stability, after exactly that many polls, and the provider is then still in such a state.
    pub run_poll_phase_settles :
        (fuel left : ℕ) (binding : ProviderCapabilityBinding) (s : State) (sequence_start : ℕ)
        → settled s
        → suc left ≡ plan.stability_count
        → left ≤ fuel
        → left * plan.interval_ms < plan.max_duration_seconds * 1000
        → (after : State) × (run : PollRun) × (run_poll_phase provider plan
              (suc fuel)
              true
              (ok binding)
              s
              sequence_start
            ≡ some (ok (run, after)))
          × settled after
          × (run.stop_reason ≡ plan.stop_on)
          × (run.poll_count ≡ plan.stability_count)
    unfolding run_poll_phase
    run_poll_phase_settles fuel left binding s sequence_start ready goal fuelled time =
        let (after, run, ended, settled_end, reason, polls) =
          poll_loop-settles left fuel s [] sequence_start 0 0 ready fuelled (omega (arith, goal))
            (omega (arith, time)) in
        (after, run, ended, settled_end, reason, omega (arith, polls, goal))

  matching_tail-append :
      (count : ℕ) (os ps : List PollObservation)
      → matching_tail provider plan count (os ++ ps)
        ≡ matching_tail provider plan (matching_tail provider plan count os) ps
  matching_tail-append count [] ps = refl
  matching_tail-append count (o ∷ os) ps =
      matching_tail-append (count_on provider plan count o.outcome_class) os ps

  matching_tail-matches :
      (count : ℕ) (os : List PollObservation)
      → may_stabilize plan.stop_on ≡ true
      → All Match os
      → matching_tail provider plan count os ≡ count + length os
  unfolding count_on
  matching_tail-matches count [] may hits = omega arith
  matching_tail-matches count (o ∷ os) may (hit, hits) =
      let counted : count_on provider plan count o.outcome_class ≡ suc count = rw (may, hit) refl in
      rw counted (omega (arith, matching_tail-matches (suc count) os may hits))

  explained_reason :
      (run : PollRun)
      → IsExplained provider plan run
      → ((may_stabilize plan.stop_on ≡ true)
          × (run.stop_reason ≡ plan.stop_on)
          × ((before : List PollObservation) × (last : List PollObservation) × (run.observations
                ≡ before ++ last)
              × (plan.stability_count ≤ length last)
              × All Match last))
        ⊎ ((run.stop_reason ≡ StopOn.timeout)
            × (plan.max_duration_seconds * 1000 ≤ run.poll_count * plan.interval_ms)
            × ((may_stabilize plan.stop_on ≡ false)
                ⊎ ((before last : List PollObservation)
                    → run.observations ≡ before ++ last
                    → All Match last
                    → length last < plan.stability_count)))
  unfolding is_stable
  explained_reason run explained = elim explained.reason [
    | inl (stable, reason) ↦
        let (may, enough) = &&-eq-true (may_stabilize plan.stop_on) _ stable in
        let bound : plan.stability_count ≤ matching_tail provider plan 0 run.observations =
          leb→le _ _ enough in
        elim (matching_tail-suffix 0 run.observations) [
          | inl (long, all) ↦
              inl (may, reason, ([], run.observations, refl, omega (arith, bound, long), all))
          | inr (before, last, split, long, all) ↦
              inl (may, reason, (before, last, split, omega (arith, bound, long), all))
        ]
    | inr (unstable, passed, reason) ↦ elim (Bool-cases (may_stabilize plan.stop_on)) [
      | inr never ↦ inr (reason, passed, inl never)
      | inl may ↦
          let low : leb plan.stability_count (matching_tail provider plan 0 run.observations)
              ≡ false =
            ground (arith, unstable, may) in
          inr (
            reason,
            passed,
            inr λ before last split hits.
                let whole =
                  ap (matching_tail provider plan 0) split ∙ matching_tail-append 0 before last in
                let tail =
                  matching_tail-matches (matching_tail provider plan 0 before) last may hits in
                ground (arith, low, whole, tail),
          )
    ]
  ]

  -- Where the phase ends with a run, given fuel for more intervals than the maximal duration has: it
  -- stopped for stability, which its plan may do, and ends in as many observations as stability
  -- takes, or more, each of which matches the target; or it stopped for the timeout, the duration
  -- had passed by the polls made, and its plan waits for the timeout or it ends in fewer matching
  -- observations than stability takes.
  pub run_poll_phase_reason :
      (fuel : ℕ) (materialized : Bool) (binding : Result ProviderCapabilityBinding) (state : State)
      (sequence_start : ℕ) (run : PollRun) (after : State)
      → plan.max_duration_seconds * 1000 < fuel * plan.interval_ms
      → run_poll_phase provider plan fuel materialized binding state sequence_start
        ≡ some (ok (run, after))
      → ((may_stabilize plan.stop_on ≡ true)
          × (run.stop_reason ≡ plan.stop_on)
          × ((before : List PollObservation) × (last : List PollObservation) × (run.observations
                ≡ before ++ last)
              × (plan.stability_count ≤ length last)
              × All Match last))
        ⊎ ((run.stop_reason ≡ StopOn.timeout)
            × (plan.max_duration_seconds * 1000 ≤ run.poll_count * plan.interval_ms)
            × ((may_stabilize plan.stop_on ≡ false)
                ⊎ ((before last : List PollObservation)
                    → run.observations ≡ before ++ last
                    → All Match last
                    → length last < plan.stability_count)))
  run_poll_phase_reason fuel materialized binding state sequence_start run after enough ended =
      explained_reason run
        (run_poll_phase-IsExplained provider plan fuel materialized binding state sequence_start run
          after enough ended).0
