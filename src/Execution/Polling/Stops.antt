-- ===== src/Execution/Polling/Stops.antt =====
-- The poll loop ends, and why.
use chainbreak.Common.{
  ℕ, zero, suc, ◌+◌, ◌*◌, ◌≤◌, ◌<◌, ◌≡◌, refl, sym, ap, ◌∙◌, ◌⊎◌, inl, inr, Bool, true, false, List,
  [], ◌∷◌, ◌++◌, Option, none, some, arith, leb, leb→le, length, length-append, Bool-cases,
}
use native.Mathlib.Nat.{suc-mul}
use chainbreak.Core.Capabilities.{ProviderCapabilityBinding}
use chainbreak.Core.Enums.{OutcomeClass}
use chainbreak.Core.Errors.{Error, Result, ok, err, Result-cases, execution_error}
use chainbreak.Execution.Polling.{
  StopOn, PollPlan, PollObservation, PollRun, PollCalls, poll, count_on, is_stable, finished,
  poll_loop, run_poll_phase,
}

module _ {State : Type 0} (provider : PollCalls State) (plan : PollPlan) where
  -- How many of the last observations in a row match the target.
  abbrev pub matching_tail : ℕ → List PollObservation → ℕ
  matching_tail count [] = count
  matching_tail count (o ∷ os) = matching_tail (count_on provider plan count o.outcome_class) os

  matching_tail-snoc :
      (count : ℕ) (os : List PollObservation) (o : PollObservation)
      → matching_tail count (os ++ o ∷ [])
        ≡ count_on provider plan (matching_tail count os) o.outcome_class
  matching_tail-snoc count [] o = refl
  matching_tail-snoc count (p ∷ os) o =
      matching_tail-snoc (count_on provider plan count p.outcome_class) os o

  -- Observations after none of which the phase had a reason to stop.
  pub data Unfinished : List PollObservation → Type 0 where
    nothing_yet : Unfinished []
    goes_on :
        (os : List PollObservation) (o : PollObservation)
        → Unfinished os
        → is_stable provider plan (matching_tail 0 (os ++ o ∷ [])) ≡ false
        → length (os ++ o ∷ []) * plan.interval_ms < plan.max_duration_seconds * 1000
        → Unfinished (os ++ o ∷ [])

  -- Why a run stopped when it did: at its last observation and at none before, it was stable, or it
  -- was not and the duration had passed.
  pub record IsExplained (run : PollRun) : Type 0 where
    pub before : List PollObservation
    pub last : PollObservation
    pub all : run.observations ≡ before ++ last ∷ []
    pub first : Unfinished before
    pub counted : run.poll_count ≡ length run.observations
    pub reason :
        ((is_stable provider plan (matching_tail 0 run.observations) ≡ true)
          × (run.stop_reason ≡ plan.stop_on))
        ⊎ ((is_stable provider plan (matching_tail 0 run.observations) ≡ false)
            × (plan.max_duration_seconds * 1000 ≤ run.poll_count * plan.interval_ms)
            × (run.stop_reason ≡ StopOn.timeout))

  -- Polls one after the other, with what they observe and the state behind the last.
  pub data Polls (start : State) : List PollObservation → State → Type 0 where
    no_polls : Polls start [] start
    then_poll :
        (os : List PollObservation) (s after : State) (outcome : OutcomeClass) (sequence : ℕ)
        → Polls start os s
        → poll provider plan s ≡ ok (outcome, after)
        → Polls start (os ++ record { sequence = sequence; outcome_class = outcome } ∷ []) after

  -- A poll that raises, behind polls that gave no reason to stop.
  abbrev pub Raises : State → Error → Type 0
  Raises start e =
      (os : List PollObservation) × (s : State) × Unfinished os
      × Polls start os s
      × (poll provider plan s ≡ err e)

  -- The outcome of the loop, where it ends.
  abbrev Ends : State → Option (Result (PollRun × State)) → Type 0
  Ends start none = ⊥
  Ends start (some (err e)) = Raises start e
  Ends start (some (ok (run, after))) = IsExplained run × Polls start run.observations after

  poll_loop-Ends :
      (start : State) (fuel : ℕ) (state : State) (os : List PollObservation)
      (sequence consecutive elapsed : ℕ)
      → Unfinished os
      → Polls start os state
      → consecutive ≡ matching_tail 0 os
      → elapsed ≡ length os * plan.interval_ms
      → elapsed ≤ plan.max_duration_seconds * 1000
      → plan.max_duration_seconds * 1000 < elapsed + fuel * plan.interval_ms
      → Ends start (poll_loop provider plan fuel state os sequence consecutive elapsed)
  unfolding poll_loop finished
  poll_loop-Ends start zero state os sequence consecutive elapsed u made c l below enough =
      omega (arith, below, enough)
  poll_loop-Ends start (suc fuel) state os sequence consecutive elapsed u made c l below enough =
      elim (Result-cases (poll provider plan state)) [
        | inl (e, h) ↦ rw (poll_loop, h) (os, state, u, made, h)
        | inr ((outcome, polled), h) ↦
            let o : PollObservation = record { sequence = sequence; outcome_class = outcome } in
            let count = count_on provider plan consecutive outcome in
            let made' = Polls.then_poll os state polled outcome sequence made h in
            let tail : count ≡ matching_tail 0 (os ++ o ∷ []) =
              ap (λ n. count_on provider plan n outcome) c ∙ sym (matching_tail-snoc 0 os o) in
            let long : length (os ++ o ∷ []) ≡ suc (length os) =
              omega (arith, length-append os (o ∷ [])) in
            let time : elapsed + plan.interval_ms ≡ length (os ++ o ∷ []) * plan.interval_ms =
              rw (l, long, suc-mul (length os) plan.interval_ms) refl in
            elim (Bool-cases (is_stable provider plan count)) [
              | inl stable ↦
                  rw (poll_loop, h, stable)
                    (
                      (record {
                        before = os;
                        last = o;
                        all = refl;
                        first = u;
                        counted = refl;
                        reason = inl (rw (← tail) stable, refl);
                      }),
                      made',
                    )
              | inr unstable ↦
                  elim (Bool-cases
                    (leb (plan.max_duration_seconds * 1000) (elapsed + plan.interval_ms))) [
                      | inl late ↦
                          rw (poll_loop, h, unstable, late)
                            (
                              (record {
                                before = os;
                                last = o;
                                all = refl;
                                first = u;
                                counted = refl;
                                reason =
                                    inr (rw (← tail) unstable, rw (← time) (leb→le _ _ late), refl);
                              }),
                              made',
                            )
                      | inr early ↦
                          let within : elapsed + plan.interval_ms
                              < plan.max_duration_seconds * 1000 =
                            ground (arith, early) in
                          rw (poll_loop, h, unstable, early)
                            (poll_loop-Ends start fuel polled (os ++ o ∷ []) (suc sequence) count
                              (elapsed + plan.interval_ms)
                              (Unfinished.goes_on os o u (rw (← tail) unstable)
                                (rw (← time) within))
                              made' tail time (omega (arith, within))
                              (omega (arith, enough, suc-mul fuel plan.interval_ms)))
                    ]
            ]
      ]

  Ends-some :
      (start : State) (outcome : Option (Result (PollRun × State)))
      → Ends start outcome
      → (result : Result (PollRun × State)) × (outcome ≡ some result)
        × ((e : Error) → result ≡ err e → Raises start e)
        × ((run : PollRun) (after : State)
            → result ≡ ok (run, after)
            → IsExplained run × Polls start run.observations after)
  Ends-some start none h = elim h [ ]
  Ends-some start (some (err e)) h =
      (err e, refl, λ e' g. let same : e ≡ e' = cc in rw (← same) h, λ run after g. cc)
  Ends-some start (some (ok (run, after))) h = (
    ok (run, after),
    refl,
    λ e g. cc,
    λ run' after' g.
        let same : run ≡ run' = cc in let behind : after ≡ after' = cc in rw (← same, ← behind) h,
  )

  -- With fuel for more intervals than the maximal duration has, the phase ends, whatever the
  -- provider answers. A target that is not materialized is an error, and an error of the resolution
  -- is the phase's. Else an error is that of a poll, which raises it behind polls that gave no
  -- reason to stop; and a run is what the polls from the first state on observed, and stopped at the
  -- first of them at which the target outcome was stable, with that reason, or at which the duration
  -- had passed without it, with the reason TIMEOUT: stability wins where both hold, and a plan that
  -- waits for the timeout never stops before it.
  pub run_poll_phase_stops :
      (fuel : ℕ) (materialized : Bool) (binding : Result ProviderCapabilityBinding) (state : State)
      (sequence_start : ℕ)
      → plan.max_duration_seconds * 1000 < fuel * plan.interval_ms
      → (result : Result (PollRun × State)) × (run_poll_phase provider plan fuel materialized
            binding state sequence_start
          ≡ some result)
        × (materialized ≡ false → result ≡ err execution_error)
        × ((e : Error) → materialized ≡ true → binding ≡ err e → result ≡ err e)
        × ((b : ProviderCapabilityBinding) (e : Error)
            → materialized ≡ true
            → binding ≡ ok b
            → result ≡ err e
            → Raises state e)
        × ((run : PollRun) (after : State)
            → result ≡ ok (run, after)
            → IsExplained run × Polls state run.observations after)
  unfolding run_poll_phase
  run_poll_phase_stops fuel false binding state sequence_start enough =
      (err execution_error, refl, λ _. refl, λ e h. cc, λ b e h. cc, λ run after h. cc)
  run_poll_phase_stops fuel true (err e) state sequence_start enough =
      (err e, refl, λ h. cc, λ e' h g. cc, λ b e' h g. cc, λ run after h. cc)
  run_poll_phase_stops fuel true (ok binding) state sequence_start enough =
      let (result, made, raised, explained) =
        Ends-some state (poll_loop provider plan fuel state [] sequence_start 0 0) (
          poll_loop-Ends state fuel state [] sequence_start 0 0 Unfinished.nothing_yet
            Polls.no_polls refl (omega arith) (omega arith) (omega (arith, enough))) in
      (result, made, λ h. cc, λ e h g. cc, λ b e h g. raised e, explained)

  -- What a run of the phase is, where it ends with one.
  pub run_poll_phase-IsExplained :
      (fuel : ℕ) (materialized : Bool) (binding : Result ProviderCapabilityBinding) (state : State)
      (sequence_start : ℕ) (run : PollRun) (after : State)
      → plan.max_duration_seconds * 1000 < fuel * plan.interval_ms
      → run_poll_phase provider plan fuel materialized binding state sequence_start
        ≡ some (ok (run, after))
      → IsExplained run × Polls state run.observations after
  run_poll_phase-IsExplained fuel materialized binding state sequence_start run after enough ended =
      let (result, made, _, _, _, explained) =
        run_poll_phase_stops fuel materialized binding state sequence_start enough in
      explained run after cc
