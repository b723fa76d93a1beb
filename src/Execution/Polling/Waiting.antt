-- ===== src/Execution/Polling/Waiting.antt =====
-- How long a poll phase waits before a poll of a provider without a virtual clock.
use chainbreak.Common.{
  ℕ, ◌+◌, ◌-◌, ◌*◌, ◌≤◌, ◌<◌, ◌≡◌, refl, sym, ◌∙◌, Bool, true, List, [], ◌∷◌, ◌++◌, none, some,
  arith, ltb, leb, inl, inr, Bool-cases, if◌then◌else◌,
}
use chainbreak.Core.Clock.{RunClock, check, remaining}
use chainbreak.Core.Capabilities.{ProviderCapabilityBinding}
use chainbreak.Core.Enums.{OutcomeClass}
use chainbreak.Core.Errors.{Result, ok_eq, >>=-eq-ok, ok, err, run_duration_exceeded_error}
use chainbreak.Execution.Polling.{
  PollPlan, PollCalls, PollRun, PollObservation, check_clock, poll, run_poll_phase, pass_time,
}
use chainbreak.Execution.Polling.Stops.{Polls, run_poll_phase-IsExplained}

-- Between two polls of such a provider the phase goes on at once or raises.
pass_time_never_waits :
    {State : Type 0} (provider : PollCalls State) (plan : PollPlan) (clock : RunClock)
    → provider.advance_clock ≡ none
    → provider.clock ≡ some clock
    → ((s : State) (d : ℕ) → provider.now_ns s + d ≤ provider.now_ns (provider.sleep s d))
    → 0 < plan.interval_ms
    → (s : State)
    → pass_time provider plan s ≡ (
        if ltb (remaining clock (provider.now_ns s)) (plan.interval_ms * 1000000)
        then err run_duration_exceeded_error
        else ok s)
unfolding pass_time check remaining
pass_time_never_waits provider plan clock real armed takes positive s =
    let now = provider.now_ns s in
    let left = clock.deadline_ns - now in
    elim (Bool-cases (leb clock.deadline_ns now)) [
      | inl late ↦ rw (pass_time, real, armed, late) (ground (arith, late))
      | inr early ↦ elim (Bool-cases (ltb left (plan.interval_ms * 1000000))) [
        | inl short ↦
            let slept : leb clock.deadline_ns (provider.now_ns (provider.sleep s left)) ≡ true =
              ground (arith, takes s left, early) in
            rw (pass_time, real, armed, early, short, slept) refl
        | inr long ↦ rw (pass_time, real, armed, early, long) refl
      ]
    ]

-- Probes one directly behind the other, with nothing in between.
pub data BackToBack {State : Type 0} (provider : PollCalls State) (start : State)
    : List PollObservation → State → Type 0 where
  no_probes : BackToBack provider start [] start
  then_probe :
      (os : List PollObservation) (s after : State) (outcome : OutcomeClass) (sequence : ℕ)
      → BackToBack provider start os s
      → provider.probe s ≡ ok (outcome, after)
      → BackToBack provider start
          (os ++ record { sequence = sequence; outcome_class = outcome } ∷ [])
          after

module _ {State : Type 0} (provider : PollCalls State) (plan : PollPlan) (clock : RunClock)
    (real : provider.advance_clock ≡ none) (armed : provider.clock ≡ some clock)
    (takes : (s : State) (d : ℕ) → provider.now_ns s + d ≤ provider.now_ns (provider.sleep s d))
    (positive : 0 < plan.interval_ms) where
  poll_at_once :
      (s after : State) (outcome : OutcomeClass)
      → poll provider plan s ≡ ok (outcome, after)
      → provider.probe s ≡ ok (outcome, after)
  unfolding poll
  poll_at_once s after outcome made =
      let (waited, passed, k) = >>=-eq-ok (pass_time provider plan s) _ made in
      let ((class, probed), answered, l) = >>=-eq-ok (provider.probe waited) _ k in
      let (_, checked, last) = >>=-eq-ok (check_clock provider plan probed) _ l in
      let waits = pass_time_never_waits provider plan clock real armed takes positive s in
      let branch = sym waits ∙ passed in
      let same : s ≡ waited =
        elim (Bool-cases (ltb (remaining clock (provider.now_ns s)) (plan.interval_ms * 1000000))) [
          | inl short ↦ let absurd = rw short at branch in cc
          | inr long ↦ ok_eq (rw long at branch)
        ] in
      rw same (answered ∙ last)

  Polls-BackToBack :
      (start s : State) (os : List PollObservation)
      → Polls provider plan start os s
      → BackToBack provider start os s
  Polls-BackToBack start s os Polls.no_polls = BackToBack.no_probes
  Polls-BackToBack start s os (Polls.then_poll ps t after outcome sequence made polled) =
      BackToBack.then_probe ps t s outcome sequence (Polls-BackToBack start t ps made)
        (poll_at_once t s outcome polled)

-- A provider without a virtual clock, polled under the run's deadline, where sleeping takes at least
-- as long as asked: a phase that ends with a run has made all of its polls one directly behind the
-- other, without any wait between them, whatever interval the plan has.
pub run_poll_phase_never_waits :
    {State : Type 0} (provider : PollCalls State) (plan : PollPlan) (clock : RunClock)
    → provider.advance_clock ≡ none
    → provider.clock ≡ some clock
    → ((s : State) (d : ℕ) → provider.now_ns s + d ≤ provider.now_ns (provider.sleep s d))
    → 0 < plan.interval_ms
    → (fuel : ℕ) (materialized : Bool) (binding : Result ProviderCapabilityBinding) (state : State)
      (sequence_start : ℕ) (run : PollRun) (after : State)
    → plan.max_duration_seconds * 1000 < fuel * plan.interval_ms
    → run_poll_phase provider plan fuel materialized binding state sequence_start
      ≡ some (ok (run, after))
    → BackToBack provider state run.observations after
run_poll_phase_never_waits provider plan clock real armed takes positive fuel materialized binding
      state sequence_start run after enough ended =
    Polls-BackToBack provider plan clock real armed takes positive state after run.observations
      (run_poll_phase-IsExplained provider plan fuel materialized binding state sequence_start run
        after enough ended).1
