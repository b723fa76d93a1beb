-- ===== src/Execution/Polling.antt =====
-- src/chainbreak/execution/polling.py: `run_poll_phase`. The provider and the outside world are one
-- state, over which the calls of the phase are parameters: the adapter's `advance_clock`, where it
-- has one, its `probe`, `sleep` (in nanoseconds) and the monotonic source.
pub mod Waiting
pub mod Stops
pub mod Settles
use chainbreak.Common.{
  ℕ, zero, suc, ◌+◌, ◌*◌, Bool, true, false, not, ◌&&◌, List, [], ◌∷◌, ◌++◌, Option, none, some,
  leb, ltb, length, if◌then◌else◌,
}
use chainbreak.Core.Capabilities.{ProviderCapabilityBinding}
use chainbreak.Core.Clock.{RunClock, check, remaining}
use chainbreak.Core.Enums.{OutcomeClass, is_allowed, is_denial}
use chainbreak.Core.Errors.{Result, ok, err, execution_error, raise_if, ◌>>=◌, ◌>>◌}

pub data StopOn : Type 0 where
  stable_denial stable_allow timeout : StopOn

-- `PollPlan` (src/chainbreak/core/models.py), whose numbers are positive.
pub record PollPlan : Type 0 where
  pub interval_ms : ℕ
  pub max_duration_seconds : ℕ
  pub stop_on : StopOn
  pub stability_count : ℕ

-- What varies between the observations of one poll phase.
pub record PollObservation : Type 0 where
  pub sequence : ℕ
  pub outcome_class : OutcomeClass

pub record PollRun : Type 0 where
  pub observations : List PollObservation
  pub next_sequence : ℕ
  pub stop_reason : StopOn
  pub poll_count : ℕ

-- `_matches_target`
unfoldable pub matches_target : OutcomeClass → StopOn → Bool
matches_target outcome_class StopOn.stable_allow = is_allowed outcome_class
matches_target outcome_class _ = is_denial outcome_class

-- `plan.stop_on != "TIMEOUT"`
unfoldable pub may_stabilize : StopOn → Bool
may_stabilize StopOn.timeout = false
may_stabilize _ = true

-- What the phase calls.
pub record PollCalls (State : Type 0) : Type 0 where
  pub advance_clock : Option (State → ℕ → Result State)
  pub probe : State → Result (OutcomeClass × State)
  pub sleep : State → ℕ → State
  pub now_ns : State → ℕ
  pub clock : Option RunClock

module _ {State : Type 0} (provider : PollCalls State) (plan : PollPlan) where
  -- `if clock is not None: clock.check()`
  unfoldable pub check_clock : State → Result (Unit {0})
  check_clock state = elim provider.clock [
    | none ↦ ok tt
    | some clock ↦ check clock (provider.now_ns state)
  ]

  -- The passage of time before a poll.
  unfoldable pub pass_time : State → Result State
  pass_time state = elim provider.advance_clock [
    | some advance_clock ↦ advance_clock state plan.interval_ms
    | none ↦ elim provider.clock [
      | none ↦ ok (provider.sleep state (plan.interval_ms * 1000000))
      | some clock ↦ do
        check clock (provider.now_ns state)
        let left = remaining clock (provider.now_ns state)
        if ltb left (plan.interval_ms * 1000000)
            then (do
              let slept = provider.sleep state left
              check clock (provider.now_ns slept)
              ok slept)
            else ok state
    ]
  ]

  -- One poll: the passage of time, the probe, the check of the deadline.
  unfoldable pub poll : State → Result (OutcomeClass × State)
  poll state = do
    waited ← pass_time state
    (outcome_class, probed) ← provider.probe waited
    check_clock probed
    ok (outcome_class, probed)

  -- `consecutive`, after an outcome.
  unfoldable pub count_on : ℕ → OutcomeClass → ℕ
  count_on consecutive outcome_class =
      if may_stabilize plan.stop_on && matches_target outcome_class plan.stop_on
      then suc consecutive
      else 0

  unfoldable pub is_stable : ℕ → Bool
  is_stable consecutive = may_stabilize plan.stop_on && leb plan.stability_count consecutive

  -- `PollRun(...)`
  unfoldable pub finished : List PollObservation → ℕ → StopOn → PollRun
  finished observations sequence stop_reason = record {
    observations = observations;
    next_sequence = sequence;
    stop_reason = stop_reason;
    poll_count = length observations;
  }

  -- The `while True`, on fuel: `none` where the fuel runs out.
  unfoldable pub poll_loop :
      (fuel : ℕ)
      → State
      → List PollObservation
      → (sequence consecutive elapsed_ms : ℕ) → Option (Result (PollRun × State))
  poll_loop zero state observations sequence consecutive elapsed_ms = none
  poll_loop (suc fuel) state observations sequence consecutive elapsed_ms = elim (poll state) [
    | err e ↦ some (err e)
    | ok (outcome_class, polled) ↦
        let elapsed = elapsed_ms + plan.interval_ms in
        let observed =
          observations ++ record { sequence = sequence; outcome_class = outcome_class } ∷ [] in
        let count = count_on consecutive outcome_class in
        let continued = poll_loop fuel polled observed (suc sequence) count elapsed in
        if is_stable count
        then some (ok (finished observed (suc sequence) plan.stop_on, polled))
        else if leb (plan.max_duration_seconds * 1000) elapsed
        then some (ok (finished observed (suc sequence) StopOn.timeout, polled))
        else continued
  ]

  -- `run_poll_phase`, of a target that is materialized or is not, and with what the adapter's
  -- `resolve_capability` gives.
  unfoldable pub run_poll_phase :
      (fuel : ℕ)
      → (materialized : Bool) → (binding : Result ProviderCapabilityBinding) → State
      → (sequence_start : ℕ) → Option (Result (PollRun × State))
  run_poll_phase fuel materialized binding state sequence_start =
      if materialized
      then elim binding [ err e ↦ some (err e) | ok _ ↦ poll_loop fuel state [] sequence_start 0 0 ]
      else some (err execution_error)
