-- ===== src/Core/Clock.antt =====
-- src/chainbreak/core/clock.py: the deadline of a run. The monotonic source is read by the caller,
-- and the reading is an argument; seconds that the code computes as floats are exact nanoseconds.
use chainbreak.Common.{ℕ, ◌+◌, ◌-◌, ◌*◌, Bool, leb}
use chainbreak.Core.Errors.{Result, raise_if, run_duration_exceeded_error}

abbrev pub nanoseconds_per_second : ℕ
nanoseconds_per_second = 1000000000

pub record RunClock : Type 0 where
  pub max_duration_seconds : ℕ
  pub start_ns : ℕ
  pub deadline_ns : ℕ

-- `__init__`
unfoldable pub arm : (max_duration_seconds now_ns : ℕ) → RunClock
arm max_duration_seconds now_ns = record {
  max_duration_seconds = max_duration_seconds;
  start_ns = now_ns;
  deadline_ns = now_ns + max_duration_seconds * nanoseconds_per_second;
}

unfoldable pub expired : RunClock → ℕ → Bool
expired clock now_ns = leb clock.deadline_ns now_ns

unfoldable pub check : RunClock → ℕ → Result (Unit {0})
check clock now_ns = raise_if (leb clock.deadline_ns now_ns) run_duration_exceeded_error

-- `elapsed_seconds` and `remaining_seconds`, in nanoseconds; the source is monotonic.
unfoldable pub elapsed : RunClock → ℕ → ℕ
elapsed clock now_ns = now_ns - clock.start_ns

unfoldable pub remaining : RunClock → ℕ → ℕ
remaining clock now_ns = clock.deadline_ns - now_ns
