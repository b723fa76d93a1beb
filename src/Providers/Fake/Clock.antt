-- ===== src/Providers/Fake/Clock.antt =====
-- src/chainbreak/providers/fake/clock.py: virtual milliseconds, advanced by explicit calls only.
use chainbreak.Common.{ℕ, ◌+◌}
use chainbreak.Common.Int.{ℤ, pos, negsuc}
use chainbreak.Core.Errors.{Result, ok, err, value_error}

-- `advance`: the state is the instant; a negative step raises.
unfoldable pub advance : ℕ → ℤ → Result ℕ
advance now_ms (pos milliseconds) = ok (now_ms + milliseconds)
advance now_ms (negsuc _) = err value_error
