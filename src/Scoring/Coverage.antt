-- ===== src/Scoring/Coverage.antt =====
-- src/chainbreak/scoring/coverage.py and src/chainbreak/scoring/confidence.py.
use chainbreak.Common.{ℕ, Bool, ◌&&◌, List, ◌∷◌, ltb, ◌==◌, if◌then◌else◌, map}
use chainbreak.Core.Enums.{Confidence}
use chainbreak.Core.Errors.{Result, ok, raise_if, value_error, ◌>>◌}
use chainbreak.Analysis.Confidence.{Coverage, min_confidence, coverage_baseline_confidence}
use chainbreak.Analysis.Findings.{Finding}

-- The coverage 0.0.
abbrev pub no_coverage : Coverage
no_coverage = record { measured = 0; applicable = 1 }

-- `measured / applicable`; a negative count is no ℕ.
unfoldable pub coverage_ratio : (measured applicable : ℕ) → Result Coverage
coverage_ratio measured applicable = if applicable == 0 then ok no_coverage else (do
  raise_if (ltb applicable measured) value_error
  ok (record { measured = measured; applicable = applicable }))

unfoldable pub is_exercised : (applicable measured : ℕ) → Bool
is_exercised applicable measured = ltb 0 applicable && ltb 0 measured

unfoldable pub category_confidence : Coverage → List Finding → Confidence
category_confidence coverage contributing =
    min_confidence (coverage_baseline_confidence coverage ∷ map (λ f. f.confidence) contributing)
