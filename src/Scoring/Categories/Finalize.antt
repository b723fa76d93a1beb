-- ===== src/Scoring/Categories/Finalize.antt =====
-- What a category result says, whichever evaluator it comes from.
use chainbreak.Common.{
  ◌*◌, ◌≤◌, ◌<◌, ◌≡◌, ◌↔◌, ◌⊎◌, inl, inr, refl, ap, true, false, List, [], ◌∷◌, arith, map, In,
  here, there, Bool-cases, first_or_later,
}
use chainbreak.Core.Enums.{Confidence, CategoryStatus, rank}
use chainbreak.Core.Errors.{ok, err, value_error}
use chainbreak.Analysis.Confidence.{Coverage, at_least, coverage_baseline_confidence}
use chainbreak.Analysis.Confidence.Minimum.{min_confidence_minimum}
use chainbreak.Analysis.Findings.{Finding}
use chainbreak.Scoring.Coverage.{no_coverage, coverage_ratio, is_exercised, category_confidence}
use chainbreak.Scoring.Categories.{
  CategoryResult, category_result, may_be_low, detector_failed, Evaluation, measured_status,
  with_detector, finalize,
}

-- A status that the coverage allows passes the validator.
category_result-ok :
    (r : CategoryResult)
    → (at_least r.coverage 7 ≡ true) ⊎ (may_be_low r.status ≡ true)
    → category_result r ≡ ok r
unfolding category_result
category_result-ok r (inl h) = ground (arith, h)
category_result-ok r (inr h) = ground (arith, h)

may_be_low-with_detector :
    (e : Evaluation) (s : CategoryStatus)
    → may_be_low s ≡ true
    → may_be_low (with_detector e s) ≡ true
unfolding with_detector may_be_low
may_be_low-with_detector e s h = ground (arith, h)

low_status :
    (e : Evaluation) (c : Coverage) → at_least c 7 ≡ false → may_be_low (measured_status e c) ≡ true
unfolding measured_status may_be_low
low_status e c h = ground (arith, h)

allowed_status :
    (e : Evaluation) (c : Coverage)
    → (at_least c 7 ≡ true) ⊎ (may_be_low (with_detector e (measured_status e c)) ≡ true)
allowed_status e c = elim (Bool-cases (at_least c 7)) [
  | inl h ↦ inl h
  | inr h ↦ inr (may_be_low-with_detector e (measured_status e c) (low_status e c h))
]

In-map : {f : Finding} (gs : List Finding) → In f gs → In f.confidence (map (λ f. f.confidence) gs)
In-map [] m = elim m [ ]
In-map (g ∷ gs) (here e) = here (ap (λ f. f.confidence) e)
In-map (g ∷ gs) (there m) = there (In-map gs m)

map-In :
    (k : Confidence) (gs : List Finding)
    → In k (map (λ f. f.confidence) gs)
    → (f : Finding) × In f gs × (k ≡ f.confidence)
map-In k [] m = elim m [ ]
map-In k (g ∷ gs) (here e) = (g, here refl, e)
map-In k (g ∷ gs) (there m) = let (f, at, e) = map-In k gs m in (f, there at, e)

-- The confidence is the least of those of the coverage and of the findings: below each, and one of
-- them.
abbrev pub IsLeast : Coverage → List Finding → Confidence → Type 0
IsLeast c fs k =
    (rank k ≤ rank (coverage_baseline_confidence c))
    × ((f : Finding) → In f fs → rank k ≤ rank f.confidence)
    × ((k ≡ coverage_baseline_confidence c) ⊎ ((f : Finding) × In f fs × (k ≡ f.confidence)))

category_confidence-IsLeast :
    (c : Coverage) (fs : List Finding) → IsLeast c fs (category_confidence c fs)
unfolding category_confidence
category_confidence-IsLeast c fs =
    let confidences = map (λ f. f.confidence) fs in
    let (member, below) = min_confidence_minimum (coverage_baseline_confidence c) confidences in
    (
      below (coverage_baseline_confidence c) (here refl),
      λ f m. below f.confidence (there (In-map fs m)),
      elim (first_or_later member) [ inl e ↦ inl e | inr m ↦ inr (map-In _ fs m) ],
    )

-- The status of a category, by the detector check, the counts and the signals.
abbrev pub HasStatus : Evaluation → CategoryStatus → Type 0
HasStatus e status =
    ((status ≡ CategoryStatus.detector_failed)
      ↔ (detector_failed e.category e.detector_checks ≡ true))
    × ((status ≡ CategoryStatus.not_measured) ↔ (
        (detector_failed e.category e.detector_checks ≡ false)
        × (is_exercised e.applicable e.measured ≡ false)))
    × ((status ≡ CategoryStatus.divergent) ↔ (
        (detector_failed e.category e.detector_checks ≡ false)
        × (is_exercised e.applicable e.measured ≡ true)
        × (7 * e.applicable ≤ 10 * e.measured)
        × (e.is_divergent ≡ true)))
    × ((status ≡ CategoryStatus.consistent) ↔ (
        (detector_failed e.category e.detector_checks ≡ false)
        × (is_exercised e.applicable e.measured ≡ true)
        × (7 * e.applicable ≤ 10 * e.measured)
        × (e.is_divergent ≡ false)
        × (e.is_partial_signal ≡ false)))

-- A category that was exercised has the coverage of its counts, names its contributing findings, and
-- has the least confidence of those of the coverage and of the findings; one that was not is at
-- INSUFFICIENT and names no finding.
abbrev pub IsModest : Evaluation → CategoryResult → Type 0
IsModest e r =
    (r.category ≡ e.category)
    × (is_exercised e.applicable e.measured ≡ true
        → (r.coverage ≡ record { measured = e.measured; applicable = e.applicable })
          × IsLeast r.coverage e.contributing r.confidence
          × (r.finding_ids ≡ map (λ f. f.finding_id) e.contributing))
    × (is_exercised e.applicable e.measured ≡ false
        → (r.confidence ≡ Confidence.insufficient) × (r.finding_ids ≡ []))

unexercised :
    (e : Evaluation)
    → is_exercised e.applicable e.measured ≡ false
    → HasStatus e (with_detector e CategoryStatus.not_measured)
unfolding with_detector
unexercised e h = (ground arith, ground arith, ground arith, ground arith)

exercised :
    (e : Evaluation)
    → is_exercised e.applicable e.measured ≡ true
    → HasStatus e (
        with_detector e
          (measured_status e (record { measured = e.measured; applicable = e.applicable })))
unfolding with_detector measured_status at_least
exercised e h = (ground arith, ground arith, ground arith, ground arith)

abbrev coverage_of : Evaluation → Coverage
coverage_of e = record { measured = e.measured; applicable = e.applicable }

coverage_ratio-ok :
    (e : Evaluation)
    → e.measured ≤ e.applicable
    → is_exercised e.applicable e.measured ≡ true
    → coverage_ratio e.measured e.applicable ≡ ok (coverage_of e)
unfolding coverage_ratio is_exercised
coverage_ratio-ok e h x = ground arith

not_measured_low : may_be_low CategoryStatus.not_measured ≡ true
unfolding may_be_low
not_measured_low = refl

-- Where no more cells were measured than apply, the evaluation gives a result: DETECTOR_FAILED
-- exactly when a negative control of the category failed; else NOT_MEASURED exactly when it was not
-- exercised; else DIVERGENT or CONSISTENT only on a coverage of at least 0.7, by the signals. An
-- exercised category names its contributing findings, and its confidence is the least of theirs and
-- that of its coverage; one that was not exercised names none, at INSUFFICIENT.
pub finalize_total :
    (e : Evaluation)
    → e.measured ≤ e.applicable
    → (r : CategoryResult) × (finalize e ≡ ok r) × HasStatus e r.status × IsModest e r
unfolding finalize
finalize_total e h = elim (Bool-cases (is_exercised e.applicable e.measured)) [
  | inl x ↦
      let c = coverage_of e in
      let r : CategoryResult = record {
        category = e.category;
        status = with_detector e (measured_status e c);
        finding_ids = map (λ f. f.finding_id) e.contributing;
        coverage = c;
        confidence = category_confidence c e.contributing;
      } in
      (
        r,
        rw (finalize, x, coverage_ratio-ok e h x) (category_result-ok r (allowed_status e c)),
        exercised e x,
        (
          refl,
          λ _. (refl, category_confidence-IsLeast c e.contributing, refl),
          λ y. absurd (ground (arith, x, y)),
        ),
      )
  | inr x ↦
      let r : CategoryResult = record {
        category = e.category;
        status = with_detector e CategoryStatus.not_measured;
        finding_ids = [];
        coverage = no_coverage;
        confidence = Confidence.insufficient;
      } in
      (
        r,
        rw (finalize, x)
            (category_result-ok r
              (inr (may_be_low-with_detector e CategoryStatus.not_measured not_measured_low))),
        unexercised e x,
        (refl, λ y. absurd (ground (arith, x, y)), λ _. (refl, refl)),
      )
]

-- Where more cells were measured than apply, and some apply, the evaluation raises an error.
finalize-err :
    (e : Evaluation) → 0 < e.applicable → e.applicable < e.measured → finalize e ≡ err value_error
unfolding finalize is_exercised coverage_ratio
finalize-err e h g = ground arith
