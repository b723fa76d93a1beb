-- ===== src/Analysis/Confidence/Minimum.antt =====
-- The aggregate confidence is a lower bound of its contributors, and one of them.
use chainbreak.Common.{
  ◌≤◌, refl, List, [], ◌∷◌, arith, ltb, if◌then◌else◌, In, here, there, Bool-cases, inl, inr,
}
use chainbreak.Core.Enums.{Confidence, rank}
use chainbreak.Analysis.Confidence.{first_minimum, min_confidence}

first_minimum-le :
    (best : Confidence) (cs : List Confidence)
    → (rank (first_minimum best cs) ≤ rank best)
      × ((c : Confidence) → In c cs → rank (first_minimum best cs) ≤ rank c)
unfolding first_minimum
first_minimum-le best [] = (omega arith, λ c m. elim m [ ])
first_minimum-le best (c ∷ cs) =
    let next = if ltb (rank c) (rank best) then c else best in
    let (below, all_below) = first_minimum-le next cs in
    let smaller : (rank next ≤ rank best) × (rank next ≤ rank c) =
      elim (Bool-cases (ltb (rank c) (rank best))) [
        | inl e ↦ ground (arith, e)
        | inr e ↦ ground (arith, e)
      ] in
    (
      omega (arith, below, smaller.0),
      λ d m. elim m [ here e ↦ rw e (omega (arith, below, smaller.1)) | there m' ↦ all_below d m' ],
    )

first_minimum-In :
    (best : Confidence) (cs : List Confidence) → In (first_minimum best cs) (best ∷ cs)
unfolding first_minimum
first_minimum-In best [] = here refl
first_minimum-In best (c ∷ cs) = elim (Bool-cases (ltb (rank c) (rank best))) [
  | inl e ↦ there (rw e (first_minimum-In c cs))
  | inr e ↦ rw e (elim (first_minimum-In best cs) [ here f ↦ here f | there m ↦ there (there m) ])
]

-- A category is never more confident than any of its contributors, and its confidence is that of
-- one of them: the aggregate is a minimum.
pub min_confidence_minimum :
    (c : Confidence) (cs : List Confidence)
    → In (min_confidence (c ∷ cs)) (c ∷ cs)
      × ((d : Confidence) → In d (c ∷ cs) → rank (min_confidence (c ∷ cs)) ≤ rank d)
unfolding min_confidence
min_confidence_minimum c cs =
    let (below, all_below) = first_minimum-le c cs in
    (first_minimum-In c cs, λ d m. elim m [ here e ↦ rw e below | there m' ↦ all_below d m' ])
