-- ===== src/Analysis/Authority/Partition.antt =====
-- Every capability of the universe ends up in one place: held, denied or excluded.
use chainbreak.Common.{
  ℕ, suc, ◌+◌, ◌≡◌, refl, ap, ◌∙◌, Bool, false, ◌&&◌, ◌||◌, List, [], ◌∷◌, Option, none, some,
  arith, ◌==◌, if◌then◌else◌, mem, length, is_none, Option-cases, Bool-cases, inl, inr, ==_iff,
}
use chainbreak.Common.Dict.{Dict, lookup}
use chainbreak.Core.Authority.{AuthoritySet, sorted, len}
use chainbreak.Core.Authority.Canonical.{mem-sorted}
use chainbreak.Core.Enums.{ExclusionReason, PlanPhase, is_allowed, is_denial}
use chainbreak.Core.Errors.{ok}
use chainbreak.Core.Models.{ObservedAuthority, observed_authority}
use chainbreak.Analysis.Cells.{ProbeCellResult, exclusion_by_outcome, resolved}
use chainbreak.Analysis.Cells.Unanimity.{resolve_outcome_total, resolve_cell_total}
use chainbreak.Analysis.Authority.{Tally, add_capability, tally, build_observed_authority}

module _ (cells : Dict ProbeCellResult) where
  -- Where a capability belongs by its cell: held if it resolved to ALLOWED, denied if it resolved
  -- to a denial, excluded for a reason if it was not probed or did not resolve.
  abbrev pub is_held : ℕ → Bool
  is_held c = elim (lookup c cells) [ none ↦ false | some cell ↦ is_allowed (resolved cell) ]

  abbrev pub is_denied : ℕ → Bool
  is_denied c = elim (lookup c cells) [ none ↦ false | some cell ↦ is_denial (resolved cell) ]

  abbrev pub reason_of : ℕ → Option ExclusionReason
  reason_of c = elim (lookup c cells) [
    | none ↦ some ExclusionReason.not_probed
    | some cell ↦ exclusion_by_outcome (resolved cell)
  ]

  at_missing :
      (c : ℕ)
      → lookup c cells ≡ none
      → (is_held c ≡ false)
        × (is_denied c ≡ false)
        × (reason_of c ≡ some ExclusionReason.not_probed)
  at_missing c e = (ground (arith, e), ground (arith, e), ground (arith, e))

  at_cell :
      (c : ℕ) (cell : ProbeCellResult)
      → lookup c cells ≡ some cell
      → (is_held c ≡ is_allowed (resolved cell))
        × (is_denied c ≡ is_denial (resolved cell))
        × (reason_of c ≡ exclusion_by_outcome (resolved cell))
  at_cell c cell e = (ground (arith, e), ground (arith, e), ground (arith, e))

  -- The three are exhaustive, and no two hold together.
  pub one_verdict :
      (c : ℕ)
      → (is_none (reason_of c) ≡ (is_held c || is_denied c)) × ((is_held c && is_denied c) ≡ false)
  one_verdict c = elim (Option-cases (lookup c cells)) [
    | inl missing ↦
        let (h, d, r) = at_missing c missing in (ground (arith, h, d, r), ground (arith, h, d))
    | inr (cell, found) ↦
        let (h, d, r) = at_cell c cell found in
        let (_, exhaustive, exclusive) = resolve_outcome_total (resolved cell) in
        (rw (h, d, r) exhaustive, rw (h, d) exclusive)
  ]

  pub record Sorts (universe : List ℕ) (t : Tally) : Type 0 where
    pub held : (c : ℕ) → mem c t.capabilities ≡ (mem c universe && is_held c)
    pub excluded : (c : ℕ) → lookup c t.excluded ≡ (if mem c universe then reason_of c else none)
    pub counted : t.classified + length t.excluded ≡ length universe

  exclude-Sorts :
      (c : ℕ) (universe : List ℕ) (t : Tally) (r : ExclusionReason)
      → is_held c ≡ false
      → reason_of c ≡ some r
      → Sorts universe t
      → Sorts (c ∷ universe) (record t { excluded = (c, r) ∷ t.excluded })
  exclude-Sorts c universe t r h e s = record {
    held = λ a. elim (Bool-cases (a == c)) [
      | inl same ↦
          let a_is_c : a ≡ c = (==_iff a c).0 same in ground (arith, s.held a, ap is_held a_is_c)
      | inr other ↦ ground (arith, s.held a)
    ];
    excluded = λ a. elim (Bool-cases (a == c)) [
      | inl same ↦
          let a_is_c : a ≡ c = (==_iff a c).0 same in
          ground (arith, s.excluded a, ap reason_of a_is_c)
      | inr other ↦ ground (arith, s.excluded a)
    ];
    counted = omega (arith, s.counted);
  }

  classify-Sorts :
      (c : ℕ) (universe : List ℕ) (t : Tally)
      → reason_of c ≡ none
      → Sorts universe t
      → Sorts (c ∷ universe) (record t {
        capabilities = if is_held c then c ∷ t.capabilities else t.capabilities;
        classified = suc t.classified;
      })
  classify-Sorts c universe t e s = record {
    held = λ a. elim (Bool-cases (a == c)) [
      | inl same ↦
          let a_is_c : a ≡ c = (==_iff a c).0 same in ground (arith, s.held a, ap is_held a_is_c)
      | inr other ↦ ground (arith, s.held a)
    ];
    excluded = λ a. elim (Bool-cases (a == c)) [
      | inl same ↦
          let a_is_c : a ≡ c = (==_iff a c).0 same in
          ground (arith, s.excluded a, ap reason_of a_is_c)
      | inr other ↦ ground (arith, s.excluded a)
    ];
    counted = omega (arith, s.counted);
  }

  tally-Sorts : (universe : List ℕ) → (t : Tally) × (tally cells universe ≡ ok t) × Sorts universe t
  unfolding tally add_capability
  tally-Sorts [] = (
    record { capabilities = []; excluded = []; classified = 0 },
    refl,
    record { held = λ c. refl; excluded = λ c. refl; counted = omega arith },
  )
  tally-Sorts (c ∷ universe) =
      let (t, e, s) = tally-Sorts universe in
      elim (Option-cases (lookup c cells)) [
        | inl missing ↦ (
          record t { excluded = (c, ExclusionReason.not_probed) ∷ t.excluded },
          ground arith,
          exclude-Sorts c universe t ExclusionReason.not_probed (at_missing c missing).0
              (at_missing c missing).2 s,
        )
        | inr (cell, found) ↦
            let (h, d, why_not) = at_cell c cell found in
            let (_, exhaustive, _) = resolve_outcome_total (resolved cell) in
            let resolves = resolve_cell_total cell in
            elim (Option-cases (exclusion_by_outcome (resolved cell))) [
              | inl classified ↦ (
                record t {
                  capabilities = if is_held c then c ∷ t.capabilities else t.capabilities;
                  classified = suc t.classified;
                },
                ground (arith, found, resolves, e, h, classified),
                classify-Sorts c universe t (why_not ∙ classified) s,
              )
              | inr (r, why) ↦ (
                record t { excluded = (c, r) ∷ t.excluded },
                ground (arith, found, resolves, e, h, why, exhaustive),
                exclude-Sorts c universe t r (ground (arith, h, why, exhaustive)) (why_not ∙ why) s,
              )
            ]
      ]

-- Observed authority can always be built. A capability is in it exactly when it was in the universe
-- and its cell resolved to ALLOWED; it is excluded, with its reason, exactly when it was in the
-- universe and was not probed or did not resolve; what is classified and what is excluded add up
-- to what was attempted.
pub build_observed_authority_partition :
    (phase : PlanPhase) (matrix : ℕ) (universe : AuthoritySet) (cells : Dict ProbeCellResult)
    → (o : ObservedAuthority) × (build_observed_authority phase matrix universe cells ≡ ok o)
      × ((c : ℕ) → mem c o.capabilities ≡ (mem c universe && is_held cells c))
      × ((c : ℕ) → lookup c o.excluded ≡ (if mem c universe then reason_of cells c else none))
      × (o.classified + length o.excluded ≡ o.attempted)
unfolding build_observed_authority
build_observed_authority_partition phase matrix universe cells =
    let (t, e, s) = tally-Sorts cells (sorted universe) in
    (
      record {
        capabilities = t.capabilities;
        excluded = t.excluded;
        phase = phase;
        probe_matrix_id = matrix;
        attempted = len universe;
        classified = t.classified;
      },
      unfold observed_authority len in ground (arith, e, s.counted),
      λ c. ground (arith, s.held c, mem-sorted c universe),
      λ c. ground (arith, s.excluded c, mem-sorted c universe),
      unfold len in s.counted,
    )
