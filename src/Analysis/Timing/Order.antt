-- ===== src/Analysis/Timing/Order.antt =====
-- The samples in time order, and the first and last instants of a kind.
use chainbreak.Common.{
  ℕ, ◌≤◌, ◌≡◌, refl, Bool, true, false, ◌&&◌, ◌||◌, List, [], ◌∷◌, none, some, arith, ◌==◌, mem,
  max, min, Option-cases, Bool-cases, leb, leb→le, ◌⊎◌, inl, inr,
}
use chainbreak.Core.Enums.{OutcomeClass}
use chainbreak.Analysis.Timing.{PollSample, insert_by_time, sort_by_time, times, latest, earliest}

-- The test holds of a sample with outcome of the kind at the instant.
abbrev pub sampled : (OutcomeClass → Bool) → ℕ → List PollSample → Bool
sampled p t [] = false
sampled p t (s ∷ ss) = (p s.outcome && t == s.monotonic_ns) || sampled p t ss

module _ (p : OutcomeClass → Bool) where
  sampled-insert :
      (t : ℕ) (s : PollSample) (ss : List PollSample)
      → sampled p t (insert_by_time s ss) ≡ sampled p t (s ∷ ss)
  unfolding insert_by_time
  sampled-insert t s [] = refl
  sampled-insert t s (u ∷ us) = ground (arith, sampled-insert t s us)

  pub sampled-sort : (t : ℕ) (ss : List PollSample) → sampled p t (sort_by_time ss) ≡ sampled p t ss
  unfolding sort_by_time
  sampled-sort t [] = refl
  sampled-sort t (s ∷ ss) = ground (arith, sampled-insert t s (sort_by_time ss), sampled-sort t ss)

  pub mem-times : (t : ℕ) (ss : List PollSample) → mem t (times p ss) ≡ sampled p t ss
  unfolding times
  mem-times t [] = refl
  mem-times t (s ∷ ss) = ground (arith, mem-times t ss)

max-cases : (a b : ℕ) → (max a b ≡ a) ⊎ (max a b ≡ b)
max-cases a b = elim (Bool-cases (leb b a)) [
  | inl low ↦ inl (omega (arith, leb→le b a low))
  | inr high ↦ inr (ground arith)
]

min-cases : (a b : ℕ) → (min a b ≡ a) ⊎ (min a b ≡ b)
min-cases a b = elim (Bool-cases (leb a b)) [
  | inl low ↦ inl (omega (arith, leb→le a b low))
  | inr high ↦ inr (ground arith)
]

pub latest-none : (ts : List ℕ) → latest ts ≡ none → (t : ℕ) → mem t ts ≡ false
unfolding latest
latest-none [] h t = refl
latest-none (u ∷ ts) h t = cc

pub latest-some :
    (ts : List ℕ) (u : ℕ)
    → latest ts ≡ some u
    → (mem u ts ≡ true) × ((t : ℕ) → mem t ts ≡ true → t ≤ u)
unfolding latest
latest-some [] u h = cc
latest-some (t ∷ ts) u h = elim (Option-cases (latest ts)) [
  | inl e ↦ (ground (arith, rw e at h), λ x m. ground (arith, rw e at h, latest-none ts e x))
  | inr (v, e) ↦
      let (there_it_is, top) = latest-some ts v e in
      (
        elim (max-cases t v) [
          | inl own ↦ ground (arith, rw e at h)
          | inr other ↦ ground (arith, rw (e, other) at h, there_it_is)
        ],
        λ x m. ground (arith, rw e at h, top x),
      )
]

pub earliest-none : (ts : List ℕ) → earliest ts ≡ none → (t : ℕ) → mem t ts ≡ false
unfolding earliest
earliest-none [] h t = refl
earliest-none (u ∷ ts) h t = cc

pub earliest-some :
    (ts : List ℕ) (u : ℕ)
    → earliest ts ≡ some u
    → (mem u ts ≡ true) × ((t : ℕ) → mem t ts ≡ true → u ≤ t)
unfolding earliest
earliest-some [] u h = cc
earliest-some (t ∷ ts) u h = elim (Option-cases (earliest ts)) [
  | inl e ↦ (ground (arith, rw e at h), λ x m. ground (arith, rw e at h, earliest-none ts e x))
  | inr (v, e) ↦
      let (there_it_is, bottom) = earliest-some ts v e in
      (ground (arith, rw e at h, there_it_is), λ x m. ground (arith, rw e at h, bottom x))
]
