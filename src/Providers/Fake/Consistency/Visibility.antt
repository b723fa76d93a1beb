-- ===== src/Providers/Fake/Consistency/Visibility.antt =====
-- When a scheduled mutation is visible.
use chainbreak.Common.{
  ℕ, suc, zero, ◌+◌, ◌-◌, ◌≤◌, ◌<◌, ◌≡◌, refl, Bool, true, false, not, ◌&&◌, List, [], ◌∷◌, arith,
  ltb, leb, if◌then◌else◌, max, All, ltb→lt, leb→le, Bool-cases, inl, inr,
}
use chainbreak.Common.Int.{ℤ}
use chainbreak.Providers.Fake.Consistency.{
  MutationVisibility, flip_until, is_visible, ConsistencyModel, delay_of, insert_sorted, draw_flips,
  schedule,
}

-- Whether an odd number of the flips are at or before an instant.
abbrev pub odd_until : ℕ → List ℕ → Bool
odd_until t [] = false
odd_until t (f ∷ fs) = if leb f t then not (odd_until t fs) else odd_until t fs

abbrev pub IsAscending : List ℕ → Type 0
IsAscending [] = Unit
IsAscending (f ∷ fs) = All (λ g. f ≤ g) fs × IsAscending fs

flip_until-none : (t : ℕ) (b : Bool) (fs : List ℕ) → All (λ g. t < g) fs → flip_until t b fs ≡ b
unfolding flip_until
flip_until-none t b [] h = refl
flip_until-none t b (f ∷ fs) h = ground (arith, h.0)

odd_until-none : (t : ℕ) (fs : List ℕ) → All (λ g. t < g) fs → odd_until t fs ≡ false
odd_until-none t [] h = refl
odd_until-none t (f ∷ fs) h = ground (arith, h.0, odd_until-none t fs h.1)

All-lt : (t f : ℕ) (fs : List ℕ) → t < f → All (λ g. f ≤ g) fs → All (λ g. t < g) fs
All-lt t f [] h a = tt
All-lt t f (g ∷ gs) h a = (omega (arith, h, a.0), All-lt t f gs h a.1)

-- The loop with its early exit counts the flips by parity, where they ascend.
flip_until-parity :
    (t : ℕ) (b : Bool) (fs : List ℕ)
    → IsAscending fs
    → flip_until t b fs ≡ (if odd_until t fs then not b else b)
unfolding flip_until
flip_until-parity t b [] h = refl
flip_until-parity t b (f ∷ fs) h = elim (Bool-cases (ltb t f)) [
  | inl e ↦ ground (arith, e, odd_until-none t fs (All-lt t f fs (ltb→lt t f e) h.0))
  | inr e ↦ ground (arith, e, flip_until-parity t (not b) fs h.1)
]

-- A mutation is invisible before it is applied, visible for good once it has settled, and in between
-- visible exactly when an odd number of its flips has passed.
pub is_visible_phases :
    (v : MutationVisibility) (t : ℕ)
    → v.applied_at_ms ≤ v.settle_at_ms
    → IsAscending v.oscillation_flips_ms
    → (t < v.applied_at_ms → is_visible v t ≡ false)
      × (v.settle_at_ms ≤ t → is_visible v t ≡ true)
      × (v.applied_at_ms ≤ t
          → t < v.settle_at_ms
          → is_visible v t ≡ odd_until t v.oscillation_flips_ms)
unfolding is_visible
is_visible_phases v t order ascending = (
  λ h. ground arith,
  λ h. ground arith,
  λ h g. ground (arith, flip_until-parity t false v.oscillation_flips_ms ascending),
)

insert_sorted-All :
    (P : ℕ → Type 0) (x : ℕ) (ys : List ℕ) → P x → All P ys → All P (insert_sorted x ys)
unfolding insert_sorted
insert_sorted-All P x [] h a = (h, tt)
insert_sorted-All P x (y ∷ ys) h a = elim (Bool-cases (leb x y)) [
  | inl e ↦ rw e (h, a)
  | inr e ↦ rw e (a.0, insert_sorted-All P x ys h a.1)
]

All-le : (x y : ℕ) (ys : List ℕ) → x ≤ y → All (λ g. y ≤ g) ys → All (λ g. x ≤ g) ys
All-le x y [] h a = tt
All-le x y (z ∷ zs) h a = (omega (arith, h, a.0), All-le x y zs h a.1)

insert_sorted-IsAscending :
    (x : ℕ) (ys : List ℕ) → IsAscending ys → IsAscending (insert_sorted x ys)
unfolding insert_sorted
insert_sorted-IsAscending x [] h = (tt, tt)
insert_sorted-IsAscending x (y ∷ ys) h = elim (Bool-cases (leb x y)) [
  | inl e ↦ rw e ((leb→le x y e, All-le x y ys (leb→le x y e) h.0), h)
  | inr e ↦ rw e (
    insert_sorted-All (λ g. y ≤ g) x ys (ground (arith, e)) h.0,
    insert_sorted-IsAscending x ys h.1,
  )
]

All-map : {P Q : ℕ → Type 0} → ((g : ℕ) → P g → Q g) → (xs : List ℕ) → All P xs → All Q xs
All-map f [] a = tt
All-map f (x ∷ xs) a = (f x a.0, All-map f xs a.1)

-- A visibility that settles no earlier than it is applied, with flips in order between the two.
abbrev pub IsOrdered : MutationVisibility → Type 0
IsOrdered v =
    (v.applied_at_ms ≤ v.settle_at_ms)
    × IsAscending v.oscillation_flips_ms
    × All (λ g. (v.applied_at_ms < g) × (g ≤ v.settle_at_ms)) v.oscillation_flips_ms

module _ (randint : ℕ → ℕ → ℕ)
    (in_range : (i top : ℕ) → 0 < top → (1 ≤ randint i top) × (randint i top ≤ top)) where
  draw_flips-IsAscending :
      (applied top count : ℕ) → IsAscending (draw_flips randint applied top count)
  unfolding draw_flips
  draw_flips-IsAscending applied top zero = tt
  draw_flips-IsAscending applied top (suc n) =
      insert_sorted-IsAscending (applied + randint n top) (draw_flips randint applied top n)
        (draw_flips-IsAscending applied top n)

  draw_flips_within :
      (applied top count : ℕ)
      → 0 < top
      → All (λ g. (applied < g) × (g ≤ applied + top)) (draw_flips randint applied top count)
  unfolding draw_flips
  draw_flips_within applied top zero h = tt
  draw_flips_within applied top (suc n) h =
      let (low, high) = in_range n top h in
      insert_sorted-All (λ g. (applied < g) × (g ≤ applied + top)) (applied + randint n top)
        (draw_flips randint applied top n) (omega (arith, low), omega (arith, high))
        (draw_flips_within applied top n h)

  -- The schedule of a mutation, whatever is drawn within range: it settles no earlier than it is
  -- applied, its flips ascend, and each falls after the application and not after the settling.
  -- Without oscillation it is visible exactly from the settling on.
  pub schedule-IsOrdered :
      (jitter : ℤ) (m : ConsistencyModel) (applied : ℕ)
      → IsOrdered (schedule jitter randint m applied)
        × (m.oscillate ≡ false
            → (t : ℕ)
            → is_visible (schedule jitter randint m applied) t
              ≡ leb (schedule jitter randint m applied).settle_at_ms t)
  unfolding schedule is_visible flip_until
  schedule-IsOrdered jitter m applied = (
    elim (Bool-cases (m.oscillate && ltb 0 (delay_of jitter m))) [
      | inl e ↦ (
        omega arith,
        rw e (
            draw_flips-IsAscending applied (max 1 (delay_of jitter m - 1))
              m.oscillation_flip_count),
        rw e (
            All-map (λ g l. (l.0, ground (arith, l.1, e)))
              (draw_flips randint applied (max 1 (delay_of jitter m - 1)) m.oscillation_flip_count)
              (draw_flips_within applied (max 1 (delay_of jitter m - 1)) m.oscillation_flip_count
                (ground arith))),
      )
      | inr e ↦ (omega arith, rw e tt, rw e tt)
    ],
    λ quiet t. rw quiet (ground arith),
  )
