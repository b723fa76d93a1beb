-- ===== src/Graph/Divergence/Drift.antt =====
-- What each drift class says of the gains of a node and its parent.
use chainbreak.Common.{
  ℕ, ◌≡◌, ◌⊎◌, refl, true, false, ◌&&◌, [], ◌∷◌, Option, none, some, arith, mem, Bool-cases, inl,
  inr,
}
use chainbreak.Core.Authority.{AuthoritySet, is_empty, set_eq, is_subset_of, is_superset_of}
use chainbreak.Core.Authority.Algebra.{is_subset_of_iff, is_empty_iff}
use chainbreak.Core.Enums.{DriftClass}
use chainbreak.Graph.Divergence.{classify_gains}

abbrev Has : AuthoritySet → Type 0
Has s = (c : ℕ) × (mem c s ≡ true)

abbrev HasNone : AuthoritySet → Type 0
HasNone s = (c : ℕ) → mem c s ≡ false

abbrev Within : AuthoritySet → AuthoritySet → Type 0
Within s t = (c : ℕ) → mem c s ≡ true → mem c t ≡ true

-- The specification of the classes, by the members of the gains.
abbrev pub Drifts : AuthoritySet → AuthoritySet → Option DriftClass → Type 0
Drifts gain parent none = HasNone gain × HasNone parent
Drifts gain parent (some DriftClass.corrected) = HasNone gain × Has parent
Drifts gain parent (some DriftClass.amplified) =
    Has parent × Within parent gain × ¬ Within gain parent
Drifts gain parent (some DriftClass.propagated) = Has gain × Within gain parent
Drifts gain parent (some DriftClass.originated) =
    Has gain × ¬ Within gain parent × (¬ Has parent ⊎ ¬ Within parent gain)

some_member : (s : AuthoritySet) → is_empty s ≡ false → Has s
unfolding is_empty
some_member [] h = cc
some_member (c ∷ s) h = (c, ground arith)

superset_flip : (s t : AuthoritySet) → is_superset_of s t ≡ is_subset_of t s
unfolding is_superset_of
superset_flip s t = refl

set_eq-subsets : (s t : AuthoritySet) → set_eq s t ≡ (is_subset_of s t && is_subset_of t s)
unfolding set_eq
set_eq-subsets s t = refl

not-Within : (s t : AuthoritySet) → is_subset_of s t ≡ false → ¬ Within s t
not-Within s t h w = cc (h, (is_subset_of_iff s t).1 w)

module _ (gain parent : AuthoritySet) where
  abbrev Classified : Type 0
  Classified = Drifts gain parent (classify_gains gain parent)

  nothing_gained : is_empty gain ≡ true → Classified
  nothing_gained g = elim (Bool-cases (is_empty parent)) [
    | inl p ↦
        let e : classify_gains gain parent ≡ none = unfold classify_gains in ground arith in
        rw e ((is_empty_iff gain).0 g, (is_empty_iff parent).0 p)
    | inr p ↦
        let e : classify_gains gain parent ≡ some DriftClass.corrected =
          unfold classify_gains in ground arith in
        rw e ((is_empty_iff gain).0 g, some_member parent p)
  ]

  within_parent : is_empty gain ≡ false → is_subset_of gain parent ≡ true → Classified
  within_parent g w =
      let e : classify_gains gain parent ≡ some DriftClass.propagated =
        unfold classify_gains in
        ground (arith, superset_flip gain parent, set_eq-subsets gain parent) in
      rw e (some_member gain g, (is_subset_of_iff gain parent).0 w)

  beyond_parent : is_empty gain ≡ false → is_subset_of gain parent ≡ false → Classified
  beyond_parent g w = elim (Bool-cases (is_empty parent)) [
    | inl p ↦
        originated_here (inl (λ (c, m). cc (m, (is_empty_iff parent).0 p c)))
          (unfold classify_gains in ground (arith, superset_flip gain parent))
    | inr p ↦ elim (Bool-cases (is_subset_of parent gain)) [
      | inl s ↦
          let e : classify_gains gain parent ≡ some DriftClass.amplified =
            unfold classify_gains in
            ground (arith, superset_flip gain parent, set_eq-subsets gain parent) in
          rw e (some_member parent p, (is_subset_of_iff parent gain).0 s, not-Within gain parent w)
      | inr s ↦
          originated_here (inr (not-Within parent gain s))
            (unfold classify_gains in ground (arith, superset_flip gain parent))
    ]
  ]
    where
      originated_here :
          (¬ Has parent ⊎ ¬ Within parent gain)
          → classify_gains gain parent ≡ some DriftClass.originated
          → Classified
      originated_here why e = rw e (some_member gain g, not-Within gain parent w, why)

-- The class of a hop is the one that its gains call for: none where neither gained, CORRECTED
-- where only the parent did, AMPLIFIED where the node has all of the parent's gain and more,
-- PROPAGATED where the node's gain lies in the parent's, ORIGINATED for any other.
classify_gains-Drifts :
    (gain parent : AuthoritySet) → Drifts gain parent (classify_gains gain parent)
classify_gains-Drifts gain parent = elim (Bool-cases (is_empty gain)) [
  | inl g ↦ nothing_gained gain parent g
  | inr g ↦ elim (Bool-cases (is_subset_of gain parent)) [
    | inl w ↦ within_parent gain parent g w
    | inr w ↦ beyond_parent gain parent g w
  ]
]
