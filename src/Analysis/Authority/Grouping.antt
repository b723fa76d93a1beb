-- ===== src/Analysis/Authority/Grouping.antt =====
-- The grouping of observations into cells: what the cell of a key is made of.
use chainbreak.Common.{
  ◌≡◌, refl, sym, ap, ◌∙◌, Bool, true, ◌&&◌, List, [], ◌∷◌, ◌++◌, arith, if◌then◌else◌, all, filter,
  Bool-cases, inl, inr, ==_iff,
}
use chainbreak.Core.Enums.Equality.{same_phase_iff}
use chainbreak.Core.Models.{Observation}
use chainbreak.Analysis.Authority.{
  CellKey, key_of, same_key, Groups, append_to, group_from, insert_by_trial, sort_by_trial,
}

-- The observations of a key, in the order in which they came; none where it has no group.
abbrev pub members : CellKey → Groups → List Observation
members k [] = []
members k ((j, group) ∷ groups) =
    let later = members k groups in if same_key k j then group else later

pub same_key-fields :
    (k j : CellKey)
    → same_key k j ≡ true
    → (k.identity_id ≡ j.identity_id) × (k.capability_id ≡ j.capability_id) × (k.phase ≡ j.phase)
unfolding same_key
same_key-fields k j h = (
  (==_iff k.identity_id j.identity_id).0 (ground (arith, h)),
  (==_iff k.capability_id j.capability_id).0 (ground (arith, h)),
  (same_phase_iff k.phase j.phase).0 (ground (arith, h)),
)

same_key_refl : (k : CellKey) → same_key k k ≡ true
unfolding same_key
same_key_refl k = ground (arith, (same_phase_iff k.phase k.phase).1 refl)

-- Keys that are the same are the same to every third.
pub same_key-cong : (l k j : CellKey) → same_key k j ≡ true → same_key l k ≡ same_key l j
unfolding same_key
same_key-cong l k j h = let (i, c, p) = same_key-fields k j h in rw (i, c, p) refl

same_key-cong_left : (k j l : CellKey) → same_key k j ≡ true → same_key k l ≡ same_key j l
unfolding same_key
same_key-cong_left k j l h = let (i, c, p) = same_key-fields k j h in rw (i, c, p) refl

members-append_to :
    (k j : CellKey) (o : Observation) (gs : Groups)
    → members k (append_to j o gs)
      ≡ (if same_key k j then members k gs ++ (o ∷ []) else members k gs)
unfolding append_to
members-append_to k j o [] = refl
members-append_to k j o ((l, group) ∷ gs) = elim (Bool-cases (same_key j l)) [
  | inl e ↦ ground (arith, e, same_key-cong k j l e)
  | inr e ↦ elim (Bool-cases (same_key k l)) [
    | inl f ↦ elim (Bool-cases (same_key k j)) [
      | inl g ↦ absurd (ground (arith, e, f, same_key-cong_left k j l g))
      | inr g ↦ ground (arith, e, f, g)
    ]
    | inr f ↦ ground (arith, e, f, members-append_to k j o gs)
  ]
]

append_assoc : {A : Type 0} (xs ys zs : List A) → (xs ++ ys) ++ zs ≡ xs ++ (ys ++ zs)
append_assoc [] ys zs = refl
append_assoc (x ∷ xs) ys zs = ap (λ r. x ∷ r) (append_assoc xs ys zs)

append_nil : {A : Type 0} (xs : List A) → xs ++ [] ≡ xs
append_nil [] = refl
append_nil (x ∷ xs) = ap (λ r. x ∷ r) (append_nil xs)

-- The group of a key is the list of its observations, in the order in which they came.
pub members-group_from :
    (k : CellKey) (os : List Observation) (gs : Groups)
    → members k (group_from gs os) ≡ members k gs ++ filter (λ o. same_key k (key_of o)) os
unfolding group_from
members-group_from k [] gs = sym (append_nil (members k gs))
members-group_from k (o ∷ os) gs = elim (Bool-cases (same_key k (key_of o))) [
  | inl e ↦
      members-group_from k os (append_to (key_of o) o gs)
      ∙ rw (members-append_to k (key_of o) o gs, e)
          (append_assoc (members k gs) (o ∷ []) (filter (λ o. same_key k (key_of o)) os))
  | inr e ↦
      members-group_from k os (append_to (key_of o) o gs)
      ∙ rw (members-append_to k (key_of o) o gs, e) refl
]

-- Sorting by trial changes no test on all of the observations.
insert_by_trial-all :
    (p : Observation → Bool) (o : Observation) (os : List Observation)
    → all p (insert_by_trial o os) ≡ (p o && all p os)
unfolding insert_by_trial
insert_by_trial-all p o [] = refl
insert_by_trial-all p o (q ∷ qs) = ground (arith, insert_by_trial-all p o qs)

pub sort_by_trial-all :
    (p : Observation → Bool) (os : List Observation) → all p (sort_by_trial os) ≡ all p os
unfolding sort_by_trial
sort_by_trial-all p [] = refl
sort_by_trial-all p (o ∷ os) =
    ground (arith, insert_by_trial-all p o (sort_by_trial os), sort_by_trial-all p os)
