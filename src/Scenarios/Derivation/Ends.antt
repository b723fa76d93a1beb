-- ===== src/Scenarios/Derivation/Ends.antt =====
-- The recursion over the delegations ends, since none of its paths meets an identity twice.
use chainbreak.Common.{
  ℕ, zero, suc, ◌+◌, ◌<◌, ◌≤◌, ◌≡◌, ◌≢◌, refl, sym, ap, ◌∙◌, inl, inr, true, false, List, [], ◌∷◌,
  Option, some, arith, ◌==◌, ==_refl, ==_iff, length, mem, In, Bool-cases,
}
use chainbreak.Common.Dict.{Dict}
use chainbreak.Common.Nodup.{Nodup, Nodup-length-le}
use chainbreak.Core.Authority.{AuthoritySet, inter}
use chainbreak.Core.Errors.{Result, ok, err, Result-cases}
use chainbreak.Core.Models.{IdentityId}
use chainbreak.Scenarios.Spec.{IdentitySpec, DelegationSpec}
use chainbreak.Scenarios.Derivation.{
  Tables, Derived, enter_identity, open_delegation, visit_each, visit, children_of,
}
use chainbreak.Scenarios.Derivation.Indexed.{
  IsIndexed, TargetsDiffer, IdsDiffer, delegation_targets, In-delegation_targets,
}
use chainbreak.Scenarios.Derivation.Calls.{next_visit, open_delegation-eq}

length-delegation_targets : (ds : List DelegationSpec) → length (delegation_targets ds) ≡ length ds
length-delegation_targets [] = refl
length-delegation_targets (d ∷ ds) = ap suc (length-delegation_targets ds)

abbrev Ends : Option (Result Derived) → Type 0
Ends r = (result : Result Derived) × (r ≡ some result)

visit_each-Ends :
    (t : Tables) (e : AuthoritySet) (recurse : DelegationSpec → Derived → Option (Result Derived))
    (ids : List ℕ) (s : Derived)
    → ((c : ℕ) (d : DelegationSpec) (before opened : Derived)
        → mem c ids ≡ true
        → open_delegation t e c before ≡ ok (d, opened)
        → Ends (recurse d opened))
    → Ends (visit_each t e recurse ids s)
unfolding visit_each
visit_each-Ends t e recurse [] s ends = (ok s, refl)
visit_each-Ends t e recurse (c ∷ ids) s ends = elim (Result-cases (open_delegation t e c s)) [
  | inl (x, failed) ↦ (err x, (rw (visit_each, failed) refl))
  | inr ((d, opened), first) ↦
      let (r, called) = ends c d s opened (ground (arith, ==_refl c)) first in
      elim (Result-cases r) [
        | inl (x, failed) ↦ (err x, (rw (visit_each, first, called, failed) refl))
        | inr (between, succeeded) ↦
            let (result, rest) =
              visit_each-Ends t e recurse ids between
                (λ k d' s' o m. ends k d' s' o (ground (arith, m))) in
            (result, (rw (visit_each, first, called, succeeded) rest))
      ]
]

module _ (ds : List DelegationSpec) (root : IdentityId) (t : Tables) (indexed : IsIndexed ds t)
    (distinct : IdsDiffer ds) (differ : TargetsDiffer ds)
    (untargeted : (d : DelegationSpec) → In d ds → d.to ≢ root)
    (identities : Dict IdentitySpec) where
  -- A path of the recursion, from an identity back to the root.
  abbrev IsTrail : IdentityId → List IdentityId → Type 0
  IsTrail i [] = i ≡ root
  IsTrail i (j ∷ rest) =
      ((d : DelegationSpec) × In d ds × (d.from_ ≡ j) × (d.to ≡ i)) × IsTrail j rest

  -- An identity of a path that is not the root came from a later place of it.
  source_below :
      (c i : IdentityId) (rest : List IdentityId)
      → IsTrail i rest
      → c ≢ root
      → mem c (i ∷ rest) ≡ true
      → (d : DelegationSpec) × In d ds × (d.to ≡ c) × (mem d.from_ rest ≡ true)
  source_below c i [] trail not_root m =
      absurd (not_root ((==_iff c i).0 (ground (arith, m)) ∙ trail))
  source_below c i (j ∷ rest) ((d, at, from_j, to_i), trail) not_root m =
      elim (Bool-cases (c == i)) [
        | inl e ↦
            let same : c ≡ i = (==_iff c i).0 e in
            (d, at, to_i ∙ sym same, (rw from_j (ground (arith, ==_refl j))))
        | inr other ↦
            let (d', at', to_c, below) =
              source_below c j rest trail not_root (ground (arith, m, other)) in
            (d', at', to_c, ground (arith, below))
      ]

  -- A child of an identity on a path without repetition is not on it.
  child_fresh :
      (d : DelegationSpec) (i : IdentityId) (rest : List IdentityId)
      → In d ds
      → d.from_ ≡ i
      → IsTrail i rest
      → Nodup (i ∷ rest)
      → mem d.to (i ∷ rest) ≡ false
  child_fresh d i rest at from_i trail nodup = elim (Bool-cases (mem d.to (i ∷ rest))) [
    | inr fresh ↦ fresh
    | inl m ↦
        let (d', at', to_c, below) = source_below d.to i rest trail (untargeted d at) m in
        let same : d' ≡ d = differ d' d at' at to_c in
        let again : mem i rest ≡ true = rw (sym from_i) (rw same at below) in
        let once = nodup.0 in cc
  ]

  trail_inside :
      (i : IdentityId) (rest : List IdentityId)
      → IsTrail i rest
      → (x : IdentityId) → mem x (i ∷ rest) ≡ true
      → mem x (root ∷ delegation_targets ds) ≡ true
  trail_inside i rest trail x m = elim (Bool-cases (x == root)) [
    | inl e ↦ ground (arith, e)
    | inr other ↦
        let (d, at, to_x, _) =
          source_below x i rest trail (λ e. let h = (==_iff x root).1 e in cc) m in
        let listed = In-delegation_targets ds d at in
        let inside = rw to_x at listed in ground (arith, inside)
  ]

  trail_short :
      (i : IdentityId) (rest : List IdentityId)
      → IsTrail i rest
      → Nodup (i ∷ rest)
      → length (i ∷ rest) ≤ suc (length ds)
  trail_short i rest trail nodup =
      let h =
        Nodup-length-le (i ∷ rest) (root ∷ delegation_targets ds) nodup
          (trail_inside i rest trail) in
      omega (arith, h, length-delegation_targets ds)

  pub visit-Ends :
      (fuel i h : ℕ) (p : Option IdentityId) (e : AuthoritySet) (s : Derived)
      (rest : List IdentityId)
      → IsTrail i rest
      → Nodup (i ∷ rest)
      → suc (length ds) < fuel + length (i ∷ rest)
      → Ends (visit identities t fuel i h p e s)
  unfolding visit
  visit-Ends zero i h p e s rest trail nodup enough =
      absurd (omega (arith, trail_short i rest trail nodup, enough))
  visit-Ends (suc fuel) i h p e s rest trail nodup enough =
      elim (Result-cases (enter_identity identities i h p e s)) [
        | inl (x, failed) ↦ (err x, (rw (visit, failed) refl))
        | inr (entered, first) ↦
            let (result, ended) =
              visit_each-Ends t e (next_visit identities t fuel i h e) (children_of t i) entered
                (λ c d before opened m first'.
                  let (found, _) = open_delegation-eq t e c before first' in
                  let (at, key) = indexed.by_id c d found in
                  let (d', at', key', from', _) = indexed.children i c m in
                  let same : d' ≡ d = distinct d' d at' at (key' ∙ sym key) in
                  let from_i : d.from_ ≡ i = rw same at from' in
                  visit-Ends fuel d.to (suc h) (some i) (inter e d.intended_capabilities) opened
                    (i ∷ rest) ((d, at, from_i, refl), trail)
                    (child_fresh d i rest at from_i trail nodup, nodup) (omega (arith, enough))) in
            (result, (rw (visit, first) ended))
      ]
