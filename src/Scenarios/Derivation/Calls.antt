-- ===== src/Scenarios/Derivation/Calls.antt =====
-- What the calls of a `visit` that succeeds have given.
use chainbreak.Common.{
  ℕ, suc, ◌≡◌, sym, ap, ◌∙◌, inl, inr, List, [], ◌∷◌, ◌++◌, Option, none, some, arith, ◌==◌,
  Option-cases,
}
use chainbreak.Common.Dict.{Dict, lookup}
use chainbreak.Core.Authority.{AuthoritySet, inter}
use chainbreak.Core.Errors.{
  Result, Error, ok, or_raise, key_error, >>=-eq-ok, Result-cases, raise_if_then-eq-ok, value_error,
}
use chainbreak.Core.Models.{
  IdentityId, IdentityNode, DelegationEdge, identity_node, delegation_edge,
}
use chainbreak.Scenarios.Spec.{IdentitySpec, DelegationSpec}
use chainbreak.Scenarios.Derivation.{
  Tables, Derived, edge_of, enter_identity, open_delegation, visit_each, visit, children_of,
}

pub identity_node-eq : (n : IdentityNode) {m : IdentityNode} → identity_node n ≡ ok m → n ≡ m
unfolding identity_node
identity_node-eq n h = ground (arith, h)

delegation_edge-eq : (x : DelegationEdge) {y : DelegationEdge} → delegation_edge x ≡ ok y → x ≡ y
unfolding delegation_edge
delegation_edge-eq x h =
    let (_, kept) = raise_if_then-eq-ok (x.source_id == x.target_id) value_error (ok x) h in cc

pub or_raise-eq {ℓ} :
    {A : Type ℓ} (o : Option A) (x : Error) {a : A} → or_raise o x ≡ ok a → o ≡ some a
or_raise-eq none x h = cc
or_raise-eq (some b) x h = cc

pub open_delegation-eq :
    (t : Tables) (e : AuthoritySet) (c : ℕ) (s : Derived) {d : DelegationSpec} {opened : Derived}
    → open_delegation t e c s ≡ ok (d, opened)
    → (lookup c t.delegation_by_id ≡ some d)
      × (record s { edges = s.edges ++ edge_of d (inter e d.intended_capabilities) ∷ [] } ≡ opened)
unfolding open_delegation
open_delegation-eq t e c s {d} {opened} made =
    let (d', found, step) = >>=-eq-ok (or_raise (lookup c t.delegation_by_id) key_error) _ made in
    let (y, built, last) =
      >>=-eq-ok (delegation_edge (edge_of d' (inter e d'.intended_capabilities))) _ step in
    let same = delegation_edge-eq (edge_of d' (inter e d'.intended_capabilities)) built in
    let key : d' ≡ d = cc in
    let grown : record s { edges = s.edges ++ y ∷ [] } ≡ opened = cc in
    (
      or_raise-eq (lookup c t.delegation_by_id) key_error found ∙ ap some key,
      rw (sym key, same) grown,
    )

pub visit_each-cons :
    (t : Tables) (e : AuthoritySet) (recurse : DelegationSpec → Derived → Option (Result Derived))
    (c : ℕ) (ids : List ℕ) (s : Derived) {after : Derived}
    → visit_each t e recurse (c ∷ ids) s ≡ some (ok after)
    → (d : DelegationSpec) × (opened : Derived) × (between : Derived) × (open_delegation t e c s
        ≡ ok (d, opened))
      × (recurse d opened ≡ some (ok between))
      × (visit_each t e recurse ids between ≡ some (ok after))
unfolding visit_each
visit_each-cons t e recurse c ids s made = elim (Result-cases (open_delegation t e c s)) [
  | inl (x, failed) ↦ let made' = rw (visit_each, failed) at made in cc
  | inr ((d, opened), first) ↦ elim (Option-cases (recurse d opened)) [
    | inl out ↦ let made' = rw (visit_each, first, out) at made in cc
    | inr (r, called) ↦ elim (Result-cases r) [
      | inl (x, failed) ↦ let made' = rw (visit_each, first, called, failed) at made in cc
      | inr (between, succeeded) ↦ (
        d,
        opened,
        between,
        first,
        called ∙ ap some succeeded,
        (rw (visit_each, first, called, succeeded) at made),
      )
    ]
  ]
]

-- The recursive call of `visit`.
abbrev pub next_visit :
    Dict IdentitySpec
    → Tables
    → (fuel i h : ℕ) → AuthoritySet
    → DelegationSpec
    → Derived
    → Option (Result Derived)
next_visit identities t fuel i h e d opened =
    visit identities t fuel d.to (suc h) (some i) (inter e d.intended_capabilities) opened

pub visit-suc :
    (identities : Dict IdentitySpec) (t : Tables) (fuel i h : ℕ) (p : Option IdentityId)
    (e : AuthoritySet) (s : Derived) {after : Derived}
    → visit identities t (suc fuel) i h p e s ≡ some (ok after)
    → (entered : Derived) × (enter_identity identities i h p e s ≡ ok entered)
      × (visit_each t e (next_visit identities t fuel i h e) (children_of t i) entered
          ≡ some (ok after))
unfolding visit
visit-suc identities t fuel i h p e s made =
    elim (Result-cases (enter_identity identities i h p e s)) [
      | inl (x, failed) ↦ let made' = rw (visit, failed) at made in cc
      | inr (entered, first) ↦ (entered, first, (rw (visit, first) at made))
    ]
