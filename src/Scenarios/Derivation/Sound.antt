-- ===== src/Scenarios/Derivation/Sound.antt =====
-- Which identities `visit` enters, and what it records of them, as a relation that the recursion
-- follows.
use chainbreak.Common.{
  In-append_left, ℕ, zero, suc, ◌≡◌, refl, sym, ap, ◌∙◌, ◌⊎◌, ◌≢◌, inl, inr, true, List, [], ◌∷◌,
  ◌++◌, Option, none, some, arith, ◌==◌, ==_refl, mem, In, here, there, Bool-cases, ==_iff,
}
use chainbreak.Common.Dict.{Dict, lookup, insert, lookup-insert_same, lookup-insert_other}
use chainbreak.Core.Authority.{AuthoritySet, inter}
use chainbreak.Core.Errors.{Result, ok, or_raise, key_error, >>=-eq-ok}
use chainbreak.Core.Models.{IdentityId, IdentityNode, DelegationEdge, identity_node}
use chainbreak.Scenarios.Spec.{IdentitySpec, DelegationSpec}
use chainbreak.Scenarios.Derivation.{
  Tables, Derived, node_of, edge_of, check_declared, enter_identity, open_delegation, visit_each,
  visit, children_of,
}
use chainbreak.Scenarios.Derivation.Indexed.{IsIndexed, TargetsDiffer, IdsDiffer}
use chainbreak.Scenarios.Derivation.Calls.{
  identity_node-eq, open_delegation-eq, visit_each-cons, next_visit, visit-suc,
}

In-snoc :
    {x : DelegationEdge} (xs : List DelegationEdge) (y : DelegationEdge)
    → In x (xs ++ y ∷ [])
    → In x xs ⊎ (x ≡ y)
In-snoc [] y (here e) = inr e
In-snoc [] y (there m) = elim m [ ]
In-snoc (z ∷ xs) y (here e) = inl (here e)
In-snoc (z ∷ xs) y (there m) = elim (In-snoc xs y m) [ inl k ↦ inl (there k) | inr e ↦ inr e ]

snoc-In : (xs : List DelegationEdge) (y : DelegationEdge) → In y (xs ++ y ∷ [])
snoc-In [] y = here refl
snoc-In (z ∷ xs) y = there (snoc-In xs y)

module _ (ds : List DelegationSpec) (root : IdentityId) (declared : AuthoritySet) where
  -- An identity at its hop, with its parent and its expected authority: the root as declared, and
  -- the target of a delegation with what its source is expected to hold and the delegation
  -- intends.
  pub data Derives : IdentityId → ℕ → Option IdentityId → AuthoritySet → Type 0 where
    at_root :
        {i h : ℕ} {p : Option IdentityId} {e : AuthoritySet}
        → i ≡ root
        → h ≡ 0
        → p ≡ none
        → e ≡ declared
        → Derives i h p e
    by_delegation :
        {i h k : ℕ} {p q : Option IdentityId} {e f : AuthoritySet} (d : DelegationSpec)
        → In d ds
        → Derives d.from_ k q f
        → i ≡ d.to
        → h ≡ suc k
        → p ≡ some d.from_
        → e ≡ inter f d.intended_capabilities
        → Derives i h p e

  -- Where targets differ and the root is none of them, an identity is derived in one way.
  pub Derives-unique :
      {i h h' : ℕ} {p p' : Option IdentityId} {e e' : AuthoritySet}
      → TargetsDiffer ds
      → ((d : DelegationSpec) → In d ds → d.to ≢ root)
      → Derives i h p e
      → Derives i h' p' e'
      → (h ≡ h') × (p ≡ p') × (e ≡ e')
  Derives-unique differ untargeted (at_root a b c d) (at_root a' b' c' d') =
      (b ∙ sym b', c ∙ sym c', d ∙ sym d')
  Derives-unique differ untargeted (at_root a b c d) (by_delegation g m from a' b' c' d') =
      absurd (untargeted g m (sym a' ∙ a))
  Derives-unique differ untargeted (by_delegation g m from a b c d) (at_root a' b' c' d') =
      absurd (untargeted g m (sym a ∙ a'))
  Derives-unique differ untargeted (by_delegation g m from a b c d)
        (by_delegation g' m' from' a' b' c' d') =
      let same : g' ≡ g = differ g' g m' m (sym a' ∙ a) in
      let from'' = rw same at from' in
      let (hops, parents, sets) = Derives-unique differ untargeted from from'' in
      (
        b ∙ ap suc hops ∙ sym b',
        c ∙ sym (rw same at c'),
        d ∙ ap (λ z. inter z g.intended_capabilities) sets ∙ sym (rw same at d'),
      )

  -- What holds of the state of `visit`: its nodes and edges are derived, and every node but the
  -- root's has its edge.
  pub record IsSound (s : Derived) : Type 0 where
    pub nodes :
        (i : IdentityId) (n : IdentityNode)
        → lookup i s.nodes ≡ some n
        → (h : ℕ) × (p : Option IdentityId) × (e : AuthoritySet) × Derives i h p e
          × (n ≡ node_of i h p e)
    pub edges :
        (x : DelegationEdge)
        → In x s.edges
        → (d : DelegationSpec) × In d ds
          × (h : ℕ) × (p : Option IdentityId) × (e : AuthoritySet) × Derives d.from_ h p e
          × (x ≡ edge_of d (inter e d.intended_capabilities))
    pub reached :
        (i : IdentityId) (n : IdentityNode)
        → lookup i s.nodes ≡ some n
        → (i ≡ root) ⊎ ((x : DelegationEdge) × In x s.edges × (x.target_id ≡ i))

  abbrev HasEdge : Derived → IdentityId → Type 0
  HasEdge s i = (i ≡ root) ⊎ ((x : DelegationEdge) × In x s.edges × (x.target_id ≡ i))

  record_node-IsSound :
      (i h : ℕ) (p : Option IdentityId) (e : AuthoritySet) (s : Derived)
      → Derives i h p e
      → HasEdge s i
      → IsSound s
      → IsSound (record s { nodes = insert i (node_of i h p e) s.nodes })
  record_node-IsSound i h p e s derived edge sound = record {
    nodes = λ j n found. elim (Bool-cases (j == i)) [
      | inl same ↦
          let eq : j ≡ i = (==_iff j i).0 same in
          let stored = lookup-insert_same i (node_of i h p e) s.nodes in
          let found' = rw eq at found in
          let is : n ≡ node_of i h p e = cc in rw eq (h, p, e, derived, is)
      | inr other ↦
          sound.nodes j n (sym (lookup-insert_other j i (node_of i h p e) s.nodes other) ∙ found)
    ];
    edges = sound.edges;
    reached = λ j n found. elim (Bool-cases (j == i)) [
      | inl same ↦ let eq : j ≡ i = (==_iff j i).0 same in rw eq edge
      | inr other ↦
          sound.reached j n (sym (lookup-insert_other j i (node_of i h p e) s.nodes other) ∙ found)
    ];
  }

  grow :
      (s : Derived) (y : DelegationEdge) (i : IdentityId)
      → HasEdge s i
      → HasEdge (record s { edges = s.edges ++ y ∷ [] }) i
  grow s y i (inl e) = inl e
  grow s y i (inr (x, m, e)) = inr (x, In-append_left s.edges (y ∷ []) m, e)

  record_edge-IsSound :
      (d : DelegationSpec) (h : ℕ) (p : Option IdentityId) (e : AuthoritySet) (s : Derived)
      → In d ds
      → Derives d.from_ h p e
      → IsSound s
      → IsSound (record s { edges = s.edges ++ edge_of d (inter e d.intended_capabilities) ∷ [] })
  record_edge-IsSound d h p e s m derived sound = record {
    nodes = sound.nodes;
    edges = λ x found. elim (In-snoc s.edges (edge_of d (inter e d.intended_capabilities)) found) [
      | inl old ↦ sound.edges x old
      | inr new ↦ (d, m, h, p, e, derived, new)
    ];
    reached = λ j n found.
        grow s (edge_of d (inter e d.intended_capabilities)) j (sound.reached j n found);
  }

  module _ (identities : Dict IdentitySpec) (t : Tables) (indexed : IsIndexed ds t)
      (distinct : IdsDiffer ds) where
    enter_identity-IsSound :
        (i h : ℕ) (p : Option IdentityId) (e : AuthoritySet) (s after : Derived)
        → Derives i h p e
        → HasEdge s i
        → IsSound s
        → enter_identity identities i h p e s ≡ ok after
        → IsSound after
    unfolding enter_identity
    enter_identity-IsSound i h p e s after derived edge sound made =
        let (spec, found, step) = >>=-eq-ok (or_raise (lookup i identities) key_error) _ made in
        let (_, checked, step') = >>=-eq-ok (check_declared spec e) _ step in
        let (node, built, last) = >>=-eq-ok (identity_node (node_of i h p e)) _ step' in
        let same = identity_node-eq (node_of i h p e) built in
        let is : record s { nodes = insert i (node_of i h p e) s.nodes } ≡ after = cc in
        rw (sym is) (record_node-IsSound i h p e s derived edge sound)

    open_delegation-IsSound :
        (i h c : ℕ) (p : Option IdentityId) (e : AuthoritySet) (s opened : Derived)
        (d : DelegationSpec)
        → Derives i h p e
        → mem c (children_of t i) ≡ true
        → IsSound s
        → open_delegation t e c s ≡ ok (d, opened)
        → In d ds × (d.from_ ≡ i) × HasEdge opened d.to × IsSound opened
    unfolding open_delegation
    open_delegation-IsSound i h c p e s opened d derived child sound made =
        let (found, made') = open_delegation-eq t e c s made in
        let (at, key) = indexed.by_id c d found in
        let (d', at', key', from', _) = indexed.children i c child in
        let same : d' ≡ d = distinct d' d at' at (key' ∙ sym key) in
        let from_i : d.from_ ≡ i = rw same at from' in
        let derived' : Derives d.from_ h p e = rw from_i derived in
        (
          at,
          from_i,
          (rw (sym made') (
              inr (
                edge_of d (inter e d.intended_capabilities),
                snoc-In s.edges (edge_of d (inter e d.intended_capabilities)),
                refl,
              ))),
          (rw (sym made') (record_edge-IsSound d h p e s at derived' sound)),
        )

    -- What a recursive call has to keep.
    abbrev Keeps : IdentityId → (DelegationSpec → Derived → Option (Result Derived)) → Type 0
    Keeps i recurse =
        (d : DelegationSpec) (opened after : Derived)
        → In d ds
        → d.from_ ≡ i
        → HasEdge opened d.to
        → IsSound opened
        → recurse d opened ≡ some (ok after)
        → IsSound after

    visit_each-IsSound :
        (i h : ℕ) (p : Option IdentityId) (e : AuthoritySet)
        (recurse : DelegationSpec → Derived → Option (Result Derived)) (ids : List ℕ)
        (s after : Derived)
        → Derives i h p e
        → ((c : ℕ) → mem c ids ≡ true → mem c (children_of t i) ≡ true)
        → Keeps i recurse
        → IsSound s
        → visit_each t e recurse ids s ≡ some (ok after)
        → IsSound after
    unfolding visit_each
    visit_each-IsSound i h p e recurse [] s after derived sub keeps sound made =
        let same : s ≡ after = cc in rw (sym same) sound
    visit_each-IsSound i h p e recurse (c ∷ ids) s after derived sub keeps sound made =
        let (d, opened, between, first, called, rest) = visit_each-cons t e recurse c ids s made in
        let (m, from_i, edge, sound') =
          open_delegation-IsSound i h c p e s opened d derived (sub c (ground (arith, ==_refl c)))
            sound first in
        visit_each-IsSound i h p e recurse ids between after derived
          (λ k n. sub k (ground (arith, n))) keeps
          (keeps d opened between m from_i edge sound' called) rest

    pub visit-IsSound :
        (fuel i h : ℕ) (p : Option IdentityId) (e : AuthoritySet) (s after : Derived)
        → Derives i h p e
        → HasEdge s i
        → IsSound s
        → visit identities t fuel i h p e s ≡ some (ok after)
        → IsSound after
    unfolding visit
    visit-IsSound zero i h p e s after derived edge sound made = cc
    visit-IsSound (suc fuel) i h p e s after derived edge sound made =
        let (entered, first, rest) = visit-suc identities t fuel i h p e s made in
        visit_each-IsSound i h p e (next_visit identities t fuel i h e) (children_of t i) entered
          after derived (λ c m. m)
          (λ d opened after' m from_i edge' sound' called.
            let from : Derives d.from_ h p e = rw from_i derived in
            visit-IsSound fuel d.to (suc h) (some i) (inter e d.intended_capabilities) opened after'
              (by_delegation d m from refl refl (ap some (sym from_i)) refl) edge' sound' called)
          (enter_identity-IsSound i h p e s entered derived edge sound first) rest
