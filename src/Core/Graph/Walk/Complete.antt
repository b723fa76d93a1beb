-- ===== src/Core/Graph/Walk/Complete.antt =====
-- The enumeration of paths ends, and gives exactly the walks that end at a leaf.
use chainbreak.Common.{
  In-append_left, first_or_later, List-cases, ℕ, zero, suc, ◌+◌, ◌<◌, ◌≤◌, max, ◌≡◌, refl, sym, ap,
  ◌∙◌, ◌↔◌, ◌⊎◌, inl, inr, List, [], ◌∷◌, ◌++◌, Option, some, arith, In, here, there, Bool-cases,
  ==_iff, ◌==◌,
}
use mathlib.Core.Path.{subst}
use chainbreak.Core.Errors.{ok}
use chainbreak.Core.Models.{IdentityId, DelegationEdge}
use chainbreak.Core.Graph.Acyclic.{IsRanking}
use chainbreak.Core.Graph.Invariants.{IsWellFormed}
use chainbreak.Core.Graph.Validation.{AuthorizationGraph, children_ids, the_root}
use chainbreak.Core.Graph.Walk.{IdentityPath, for_each, walk, paths}

-- Each identity of `rest` is a child of the one before it, and the last has no children.
abbrev pub IsDescent : List DelegationEdge → IdentityId → IdentityPath → Type 0
IsDescent edges current [] = children_ids edges current ≡ []
IsDescent edges current (child ∷ rest) =
    In child (children_ids edges current) × IsDescent edges child rest

-- The paths that go on from `before` over `current` to a leaf.
abbrev Continues : List DelegationEdge → IdentityId → IdentityPath → IdentityPath → Type 0
Continues edges current before path =
    (rest : IdentityPath) × (path ≡ before ++ current ∷ rest) × IsDescent edges current rest

-- A result that lists exactly the paths with a property.
abbrev Lists : Option (List IdentityPath) → (IdentityPath → Type 0) → Type 0
Lists result P =
    (found : List IdentityPath) × (result ≡ some found)
    × ((path : IdentityPath) → In path found ↔ P path)

snoc_append : (xs : IdentityPath) (x : ℕ) (ys : IdentityPath) → (xs ++ x ∷ []) ++ ys ≡ xs ++ x ∷ ys
snoc_append [] x ys = refl
snoc_append (y ∷ xs) x ys = ap (λ zs. y ∷ zs) (snoc_append xs x ys)

In-append_right : {p : IdentityPath} (xs ys : List IdentityPath) → In p ys → In p (xs ++ ys)
In-append_right [] ys m = m
In-append_right (x ∷ xs) ys m = there (In-append_right xs ys m)

append-In : {p : IdentityPath} (xs ys : List IdentityPath) → In p (xs ++ ys) → In p xs ⊎ In p ys
append-In [] ys m = inr m
append-In (x ∷ xs) ys (here e) = inl (here e)
append-In (x ∷ xs) ys (there m) = elim (append-In xs ys m) [ inl h ↦ inl (there h) | inr h ↦ inr h ]

for_each-cons :
    (visit : IdentityId → Option (List IdentityPath)) (child : IdentityId)
    (children : List IdentityId) {found others : List IdentityPath}
    → visit child ≡ some found
    → for_each visit children ≡ some others
    → for_each visit (child ∷ children) ≡ some (found ++ others)
unfolding for_each
for_each-cons visit child children first rest = rw (for_each, first, rest) refl

-- The loop over the children lists what the visit of any of them lists.
for_each-Lists :
    (visit : IdentityId → Option (List IdentityPath)) (P : IdentityId → IdentityPath → Type 0)
    (children : List IdentityId)
    → ((child : IdentityId) → In child children → Lists (visit child) (P child))
    → Lists
        (for_each visit children)
        (λ path. (child : IdentityId) × In child children × P child path)
unfolding for_each
for_each-Lists visit P [] all = ([], refl, λ path. (λ m. elim m [ ], λ (c, m, p). elim m [ ]))
for_each-Lists visit P (child ∷ children) all =
    let (found, first, lists) = all child (here refl) in
    let (others, rest, lists_rest) = for_each-Lists visit P children (λ c m. all c (there m)) in
    (
      found ++ others,
      for_each-cons visit child children first rest,
      λ path. (
        λ m. elim (append-In found others m) [
          | inl h ↦ (child, here refl, (lists path).0 h)
          | inr h ↦ let (c, n, p) = (lists_rest path).0 h in (c, there n, p)
        ],
        λ (c, m, p). elim (first_or_later m) [
          | inl e ↦ In-append_left found others ((lists path).1 (subst (λ i. P i path) e p))
          | inr n ↦ In-append_right found others ((lists_rest path).1 (c, n, p))
        ],
      ),
    )

-- A child is ranked above its parent, and no higher than the highest target.
highest : (ℕ → ℕ) → List DelegationEdge → ℕ
highest rank [] = 0
highest rank (e ∷ edges) = max (rank e.target_id) (highest rank edges)

children_ids-edge :
    (edges : List DelegationEdge) (i c : ℕ)
    → In c (children_ids edges i)
    → (e : DelegationEdge) × In e edges × (e.source_id ≡ i) × (e.target_id ≡ c)
unfolding children_ids
children_ids-edge [] i c m = elim m [ ]
children_ids-edge (e ∷ edges) i c m = elim (Bool-cases (e.source_id == i)) [
  | inl found ↦ elim (first_or_later (rw found at m)) [
    | inl same ↦ (e, here refl, (==_iff e.source_id i).0 found, sym same)
    | inr later ↦
        let (d, n, source, target) = children_ids-edge edges i c later in
        (d, there n, source, target)
  ]
  | inr other ↦
      let (d, n, source, target) = children_ids-edge edges i c (rw other at m) in
      (d, there n, source, target)
]

In-highest :
    (rank : ℕ → ℕ) (edges : List DelegationEdge) (e : DelegationEdge)
    → In e edges
    → rank e.target_id ≤ highest rank edges
unfolding highest
In-highest rank [] e m = elim m [ ]
In-highest rank (x ∷ edges) e (here same) = rw same (omega arith)
In-highest rank (x ∷ edges) e (there m) = omega (arith, In-highest rank edges e m)

module _ (edges : List DelegationEdge) (rank : ℕ → ℕ) (ranking : IsRanking edges rank) where
  child_rank :
      (i c : ℕ) → In c (children_ids edges i) → (rank i < rank c) × (rank c ≤ highest rank edges)
  child_rank i c m =
      let (e, n, source, target) = children_ids-edge edges i c m in
      let up : rank e.source_id < rank e.target_id = ranking e n in
      let low : rank e.source_id ≡ rank i = ap rank source in
      let high : rank e.target_id ≡ rank c = ap rank target in
      (omega arith, omega (arith, In-highest rank edges e n))

  walk-leaf :
      (fuel : ℕ) (current : IdentityId) (before : IdentityPath)
      → children_ids edges current ≡ []
      → Lists (walk (suc fuel) edges current before) (Continues edges current before)
  unfolding walk
  walk-leaf fuel current before none_below = (
    (before ++ current ∷ []) ∷ [],
    (rw (walk, none_below) refl),
    λ path. (λ m. ([], only m, none_below), λ (rest, e, d). leaf_path rest path e d),
  )
    where
      only :
          {path : IdentityPath}
          → In path ((before ++ current ∷ []) ∷ [])
          → path ≡ before ++ current ∷ []
      only (here e) = e
      only (there m) = elim m [ ]

      leaf_path :
          (rest path : IdentityPath)
          → path ≡ before ++ current ∷ rest
          → IsDescent edges current rest
          → In path ((before ++ current ∷ []) ∷ [])
      leaf_path [] path e d = here e
      leaf_path (c ∷ rest) path e d = let m : In c [] = rw none_below at d.0 in elim m [ ]

  walk-inner :
      (fuel : ℕ) (current : IdentityId) (before : IdentityPath) {child : ℕ} {children : List ℕ}
      → children_ids edges current ≡ child ∷ children
      → Lists
          (for_each (λ c. walk fuel edges c (before ++ current ∷ [])) (children_ids edges current))
          (λ path.
            (c : IdentityId) × In c (children_ids edges current)
            × Continues edges c (before ++ current ∷ []) path)
      → Lists (walk (suc fuel) edges current before) (Continues edges current before)
  unfolding walk
  walk-inner fuel current before below (found, made, lists) = (
    found,
    inner_result,
    λ path. (
      λ m.
          let (c, n, (rest, e, d)) = (lists path).0 m in
          (c ∷ rest, e ∙ snoc_append before current (c ∷ rest), (n, d)),
      λ (rest, e, d). (lists path).1 (inner_path rest path e d),
    ),
  )
    where
      inner_result : walk (suc fuel) edges current before ≡ some found
      inner_result = rw (walk, below) made

      inner_path :
          (rest path : IdentityPath)
          → path ≡ before ++ current ∷ rest
          → IsDescent edges current rest
          → (c : IdentityId) × In c (children_ids edges current)
            × Continues edges c (before ++ current ∷ []) path
      inner_path [] path e d = cc
      inner_path (c ∷ rest) path e d =
          (c, d.0, (rest, e ∙ sym (snoc_append before current (c ∷ rest)), d.1))

  -- With fuel for the ranks above an identity, the walk from it ends.
  walk-Lists :
      (fuel : ℕ) (current : IdentityId) (before : IdentityPath)
      → 0 < fuel
      → highest rank edges < fuel + rank current
      → Lists (walk fuel edges current before) (Continues edges current before)
  walk-Lists zero current before some_fuel enough =
      let bad : ⊥ = omega (arith, some_fuel) in elim bad [ ]
  walk-Lists (suc fuel) current before some_fuel enough =
      let below =
        for_each-Lists (λ c. walk fuel edges c (before ++ current ∷ []))
          (λ c path. Continues edges c (before ++ current ∷ []) path) (children_ids edges current)
          (λ c m.
            let (up, bounded) = child_rank current c m in
            walk-Lists fuel c (before ++ current ∷ []) (omega (arith, enough, up, bounded))
              (omega (arith, enough, up))) in
      elim (List-cases (children_ids edges current)) [
        | inl leaf ↦ walk-leaf fuel current before leaf
        | inr (c, cs, inner) ↦ walk-inner fuel current before inner below
      ]

-- On a well-formed graph the enumeration of paths ends, on any fuel above a bound that the graph
-- has, and lists exactly the paths that start at the root, go from each identity to one of its
-- children, and end at an identity without children.
pub paths_complete :
    (graph : AuthorizationGraph) (well : IsWellFormed graph)
    → (bound : ℕ) × ((fuel : ℕ)
        → bound < fuel
        → (found : List IdentityPath) × (paths fuel graph ≡ ok (some found))
          × ((path : IdentityPath)
              → In path found ↔ (
                  (rest : IdentityPath) × (path ≡ well.root.identity_id ∷ rest)
                  × IsDescent graph.edges well.root.identity_id rest)))
unfolding paths the_root
paths_complete graph well = (
  highest well.rank graph.edges,
  λ fuel enough.
      let (found, made, lists) =
        walk-Lists graph.edges well.rank well.ranking fuel well.root.identity_id []
          (omega (arith, enough)) (omega (arith, enough)) in
      (found, (rw (well.only_root, made) refl), lists),
)
