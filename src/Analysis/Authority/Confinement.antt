-- ===== src/Analysis/Authority/Confinement.antt =====
-- The populated graph: what is observed of each of its nodes.
use chainbreak.Common.{
  ℕ, ◌≡◌, refl, sym, ap, ◌∙◌, Bool, true, false, ◌&&◌, not, List, [], ◌∷◌, some, arith, ◌==◌, any,
  filter, mem, Bool-cases, inl, inr, is_none, ◌⊎◌, Option-cases,
}
use chainbreak.Common.Dict.{Dict, keys}
use chainbreak.Core.Enums.{PlanPhase}
use chainbreak.Core.Enums.Equality.{same_phase, same_phase_iff}
use chainbreak.Core.Errors.{ok}
use chainbreak.Core.Models.{IdentityId, IdentityNode, ObservedAuthority, Observation}
use chainbreak.Core.Graph.Validation.{AuthorizationGraph}
use chainbreak.Analysis.Cells.{ProbeCellResult}
use chainbreak.Analysis.Authority.{
  CellKey, key_of, same_key, Groups, group_from, cells_of_groups, aggregate_observations,
  build_observed_authority, identity_cells, matrix_of, populate_node, populate_nodes,
  populate_observed_authority,
}
use chainbreak.Analysis.Authority.Grouping.{same_key-fields, members-group_from}
use chainbreak.Analysis.Authority.Partition.{is_held, build_observed_authority_partition}
use chainbreak.Analysis.Authority.Population.{
  is_nil, all_allowed, key, in_phase, in_phase-group_from, held_members, is_held-keys, has_identity,
  has_identity-matrix, is_nil-identity_cells,
}

-- The identity was probed at the phase.
abbrev pub probed : PlanPhase → IdentityId → List Observation → Bool
probed phase i os = any (λ o. same_phase o.phase phase && o.identity_id == i) os

-- The observations of a capability of an identity at the phase.
abbrev pub observations_of : PlanPhase → IdentityId → ℕ → List Observation → List Observation
observations_of phase i c os = filter (λ o. same_key (key i c phase) (key_of o)) os

probed-matrix :
    (phase : PlanPhase) (i : IdentityId) (os : List Observation)
    → is_none (matrix_of phase i os) ≡ not (probed phase i os)
unfolding matrix_of
probed-matrix phase i [] = refl
probed-matrix phase i (o ∷ os) = ground (arith, probed-matrix phase i os)

-- The observations of a key are all among those of its phase.
observations_of-filter :
    (phase : PlanPhase) (i : IdentityId) (c : ℕ) (os : List Observation)
    → observations_of phase i c (filter (λ o. same_phase o.phase phase) os)
      ≡ observations_of phase i c os
observations_of-filter phase i c [] = refl
observations_of-filter phase i c (o ∷ os) =
    elim (Bool-cases (same_key (key i c phase) (key_of o))) [
      | inl e ↦
          let turned : same_phase o.phase phase ≡ true =
            (same_phase_iff o.phase phase).1
              (sym (same_key-fields (key i c phase) (key_of o) e).2) in
          ground (arith, e, turned, observations_of-filter phase i c os)
      | inr e ↦ elim (Bool-cases (same_phase o.phase phase)) [
        | inl f ↦ ground (arith, e, f, observations_of-filter phase i c os)
        | inr f ↦ ground (arith, e, f, observations_of-filter phase i c os)
      ]
    ]

-- What a node becomes: it is left alone where its identity was not probed at the phase; else its
-- observed authority is replaced, by one with those capabilities that were observed and ALLOWED
-- in every trial.
abbrev pub Populates : PlanPhase → List Observation → IdentityNode → IdentityNode → Type 0
Populates phase os n m =
    (probed phase n.identity_id os ≡ false → m ≡ n)
    × (probed phase n.identity_id os ≡ true
        → (o : ObservedAuthority) × (m ≡ record n { observed_authority = some o })
          × ((c : ℕ)
              → mem c o.capabilities ≡ all_allowed (observations_of phase n.identity_id c os)))

List-cases : {A : Type 0} (xs : List A) → (xs ≡ []) ⊎ ((x : A) × (rest : List A) × (xs ≡ x ∷ rest))
List-cases [] = inl refl
List-cases (x ∷ xs) = inr (x, xs, refl)

populate_node-ok :
    (phase : PlanPhase) (os : List Observation) (cells : List (CellKey × ProbeCellResult))
    (n : IdentityNode) (cell : ℕ × ProbeCellResult) (more : Dict ProbeCellResult) (matrix : ℕ)
    (o : ObservedAuthority)
    → identity_cells n.identity_id cells ≡ cell ∷ more
    → matrix_of phase n.identity_id os ≡ some matrix
    → build_observed_authority phase matrix (keys (cell ∷ more)) (cell ∷ more) ≡ ok o
    → populate_node phase os cells n ≡ ok (record n { observed_authority = some o })
unfolding populate_node
populate_node-ok phase os cells n cell more matrix o e f b = rw (populate_node, e, f, b) refl

module _ (phase : PlanPhase) (os : List Observation) where
  abbrev groups : Groups
  groups = group_from [] (filter (λ o. same_phase o.phase phase) os)

  abbrev cells_of : IdentityId → Dict ProbeCellResult
  cells_of i = identity_cells i (cells_of_groups groups)

  is_nil-cells_of : (i : IdentityId) → is_nil (cells_of i) ≡ not (probed phase i os)
  unfolding has_identity
  is_nil-cells_of i = ground (
    arith,
    is_nil-identity_cells i groups,
    has_identity-matrix i phase [] os,
    probed-matrix phase i os,
  )

  held-cells_of : (i c : ℕ) → is_held (cells_of i) c ≡ all_allowed (observations_of phase i c os)
  unfolding in_phase
  held-cells_of i c =
      held_members i c phase groups (in_phase-group_from phase [] os refl)
      ∙ ap all_allowed (
          members-group_from (key i c phase) (filter (λ o. same_phase o.phase phase) os) []
          ∙ observations_of-filter phase i c os)

  populate_node-Populates :
      (n : IdentityNode)
      → (m : IdentityNode) × (populate_node phase os (cells_of_groups groups) n ≡ ok m)
        × Populates phase os n m
  unfolding populate_node
  populate_node-Populates n = elim (List-cases (cells_of n.identity_id)) [
    | inl e ↦ (
      n,
      rw (populate_node, e) refl,
      (λ _. refl, λ p. absurd (ground (arith, p, is_nil-cells_of n.identity_id, ap is_nil e))),
    )
    | inr (cell, more, e) ↦ elim (Option-cases (matrix_of phase n.identity_id os)) [
      | inl f ↦ absurd (
          ground (
            arith,
            ap is_nil e,
            is_nil-cells_of n.identity_id,
            probed-matrix phase n.identity_id os,
            f,
          ))
      | inr (matrix, f) ↦
          let (o, built, holds, _, _) =
            build_observed_authority_partition phase matrix (keys (cell ∷ more)) (cell ∷ more) in
          (
            record n { observed_authority = some o },
            populate_node-ok phase os (cells_of_groups groups) n cell more matrix o e f built,
            (
              λ p. absurd (ground (arith, p, is_nil-cells_of n.identity_id, ap is_nil e)),
              λ _. (
                o,
                refl,
                λ c.
                    holds c
                    ∙ sym (is_held-keys (cell ∷ more) c)
                    ∙ ap (λ d. is_held d c) (sym e)
                    ∙ held-cells_of n.identity_id c,
              ),
            ),
          )
    ]
  ]

-- The lists are as long as each other, and the relation holds of each pair of places.
abbrev pub Each : {A : Type 0} → (A → A → Type 0) → List A → List A → Type 0
Each R [] [] = Unit
Each R (x ∷ xs) (y ∷ ys) = R x y × Each R xs ys
Each R _ _ = ⊥

populate_nodes-Each :
    (phase : PlanPhase) (os : List Observation) (ns : List IdentityNode)
    → (ms : List IdentityNode) × (populate_nodes phase os (cells_of_groups (groups phase os)) ns
        ≡ ok ms)
      × Each (Populates phase os) ns ms
unfolding populate_nodes
populate_nodes-Each phase os [] = ([], refl, tt)
populate_nodes-Each phase os (n ∷ ns) =
    let (m, e, p) = populate_node-Populates phase os n in
    let (ms, f, q) = populate_nodes-Each phase os ns in (m ∷ ms, rw (e, f) refl, (p, q))

-- The population of a graph for one phase always succeeds and changes nothing but the observed
-- authority of the nodes whose identity was probed at the phase. Such a node is then observed to hold
-- a capability exactly when there are observations of it at the phase and every one was ALLOWED.
pub populate_observed_authority-Populates :
    (graph : AuthorizationGraph) (os : List Observation) (phase : PlanPhase)
    → (populated : AuthorizationGraph) × (populate_observed_authority graph os phase ≡ ok populated)
      × (populated.edges ≡ graph.edges)
      × Each (Populates phase os) graph.nodes populated.nodes
unfolding populate_observed_authority aggregate_observations
populate_observed_authority-Populates graph os phase =
    let (ms, e, each) = populate_nodes-Each phase os graph.nodes in
    (record graph { nodes = ms }, rw e refl, refl, each)
