-- ===== src/Analysis/Divergence.antt =====
-- src/chainbreak/analysis/divergence.py: the graph algorithms applied to one observed graph.
pub mod Total
use chainbreak.Common.{ℕ, Bool, true, false, List, [], ◌∷◌, Option, none, some, is_some}
use chainbreak.Common.Dict.{Dict, insert}
use chainbreak.Core.Enums.{DriftClass}
use chainbreak.Core.Errors.{Result, ok, ◌>>=◌}
use chainbreak.Core.Models.{IdentityId, IdentityNode, DelegationEdge, EdgeDivergence, PathAnalysis}
use chainbreak.Core.Graph.Validation.{AuthorizationGraph, node}
use chainbreak.Graph.Divergence.{edge_divergence, classify_drift}
use chainbreak.Graph.Paths.{analyze_all_paths}

pub record GraphAnalysis : Type 0 where
  pub edges : List EdgeDivergence
  pub paths : List PathAnalysis
  pub drift : Dict (Option DriftClass)

unfoldable pub is_measured : AuthorizationGraph → IdentityId → Result Bool
is_measured graph identity_id = do n ← node graph identity_id; ok (is_some n.observed_authority)

-- The edges of which both endpoints are measured, each with its divergence.
unfoldable pub measured_edges :
    AuthorizationGraph → List DelegationEdge → Result (List EdgeDivergence)
measured_edges graph [] = ok []
measured_edges graph (edge ∷ edges) =
    let rest = measured_edges graph edges in
    do
      source ← is_measured graph edge.source_id
      both ← elim source [ true ↦ is_measured graph edge.target_id | false ↦ ok false ]
      elim both [
        | true ↦ do first ← edge_divergence graph edge; others ← rest; ok (first ∷ others)
        | false ↦ rest
      ]

-- `graph.node(node.parent_id) if node.parent_id is not None else None`
unfoldable pub parent_of : AuthorizationGraph → IdentityNode → Result (Option IdentityNode)
parent_of graph n = elim n.parent_id [
  | none ↦ ok none
  | some i ↦ do parent ← node graph i; ok (some parent)
]

-- The loop over the nodes, from the drift found so far.
unfoldable pub drift_from :
    AuthorizationGraph
    → List IdentityNode
    → Dict (Option DriftClass)
    → Result (Dict (Option DriftClass))
drift_from graph [] drift = ok drift
drift_from graph (n ∷ nodes) drift = elim n.observed_authority [
  | none ↦ drift_from graph nodes drift
  | some _ ↦ do
    parent ← parent_of graph n
    drift_from graph nodes (insert n.identity_id (classify_drift n parent) drift)
]

-- `none` where the enumeration of the paths ran out of fuel.
unfoldable pub analyze_graph : (fuel : ℕ) → AuthorizationGraph → Result (Option GraphAnalysis)
analyze_graph fuel graph = do
  edges ← measured_edges graph graph.edges
  enumerated ← analyze_all_paths fuel graph
  drift ← drift_from graph graph.nodes []
  ok (elim enumerated [
    | none ↦ none
    | some paths ↦ some (record { edges = edges; paths = paths; drift = drift })
  ])
