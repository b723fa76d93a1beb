-- ===== src/Graph/Builder.antt =====
-- src/chainbreak/graph/builder.py: construction of a graph with the invariants G-3 to G-5. A
-- warning is the edge that it is about and what exceeds there.
pub mod Guarantees
use chainbreak.Common.{
  ℕ, Bool, true, false, not, ◌&&◌, List, [], ◌∷◌, ◌++◌, Option, none, some, ltb, if◌then◌else◌,
}
use chainbreak.Core.Authority.{AuthoritySet, CapabilityId, diff, is_empty, is_subset_of}
use chainbreak.Core.Errors.{Result, ok, err, raise_if, scenario_semantic_error, ◌>>=◌, ◌>>◌}
use chainbreak.Core.Models.{IdentityNode, DelegationEdge}
use chainbreak.Core.Graph.Validation.{AuthorizationGraph, authorization_graph, node, depth}

abbrev pub Warning : Type 0
Warning = ℕ × AuthoritySet

-- `_check_g3_monotone_intent`, one round of the loop for each edge.
unfoldable pub check_g3_monotone_intent :
    AuthorizationGraph → (downgrade : Bool) → List DelegationEdge → Result (List Warning)
check_g3_monotone_intent graph downgrade [] = ok []
check_g3_monotone_intent graph downgrade (edge ∷ edges) =
    let rest = check_g3_monotone_intent graph downgrade edges in
    do
      source ← node graph edge.source_id
      let excess = diff edge.intended_capabilities source.expected_authority.capabilities
      raise_if (not (is_empty excess) && not downgrade) scenario_semantic_error
      warnings ← rest
      ok (if is_empty excess then warnings else (edge.edge_id, excess) ∷ warnings)

-- What the nodes and the edges refer to.
unfoldable pub observed_references : IdentityNode → AuthoritySet
observed_references n = elim n.observed_authority [ none ↦ [] | some o ↦ o.capabilities ]

unfoldable pub node_references : List IdentityNode → AuthoritySet
node_references [] = []
node_references (n ∷ ns) =
    n.expected_authority.capabilities ++ (observed_references n ++ node_references ns)

unfoldable pub edge_references : List DelegationEdge → AuthoritySet
edge_references [] = []
edge_references (e ∷ es) =
    e.requested_capabilities
    ++ (e.intended_capabilities ++ (e.expected_effective ++ edge_references es))

-- `_check_g4_capability_closure`, with the catalog's identifiers.
unfoldable pub check_g4_capability_closure :
    AuthorizationGraph → (known : AuthoritySet) → Result (Unit {0})
check_g4_capability_closure graph known =
    let referenced = node_references graph.nodes ++ edge_references graph.edges in
    raise_if (not (is_empty (diff referenced known))) scenario_semantic_error

-- `_check_g5_bounded_depth`
unfoldable pub check_g5_bounded_depth : AuthorizationGraph → ℕ → Result (Unit {0})
check_g5_bounded_depth graph max_delegation_depth =
    raise_if (ltb max_delegation_depth (depth graph)) scenario_semantic_error

unfoldable pub build_graph :
    AuthorizationGraph
    → (known : AuthoritySet) → (max_delegation_depth : ℕ) → (downgrade_intent_exceeds_parent : Bool)
    → Result (AuthorizationGraph × List Warning)
build_graph g known max_delegation_depth downgrade = do
  graph ← authorization_graph g
  warnings ← check_g3_monotone_intent graph downgrade graph.edges
  check_g4_capability_closure graph known
  check_g5_bounded_depth graph max_delegation_depth
  ok (graph, warnings)
