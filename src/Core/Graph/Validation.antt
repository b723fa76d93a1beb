-- ===== src/Core/Graph/Validation.antt =====
-- `AuthorizationGraph._validate_invariants` and the accessors (src/chainbreak/core/models.py).
use chainbreak.Common.{
  ℕ, Bool, not, ◌&&◌, List, [], ◌∷◌, Option, ◌==◌, if◌then◌else◌, all, filter, find, length, mem,
  max,
}
use chainbreak.Common.Nodup.{all_distinct}
use chainbreak.Core.Errors.{
  Result, ok, err, raise_if, or_raise, value_error, key_error, scenario_semantic_error, ◌>>=◌, ◌>>◌,
}
use chainbreak.Core.Models.{IdentityId, IdentityNode, DelegationEdge}
use chainbreak.Core.Graph.Kahn.{indegree, assert_acyclic}

pub record AuthorizationGraph : Type 0 where
  pub nodes : List IdentityNode
  pub edges : List DelegationEdge

abbrev pub node_ids : List IdentityNode → List ℕ
node_ids [] = []
node_ids (n ∷ ns) = n.identity_id ∷ node_ids ns

abbrev pub known_source : List ℕ → DelegationEdge → Bool
known_source ids e = mem e.source_id ids

abbrev pub known_target : List ℕ → DelegationEdge → Bool
known_target ids e = mem e.target_id ids

-- `roots = [n for n in self.nodes if n.is_root]`
abbrev pub roots : List IdentityNode → List IdentityNode
roots nodes = filter (λ n. n.is_root) nodes

-- `len(roots) != 1` raises; the root's inbound edges are counted for the one that there is.
unfoldable pub the_root : List IdentityNode → Result IdentityNode
the_root (root ∷ []) = ok root
the_root _ = err scenario_semantic_error

unfoldable pub authorization_graph : AuthorizationGraph → Result AuthorizationGraph
unfolding all_distinct the_root indegree
authorization_graph g = do
  let ids = node_ids g.nodes
  raise_if (length g.nodes == 0) value_error
  raise_if (not (all_distinct ids)) scenario_semantic_error
  root ← the_root (roots g.nodes)
  raise_if (not (all (λ e. known_source ids e && known_target ids e) g.edges))
      scenario_semantic_error
  raise_if (not (indegree g.edges root.identity_id == 0)) scenario_semantic_error
  assert_acyclic ids g.edges
  ok g

-- `AuthorizationGraph.node`
unfoldable pub node : AuthorizationGraph → IdentityId → Result IdentityNode
node g identity_id = or_raise (find (λ n. n.identity_id == identity_id) g.nodes) key_error

-- `AuthorizationGraph.edge_into`
unfoldable pub edge_into : AuthorizationGraph → IdentityId → Option DelegationEdge
edge_into g identity_id = find (λ e. e.target_id == identity_id) g.edges

-- The identifiers of `AuthorizationGraph.children_of`, in the order of the edges.
unfoldable pub children_ids : List DelegationEdge → IdentityId → List IdentityId
children_ids [] i = []
children_ids (e ∷ es) i =
    let rest = children_ids es i in if e.source_id == i then e.target_id ∷ rest else rest

-- `AuthorizationGraph.depth`
unfoldable pub depth_of : List IdentityNode → ℕ
depth_of [] = 0
depth_of (n ∷ ns) = max n.hop_index (depth_of ns)

unfoldable pub depth : AuthorizationGraph → ℕ
unfolding depth_of
depth g = depth_of g.nodes
