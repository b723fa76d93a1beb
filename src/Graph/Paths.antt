-- ===== src/Graph/Paths.antt =====
-- src/chainbreak/graph/paths.py: one root-to-leaf path analysed.
pub mod Monotone
use chainbreak.Common.{ℕ, Bool, true, false, ◌&&◌, List, [], ◌∷◌, Option, none, some, leb, ◌==◌}
use chainbreak.Core.Authority.{AuthoritySet, is_subset_of, len}
use chainbreak.Core.Errors.{Result, ok, err, index_error, ◌>>=◌}
use chainbreak.Core.Models.{IdentityId, IdentityNode, PathAnalysis, unexpected_gain}
use chainbreak.Core.Graph.Validation.{AuthorizationGraph, node}
use chainbreak.Core.Graph.Walk.{IdentityPath, paths}
use chainbreak.Graph.Divergence.{first_divergence}

-- `[graph.node(identity_id) for identity_id in path]`
unfoldable pub nodes_of : AuthorizationGraph → List IdentityId → Result (List IdentityNode)
nodes_of graph [] = ok []
nodes_of graph (i ∷ path) = do n ← node graph i; rest ← nodes_of graph path; ok (n ∷ rest)

-- The observed sets of the measured nodes.
unfoldable pub measured_sets : List IdentityNode → List AuthoritySet
measured_sets [] = []
measured_sets (n ∷ ns) =
    let rest = measured_sets ns in
    elim n.observed_authority [ none ↦ rest | some o ↦ o.capabilities ∷ rest ]

-- The two flags of the loop over `pairwise(measured)`.
unfoldable pub monotone_set : List AuthoritySet → Bool
monotone_set (earlier ∷ later ∷ rest) = is_subset_of later earlier && monotone_set (later ∷ rest)
monotone_set _ = true

unfoldable pub monotone_cardinality : List AuthoritySet → Bool
monotone_cardinality (earlier ∷ later ∷ rest) =
    leb (len later) (len earlier) && monotone_cardinality (later ∷ rest)
monotone_cardinality _ = true

-- `nodes[-1]`
unfoldable pub last_node : List IdentityNode → Result IdentityNode
last_node [] = err index_error
last_node (n ∷ []) = ok n
last_node (n ∷ m ∷ ns) = last_node (m ∷ ns)

unfoldable pub analyze_path : AuthorizationGraph → List IdentityId → Result PathAnalysis
analyze_path graph path = do
  nodes ← nodes_of graph path
  first ← first_divergence graph path
  terminal ← last_node nodes
  ok (record {
    path = path;
    first_divergence = first;
    attenuation_monotone_set = monotone_set (measured_sets nodes);
    attenuation_monotone_cardinality = monotone_cardinality (measured_sets nodes);
    terminal_gain = unexpected_gain terminal;
  })

unfoldable pub analyze_each : AuthorizationGraph → List IdentityPath → Result (List PathAnalysis)
analyze_each graph [] = ok []
analyze_each graph (path ∷ others) = do
  analysis ← analyze_path graph path
  rest ← analyze_each graph others
  ok (analysis ∷ rest)

-- `analyze_all_paths`; `none` where the enumeration of the paths ran out of fuel.
unfoldable pub analyze_all_paths :
    (fuel : ℕ) → AuthorizationGraph → Result (Option (List PathAnalysis))
analyze_all_paths fuel graph = do
  enumerated ← paths fuel graph
  elim enumerated [
    | none ↦ ok none
    | some found ↦ do analyses ← analyze_each graph found; ok (some analyses)
  ]
