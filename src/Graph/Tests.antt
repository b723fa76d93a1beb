-- ===== src/Graph/Tests.antt =====
-- The graph code on a chain of three identities, in which the last holds more than was meant.
use chainbreak.Core.Graph.Kahn.{assert_acyclic}
use chainbreak.Core.Graph.Validation.{depth, node, authorization_graph}
use chainbreak.Common.{◌≡◌, ◌↔◌, refl, true, false, [], ◌∷◌, some}
use chainbreak.Core.Authority.{len, is_subset_of, diff, is_empty, AuthoritySet}
use chainbreak.Core.Enums.{DivergenceKind}
use chainbreak.Core.Errors.{ok}
use chainbreak.Core.Models.{DivergencePoint, PathAnalysis}
use chainbreak.Core.Graph.Tests.{chain}
use chainbreak.Graph.Divergence.{first_divergence}
use chainbreak.Graph.Divergence.First.{FirstAt, first_divergence-FirstAt}
use chainbreak.Graph.Paths.{
  monotone_cardinality, monotone_set, last_node, nodes_of, analyze_path, measured_sets,
}
use chainbreak.Graph.Paths.Monotone.{Shrinks, analyze_path_monotone}
use chainbreak.Graph.Builder.{
  check_g5_bounded_depth, edge_references, observed_references, node_references,
  check_g4_capability_closure, check_g3_monotone_intent, build_graph,
}
use chainbreak.Graph.Builder.Guarantees.{IsGuarded, build_graph-IsGuarded}

abbrev catalog : AuthoritySet
catalog = 10 ∷ 11 ∷ 12 ∷ []

chain_built : build_graph chain catalog 4 false ≡ ok (chain, [])
unfolding build_graph authorization_graph assert_acyclic check_g3_monotone_intent node is_empty diff
    check_g4_capability_closure node_references observed_references edge_references
    check_g5_bounded_depth depth
chain_built = refl

build_graph-IsGuarded_example : (chain ≡ chain) × IsGuarded chain catalog 4
build_graph-IsGuarded_example = build_graph-IsGuarded chain chain catalog 4 [] chain_built

abbrev leak : DivergencePoint
leak = record {
  hop_index = 2;
  identity_id = 3;
  kind = DivergenceKind.expansion;
  gain = 12 ∷ [];
  loss = [];
}

leak_found : first_divergence chain (1 ∷ 2 ∷ 3 ∷ []) ≡ ok (some leak)
unfolding first_divergence
leak_found = refl

first_divergence-FirstAt_example : FirstAt chain leak (1 ∷ 2 ∷ 3 ∷ [])
first_divergence-FirstAt_example = first_divergence-FirstAt chain (1 ∷ 2 ∷ 3 ∷ []) leak leak_found

abbrev chain_analysis : PathAnalysis
chain_analysis = record {
  path = 1 ∷ 2 ∷ 3 ∷ [];
  first_divergence = some leak;
  attenuation_monotone_set = false;
  attenuation_monotone_cardinality = true;
  terminal_gain = 12 ∷ [];
}

chain_nodes : nodes_of chain (1 ∷ 2 ∷ 3 ∷ []) ≡ ok chain.nodes
unfolding nodes_of node
chain_nodes = refl

chain_analyzed : analyze_path chain (1 ∷ 2 ∷ 3 ∷ []) ≡ ok chain_analysis
unfolding analyze_path nodes_of node first_divergence last_node monotone_set monotone_cardinality
    measured_sets is_subset_of len
chain_analyzed = refl

analyze_path_monotone_example :
    ((chain_analysis.attenuation_monotone_set ≡ true) ↔ Shrinks (measured_sets chain.nodes))
    × (chain_analysis.attenuation_monotone_set ≡ true
        → chain_analysis.attenuation_monotone_cardinality ≡ true)
analyze_path_monotone_example =
    analyze_path_monotone chain (1 ∷ 2 ∷ 3 ∷ []) chain.nodes chain_analysis chain_nodes
      chain_analyzed
