-- ===== src/Core/Graph/Tests.antt =====
-- A three-hop chain of identities, and runs of the graph code on it.
use chainbreak.Common.{
  ℕ, ◌≡◌, ◌↔◌, ◌<◌, In, refl, Bool, true, false, List, [], ◌∷◌, Option, none, some,
}
use chainbreak.Core.Authority.{AuthoritySet}
use chainbreak.Core.Enums.{PlanPhase, DelegationMechanism}
use chainbreak.Core.Errors.{ok, err, scenario_semantic_error}
use chainbreak.Core.Models.{IdentityNode, DelegationEdge}
use chainbreak.Core.Graph.Walk.{IdentityPath, paths, walk, for_each}
use chainbreak.Core.Graph.Walk.Complete.{IsDescent, paths_complete}
use chainbreak.Core.Graph.Kahn.{indegree, sources, visit_all, assert_acyclic}
use chainbreak.Core.Graph.Acyclic.{Drains, IsRanking, assert_acyclic_iff}
use chainbreak.Core.Graph.Validation.{children_ids, AuthorizationGraph, authorization_graph}
use chainbreak.Core.Graph.Invariants.{IsWellFormed, authorization_graph-IsWellFormed}

abbrev pub edge : ℕ → ℕ → ℕ → AuthoritySet → DelegationEdge
edge edge_id source target intended = record {
  edge_id = edge_id;
  source_id = source;
  target_id = target;
  mechanism = DelegationMechanism.role_chain;
  requested_capabilities = intended;
  intended_capabilities = intended;
  expected_effective = intended;
}

abbrev pub node_at : ℕ → Bool → ℕ → Option ℕ → AuthoritySet → Option AuthoritySet → IdentityNode
node_at identity_id is_root hop parent expected observed = record {
  identity_id = identity_id;
  is_root = is_root;
  hop_index = hop;
  parent_id = parent;
  expected_authority = record { capabilities = expected; phase = PlanPhase.post_delegation };
  observed_authority = elim observed [
    | none ↦ none
    | some s ↦ some (record {
      capabilities = s;
      excluded = [];
      phase = PlanPhase.post_delegation;
      probe_matrix_id = 1;
      attempted = 3;
      classified = 3;
    })
  ];
}

-- Identity 1 is the root; 2 and 3 follow it. Identity 3 holds capability 12, which nobody meant
-- it to hold.
abbrev pub chain : AuthorizationGraph
chain = record {
  nodes =
      node_at 1 true 0 none (10 ∷ 11 ∷ 12 ∷ []) (some (10 ∷ 11 ∷ 12 ∷ []))
      ∷ node_at 2 false 1 (some 1) (10 ∷ 11 ∷ []) (some (11 ∷ 10 ∷ []))
      ∷ node_at 3 false 2 (some 2) (10 ∷ []) (some (10 ∷ 12 ∷ []))
      ∷ [];
  edges = edge 21 1 2 (10 ∷ 11 ∷ []) ∷ edge 32 2 3 (10 ∷ []) ∷ [];
}

abbrev looped : List DelegationEdge
looped = edge 1 1 2 [] ∷ edge 2 2 3 [] ∷ edge 3 3 2 [] ∷ []

pub chain_accepted : authorization_graph chain ≡ ok chain
unfolding authorization_graph assert_acyclic
chain_accepted = refl

assert_acyclic-looped : assert_acyclic (1 ∷ 2 ∷ 3 ∷ []) looped ≡ err scenario_semantic_error
unfolding assert_acyclic
assert_acyclic-looped = refl

well_formed_chain : IsWellFormed chain
well_formed_chain = authorization_graph-IsWellFormed chain chain_accepted

authorization_graph-IsWellFormed_example : IsWellFormed chain
authorization_graph-IsWellFormed_example = authorization_graph-IsWellFormed chain chain_accepted

assert_acyclic_iff_example :
    Drains looped
      (indegree looped)
      (sources (indegree looped) (1 ∷ 2 ∷ 3 ∷ []) [])
      []
      (visit_all (1 ∷ 2 ∷ 3 ∷ []) looped)
    × ((assert_acyclic (1 ∷ 2 ∷ 3 ∷ []) looped ≡ ok tt) ↔ ((rank : ℕ → ℕ) × IsRanking looped rank))
assert_acyclic_iff_example =
    assert_acyclic_iff (1 ∷ 2 ∷ 3 ∷ []) looped (refl, (refl, (refl, tt))) refl refl

-- A root with two children, of which the second has a child of its own.
abbrev forked : List DelegationEdge
forked = edge 1 1 2 [] ∷ edge 2 1 3 [] ∷ edge 3 3 4 [] ∷ []

walk-forked : walk 3 forked 1 [] ≡ some ((1 ∷ 2 ∷ []) ∷ (1 ∷ 3 ∷ 4 ∷ []) ∷ [])
unfolding walk children_ids for_each
walk-forked = refl

walk-looped : walk 5 looped 1 [] ≡ none
unfolding walk children_ids for_each
walk-looped = refl

paths_complete_example :
    (bound : ℕ) × ((fuel : ℕ)
      → bound < fuel
      → (found : List IdentityPath) × (paths fuel chain ≡ ok (some found))
        × ((path : IdentityPath)
            → In path found ↔ (
                (rest : IdentityPath) × (path ≡ well_formed_chain.root.identity_id ∷ rest)
                × IsDescent chain.edges well_formed_chain.root.identity_id rest)))
paths_complete_example = paths_complete chain well_formed_chain
