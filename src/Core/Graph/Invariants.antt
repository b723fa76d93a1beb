-- ===== src/Core/Graph/Invariants.antt =====
-- What an accepted graph satisfies: the invariants G-1 and G-2.
use chainbreak.Common.{
  ℕ, ◌≡◌, refl, Bool, true, false, not, ◌&&◌, List, [], ◌∷◌, arith, ◌==◌, all, length, mem,
  &&-eq-true, In, all-In, here, there,
}
use chainbreak.Common.Nodup.{Nodup, all_distinct, all_distinct-Nodup}
use chainbreak.Core.Errors.{
  ok, value_error, scenario_semantic_error, >>=-eq-ok, raise_if_then-eq-ok,
}
use chainbreak.Core.Models.{IdentityNode, DelegationEdge}
use chainbreak.Core.Graph.Kahn.{indegree, assert_acyclic}
use chainbreak.Core.Graph.Acyclic.{IsRanking, acyclic_iff}
use chainbreak.Core.Graph.Validation.{
  AuthorizationGraph, authorization_graph, node_ids, roots, the_root, known_source, known_target,
}

-- The invariants of a well-formed graph, said without the algorithm that checks them.
pub record IsWellFormed (g : AuthorizationGraph) : Type 0 where
  pub distinct : Nodup (node_ids g.nodes)
  pub root : IdentityNode
  pub only_root : roots g.nodes ≡ root ∷ []
  pub sources_known :
      (e : DelegationEdge) → In e g.edges → mem e.source_id (node_ids g.nodes) ≡ true
  pub targets_known :
      (e : DelegationEdge) → In e g.edges → mem e.target_id (node_ids g.nodes) ≡ true
  pub root_uncalled :
      (e : DelegationEdge) → In e g.edges → (e.target_id == root.identity_id) ≡ false
  pub rank : ℕ → ℕ
  pub ranking : IsRanking g.edges rank

the_root-ok : (rs : List IdentityNode) {r : IdentityNode} → the_root rs ≡ ok r → rs ≡ r ∷ []
unfolding the_root
the_root-ok [] h = cc
the_root-ok (x ∷ []) h = cc
the_root-ok (x ∷ y ∷ rs) h = cc

indegree_zero :
    (es : List DelegationEdge) (i : ℕ)
    → indegree es i ≡ 0
    → (e : DelegationEdge) → In e es
    → (e.target_id == i) ≡ false
unfolding indegree
indegree_zero [] i z e m = elim m [ ]
indegree_zero (x ∷ es) i z e (here same) = rw same (ground arith)
indegree_zero (x ∷ es) i z e (there m) = indegree_zero es i (ground arith) e m

record Checks (g : AuthorizationGraph) : Type 0 where
  distinct : all_distinct (node_ids g.nodes) ≡ true
  root : IdentityNode
  one_root : the_root (roots g.nodes) ≡ ok root
  known :
      all (λ e. known_source (node_ids g.nodes) e && known_target (node_ids g.nodes) e) g.edges
      ≡ true
  uncalled : indegree g.edges root.identity_id ≡ 0
  acyclic : assert_acyclic (node_ids g.nodes) g.edges ≡ ok tt

authorization_graph-Checks :
    (g g' : AuthorizationGraph) → authorization_graph g ≡ ok g' → Checks g × (g' ≡ g)
unfolding authorization_graph
authorization_graph-Checks g g' h =
    let ids = node_ids g.nodes in
    let (h1, k1) = raise_if_then-eq-ok (length g.nodes == 0) value_error _ h in
    let (h2, k2) = raise_if_then-eq-ok (not (all_distinct ids)) scenario_semantic_error _ k1 in
    let (root, h3, k3) = >>=-eq-ok (the_root (roots g.nodes)) _ k2 in
    let (h4, k4) =
      raise_if_then-eq-ok (not (all (λ e. known_source ids e && known_target ids e) g.edges))
        scenario_semantic_error _ k3 in
    let (h5, k5) =
      raise_if_then-eq-ok (not (indegree g.edges root.identity_id == 0)) scenario_semantic_error _
        k4 in
    let (u, h6, k6) = >>=-eq-ok (assert_acyclic ids g.edges) _ k5 in
    (
      record {
        distinct = ground (arith, h2);
        root = root;
        one_root = h3;
        known = ground (arith, h4);
        uncalled = ground (arith, h5);
        acyclic = h6;
      },
      cc,
    )

-- Construction returns the graph that it was given.
pub authorization_graph-same : (g g' : AuthorizationGraph) → authorization_graph g ≡ ok g' → g' ≡ g
authorization_graph-same g g' h = (authorization_graph-Checks g g' h).1

all-split :
    {A : Type 0} (p q : A → Bool) (xs : List A)
    → all (λ x. p x && q x) xs ≡ true
    → (all p xs ≡ true) × (all q xs ≡ true)
all-split p q [] h = (refl, refl)
all-split p q (x ∷ xs) h =
    let (first, rest) = &&-eq-true (p x && q x) (all (λ y. p y && q y) xs) h in
    let (hp, hq) = &&-eq-true (p x) (q x) first in
    let (ps, qs) = all-split p q xs rest in (ground arith, ground arith)

-- A graph that construction accepts is well formed: its identities are distinct, it has exactly
-- one root, its edges join known identities and none enters the root, and its nodes can be ranked
-- so that every edge goes up.
pub authorization_graph-IsWellFormed :
    (g : AuthorizationGraph) → authorization_graph g ≡ ok g → IsWellFormed g
authorization_graph-IsWellFormed g h =
    let ids = node_ids g.nodes in
    let (c, _) = authorization_graph-Checks g g h in
    let distinct : Nodup ids = all_distinct-Nodup ids c.distinct in
    let (origins, targets) = all-split (known_source ids) (known_target ids) g.edges c.known in
    let (rank, ranking) = (acyclic_iff ids g.edges distinct origins targets).0 c.acyclic in
    record {
      distinct = distinct;
      root = c.root;
      only_root = the_root-ok (roots g.nodes) c.one_root;
      sources_known = λ e m. all-In (known_source ids) g.edges origins m;
      targets_known = λ e m. all-In (known_target ids) g.edges targets m;
      root_uncalled = indegree_zero g.edges c.root.identity_id c.uncalled;
      rank = rank;
      ranking = ranking;
    }
