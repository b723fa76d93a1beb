-- ===== src/Graph/Builder/Guarantees.antt =====
-- What the invariants guarantee of a graph that `build_graph` returns.
use chainbreak.Common.{
  ℕ, ◌≤◌, ◌≡◌, Bool, true, false, not, ◌&&◌, ◌||◌, List, [], ◌∷◌, ◌++◌, arith, mem, In, here, there,
}
use chainbreak.Core.Authority.{AuthoritySet, diff, is_empty}
use chainbreak.Core.Authority.Algebra.{mem-append, mem-diff, is_empty_iff}
use chainbreak.Core.Errors.{ok, scenario_semantic_error, >>=-eq-ok, raise_if_then-eq-ok}
use chainbreak.Core.Models.{IdentityNode, DelegationEdge}
use chainbreak.Core.Graph.Validation.{
  AuthorizationGraph, authorization_graph, node, depth, depth_of,
}
use chainbreak.Core.Graph.Invariants.{
  IsWellFormed, authorization_graph-IsWellFormed, authorization_graph-same,
}
use chainbreak.Graph.Builder.{
  Warning, build_graph, check_g3_monotone_intent, check_g4_capability_closure,
  check_g5_bounded_depth, observed_references, node_references, edge_references,
}

-- The edge intends no more than its source is expected to hold.
abbrev pub IntendsWithin : AuthorizationGraph → DelegationEdge → Type 0
IntendsWithin graph e =
    (source : IdentityNode) × (node graph e.source_id ≡ ok source)
    × ((c : ℕ)
        → mem c e.intended_capabilities ≡ true
        → mem c source.expected_authority.capabilities ≡ true)

check_g3-cons :
    (graph : AuthorizationGraph) (x : DelegationEdge) (edges : List DelegationEdge)
    (ws : List Warning)
    → check_g3_monotone_intent graph false (x ∷ edges) ≡ ok ws
    → IntendsWithin graph x
      × ((rest : List Warning) × (check_g3_monotone_intent graph false edges ≡ ok rest))
unfolding check_g3_monotone_intent
check_g3-cons graph x edges ws h =
    let (source, found, k1) = >>=-eq-ok (node graph x.source_id) _ h in
    let intended = x.intended_capabilities in
    let expected = source.expected_authority.capabilities in
    let (inside, k2) =
      raise_if_then-eq-ok (not (is_empty (diff intended expected)) && true) scenario_semantic_error
        _ k1 in
    let (rest, e, k3) = >>=-eq-ok (check_g3_monotone_intent graph false edges) _ k2 in
    let none_over : is_empty (diff intended expected) ≡ true = ground (arith, inside) in
    (
      (
        source,
        found,
        λ c held. ground (
          arith,
          (is_empty_iff (diff intended expected)).0 none_over c,
          mem-diff c intended expected,
        ),
      ),
      (rest, e),
    )

check_g3-IntendsWithin :
    (graph : AuthorizationGraph) (edges : List DelegationEdge) (ws : List Warning)
    → check_g3_monotone_intent graph false edges ≡ ok ws
    → (e : DelegationEdge) → In e edges
    → IntendsWithin graph e
check_g3-IntendsWithin graph [] ws h e m = elim m [ ]
check_g3-IntendsWithin graph (x ∷ edges) ws h e (here same) =
    rw same ((check_g3-cons graph x edges ws h).0)
check_g3-IntendsWithin graph (x ∷ edges) ws h e (there later) =
    let (_, (rest, passed)) = check_g3-cons graph x edges ws h in
    check_g3-IntendsWithin graph edges rest passed e later

depth-bound : (ns : List IdentityNode) (n : IdentityNode) → In n ns → n.hop_index ≤ depth_of ns
unfolding depth_of
depth-bound [] n m = elim m [ ]
depth-bound (x ∷ ns) n (here same) = rw same (omega arith)
depth-bound (x ∷ ns) n (there m) = omega (arith, depth-bound ns n m)

node_references-In :
    (ns : List IdentityNode) (n : IdentityNode) (c : ℕ)
    → In n ns
    → mem c n.expected_authority.capabilities ≡ true
    → mem c (node_references ns) ≡ true
unfolding node_references
node_references-In [] n c m held = elim m [ ]
node_references-In (x ∷ ns) n c (here same) held =
    let held' : mem c x.expected_authority.capabilities ≡ true = rw same at held in
    ground (
      arith,
      mem-append c x.expected_authority.capabilities (observed_references x ++ node_references ns),
    )
node_references-In (x ∷ ns) n c (there m) held = ground (
  arith,
  mem-append c x.expected_authority.capabilities (observed_references x ++ node_references ns),
  mem-append c (observed_references x) (node_references ns),
  node_references-In ns n c m held,
)

-- The edge requests, intends or expects the capability.
abbrev pub names : DelegationEdge → ℕ → Bool
names e c =
    mem c e.requested_capabilities || (mem c e.intended_capabilities || mem c e.expected_effective)

edge_references-In :
    (es : List DelegationEdge) (e : DelegationEdge) (c : ℕ)
    → In e es
    → names e c ≡ true
    → mem c (edge_references es) ≡ true
unfolding edge_references
edge_references-In [] e c m held = elim m [ ]
edge_references-In (x ∷ es) e c (here same) held =
    let held' : names x c ≡ true = rw same at held in
    ground (
      arith,
      mem-append c x.requested_capabilities
          (x.intended_capabilities ++ (x.expected_effective ++ edge_references es)),
      mem-append c x.intended_capabilities (x.expected_effective ++ edge_references es),
      mem-append c x.expected_effective (edge_references es),
    )
edge_references-In (x ∷ es) e c (there m) held = ground (
  arith,
  mem-append c x.requested_capabilities
      (x.intended_capabilities ++ (x.expected_effective ++ edge_references es)),
  mem-append c x.intended_capabilities (x.expected_effective ++ edge_references es),
  mem-append c x.expected_effective (edge_references es),
  edge_references-In es e c m held,
)

-- What `build_graph` promises of the graph that it returns.
pub record IsGuarded (graph : AuthorizationGraph) (known : AuthoritySet) (ceiling : ℕ)
    : Type 0 where
  pub well_formed : IsWellFormed graph
  pub monotone : (e : DelegationEdge) → In e graph.edges → IntendsWithin graph e
  pub nodes_closed :
      (n : IdentityNode) (c : ℕ)
      → In n graph.nodes
      → mem c n.expected_authority.capabilities ≡ true
      → mem c known ≡ true
  pub edges_closed :
      (e : DelegationEdge) (c : ℕ) → In e graph.edges → names e c ≡ true → mem c known ≡ true
  pub bounded : (n : IdentityNode) → In n graph.nodes → n.hop_index ≤ ceiling

-- A graph that is built without the negative-control opt-out is well formed, intends on no edge
-- more than the edge's source is expected to hold, names only capabilities of the catalog, and
-- has no node beyond the depth ceiling; it is the graph that was asked for.
pub build_graph-IsGuarded :
    (g graph : AuthorizationGraph) (known : AuthoritySet) (ceiling : ℕ) (ws : List Warning)
    → build_graph g known ceiling false ≡ ok (graph, ws)
    → (graph ≡ g) × IsGuarded graph known ceiling
unfolding build_graph
build_graph-IsGuarded g graph known ceiling ws h =
    let (g', accepted, k1) = >>=-eq-ok (authorization_graph g) _ h in
    let (ws', checked, k2) = >>=-eq-ok (check_g3_monotone_intent g' false g'.edges) _ k1 in
    let (u, closed, k3) = >>=-eq-ok (check_g4_capability_closure g' known) _ k2 in
    let (v, deep, k4) = >>=-eq-ok (check_g5_bounded_depth g' ceiling) _ k3 in
    let same : g' ≡ g = authorization_graph-same g g' accepted in
    let result : g' ≡ graph = ground arith in
    let referenced = node_references g'.nodes ++ edge_references g'.edges in
    let inside : is_empty (diff referenced known) ≡ true =
      unfold check_g4_capability_closure in ground (arith, closed) in
    let shallow : depth_of g'.nodes ≤ ceiling =
      unfold check_g5_bounded_depth depth in ground (arith, deep) in
    let covered : (c : ℕ) → mem c referenced ≡ true → mem c known ≡ true = λ c m.
      ground
        (arith, (is_empty_iff (diff referenced known)).0 inside c, mem-diff c referenced known) in
    rw (← result) (
      same,
      record {
        well_formed = authorization_graph-IsWellFormed g' (rw same (rw same at accepted));
        monotone = check_g3-IntendsWithin g' g'.edges ws' checked;
        nodes_closed = λ n c m held. covered c (
            ground (
              arith,
              mem-append c (node_references g'.nodes) (edge_references g'.edges),
              node_references-In g'.nodes n c m held,
            ));
        edges_closed = λ e c m held. covered c (
            ground (
              arith,
              mem-append c (node_references g'.nodes) (edge_references g'.edges),
              edge_references-In g'.edges e c m held,
            ));
        bounded = λ n m. omega (arith, depth-bound g'.nodes n m);
      },
    )
