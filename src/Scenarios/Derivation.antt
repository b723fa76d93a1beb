-- ===== src/Scenarios/Derivation.antt =====
-- `_build_nodes_and_edges` (src/chainbreak/scenarios/compiler.py): the expected authority of every
-- identity, by intersection along the delegations.
pub mod Indexed
pub mod Calls
pub mod Sound
pub mod Ends
pub mod Outcome
pub mod Attenuates
use chainbreak.Common.{
  ℕ, zero, suc, Bool, true, false, not, List, [], ◌∷◌, ◌++◌, Option, none, some, find, is_none,
  ◌==◌, if◌then◌else◌, all, is_some,
}
use chainbreak.Common.Dict.{index_by, Dict, lookup, insert}
use chainbreak.Core.Authority.{AuthoritySet, empty_authority, inter, set_eq}
use chainbreak.Core.Enums.{PlanPhase}
use chainbreak.Core.Errors.{
  Result, ok, err, or_raise, raise_if, scenario_semantic_error, key_error, stop_iteration_error,
  ◌>>=◌, ◌>>◌,
}
use chainbreak.Core.Models.{
  IdentityId, IdentityNode, DelegationEdge, identity_node, delegation_edge,
}
use chainbreak.Scenarios.Spec.{IdentitySpec, DelegationSpec, ScenarioSpec}

-- The dicts that the first loop fills.
pub record Tables : Type 0 where
  pub children_by_parent : Dict (List ℕ)
  pub delegation_by_id : Dict DelegationSpec
  pub targets_seen : Dict ℕ

abbrev pub no_tables : Tables
no_tables = record { children_by_parent = []; delegation_by_id = []; targets_seen = [] }

-- `children_by_parent.get(identity_id, ())`
unfoldable pub children_of : Tables → IdentityId → List ℕ
children_of t i = elim (lookup i t.children_by_parent) [ none ↦ [] | some ids ↦ ids ]

-- One round of the first loop, after its check.
unfoldable pub add_delegation : Tables → DelegationSpec → Tables
add_delegation t d = record {
  targets_seen = insert d.to d.id t.targets_seen;
  children_by_parent = insert d.from_ (children_of t d.from_ ++ d.id ∷ []) t.children_by_parent;
  delegation_by_id = insert d.id d t.delegation_by_id;
}

unfoldable pub index_delegations : Tables → List DelegationSpec → Result Tables
index_delegations t [] = ok t
index_delegations t (d ∷ ds) = do
  raise_if (is_some (lookup d.to t.targets_seen)) scenario_semantic_error
  index_delegations (add_delegation t d) ds

-- `{identity.id: identity for identity in spec.identities}`, from what was there before.
unfoldable pub index_identities : Dict IdentitySpec → List IdentitySpec → Dict IdentitySpec
index_identities d is = index_by (λ i. i.id) d is

-- What `visit` fills.
pub record Derived : Type 0 where
  pub nodes : Dict IdentityNode
  pub edges : List DelegationEdge

-- The check of a redundant declaration.
unfoldable pub check_declared : IdentitySpec → AuthoritySet → Result (Unit {0})
check_declared i expected = elim i.expect_capabilities [
  | none ↦ ok tt
  | some declared ↦ raise_if (not (set_eq declared expected)) scenario_semantic_error
]

abbrev pub node_of :
    IdentityId → (hop_index : ℕ) → (parent_id : Option IdentityId) → AuthoritySet → IdentityNode
node_of identity_id hop_index parent_id expected = record {
  identity_id = identity_id;
  is_root = is_none parent_id;
  hop_index = hop_index;
  parent_id = parent_id;
  expected_authority = record { capabilities = expected; phase = PlanPhase.post_delegation };
  observed_authority = none;
}

-- `visit` up to its loop.
unfoldable pub enter_identity :
    Dict IdentitySpec → IdentityId → ℕ → Option IdentityId → AuthoritySet → Derived → Result Derived
enter_identity identities identity_id hop_index parent_id expected s = do
  spec ← or_raise (lookup identity_id identities) key_error
  check_declared spec expected
  node ← identity_node (node_of identity_id hop_index parent_id expected)
  ok (record s { nodes = insert identity_id node s.nodes })

abbrev pub edge_of : DelegationSpec → (child_expected : AuthoritySet) → DelegationEdge
edge_of d child_expected = record {
  edge_id = d.id;
  source_id = d.from_;
  target_id = d.to;
  mechanism = d.mechanism;
  requested_capabilities = d.intended_capabilities;
  intended_capabilities = d.intended_capabilities;
  expected_effective = child_expected;
}

-- A round of the loop of `visit`, up to the recursive call: the delegation, and the state with its
-- edge.
unfoldable pub open_delegation :
    Tables → AuthoritySet → ℕ → Derived → Result (DelegationSpec × Derived)
open_delegation t expected delegation_id s = do
  d ← or_raise (lookup delegation_id t.delegation_by_id) key_error
  edge ← delegation_edge (edge_of d (inter expected d.intended_capabilities))
  ok (d, record s { edges = s.edges ++ edge ∷ [] })

-- The loop of `visit`, over the recursive call. `none` is a recursion that has not ended.
unfoldable pub visit_each :
    Tables
    → AuthoritySet
    → (DelegationSpec → Derived → Option (Result Derived))
    → List ℕ
    → Derived
    → Option (Result Derived)
visit_each t expected recurse [] s = some (ok s)
visit_each t expected recurse (delegation_id ∷ ids) s =
    elim (open_delegation t expected delegation_id s) [
      | err e ↦ some (err e)
      | ok (d, opened) ↦ elim (recurse d opened) [
        | none ↦ none
        | some (err e) ↦ some (err e)
        | some (ok after) ↦ visit_each t expected recurse ids after
      ]
    ]

unfoldable pub visit :
    Dict IdentitySpec
    → Tables
    → (fuel : ℕ) → IdentityId
    → (hop_index : ℕ) → Option IdentityId
    → AuthoritySet
    → Derived
    → Option (Result Derived)
visit identities t zero identity_id hop_index parent_id expected s = none
visit identities t (suc fuel) identity_id hop_index parent_id expected s =
    elim (enter_identity identities identity_id hop_index parent_id expected s) [
      | err e ↦ some (err e)
      | ok entered ↦
          visit_each t expected
            (λ d opened.
              visit identities t fuel d.to (suc hop_index) (some identity_id)
                (inter expected d.intended_capabilities) opened)
            (children_of t identity_id) entered
    ]

-- `tuple(nodes[identity.id] for identity in spec.identities)`
unfoldable pub nodes_in_order : List IdentitySpec → Dict IdentityNode → Result (List IdentityNode)
nodes_in_order [] nodes = ok []
nodes_in_order (i ∷ is) nodes = do
  node ← or_raise (lookup i.id nodes) key_error
  rest ← nodes_in_order is nodes
  ok (node ∷ rest)

-- What follows the call of `visit`.
unfoldable pub finish_derivation :
    List IdentitySpec → Derived → Result (List IdentityNode × List DelegationEdge)
finish_derivation identities s = do
  raise_if (not (all (λ i. is_some (lookup i.id s.nodes)) identities)) scenario_semantic_error
  nodes ← nodes_in_order identities s.nodes
  ok (nodes, s.edges)

-- `spec.capabilities or ()`
unfoldable pub declared_capabilities : IdentitySpec → AuthoritySet
declared_capabilities i = elim i.capabilities [ none ↦ empty_authority | some s ↦ s ]

unfoldable pub build_nodes_and_edges :
    (fuel : ℕ) → ScenarioSpec → Option (Result (List IdentityNode × List DelegationEdge))
build_nodes_and_edges fuel spec = elim (find (λ i. i.is_root) spec.identities) [
  | none ↦ some (err stop_iteration_error)
  | some root ↦ elim (index_delegations no_tables spec.delegations) [
    | err e ↦ some (err e)
    | ok tables ↦
        elim (visit (index_identities [] spec.identities) tables fuel root.id 0 none
          (declared_capabilities root) (record { nodes = []; edges = [] })) [
            | none ↦ none
            | some (err e) ↦ some (err e)
            | some (ok s) ↦ some (finish_derivation spec.identities s)
          ]
  ]
]
