-- ===== src/Scenarios/Derivation/Outcome.antt =====
-- The steps of a derivation that succeeds: what comes before and after `visit`.
use chainbreak.Common.{
  first_or_later, ℕ, ◌≡◌, refl, sym, ap, ◌∙◌, inl, inr, Bool, true, false, not, List, [], ◌∷◌, none,
  some, arith, ◌==◌, ==_iff, length, mem, In, here, there, all, all-In, find, is_some, Option-cases,
  Bool-cases, &&-eq-true, ◌&&◌,
}
use chainbreak.Common.Dict.{Dict, lookup}
use chainbreak.Common.Nodup.{all_distinct}
use chainbreak.Core.Errors.{
  Error, raise_if, ◌>>◌, ok, Result-cases, value_error, key_error, scenario_semantic_error,
  >>=-eq-ok, or_raise,
}
use chainbreak.Core.Models.{IdentityNode, DelegationEdge}
use chainbreak.Core.Graph.Validation.{node_ids}
use chainbreak.Scenarios.Spec.{
  IdentitySpec, DelegationSpec, ScenarioSpec, scenario_spec, spec_ids, spec_roots, check_identities,
}
use chainbreak.Scenarios.Derivation.{
  Tables, Derived, no_tables, index_delegations, index_identities, visit, nodes_in_order,
  finish_derivation, declared_capabilities, build_nodes_and_edges,
}
use chainbreak.Scenarios.Derivation.Calls.{or_raise-eq}

pub nodes_in_order-ids :
    (identities : List IdentitySpec) (table : Dict IdentityNode) (nodes : List IdentityNode)
    → ((i : ℕ) (n : IdentityNode) → lookup i table ≡ some n → n.identity_id ≡ i)
    → nodes_in_order identities table ≡ ok nodes
    → (node_ids nodes ≡ spec_ids identities)
      × ((n : IdentityNode) → In n nodes → lookup n.identity_id table ≡ some n)
      × ((i : ℕ)
          → mem i (spec_ids identities) ≡ true
          → (n : IdentityNode) × In n nodes × (lookup i table ≡ some n))
unfolding nodes_in_order spec_ids
nodes_in_order-ids [] table nodes keyed made =
    let same : [] ≡ nodes = cc in rw (sym same) (refl, λ n m. elim m [ ], λ i m. cc)
nodes_in_order-ids (x ∷ xs) table nodes keyed made =
    let (n, found, step) = >>=-eq-ok (or_raise (lookup x.id table) key_error) _ made in
    let (rest, made', last) = >>=-eq-ok (nodes_in_order xs table) _ step in
    let (ids, stored, covered) = nodes_in_order-ids xs table rest keyed made' in
    let at = or_raise-eq (lookup x.id table) key_error found in
    let key = keyed x.id n at in
    let same : n ∷ rest ≡ nodes = cc in
    rw (sym same) (
      (rw (key, ids) refl),
      λ m at_m. elim (first_or_later at_m) [
        | inl e ↦ rw e (rw key at)
        | inr later ↦ stored m later
      ],
      λ i m. elim (Bool-cases (i == x.id)) [
        | inl e ↦ (n, here refl, (rw ((==_iff i x.id).0 e) at))
        | inr other ↦
            let (m', later, at_i) = covered i (ground (arith, m, other)) in (m', there later, at_i)
      ],
    )

third_passes :
    (a b c : Bool) (x : Error) {u : Unit {0}}
    → (raise_if a x >> (raise_if b x >> raise_if c x)) ≡ ok u
    → c ≡ false
third_passes true b c x h = cc
third_passes false true c x h = cc
third_passes false false true x h = cc
third_passes false false false x h = refl

pub known_ends :
    (spec : ScenarioSpec)
    → scenario_spec spec ≡ ok spec
    → (d : DelegationSpec) → In d spec.delegations
    → (mem d.from_ (spec_ids spec.identities) ≡ true) × (mem d.to (spec_ids spec.identities) ≡ true)
unfolding scenario_spec check_identities
known_ends spec accepted d m =
    let (_, checked, _) = >>=-eq-ok (check_identities spec) _ accepted in
    let ids = spec_ids spec.identities in
    let inside = all (λ d. mem d.from_ ids && mem d.to ids) spec.delegations in
    let known =
      third_passes (not (all_distinct ids)) (not (length (spec_roots spec.identities) == 1))
        (not inside) value_error checked in
    let both =
      all-In (λ d. mem d.from_ ids && mem d.to ids) spec.delegations (ground (arith, known)) m in
    &&-eq-true (mem d.from_ ids) (mem d.to ids) both

-- The steps of a derivation that succeeds.
pub record Steps (fuel : ℕ) (spec : ScenarioSpec) (root : IdentitySpec) (nodes : List IdentityNode)
    (edges : List DelegationEdge) : Type 0 where
  pub tables : Tables
  pub state : Derived
  pub indexed : index_delegations no_tables spec.delegations ≡ ok tables
  pub visited :
      visit
        (index_identities [] spec.identities)
        tables
        fuel
        root.id
        0
        none
        (declared_capabilities root)
        (record { nodes = []; edges = [] })
      ≡ some (ok state)
  pub ordered : nodes_in_order spec.identities state.nodes ≡ ok nodes
  pub same_edges : state.edges ≡ edges

option_some {ℓ} : {A : Type ℓ} {x y : A} → some x ≡ some y → x ≡ y
option_some h = cc

finish_derivation-Steps :
    (fuel : ℕ) (spec : ScenarioSpec) (root : IdentitySpec) (nodes : List IdentityNode)
    (edges : List DelegationEdge) (tables : Tables) (state : Derived)
    → index_delegations no_tables spec.delegations ≡ ok tables
    → visit
        (index_identities [] spec.identities)
        tables
        fuel
        root.id
        0
        none
        (declared_capabilities root)
        (record { nodes = []; edges = [] })
      ≡ some (ok state)
    → finish_derivation spec.identities state ≡ ok (nodes, edges)
    → Steps fuel spec root nodes edges
unfolding finish_derivation
finish_derivation-Steps fuel spec root nodes edges tables state indexed visited finished =
    let (_, _, next) =
      >>=-eq-ok
        (raise_if (not (all (λ i. is_some (lookup i.id state.nodes)) spec.identities))
          scenario_semantic_error)
        _ finished in
    let (listed, ordered, last) = >>=-eq-ok (nodes_in_order spec.identities state.nodes) _ next in
    let same : listed ≡ nodes = cc in
    let same_edges : state.edges ≡ edges = cc in
    record {
      tables = tables;
      state = state;
      indexed = indexed;
      visited = visited;
      ordered = ordered ∙ ap ok same;
      same_edges = same_edges;
    }

pub build_nodes_and_edges-Steps :
    (fuel : ℕ) (spec : ScenarioSpec) (root : IdentitySpec) (nodes : List IdentityNode)
    (edges : List DelegationEdge)
    → find (λ i. i.is_root) spec.identities ≡ some root
    → build_nodes_and_edges fuel spec ≡ some (ok (nodes, edges))
    → Steps fuel spec root nodes edges
unfolding build_nodes_and_edges finish_derivation
build_nodes_and_edges-Steps fuel spec root nodes edges found made =
    elim (Result-cases (index_delegations no_tables spec.delegations)) [
      | inl (x, failed) ↦ let made' = rw (build_nodes_and_edges, found, failed) at made in cc
      | inr (tables, indexed) ↦
          elim (Option-cases (
            visit (index_identities [] spec.identities) tables fuel root.id 0 none
              (declared_capabilities root) (record { nodes = []; edges = [] }))) [
                | inl out ↦
                    let made' = rw (build_nodes_and_edges, found, indexed, out) at made in cc
                | inr (r, called) ↦ elim (Result-cases r) [
                  | inl (x, failed) ↦
                      let made' =
                        rw (build_nodes_and_edges, found, indexed, called, failed) at made in
                      cc
                  | inr (state, succeeded) ↦
                      let made' =
                        rw (build_nodes_and_edges, found, indexed, called, succeeded) at made in
                      finish_derivation-Steps fuel spec root nodes edges tables state indexed
                        (called ∙ ap some succeeded) (option_some made')
                ]
              ]
    ]
