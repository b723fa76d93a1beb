-- ===== src/Scenarios/Derivation/Attenuates.antt =====
-- The nodes and edges that the compiler derives from a scenario.
use chainbreak.Common.{
  ℕ, suc, ◌<◌, ◌≡◌, ◌≢◌, refl, sym, ap, ◌∙◌, inl, inr, true, List, [], none, some, arith, length,
  mem, In, find,
}
use chainbreak.Common.Dict.{lookup}
use chainbreak.Common.Nodup.{all_distinct-Nodup, all_distinct}
use chainbreak.Core.Authority.{AuthoritySet, inter}
use chainbreak.Core.Errors.{Result, ok, err, Result-cases}
use chainbreak.Core.Models.{IdentityId, IdentityNode, DelegationEdge}
use chainbreak.Core.Graph.Validation.{node_ids}
use chainbreak.Scenarios.Spec.{IdentitySpec, DelegationSpec, ScenarioSpec, scenario_spec, spec_ids}
use chainbreak.Scenarios.Derivation.{
  Derived, no_tables, index_delegations, index_identities, finish_derivation, declared_capabilities,
  build_nodes_and_edges,
}
use chainbreak.Scenarios.Derivation.Indexed.{
  TargetsDiffer, delegation_ids, Nodup-IdsDiffer, index_delegations-IsIndexed,
  index_delegations-fresh, no_tables-IsIndexed,
}
use chainbreak.Scenarios.Derivation.Sound.{
  at_root, by_delegation, Derives-unique, IsSound, visit-IsSound,
}
use chainbreak.Scenarios.Derivation.Ends.{visit-Ends}
use chainbreak.Scenarios.Derivation.Outcome.{
  nodes_in_order-ids, known_ends, build_nodes_and_edges-Steps,
}

-- A scenario that the schema accepts, whose delegations have distinct names and do not lead back to
-- the root: what the compiler relies on.
pub record IsRooted (spec : ScenarioSpec) : Type 0 where
  pub accepted : scenario_spec spec ≡ ok spec
  pub named : all_distinct (delegation_ids spec.delegations) ≡ true
  pub root : IdentitySpec
  pub found : find (λ i. i.is_root) spec.identities ≡ some root
  pub untargeted : (d : DelegationSpec) → In d spec.delegations → d.to ≢ root.id

-- An edge between a source and its target, as the compiler means it: the target expects what its
-- source expects and the delegation intends, one hop further.
pub record IsAttenuated (nodes : List IdentityNode) (x : DelegationEdge) : Type 0 where
  pub source : IdentityNode
  pub target : IdentityNode
  pub source_in : In source nodes
  pub target_in : In target nodes
  pub source_id : source.identity_id ≡ x.source_id
  pub target_id : target.identity_id ≡ x.target_id
  pub effective :
      x.expected_effective ≡ inter source.expected_authority.capabilities x.intended_capabilities
  pub inherited : target.expected_authority.capabilities ≡ x.expected_effective
  pub parent : target.parent_id ≡ some source.identity_id
  pub hop : target.hop_index ≡ suc source.hop_index

-- What the compiler makes of a scenario.
pub record IsDerived (spec : ScenarioSpec) (root : IdentitySpec) (nodes : List IdentityNode)
    (edges : List DelegationEdge) : Type 0 where
  pub in_order : node_ids nodes ≡ spec_ids spec.identities
  pub root_as_declared :
      (n : IdentityNode)
      → In n nodes
      → n.identity_id ≡ root.id
      → n.expected_authority.capabilities ≡ declared_capabilities root
  pub attenuated : (x : DelegationEdge) → In x edges → IsAttenuated nodes x
  pub all_delegated :
      (d : DelegationSpec)
      → In d spec.delegations
      → (x : DelegationEdge) × In x edges
        × (x.edge_id ≡ d.id)
        × (x.source_id ≡ d.from_)
        × (x.target_id ≡ d.to)
        × (x.intended_capabilities ≡ d.intended_capabilities)

no_state-IsSound :
    (ds : List DelegationSpec) (root : IdentityId) (declared : AuthoritySet)
    → IsSound ds root declared (record { nodes = []; edges = [] })
no_state-IsSound ds root declared = record {
  nodes = λ i n found. cc;
  edges = λ x m. elim m [ ];
  reached = λ i n found. cc;
}

module _ (spec : ScenarioSpec) (r : IsRooted spec) (s : Derived) (nodes : List IdentityNode)
    (differ : TargetsDiffer spec.delegations)
    (sound : IsSound spec.delegations r.root.id (declared_capabilities r.root) s)
    (covered : (i : ℕ)
      → mem i (spec_ids spec.identities) ≡ true
      → (n : IdentityNode) × In n nodes × (lookup i s.nodes ≡ some n)) where
  state-IsAttenuated : (x : DelegationEdge) → In x s.edges → IsAttenuated nodes x
  state-IsAttenuated x m =
      let (d, at, h, p, e, from, is) = sound.edges x m in
      let (from_known, to_known) = known_ends spec r.accepted d at in
      let (source, source_in, source_at) = covered d.from_ from_known in
      let (target, target_in, target_at) = covered d.to to_known in
      let (h1, p1, e1, source_derived, source_is) = sound.nodes d.from_ source source_at in
      let (h2, p2, e2, target_derived, target_is) = sound.nodes d.to target target_at in
      let (hops, _, sets) =
        Derives-unique spec.delegations r.root.id (declared_capabilities r.root) differ r.untargeted
          source_derived from in
      let (hops', parents', sets') =
        Derives-unique spec.delegations r.root.id (declared_capabilities r.root) differ r.untargeted
          target_derived (by_delegation d at from refl refl refl refl) in
      rw is (record {
        source = source;
        target = target;
        source_in = source_in;
        target_in = target_in;
        source_id = ap (λ n. n.identity_id) source_is;
        target_id = ap (λ n. n.identity_id) target_is;
        effective =
            ap (λ z. inter z d.intended_capabilities)
              (sym (ap (λ n. n.expected_authority.capabilities) source_is ∙ sets));
        inherited = ap (λ n. n.expected_authority.capabilities) target_is ∙ sets';
        parent =
            ap (λ n. n.parent_id) target_is
            ∙ parents'
            ∙ ap some (sym (ap (λ n. n.identity_id) source_is));
        hop =
            ap (λ n. n.hop_index) target_is
            ∙ hops'
            ∙ ap suc (sym (ap (λ n. n.hop_index) source_is ∙ hops));
      })

  state-root :
      (n : IdentityNode)
      → lookup n.identity_id s.nodes ≡ some n
      → n.identity_id ≡ r.root.id
      → n.expected_authority.capabilities ≡ declared_capabilities r.root
  state-root n stored is_root =
      let (h, p, e, derived, is) = sound.nodes n.identity_id n stored in
      let (_, _, sets) =
        Derives-unique spec.delegations r.root.id (declared_capabilities r.root) differ r.untargeted
          derived (at_root is_root refl refl refl) in
      ap (λ n. n.expected_authority.capabilities) is ∙ sets

  state-delegated :
      (d : DelegationSpec)
      → In d spec.delegations
      → (x : DelegationEdge) × In x s.edges
        × (x.edge_id ≡ d.id)
        × (x.source_id ≡ d.from_)
        × (x.target_id ≡ d.to)
        × (x.intended_capabilities ≡ d.intended_capabilities)
  state-delegated d at =
      let (target, target_in, target_at) = covered d.to (known_ends spec r.accepted d at).1 in
      elim (sound.reached d.to target target_at) [
        | inl e ↦ absurd (r.untargeted d at e)
        | inr (x, m, to) ↦
            let (d', at', h, p, e, from, is) = sound.edges x m in
            let same : d' ≡ d = differ d' d at' at (sym (ap (λ z. z.target_id) is) ∙ to) in
            (
              x,
              m,
              ap (λ z. z.edge_id) is ∙ ap (λ z. z.id) same,
              ap (λ z. z.source_id) is ∙ ap (λ z. z.from_) same,
              to,
              ap (λ z. z.intended_capabilities) is ∙ ap (λ z. z.intended_capabilities) same,
            )
      ]

-- A derivation that succeeds, on a scenario that the schema accepts, whose delegations have distinct
-- names and do not lead back to the root, gives one node for each identity, in order; the root
-- expects what it declares, every edge and its two nodes expect what the source expects and the
-- edge intends, and every delegation has its edge.
pub build_nodes_and_edges-IsDerived :
    (fuel : ℕ) (spec : ScenarioSpec) (r : IsRooted spec) (nodes : List IdentityNode)
    (edges : List DelegationEdge)
    → build_nodes_and_edges fuel spec ≡ some (ok (nodes, edges))
    → IsDerived spec r.root nodes edges
build_nodes_and_edges-IsDerived fuel spec r nodes edges made =
    let steps = build_nodes_and_edges-Steps fuel spec r.root nodes edges r.found made in
    let ds = spec.delegations in
    let declared = declared_capabilities r.root in
    let (_, differ) = index_delegations-fresh ds no_tables steps.tables steps.indexed in
    let indexed =
      index_delegations-IsIndexed ds ds no_tables steps.tables (λ d m. m) (no_tables-IsIndexed ds)
        steps.indexed in
    let distinct = Nodup-IdsDiffer ds (all_distinct-Nodup (delegation_ids ds) r.named) in
    let sound =
      visit-IsSound ds r.root.id declared (index_identities [] spec.identities) steps.tables indexed
        distinct fuel r.root.id 0 none declared (record { nodes = []; edges = [] }) steps.state
        (at_root refl refl refl refl) (inl refl) (no_state-IsSound ds r.root.id declared)
        steps.visited in
    let (ids, stored, covered) =
      nodes_in_order-ids spec.identities steps.state.nodes nodes
        (λ i n found. let (h, p, e, _, is) = sound.nodes i n found in ap (λ z. z.identity_id) is)
        steps.ordered in
    rw (sym steps.same_edges) (record {
      in_order = ids;
      root_as_declared = λ n m is_root.
          state-root spec r steps.state nodes differ sound covered n (stored n m) is_root;
      attenuated = state-IsAttenuated spec r steps.state nodes differ sound covered;
      all_delegated = state-delegated spec r steps.state nodes differ sound covered;
    })

-- With fuel for one more call than there are delegations, the derivation ends, with a result or an
-- error, on a scenario that the schema accepts, whose delegations have distinct names and do not
-- lead back to the root.
pub build_nodes_and_edges_ends :
    (fuel : ℕ) (spec : ScenarioSpec) (r : IsRooted spec)
    → length spec.delegations < fuel
    → (result : Result (List IdentityNode × List DelegationEdge)) × (build_nodes_and_edges fuel spec
        ≡ some result)
unfolding build_nodes_and_edges
build_nodes_and_edges_ends fuel spec r enough =
    let ds = spec.delegations in
    elim (Result-cases (index_delegations no_tables ds)) [
      | inl (x, failed) ↦ (err x, (rw (build_nodes_and_edges, r.found, failed) refl))
      | inr (tables, indexed) ↦
          let (_, differ) = index_delegations-fresh ds no_tables tables indexed in
          let is_indexed =
            index_delegations-IsIndexed ds ds no_tables tables (λ d m. m) (no_tables-IsIndexed ds)
              indexed in
          let distinct = Nodup-IdsDiffer ds (all_distinct-Nodup (delegation_ids ds) r.named) in
          let (result, ended) =
            visit-Ends ds r.root.id tables is_indexed distinct differ r.untargeted
              (index_identities [] spec.identities) fuel r.root.id 0 none
              (declared_capabilities r.root) (record { nodes = []; edges = [] }) [] refl (refl, tt)
              (omega (arith, enough)) in
          elim (Result-cases result) [
            | inl (x, failed) ↦
                (err x, (rw (build_nodes_and_edges, r.found, indexed, ended, failed) refl))
            | inr (state, succeeded) ↦ (
              finish_derivation spec.identities state,
              (rw (build_nodes_and_edges, r.found, indexed, ended, succeeded) refl),
            )
          ]
    ]
