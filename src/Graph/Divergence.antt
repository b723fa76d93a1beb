-- ===== src/Graph/Divergence.antt =====
-- src/chainbreak/graph/divergence.py: the per-edge, per-path and per-hop algorithms. Where the
-- source looks a node up by its identifier, so does the model; a missing one is a KeyError.
pub mod Edge
pub mod First
pub mod Drift
use chainbreak.Common.{
  ℕ, Bool, true, false, not, ◌&&◌, ◌||◌, List, [], ◌∷◌, Option, none, some, if◌then◌else◌,
}
use chainbreak.Core.Authority.{
  AuthoritySet, empty_authority, diff, inter, is_empty, is_subset_of, is_superset_of, set_eq,
}
use chainbreak.Core.Enums.{DivergenceKind, DriftClass}
use chainbreak.Core.Errors.{Result, ok, err, or_raise, value_error, ◌>>=◌}
use chainbreak.Core.Models.{
  IdentityId, IdentityNode, DelegationEdge, EdgeDivergence, DivergencePoint, unexpected_gain,
  unexpected_loss,
}
use chainbreak.Core.Graph.Validation.{AuthorizationGraph, node}

-- `edge_divergence` on the two observed sets, the source's expected set and the edge.
unfoldable pub compare_hop :
    DelegationEdge → (src_obs src_expected dst_obs : AuthoritySet) → EdgeDivergence
unfolding diff inter set_eq
compare_hop edge src_obs src_expected dst_obs =
    let intended = edge.intended_capabilities in
    let expected_at_target_observed = inter src_obs intended in
    let expected_at_target_intended = inter src_expected intended in
    record {
      edge_id = edge.edge_id;
      expected_at_target_observed = expected_at_target_observed;
      expected_at_target_intended = expected_at_target_intended;
      attenuation_correct = set_eq dst_obs expected_at_target_observed;
      attenuation_correct_vs_intent = set_eq dst_obs expected_at_target_intended;
      survived_incorrectly = diff dst_obs intended;
      dropped_incorrectly = diff expected_at_target_observed dst_obs;
      dropped_incorrectly_vs_intent = diff expected_at_target_intended dst_obs;
    }

unfoldable pub edge_divergence : AuthorizationGraph → DelegationEdge → Result EdgeDivergence
unfolding node compare_hop
edge_divergence graph edge = do
  source ← node graph edge.source_id
  target ← node graph edge.target_id
  src ← or_raise source.observed_authority value_error
  dst ← or_raise target.observed_authority value_error
  ok (compare_hop edge src.capabilities source.expected_authority.capabilities dst.capabilities)

-- The kind of a measured node's divergence; `none` where it has neither gain nor loss.
unfoldable pub divergence_kind : (gain loss : AuthoritySet) → Option DivergenceKind
unfolding is_empty
divergence_kind gain loss =
    if is_empty gain
    then (if is_empty loss then none else some DivergenceKind.narrowing)
    else some (if is_empty loss then DivergenceKind.expansion else DivergenceKind.mixed)

-- What one node of the path reports.
unfoldable pub divergence_point : IdentityNode → Option DivergencePoint
unfolding divergence_kind unexpected_gain unexpected_loss
divergence_point n = elim n.observed_authority [
  | none ↦ some (record {
    hop_index = n.hop_index;
    identity_id = n.identity_id;
    kind = DivergenceKind.unmeasured;
    gain = empty_authority;
    loss = empty_authority;
  })
  | some _ ↦ elim (divergence_kind (unexpected_gain n) (unexpected_loss n)) [
    | none ↦ none
    | some kind ↦ some (record {
      hop_index = n.hop_index;
      identity_id = n.identity_id;
      kind = kind;
      gain = unexpected_gain n;
      loss = unexpected_loss n;
    })
  ]
]

-- The loop of `first_divergence`, which returns at the first node that has a point.
unfoldable pub first_divergence :
    AuthorizationGraph → List IdentityId → Result (Option DivergencePoint)
unfolding node divergence_point
first_divergence graph [] = ok none
first_divergence graph (identity_id ∷ path) =
    let rest = first_divergence graph path in
    do
      n ← node graph identity_id
      elim (divergence_point n) [ none ↦ rest | some point ↦ ok (some point) ]

-- The tests of `classify_drift`, on the two gains.
unfoldable pub classify_gains : (gain_node gain_parent : AuthoritySet) → Option DriftClass
classify_gains gain_node gain_parent =
    if is_empty gain_parent && is_empty gain_node
    then none
    else if not (is_empty gain_parent) && is_empty gain_node
    then some DriftClass.corrected
    else if not (is_empty gain_parent)
        && is_superset_of gain_node gain_parent
        && not (set_eq gain_node gain_parent)
    then some DriftClass.amplified
    else if is_subset_of gain_node gain_parent
    then some DriftClass.propagated
    else some DriftClass.originated

unfoldable pub classify_drift : IdentityNode → Option IdentityNode → Option DriftClass
unfolding classify_gains unexpected_gain
classify_drift n parent =
    classify_gains (unexpected_gain n)
      (elim parent [ none ↦ empty_authority | some p ↦ unexpected_gain p ])
