-- ===== src/Analysis/Divergence/Total.antt =====
-- An unmeasured endpoint is left out, and never an error.
use chainbreak.Common.{◌≡◌, refl, List, [], ◌∷◌, In, here, there, inl, inr, Option-cases}
use chainbreak.Core.Errors.{ok}
use chainbreak.Core.Models.{IdentityNode, DelegationEdge, EdgeDivergence}
use chainbreak.Core.Graph.Validation.{AuthorizationGraph, node}
use chainbreak.Graph.Divergence.{edge_divergence, compare_hop}
use chainbreak.Analysis.Divergence.{is_measured, measured_edges}

-- Both identities of the edge are there.
abbrev IsJoined : AuthorizationGraph → DelegationEdge → Type 0
IsJoined graph e =
    ((s : IdentityNode) × (node graph e.source_id ≡ ok s))
    × ((t : IdentityNode) × (node graph e.target_id ≡ ok t))

-- Where the identities of all edges are there, the edges are analysed without an error, whichever
-- of the identities were measured.
measured_edges_total :
    (graph : AuthorizationGraph) (edges : List DelegationEdge)
    → ((e : DelegationEdge) → In e edges → IsJoined graph e)
    → (found : List EdgeDivergence) × (measured_edges graph edges ≡ ok found)
unfolding measured_edges is_measured edge_divergence
measured_edges_total graph [] joined = ([], refl)
measured_edges_total graph (e ∷ edges) joined =
    let ((s, source), (t, target)) = joined e (here refl) in
    let (rest, later) = measured_edges_total graph edges (λ d m. joined d (there m)) in
    elim (Option-cases s.observed_authority) [
      | inl unseen ↦ (rest, (rw (measured_edges, is_measured, source, unseen) later))
      | inr (seen, s_seen) ↦ elim (Option-cases t.observed_authority) [
        | inl unseen ↦
            (rest, (rw (measured_edges, is_measured, source, s_seen, target, unseen) later))
        | inr (also, t_seen) ↦
            let first =
              compare_hop e seen.capabilities s.expected_authority.capabilities also.capabilities in
            let compared : edge_divergence graph e ≡ ok first =
              rw (edge_divergence, source, target, s_seen, t_seen) refl in
            (
              first ∷ rest,
              (rw (measured_edges, is_measured, source, s_seen, target, t_seen, compared, later)
                  refl),
            )
      ]
    ]
