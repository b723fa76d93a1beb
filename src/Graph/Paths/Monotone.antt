-- ===== src/Graph/Paths/Monotone.antt =====
-- The monotonicity flags, as statements about any two measured nodes of the path.
use chainbreak.Common.{ℕ, ◌≡◌, ◌↔◌, refl, true, List, [], ◌∷◌, arith, mem, All, &&-eq-true}
use chainbreak.Core.Authority.{AuthoritySet, is_subset_of}
use chainbreak.Core.Authority.Algebra.{is_subset_of_iff}
use chainbreak.Core.Authority.Canonical.{len-le_of_subset}
use chainbreak.Core.Errors.{ok, >>=-eq-ok}
use chainbreak.Core.Models.{IdentityId, IdentityNode, PathAnalysis}
use chainbreak.Core.Graph.Validation.{AuthorizationGraph}
use chainbreak.Graph.Divergence.{first_divergence}
use chainbreak.Graph.Paths.{
  analyze_path, nodes_of, last_node, measured_sets, monotone_set, monotone_cardinality,
}

abbrev Within : AuthoritySet → AuthoritySet → Type 0
Within s t = (c : ℕ) → mem c s ≡ true → mem c t ≡ true

-- Every set of the list lies in all that stand before it.
abbrev pub Shrinks : List AuthoritySet → Type 0
Shrinks [] = Unit
Shrinks (s ∷ rest) = All (λ t. Within t s) rest × Shrinks rest

All-Within :
    (s t : AuthoritySet) (rest : List AuthoritySet)
    → Within t s
    → All (λ u. Within u t) rest
    → All (λ u. Within u s) rest
All-Within s t [] w h = tt
All-Within s t (u ∷ rest) w h = (λ c m. w c (h.0 c m), All-Within s t rest w h.1)

-- The flag, which compares neighbours, says that authority only shrinks along the whole list.
pub monotone_set_iff : (sets : List AuthoritySet) → (monotone_set sets ≡ true) ↔ Shrinks sets
unfolding monotone_set
monotone_set_iff [] = (λ h. tt, λ h. refl)
monotone_set_iff (s ∷ []) = (λ h. (tt, tt), λ h. refl)
monotone_set_iff (s ∷ t ∷ rest) = (
  λ h.
      let (first, others) = &&-eq-true (is_subset_of t s) (monotone_set (t ∷ rest)) h in
      let below : Within t s = (is_subset_of_iff t s).0 first in
      let tail = (monotone_set_iff (t ∷ rest)).0 others in
      ((below, All-Within s t rest below tail.0), tail),
  λ h. ground (arith, (is_subset_of_iff t s).1 h.0.0, (monotone_set_iff (t ∷ rest)).1 h.1),
)

monotone_set-cardinality :
    (sets : List AuthoritySet) → monotone_set sets ≡ true → monotone_cardinality sets ≡ true
unfolding monotone_set monotone_cardinality
monotone_set-cardinality [] h = refl
monotone_set-cardinality (s ∷ []) h = refl
monotone_set-cardinality (s ∷ t ∷ rest) h =
    let (first, others) = &&-eq-true (is_subset_of t s) (monotone_set (t ∷ rest)) h in
    ground (arith, len-le_of_subset t s first, monotone_set-cardinality (t ∷ rest) others)

-- The analysis of a path reports set-monotone attenuation exactly when each measured node's
-- authority lies in that of every measured node before it, and then it also reports
-- cardinality-monotone attenuation.
pub analyze_path_monotone :
    (graph : AuthorizationGraph) (path : List IdentityId) (nodes : List IdentityNode)
    (a : PathAnalysis)
    → nodes_of graph path ≡ ok nodes
    → analyze_path graph path ≡ ok a
    → ((a.attenuation_monotone_set ≡ true) ↔ Shrinks (measured_sets nodes))
      × (a.attenuation_monotone_set ≡ true → a.attenuation_monotone_cardinality ≡ true)
unfolding analyze_path
analyze_path_monotone graph path nodes a found h =
    let (ns, f, k1) = >>=-eq-ok (nodes_of graph path) _ h in
    let (first, e, k2) = >>=-eq-ok (first_divergence graph path) _ k1 in
    let (terminal, t, k3) = >>=-eq-ok (last_node ns) _ k2 in
    let same : ns ≡ nodes = cc in
    let set_flag : a.attenuation_monotone_set ≡ monotone_set (measured_sets nodes) =
      ground (arith, same) in
    let cardinality_flag : a.attenuation_monotone_cardinality
        ≡ monotone_cardinality (measured_sets nodes) =
      ground (arith, same) in
    rw set_flag (
      rw cardinality_flag
        (monotone_set_iff (measured_sets nodes), monotone_set-cardinality (measured_sets nodes)))
