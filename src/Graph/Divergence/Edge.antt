-- ===== src/Graph/Divergence/Edge.antt =====
-- What an edge verdict says about the capabilities on the two sides of the hop.
use chainbreak.Common.{ℕ, ◌≡◌, ◌↔◌, sym, ◌∙◌, true, ◌&&◌, arith, mem}
use chainbreak.Core.Authority.{AuthoritySet, diff, inter, is_empty}
use chainbreak.Core.Authority.Algebra.{mem-diff, mem-inter, set_eq_iff, is_empty_iff}
use chainbreak.Core.Models.{DelegationEdge}
use chainbreak.Graph.Divergence.{compare_hop}

module _ (edge : DelegationEdge) (src_obs src_expected dst_obs : AuthoritySet) where
  -- The hop is judged correct exactly when the target holds just those capabilities that the
  -- source was observed to hold and the edge intends.
  attenuation_correct_iff :
      ((compare_hop edge src_obs src_expected dst_obs).attenuation_correct ≡ true)
      ↔ ((c : ℕ) → mem c dst_obs ≡ (mem c src_obs && mem c edge.intended_capabilities))
  unfolding compare_hop
  attenuation_correct_iff = (
    λ h c.
        (set_eq_iff dst_obs (inter src_obs edge.intended_capabilities)).0 h c
        ∙ mem-inter c src_obs edge.intended_capabilities,
    λ h.
        (set_eq_iff dst_obs (inter src_obs edge.intended_capabilities)).1
          λ c. h c ∙ sym (mem-inter c src_obs edge.intended_capabilities),
  )

  -- A hop at which nothing survived and nothing was dropped is correct, unless the target holds
  -- a capability that the edge intends and the source was not observed to hold.
  pub attenuation_correct_of_empty :
      is_empty (compare_hop edge src_obs src_expected dst_obs).survived_incorrectly ≡ true
      → is_empty (compare_hop edge src_obs src_expected dst_obs).dropped_incorrectly ≡ true
      → ((c : ℕ)
          → mem c dst_obs ≡ true
          → mem c edge.intended_capabilities ≡ true
          → mem c src_obs ≡ true)
      → (compare_hop edge src_obs src_expected dst_obs).attenuation_correct ≡ true
  unfolding compare_hop
  attenuation_correct_of_empty survived dropped held =
      let intended = edge.intended_capabilities in
      attenuation_correct_iff.1 λ c. ground (
        arith,
        (is_empty_iff (diff dst_obs intended)).0 survived c,
        (is_empty_iff (diff (inter src_obs intended) dst_obs)).0 dropped c,
        mem-diff c dst_obs intended,
        mem-diff c (inter src_obs intended) dst_obs,
        mem-inter c src_obs intended,
        held c,
      )

  -- At a correct hop nothing survives and nothing is dropped.
  pub empty_of_attenuation_correct :
      (compare_hop edge src_obs src_expected dst_obs).attenuation_correct ≡ true
      → (is_empty (compare_hop edge src_obs src_expected dst_obs).survived_incorrectly ≡ true)
        × (is_empty (compare_hop edge src_obs src_expected dst_obs).dropped_incorrectly ≡ true)
  unfolding compare_hop
  empty_of_attenuation_correct h =
      let intended = edge.intended_capabilities in
      (
        (is_empty_iff (diff dst_obs intended)).1
            λ c. ground (arith, attenuation_correct_iff.0 h c, mem-diff c dst_obs intended),
        (is_empty_iff (diff (inter src_obs intended) dst_obs)).1 λ c. ground (
          arith,
          attenuation_correct_iff.0 h c,
          mem-diff c (inter src_obs intended) dst_obs,
          mem-inter c src_obs intended,
        ),
      )
