-- ===== src/Graph/Divergence/First.antt =====
-- The first divergence of a path.
use chainbreak.Common.{
  ◌≡◌, ◌↔◌, ◌⊎◌, refl, true, false, List, [], ◌∷◌, none, some, arith, inl, inr, All, is_some,
  Option-cases,
}
use chainbreak.Core.Authority.{is_empty}
use chainbreak.Core.Enums.{DivergenceKind}
use chainbreak.Core.Errors.{ok, ◌>>=◌, >>=-eq-ok}
use chainbreak.Core.Models.{
  IdentityId, IdentityNode, DivergencePoint, diverged, unexpected_gain, unexpected_loss,
}
use chainbreak.Core.Graph.Validation.{AuthorizationGraph, node}
use chainbreak.Graph.Divergence.{divergence_point, first_divergence}

-- The node that the identifier names was measured and holds exactly what was expected.
abbrev pub Agrees : AuthorizationGraph → IdentityId → Type 0
Agrees graph i =
    (n : IdentityNode) × (node graph i ≡ ok n)
    × (is_some n.observed_authority ≡ true)
    × (diverged n ≡ false)

divergence_point-none :
    (n : IdentityNode)
    → (divergence_point n ≡ none) ↔ ((is_some n.observed_authority ≡ true) × (diverged n ≡ false))
unfolding divergence_point diverged
divergence_point-none n = (ground arith, ground arith)

-- What a point says of the node that it reports.
pub record Reports (n : IdentityNode) (p : DivergencePoint) : Type 0 where
  pub place : (p.identity_id ≡ n.identity_id) × (p.hop_index ≡ n.hop_index)
  pub sets : (p.gain ≡ unexpected_gain n) × (p.loss ≡ unexpected_loss n)
  pub unmeasured : (p.kind ≡ DivergenceKind.unmeasured) ↔ (n.observed_authority ≡ none)
  pub expansion :
      (p.kind ≡ DivergenceKind.expansion) ↔ ((is_empty p.gain ≡ false) × (is_empty p.loss ≡ true))
  pub narrowing :
      (p.kind ≡ DivergenceKind.narrowing) ↔ ((is_empty p.gain ≡ true) × (is_empty p.loss ≡ false))
  pub mixed :
      (p.kind ≡ DivergenceKind.mixed) ↔ ((is_empty p.gain ≡ false) × (is_empty p.loss ≡ false))

divergence_point-Reports :
    (n : IdentityNode) (p : DivergencePoint) → divergence_point n ≡ some p → Reports n p
unfolding divergence_point
divergence_point-Reports n p h = record {
  place = ground arith;
  sets = ground arith;
  unmeasured = (ground arith, ground arith);
  expansion = (ground arith, ground arith);
  narrowing = (ground arith, ground arith);
  mixed = (ground arith, ground arith);
}

-- The first node of the path that has something to report, behind nodes that agree.
abbrev pub FirstAt : AuthorizationGraph → DivergencePoint → List IdentityId → Type 0
FirstAt graph p [] = ⊥
FirstAt graph p (i ∷ path) =
    ((n : IdentityNode) × (node graph i ≡ ok n) × Reports n p)
    ⊎ (Agrees graph i × FirstAt graph p path)

first_divergence-cons :
    (graph : AuthorizationGraph) (i : IdentityId) (path : List IdentityId)
    → first_divergence graph (i ∷ path) ≡ (
        node graph i >>= λ n. elim (divergence_point n) [
          | none ↦ first_divergence graph path
          | some point ↦ ok (some point)
        ])
unfolding first_divergence
first_divergence-cons graph i path = refl

-- No divergence is reported exactly when every node of the path was found, was measured and holds
-- just what was expected.
first_divergence-none_iff :
    (graph : AuthorizationGraph) (path : List IdentityId)
    → (first_divergence graph path ≡ ok none) ↔ All (Agrees graph) path
first_divergence-none_iff graph [] = unfold first_divergence in (λ h. tt, λ h. refl)
first_divergence-none_iff graph (i ∷ path) = (
  λ h.
      let (n, found, rest) =
        >>=-eq-ok (node graph i) _ (rw (first_divergence-cons graph i path) at h) in
      elim (Option-cases (divergence_point n)) [
        | inl e ↦
            let (seen, same) = (divergence_point-none n).0 e in
            ((n, found, seen, same), (first_divergence-none_iff graph path).0 (rw e at rest))
        | inr (p, e) ↦ cc (rw e at rest)
      ],
  λ ((n, found, seen, same), rest). rw (first_divergence-cons graph i path) (
      ground (
        arith,
        found,
        (divergence_point-none n).1 (seen, same),
        (first_divergence-none_iff graph path).1 rest,
      )),
)

-- A point that is reported is that of the first node of the path that was not measured or does
-- not hold just what was expected, and says whether it gained, lost or both.
pub first_divergence-FirstAt :
    (graph : AuthorizationGraph) (path : List IdentityId) (p : DivergencePoint)
    → first_divergence graph path ≡ ok (some p)
    → FirstAt graph p path
first_divergence-FirstAt graph [] p h = unfold first_divergence in cc
first_divergence-FirstAt graph (i ∷ path) p h =
    let (n, found, rest) =
      >>=-eq-ok (node graph i) _ (rw (first_divergence-cons graph i path) at h) in
    elim (Option-cases (divergence_point n)) [
      | inl e ↦
          let (seen, same) = (divergence_point-none n).0 e in
          inr ((n, found, seen, same), first_divergence-FirstAt graph path p (rw e at rest))
      | inr (q, e) ↦ inl (
        n,
        found,
        divergence_point-Reports n p (let same : ok (some q) ≡ ok (some p) = rw e at rest in cc),
      )
    ]
