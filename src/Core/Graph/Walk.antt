-- ===== src/Core/Graph/Walk.antt =====
-- `AuthorizationGraph.paths` (src/chainbreak/core/models.py): the root-to-leaf paths, by a recursion
-- over the children that runs on fuel here. `none` is a recursion that has not ended.
pub mod Complete
use chainbreak.Common.{ℕ, zero, suc, List, [], ◌∷◌, ◌++◌, Option, none, some}
use chainbreak.Core.Errors.{Result, ok, ◌>>=◌}
use chainbreak.Core.Models.{IdentityId, DelegationEdge}
use chainbreak.Core.Graph.Validation.{AuthorizationGraph, children_ids, the_root, roots}

abbrev pub IdentityPath : Type 0
IdentityPath = List IdentityId

-- `for child in children`, whose results follow each other.
unfoldable pub for_each :
    (IdentityId → Option (List IdentityPath)) → List IdentityId → Option (List IdentityPath)
for_each visit [] = some []
for_each visit (child ∷ children) =
    let rest = for_each visit children in
    elim (visit child) [
      | none ↦ none
      | some found ↦ elim rest [ none ↦ none | some others ↦ some (found ++ others) ]
    ]

-- `walk`, which returns what it adds to `results`.
unfoldable pub walk :
    (fuel : ℕ) → List DelegationEdge → IdentityId → IdentityPath → Option (List IdentityPath)
walk zero edges current before = none
walk (suc fuel) edges current before =
    let here = before ++ current ∷ [] in
    let below = for_each (λ child. walk fuel edges child here) (children_ids edges current) in
    elim (children_ids edges current) [ [] ↦ some (here ∷ []) | _ ∷ _ ↦ below ]

-- `AuthorizationGraph.paths`
unfoldable pub paths : (fuel : ℕ) → AuthorizationGraph → Result (Option (List IdentityPath))
paths fuel graph = do
  root ← the_root (roots graph.nodes)
  ok (walk fuel graph.edges root.identity_id [])
