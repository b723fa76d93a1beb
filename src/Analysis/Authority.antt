-- ===== src/Analysis/Authority.antt =====
-- src/chainbreak/analysis/authority.py: observations grouped into cells, and resolved cells turned
-- into observed authority. A KeyError of a dict that the source subscripts is `key_error`.
pub mod Partition
pub mod Grouping
pub mod Population
pub mod Confinement
mod Tests
use chainbreak.Common.{
  ℕ, suc, Bool, true, false, ◌&&◌, List, [], ◌∷◌, ◌++◌, Option, none, some, ltb, leb, ◌==◌,
  if◌then◌else◌, map, filter, is_none,
}
use chainbreak.Common.Dict.{Dict, lookup, insert, keys}
use chainbreak.Core.Authority.{AuthoritySet, CapabilityId, len, sorted}
use chainbreak.Core.Enums.{OutcomeClass, ExclusionReason, PlanPhase, is_allowed}
use chainbreak.Core.Enums.Equality.{same_phase}
use chainbreak.Core.Errors.{Result, ok, err, or_raise, key_error, ◌>>=◌, ◌>>◌}
use chainbreak.Core.Models.{
  IdentityId, IdentityNode, ObservedAuthority, Observation, observed_authority,
}
use chainbreak.Core.Graph.Validation.{AuthorizationGraph}
use chainbreak.Analysis.Cells.{ProbeCellResult, resolve_cell}

pub record CellKey : Type 0 where
  pub identity_id : IdentityId
  pub capability_id : CapabilityId
  pub phase : PlanPhase

abbrev pub key_of : Observation → CellKey
key_of o = record { identity_id = o.identity_id; capability_id = o.capability_id; phase = o.phase }

unfoldable pub same_key : CellKey → CellKey → Bool
same_key k j =
    k.identity_id == j.identity_id
    && k.capability_id == j.capability_id
    && same_phase k.phase j.phase

abbrev pub Groups : Type 0
Groups = List (CellKey × List Observation)

-- `grouped[key].append(observation)` on a defaultdict.
unfoldable pub append_to : CellKey → Observation → Groups → Groups
unfolding same_key
append_to key o [] = (key, o ∷ []) ∷ []
append_to key o ((k, group) ∷ groups) =
    if same_key key k then (k, group ++ o ∷ []) ∷ groups else (k, group) ∷ append_to key o groups

unfoldable pub group_from : Groups → List Observation → Groups
unfolding append_to
group_from groups [] = groups
group_from groups (o ∷ os) = group_from (append_to (key_of o) o groups) os

-- `sorted(obs_list, key=lambda o: o.trial)`, which keeps the order of equal trials.
unfoldable pub insert_by_trial : Observation → List Observation → List Observation
insert_by_trial o [] = o ∷ []
insert_by_trial o (p ∷ ps) =
    let rest = insert_by_trial o ps in if leb o.trial p.trial then o ∷ p ∷ ps else p ∷ rest

unfoldable pub sort_by_trial : List Observation → List Observation
unfolding insert_by_trial
sort_by_trial [] = []
sort_by_trial (o ∷ os) = insert_by_trial o (sort_by_trial os)

unfoldable pub cell_of : CellKey → List Observation → ProbeCellResult
unfolding sort_by_trial
cell_of key group =
    let ordered = sort_by_trial group in
    record {
      identity_id = key.identity_id;
      capability_id = key.capability_id;
      phase = key.phase;
      trials = map (λ o. o.outcome_class) ordered;
      observation_ids = map (λ o. o.observation_id) ordered;
    }

unfoldable pub cells_of_groups : Groups → List (CellKey × ProbeCellResult)
unfolding cell_of
cells_of_groups [] = []
cells_of_groups ((key, group) ∷ groups) = (key, cell_of key group) ∷ cells_of_groups groups

unfoldable pub aggregate_observations : List Observation → List (CellKey × ProbeCellResult)
unfolding group_from cells_of_groups
aggregate_observations observations = cells_of_groups (group_from [] observations)

-- The running result of the loop in `build_observed_authority`.
pub record Tally : Type 0 where
  pub capabilities : AuthoritySet
  pub excluded : Dict ExclusionReason
  pub classified : ℕ

-- What one capability adds, by the resolution of its cell.
unfoldable pub add_capability : CapabilityId → OutcomeClass × Option ExclusionReason → Tally → Tally
add_capability c (resolved, reason) t =
    if is_allowed resolved
    then record t { capabilities = c ∷ t.capabilities; classified = suc t.classified }
    else elim reason [
      | none ↦ record t { classified = suc t.classified }
      | some r ↦ record t { excluded = (c, r) ∷ t.excluded }
    ]

unfoldable pub tally : Dict ProbeCellResult → List CapabilityId → Result Tally
tally cells [] = ok (record { capabilities = []; excluded = []; classified = 0 })
tally cells (c ∷ universe) =
    let rest = tally cells universe in
    elim (lookup c cells) [
      | none ↦ do
        t ← rest
        ok (record t { excluded = (c, ExclusionReason.not_probed) ∷ t.excluded })
      | some cell ↦ do
        resolution ← or_raise (resolve_cell cell) key_error
        t ← rest
        ok (add_capability c resolution t)
    ]

-- Iterating over an `AuthoritySet` goes through its sorted members.
unfoldable pub build_observed_authority :
    PlanPhase
    → (probe_matrix_id : ℕ) → (universe : AuthoritySet) → Dict ProbeCellResult
    → Result ObservedAuthority
build_observed_authority phase probe_matrix_id universe cells = do
  t ← tally cells (sorted universe)
  observed_authority (record {
    capabilities = t.capabilities;
    excluded = t.excluded;
    phase = phase;
    probe_matrix_id = probe_matrix_id;
    attempted = len universe;
    classified = t.classified;
  })

-- The cells of one identity, by capability.
unfoldable pub identity_cells : IdentityId → List (CellKey × ProbeCellResult) → Dict ProbeCellResult
identity_cells i [] = []
identity_cells i ((key, cell) ∷ cells) =
    let rest = identity_cells i cells in
    if key.identity_id == i then (key.capability_id, cell) ∷ rest else rest

-- `matrix_id_by_identity`: the first observation of the identity at the phase gives the matrix.
unfoldable pub matrix_of : PlanPhase → IdentityId → List Observation → Option ℕ
matrix_of phase i [] = none
matrix_of phase i (o ∷ os) =
    let rest = matrix_of phase i os in
    if same_phase o.phase phase && o.identity_id == i then some o.probe_matrix_id else rest

unfoldable pub populate_node :
    PlanPhase
    → List Observation
    → List (CellKey × ProbeCellResult)
    → IdentityNode
    → Result IdentityNode
unfolding identity_cells matrix_of build_observed_authority
populate_node phase observations cells n = elim (identity_cells n.identity_id cells) [
  | [] ↦ ok n
  | cell ∷ more ↦ do
    matrix ← or_raise (matrix_of phase n.identity_id observations) key_error
    observed ← build_observed_authority phase matrix (keys (cell ∷ more)) (cell ∷ more)
    ok (record n { observed_authority = some observed })
]

unfoldable pub populate_nodes :
    PlanPhase
    → List Observation
    → List (CellKey × ProbeCellResult)
    → List IdentityNode
    → Result (List IdentityNode)
unfolding populate_node
populate_nodes phase observations cells [] = ok []
populate_nodes phase observations cells (n ∷ ns) = do
  m ← populate_node phase observations cells n
  rest ← populate_nodes phase observations cells ns
  ok (m ∷ rest)

unfoldable pub populate_observed_authority :
    AuthorizationGraph → List Observation → PlanPhase → Result AuthorizationGraph
unfolding aggregate_observations populate_nodes
populate_observed_authority graph observations phase = do
  let cells = aggregate_observations (filter (λ o. same_phase o.phase phase) observations)
  nodes ← populate_nodes phase observations cells graph.nodes
  ok (record graph { nodes = nodes })
