-- ===== src/Analysis/Authority/Population.antt =====
-- AUTH-1, from the observations to the nodes of a populated graph.
use chainbreak.Common.{
  ℕ, ◌≡◌, refl, sym, ap, Bool, true, false, ◌&&◌, ◌||◌, not, List, [], ◌∷◌, arith, ◌==◌,
  if◌then◌else◌, all, any, filter, map, mem, Bool-cases, inl, inr, is_none,
}
use chainbreak.Common.Dict.{Dict, keys}
use chainbreak.Core.Enums.{OutcomeClass, PlanPhase, is_allowed}
use chainbreak.Core.Enums.Equality.{same_phase, same_phase_iff}
use chainbreak.Core.Models.{IdentityId, Observation}
use chainbreak.Analysis.Cells.{ProbeCellResult, resolved, resolve_trials}
use chainbreak.Analysis.Cells.Unanimity.{resolve_trials_kind}
use chainbreak.Analysis.Authority.{
  CellKey, key_of, same_key, Groups, append_to, group_from, insert_by_trial, sort_by_trial, cell_of,
  cells_of_groups, identity_cells, matrix_of,
}
use chainbreak.Analysis.Authority.Grouping.{members, same_key-fields, sort_by_trial-all}
use chainbreak.Analysis.Authority.Partition.{is_held}

abbrev pub is_nil : {A : Type 0} → List A → Bool
is_nil [] = true
is_nil (x ∷ xs) = false

-- There are observations, and all of them are ALLOWED.
abbrev pub all_allowed : List Observation → Bool
all_allowed os = not (is_nil os) && all (λ o. is_allowed o.outcome_class) os

allowed_trials :
    (ts : List OutcomeClass)
    → is_allowed (resolve_trials ts) ≡ (not (is_nil ts) && all is_allowed ts)
allowed_trials [] = unfold resolve_trials is_allowed in refl
allowed_trials (t ∷ ts) = (resolve_trials_kind t ts).0

map-allowed :
    (os : List Observation)
    → all is_allowed (map (λ o. o.outcome_class) os) ≡ all (λ o. is_allowed o.outcome_class) os
map-allowed [] = refl
map-allowed (o ∷ os) = ground (arith, map-allowed os)

is_nil-map : (os : List Observation) → is_nil (map (λ o. o.outcome_class) os) ≡ is_nil os
is_nil-map [] = refl
is_nil-map (o ∷ os) = refl

is_nil-insert_by_trial :
    (o : Observation) (os : List Observation) → is_nil (insert_by_trial o os) ≡ false
unfolding insert_by_trial
is_nil-insert_by_trial o [] = refl
is_nil-insert_by_trial o (p ∷ ps) = ground arith

is_nil-sort_by_trial : (os : List Observation) → is_nil (sort_by_trial os) ≡ is_nil os
unfolding sort_by_trial
is_nil-sort_by_trial [] = refl
is_nil-sort_by_trial (o ∷ os) = is_nil-insert_by_trial o (sort_by_trial os)

-- The cell of a group is held exactly when the group's observations are all ALLOWED.
cell_of-held :
    (k : CellKey) (group : List Observation)
    → is_allowed (resolved (cell_of k group)) ≡ all_allowed group
unfolding cell_of resolved
cell_of-held k group = ground (
  arith,
  allowed_trials (map (λ o. o.outcome_class) (sort_by_trial group)),
  map-allowed (sort_by_trial group),
  is_nil-map (sort_by_trial group),
  is_nil-sort_by_trial group,
  sort_by_trial-all (λ o. is_allowed o.outcome_class) group,
)

-- The key of a capability of an identity at a phase.
abbrev pub key : IdentityId → ℕ → PlanPhase → CellKey
key i c phase = record { identity_id = i; capability_id = c; phase = phase }

unfoldable pub in_phase : PlanPhase → Groups → Bool
in_phase phase gs = all (λ g. same_phase phase g.0.phase) gs

same_key-test :
    (i c : ℕ) (phase : PlanPhase) (k : CellKey)
    → same_phase phase k.phase ≡ true
    → same_key (key i c phase) k ≡ (k.identity_id == i && c == k.capability_id)
unfolding same_key
same_key-test i c phase k h = ground (arith, h)

is_held-cons :
    (j : ℕ) (cell : ProbeCellResult) (d : Dict ProbeCellResult) (c : ℕ)
    → is_held ((j, cell) ∷ d) c ≡ (if c == j then is_allowed (resolved cell) else is_held d c)
is_held-cons j cell d c = ground arith

pub held_members :
    (i c : ℕ) (phase : PlanPhase) (gs : Groups)
    → in_phase phase gs ≡ true
    → is_held (identity_cells i (cells_of_groups gs)) c ≡ all_allowed (members (key i c phase) gs)
unfolding identity_cells cells_of_groups in_phase
held_members i c phase [] h = refl
held_members i c phase ((k, group) ∷ gs) h =
    let here = same_key-test i c phase k (ground (arith, h)) in
    let later = held_members i c phase gs (ground (arith, h)) in
    ground (
      arith,
      here,
      later,
      cell_of-held k group,
      is_held-cons k.capability_id (cell_of k group) (identity_cells i (cells_of_groups gs)) c,
    )

-- A held capability has a cell.
pub is_held-keys :
    (d : Dict ProbeCellResult) (c : ℕ) → is_held d c ≡ (mem c (keys d) && is_held d c)
is_held-keys [] c = refl
is_held-keys ((j, cell) ∷ d) c = ground (arith, is_held-keys d c)

in_phase-append_to :
    (phase : PlanPhase) (j : CellKey) (o : Observation) (gs : Groups)
    → same_phase phase j.phase ≡ true
    → in_phase phase gs ≡ true
    → in_phase phase (append_to j o gs) ≡ true
unfolding in_phase append_to
in_phase-append_to phase j o [] h g = ground (arith, h)
in_phase-append_to phase j o ((k, group) ∷ gs) h g =
    ground (arith, h, g, in_phase-append_to phase j o gs h)

pub in_phase-group_from :
    (phase : PlanPhase) (gs : Groups) (os : List Observation)
    → in_phase phase gs ≡ true
    → in_phase phase (group_from gs (filter (λ o. same_phase o.phase phase) os)) ≡ true
unfolding group_from
in_phase-group_from phase gs [] h = h
in_phase-group_from phase gs (o ∷ os) h = elim (Bool-cases (same_phase o.phase phase)) [
  | inl e ↦
      let turned : same_phase phase o.phase ≡ true =
        (same_phase_iff phase o.phase).1 (sym ((same_phase_iff o.phase phase).0 e)) in
      rw e (
        in_phase-group_from phase (append_to (key_of o) o gs) os
          (in_phase-append_to phase (key_of o) o gs turned h))
  | inr e ↦ rw e (in_phase-group_from phase gs os h)
]

-- Some group is of the identity.
unfoldable pub has_identity : IdentityId → Groups → Bool
has_identity i gs = any (λ g. g.0.identity_id == i) gs

has_identity-append_to :
    (i : IdentityId) (j : CellKey) (o : Observation) (gs : Groups)
    → has_identity i (append_to j o gs) ≡ (j.identity_id == i || has_identity i gs)
unfolding has_identity append_to
has_identity-append_to i j o [] = ground arith
has_identity-append_to i j o ((k, group) ∷ gs) = elim (Bool-cases (same_key j k)) [
  | inl e ↦
      let same : (j.identity_id == i) ≡ (k.identity_id == i) =
        ap (λ x. x == i) (same_key-fields j k e).0 in
      ground (arith, e, same)
  | inr e ↦ ground (arith, e, has_identity-append_to i j o gs)
]

pub has_identity-matrix :
    (i : IdentityId) (phase : PlanPhase) (gs : Groups) (os : List Observation)
    → has_identity i (group_from gs (filter (λ o. same_phase o.phase phase) os))
      ≡ (has_identity i gs || not (is_none (matrix_of phase i os)))
unfolding group_from matrix_of
has_identity-matrix i phase gs [] = ground arith
has_identity-matrix i phase gs (o ∷ os) = elim (Bool-cases (same_phase o.phase phase)) [
  | inl e ↦ ground (
    arith,
    e,
    has_identity-matrix i phase (append_to (key_of o) o gs) os,
    has_identity-append_to i (key_of o) o gs,
  )
  | inr e ↦ ground (arith, e, has_identity-matrix i phase gs os)
]

pub is_nil-identity_cells :
    (i : IdentityId) (gs : Groups)
    → is_nil (identity_cells i (cells_of_groups gs)) ≡ not (has_identity i gs)
unfolding identity_cells cells_of_groups has_identity
is_nil-identity_cells i [] = refl
is_nil-identity_cells i ((k, group) ∷ gs) = ground (arith, is_nil-identity_cells i gs)
