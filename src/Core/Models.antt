-- ===== src/Core/Models.antt =====
-- The domain records of src/chainbreak/core/models.py that the graph and the analysis read, with
-- their derived properties. Fields that only describe (titles, digests, wall-clock context) are
-- left out. Identifiers are numbers, as for `AuthoritySet`.
use chainbreak.Common.{
  ℕ, Bool, not, ◌||◌, List, Option, none, some, ltb, ◌==◌, is_some, is_none, if◌then◌else◌,
}
use chainbreak.Common.Dict.{Dict}
use chainbreak.Core.Authority.{AuthoritySet, CapabilityId, empty_authority, diff, inter, is_empty}
use chainbreak.Core.Enums.{
  OutcomeClass, ExclusionReason, PlanPhase, DelegationMechanism, DivergenceKind,
}
use chainbreak.Core.Errors.{Result, ok, raise_if, value_error, ◌>>◌}

abbrev pub IdentityId : Type 0
IdentityId = ℕ

pub record ExpectedAuthority : Type 0 where
  pub capabilities : AuthoritySet
  pub phase : PlanPhase

pub record ObservedAuthority : Type 0 where
  pub capabilities : AuthoritySet
  pub excluded : Dict ExclusionReason
  pub phase : PlanPhase
  pub probe_matrix_id : ℕ
  pub attempted : ℕ
  pub classified : ℕ

-- The validator `_classified_within_attempted`: what construction returns or raises.
unfoldable pub observed_authority : ObservedAuthority → Result ObservedAuthority
observed_authority o = do raise_if (ltb o.attempted o.classified) value_error; ok o

pub record DelegationEdge : Type 0 where
  pub edge_id : ℕ
  pub source_id : IdentityId
  pub target_id : IdentityId
  pub mechanism : DelegationMechanism
  pub requested_capabilities : AuthoritySet
  pub intended_capabilities : AuthoritySet
  pub expected_effective : AuthoritySet

-- The validator `_no_self_delegation`.
unfoldable pub delegation_edge : DelegationEdge → Result DelegationEdge
delegation_edge e = do raise_if (e.source_id == e.target_id) value_error; ok e

pub record IdentityNode : Type 0 where
  pub identity_id : IdentityId
  pub is_root : Bool
  pub hop_index : ℕ
  pub parent_id : Option IdentityId
  pub expected_authority : ExpectedAuthority
  pub observed_authority : Option ObservedAuthority

-- The validator `_root_consistency`.
unfoldable pub identity_node : IdentityNode → Result IdentityNode
identity_node n =
    if n.is_root
    then (do
      raise_if (is_some n.parent_id) value_error
      raise_if (not (n.hop_index == 0)) value_error
      ok n)
    else (do raise_if (is_none n.parent_id) value_error; ok n)

unfoldable pub unexpected_gain : IdentityNode → AuthoritySet
unfolding diff
unexpected_gain n = elim n.observed_authority [
  | none ↦ empty_authority
  | some o ↦ diff o.capabilities n.expected_authority.capabilities
]

unfoldable pub unexpected_loss : IdentityNode → AuthoritySet
unfolding diff
unexpected_loss n = elim n.observed_authority [
  | none ↦ empty_authority
  | some o ↦ diff n.expected_authority.capabilities o.capabilities
]

unfoldable pub agreement : IdentityNode → AuthoritySet
unfolding inter
agreement n = elim n.observed_authority [
  | none ↦ empty_authority
  | some o ↦ inter o.capabilities n.expected_authority.capabilities
]

unfoldable pub diverged : IdentityNode → Bool
unfolding unexpected_gain unexpected_loss is_empty
diverged n = not (is_empty (unexpected_gain n)) || not (is_empty (unexpected_loss n))

pub record DivergencePoint : Type 0 where
  pub hop_index : ℕ
  pub identity_id : IdentityId
  pub kind : DivergenceKind
  pub gain : AuthoritySet
  pub loss : AuthoritySet

pub record PathAnalysis : Type 0 where
  pub path : List IdentityId
  pub first_divergence : Option DivergencePoint
  pub attenuation_monotone_set : Bool
  pub attenuation_monotone_cardinality : Bool
  pub terminal_gain : AuthoritySet

pub record EdgeDivergence : Type 0 where
  pub edge_id : ℕ
  pub expected_at_target_observed : AuthoritySet
  pub expected_at_target_intended : AuthoritySet
  pub attenuation_correct : Bool
  pub attenuation_correct_vs_intent : Bool
  pub survived_incorrectly : AuthoritySet
  pub dropped_incorrectly : AuthoritySet
  pub dropped_incorrectly_vs_intent : AuthoritySet

-- The fields of an `Observation` that the analysis reads; `wall_start` counts milliseconds from a
-- fixed instant, and the outcome stands for `outcome.outcome_class`.
pub record Observation : Type 0 where
  pub observation_id : ℕ
  pub phase : PlanPhase
  pub probe_matrix_id : ℕ
  pub identity_id : IdentityId
  pub capability_id : CapabilityId
  pub trial : ℕ
  pub credential_id : Option ℕ
  pub monotonic_start_ns : ℕ
  pub wall_start : ℕ
  pub outcome_class : OutcomeClass
