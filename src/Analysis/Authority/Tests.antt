-- ===== src/Analysis/Authority/Tests.antt =====
-- A chain of identities populated from three observations.
use chainbreak.Common.{ℕ, ◌≡◌, List, [], ◌∷◌, none}
use chainbreak.Core.Enums.{OutcomeClass, PlanPhase}
use chainbreak.Core.Errors.{ok}
use chainbreak.Core.Graph.Tests.{chain}
use chainbreak.Core.Graph.Validation.{AuthorizationGraph}
use chainbreak.Core.Models.{Observation}
use chainbreak.Analysis.Authority.{populate_observed_authority}
use chainbreak.Analysis.Authority.Confinement.{
  Populates, Each, populate_observed_authority-Populates,
}

abbrev observation : ℕ → ℕ → ℕ → ℕ → OutcomeClass → Observation
observation id identity capability trial outcome = record {
  observation_id = id;
  phase = PlanPhase.post_delegation;
  probe_matrix_id = 7;
  identity_id = identity;
  capability_id = capability;
  trial = trial;
  credential_id = none;
  monotonic_start_ns = id;
  wall_start = id;
  outcome_class = outcome;
}

abbrev observed : List Observation
observed =
    observation 1 3 10 2 OutcomeClass.allowed
    ∷ observation 2 3 10 1 OutcomeClass.allowed
    ∷ observation 3 3 12 1 OutcomeClass.denied_implicit
    ∷ []

populate_observed_authority-Populates_example :
    (populated : AuthorizationGraph) × (populate_observed_authority chain observed
        PlanPhase.post_delegation
      ≡ ok populated)
    × (populated.edges ≡ chain.edges)
    × Each (Populates PlanPhase.post_delegation observed) chain.nodes populated.nodes
populate_observed_authority-Populates_example =
    populate_observed_authority-Populates chain observed PlanPhase.post_delegation
