-- ===== src/Analysis/Stale/Tests.antt =====
-- One deferred action on a credential that is still live, behind a denial that has propagated.
use chainbreak.Common.{ℕ, false, List, [], ◌∷◌, some}
use chainbreak.Core.Credentials.{CredentialRecord}
use chainbreak.Core.Enums.{
  OutcomeClass, PlanPhase, MutationKind, StaleAuthorityClass, DelegationMechanism,
}
use chainbreak.Core.Models.{Observation}
use chainbreak.Analysis.Stale.{StaleAuthorityMeasurement, MutationApplied}

abbrev credential : CredentialRecord
credential = record {
  credential_id = 4;
  identity_id = 3;
  mechanism = DelegationMechanism.role_chain;
  issued_at = 1000;
  expires_at = 9000;
  requested_duration_s = 8;
  granted_duration_s = 8;
  scope_capabilities = 10 ∷ [];
}

abbrev at : ℕ → PlanPhase → OutcomeClass → Observation
at id phase outcome = record {
  observation_id = id;
  phase = phase;
  probe_matrix_id = 7;
  identity_id = 3;
  capability_id = 10;
  trial = 1;
  credential_id = some 4;
  monotonic_start_ns = 600;
  wall_start = 5000;
  outcome_class = outcome;
}

abbrev observations : List Observation
observations =
    at 1 PlanPhase.deferred_execution OutcomeClass.allowed
    ∷ at 2 PlanPhase.paired_fresh_credential OutcomeClass.denied_explicit
    ∷ []

abbrev events : List MutationApplied
events =
    (record {
      mutation_kind = some MutationKind.attach_inline_deny;
      target_identity = some 3;
      sent_ns = some 400;
    })
    ∷ []

abbrev stale : StaleAuthorityMeasurement
stale = record {
  identity_id = 3;
  capability_id = 10;
  classification = StaleAuthorityClass.stale_authority_live_credential;
  deferral_ms = 4000;
  stale_window_ns = some 200;
  credential_expired_at_execution = false;
  paired_fresh_credential_outcome = some OutcomeClass.denied_explicit;
}
