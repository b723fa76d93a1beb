-- ===== src/Analysis/Stale.antt =====
-- src/chainbreak/analysis/stale.py: deferred observations paired with their fresh probe. A time in
-- seconds is in milliseconds of wall time, or in nanoseconds of the monotonic clock.
pub mod Pairing
mod Tests
use chainbreak.Common.{
  ℕ, ◌-◌, Bool, true, false, ◌&&◌, List, [], ◌∷◌, Option, none, some, leb, ◌==◌, if◌then◌else◌, any,
  filter,
}
use chainbreak.Core.Authority.{CapabilityId}
use chainbreak.Core.Credentials.{CredentialRecord}
use chainbreak.Core.Enums.{OutcomeClass, PlanPhase, MutationKind, StaleAuthorityClass}
use chainbreak.Core.Enums.Equality.{same_phase}
use chainbreak.Core.Models.{IdentityId, Observation}
use chainbreak.Analysis.Timing.{classify_stale_authority}

pub record StaleAuthorityMeasurement : Type 0 where
  pub identity_id : IdentityId
  pub capability_id : CapabilityId
  pub classification : StaleAuthorityClass
  pub deferral_ms : ℕ
  pub stale_window_ns : Option ℕ
  pub credential_expired_at_execution : Bool
  pub paired_fresh_credential_outcome : Option OutcomeClass

-- An event of the kind POLICY_MUTATION_APPLIED, with what it has of the three entries.
pub record MutationApplied : Type 0 where
  pub mutation_kind : Option MutationKind
  pub target_identity : Option IdentityId
  pub sent_ns : Option ℕ

unfoldable pub is_scope_deletion : Option MutationKind → Bool
is_scope_deletion (some MutationKind.delete_session_policy_scope) = true
is_scope_deletion _ = false

unfoldable pub targets : IdentityId → Option IdentityId → Bool
targets i none = false
targets i (some j) = j == i

-- `observation.identity_id in session_scope_removed_identities`
unfoldable pub session_scope_removed : List MutationApplied → IdentityId → Bool
session_scope_removed events i =
    any (λ e. is_scope_deletion e.mutation_kind && targets i e.target_identity) events

-- `mutation_sent_ns_by_identity.get(i)`: `setdefault` keeps the first.
unfoldable pub mutation_sent_ns : List MutationApplied → IdentityId → Option ℕ
unfolding targets
mutation_sent_ns [] i = none
mutation_sent_ns (e ∷ events) i =
    let later = mutation_sent_ns events i in
    elim e.sent_ns [ none ↦ later | some t ↦ if targets i e.target_identity then some t else later ]

-- `fresh_by_cell.get(...)`: the last of the fresh probes of the cell.
unfoldable pub fresh_of : List Observation → IdentityId → CapabilityId → Option Observation
fresh_of [] i c = none
fresh_of (o ∷ os) i c =
    let later = fresh_of os i c in
    elim later [
      | some p ↦ some p
      | none ↦
          if same_phase o.phase PlanPhase.paired_fresh_credential
            && o.identity_id == i
            && o.capability_id == c
          then some o
          else none
    ]

-- `credentials_by_id.get(...)`: the last record of the id.
unfoldable pub credential_of : List CredentialRecord → Option ℕ → Option CredentialRecord
credential_of credentials none = none
credential_of [] (some id) = none
credential_of (r ∷ credentials) (some id) =
    let later = credential_of credentials (some id) in
    elim later [ some q ↦ some q | none ↦ if r.credential_id == id then some r else none ]

abbrev pub outcome_of : Option Observation → Option OutcomeClass
outcome_of none = none
outcome_of (some o) = some o.outcome_class

-- One round of the last loop, for an observation with its credential.
unfoldable pub measure :
    List MutationApplied
    → List Observation
    → Observation
    → CredentialRecord
    → StaleAuthorityMeasurement
measure events observations o credential =
    let fresh = outcome_of (fresh_of observations o.identity_id o.capability_id) in
    let expired = leb credential.expires_at o.wall_start in
    record {
      identity_id = o.identity_id;
      capability_id = o.capability_id;
      classification =
          classify_stale_authority o.outcome_class expired
            (session_scope_removed events o.identity_id) fresh;
      deferral_ms = o.wall_start - credential.issued_at;
      stale_window_ns = elim (mutation_sent_ns events o.identity_id) [
        | none ↦ none
        | some sent ↦ some (o.monotonic_start_ns - sent)
      ];
      credential_expired_at_execution = expired;
      paired_fresh_credential_outcome = fresh;
    }

unfoldable pub measure_all :
    List MutationApplied
    → List Observation
    → List CredentialRecord
    → List Observation
    → List StaleAuthorityMeasurement
measure_all events observations credentials [] = []
measure_all events observations credentials (o ∷ deferred) =
    let rest = measure_all events observations credentials deferred in
    elim (credential_of credentials o.credential_id) [
      | none ↦ rest
      | some credential ↦ measure events observations o credential ∷ rest
    ]

unfoldable pub stale_authority_measurements :
    List MutationApplied → List Observation → List CredentialRecord → List StaleAuthorityMeasurement
unfolding measure_all
stale_authority_measurements events observations credentials =
    measure_all events observations credentials
      (filter (λ o. same_phase o.phase PlanPhase.deferred_execution) observations)
