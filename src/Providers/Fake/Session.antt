-- ===== src/Providers/Fake/Session.antt =====
-- src/chainbreak/providers/fake/session.py: the credentials that the simulated provider issues.
-- Instants are milliseconds on the virtual clock; the secret, the token and the digests, which are
-- drawn at random, are left out.
pub mod Lifetime
use chainbreak.Core.Credentials.{CredentialRecord, credential_record}
use chainbreak.Common.{
  ℕ, suc, ◌+◌, ◌*◌, Bool, true, false, List, [], Option, none, some, ltb, leb, ◌==◌, if◌then◌else◌,
  min,
}
use chainbreak.Common.Dict.{Dict, lookup, insert, erase}
use chainbreak.Core.Authority.{AuthoritySet}
use chainbreak.Core.Enums.{DelegationMechanism}
use chainbreak.Core.Errors.{Result, ok, err, raise_if, value_error, ◌>>=◌, ◌>>◌}
use chainbreak.Core.Models.{IdentityId}

-- `CHAINED_ROLE_DURATION_CAP_S`
abbrev pub chained_role_duration_cap_s : ℕ
chained_role_duration_cap_s = 3600

-- `mechanism in _CHAINED_MECHANISMS`
unfoldable pub is_chained : DelegationMechanism → Bool
is_chained DelegationMechanism.role_chain = true
is_chained DelegationMechanism.role_chain_with_session_policy = true
is_chained _ = false

pub record SessionStore : Type 0 where
  pub max_session_duration_s : ℕ
  pub counter : ℕ
  pub live : Dict ℕ

-- The arguments of `issue`.
pub record Request : Type 0 where
  pub target_identity_id : IdentityId
  pub mechanism : DelegationMechanism
  pub requested_duration_s : ℕ
  pub intended_capabilities : AuthoritySet
  pub issued_at_ms : ℕ

unfoldable pub granted_duration : SessionStore → Request → ℕ
unfolding is_chained
granted_duration store r =
    let by_mechanism =
      if is_chained r.mechanism
      then min r.requested_duration_s chained_role_duration_cap_s
      else r.requested_duration_s in
    min by_mechanism store.max_session_duration_s

-- The credential and the access key each take a number of the counter; the entry in `live` is made
-- before the record is checked.
unfoldable pub issue : SessionStore → Request → Result CredentialRecord × SessionStore
issue store r =
    let granted = granted_duration store r in
    let credential_id = suc store.counter in
    let expires_at = r.issued_at_ms + 1000 * granted in
    (
      credential_record (record {
        credential_id = credential_id;
        identity_id = r.target_identity_id;
        mechanism = r.mechanism;
        issued_at = r.issued_at_ms;
        expires_at = expires_at;
        requested_duration_s = r.requested_duration_s;
        granted_duration_s = granted;
        scope_capabilities = r.intended_capabilities;
      }),
      record {
        max_session_duration_s = store.max_session_duration_s;
        counter = suc (suc store.counter);
        live = insert credential_id expires_at store.live;
      },
    )

unfoldable pub is_live : SessionStore → ℕ → ℕ → Bool
is_live store credential_id at_ms = elim (lookup credential_id store.live) [
  | none ↦ false
  | some expires_at ↦ ltb at_ms expires_at
]

unfoldable pub revoke : SessionStore → ℕ → SessionStore
revoke store credential_id = record {
  max_session_duration_s = store.max_session_duration_s;
  counter = store.counter;
  live = erase credential_id store.live;
}
