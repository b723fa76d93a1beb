-- ===== src/Core/Credentials.antt =====
-- `CredentialRecord` (src/chainbreak/core/models.py), credential metadata. Instants are milliseconds.
use chainbreak.Common.{ℕ, Bool, ltb, leb, ◌==◌}
use chainbreak.Core.Authority.{AuthoritySet}
use chainbreak.Core.Enums.{DelegationMechanism}
use chainbreak.Core.Errors.{Result, ok, raise_if, value_error, ◌>>◌}
use chainbreak.Core.Models.{IdentityId}

pub record CredentialRecord : Type 0 where
  pub credential_id : ℕ
  pub identity_id : IdentityId
  pub mechanism : DelegationMechanism
  pub issued_at : ℕ
  pub expires_at : ℕ
  pub requested_duration_s : ℕ
  pub granted_duration_s : ℕ
  pub scope_capabilities : AuthoritySet

-- The validator `_tz_aware`, its second half, and the bounds on the durations.
unfoldable pub credential_record : CredentialRecord → Result CredentialRecord
credential_record c = do
  raise_if (c.requested_duration_s == 0) value_error
  raise_if (c.granted_duration_s == 0) value_error
  raise_if (leb c.expires_at c.issued_at) value_error
  ok c

unfoldable pub lifetime_capped : CredentialRecord → Bool
lifetime_capped c = ltb c.granted_duration_s c.requested_duration_s
