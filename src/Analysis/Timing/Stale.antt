-- ===== src/Analysis/Timing/Stale.antt =====
-- The rows of the stale-authority table, each with the conditions under which it is chosen.
use chainbreak.Common.{◌≡◌, ◌↔◌, ◌≢◌, Bool, true, false, Option, none, some, arith}
use chainbreak.Core.Enums.{OutcomeClass, StaleAuthorityClass, is_allowed, is_denial}
use chainbreak.Analysis.Timing.{classify_stale_authority}

-- Each class is chosen under exactly one condition: authority is called stale when an action was
-- ALLOWED on a live credential, the session was not narrowed, and a fresh credential is not allowed.
pub classify_stale_authority_rows :
    (deferred : OutcomeClass) (expired removed : Bool) (fresh : Option OutcomeClass)
    → ((classify_stale_authority deferred expired removed fresh
          ≡ StaleAuthorityClass.stale_authority_live_credential)
        ↔ ((is_allowed deferred ≡ true)
            × (expired ≡ false)
            × (removed ≡ false)
            × (fresh ≢ some OutcomeClass.allowed)))
      × ((classify_stale_authority deferred expired removed fresh
            ≡ StaleAuthorityClass.session_scope_cached)
          ↔ ((is_allowed deferred ≡ true) × (expired ≡ false) × (removed ≡ true)))
      × ((classify_stale_authority deferred expired removed fresh
            ≡ StaleAuthorityClass.expired_credential_honored)
          ↔ ((is_allowed deferred ≡ true) × (expired ≡ true)))
      × ((classify_stale_authority deferred expired removed fresh
            ≡ StaleAuthorityClass.credential_expired)
          ↔ ((is_denial deferred ≡ true) × (expired ≡ true)))
      × ((classify_stale_authority deferred expired removed fresh
            ≡ StaleAuthorityClass.current_authority)
          ↔ ((is_denial deferred ≡ true) × (expired ≡ false)))
unfolding classify_stale_authority is_allowed is_denial
classify_stale_authority_rows deferred expired removed none =
    (ground arith, ground arith, ground arith, ground arith, ground arith)
classify_stale_authority_rows deferred expired removed (some o) =
    (ground arith, ground arith, ground arith, ground arith, ground arith)
