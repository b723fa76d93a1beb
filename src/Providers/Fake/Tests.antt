-- ===== src/Providers/Fake/Tests.antt =====
-- The simulated provider on one identity, one session and one oscillating mutation.
use chainbreak.Common.{
  ℕ, ◌+◌, ◌*◌, ◌≤◌, ◌<◌, ◌≡◌, ◌↔◌, refl, true, false, ◌&&◌, ◌||◌, [], ◌∷◌, Option, none, some,
  arith, mem, ltb,
}
use chainbreak.Core.Enums.{OutcomeClass, DelegationMechanism}
use chainbreak.Core.Errors.{ok, ◌>>=◌}
use chainbreak.Core.Models.{IdentityId}
use chainbreak.Core.Authority.{inter, CapabilityId, AuthoritySet}
use chainbreak.Providers.Fake.Engine.{
  effective_allow, PolicyEngine, IdentityPolicyState, evaluate_against, evaluate, apply_deny,
  remove_deny, state_of,
}
use chainbreak.Providers.Fake.Engine.Evaluation.{in_policy, evaluate_against_order}
use chainbreak.Providers.Fake.Engine.Mutation.{remove_deny-apply_deny}
use chainbreak.Core.Credentials.{CredentialRecord, lifetime_capped}
use chainbreak.Providers.Fake.Session.{SessionStore, Request, granted_duration, issue, is_live}
use chainbreak.Providers.Fake.Session.Lifetime.{IsNumbered, issue_lives}
use chainbreak.Providers.Fake.Consistency.{MutationVisibility, ConsistencyModel}

abbrev policy : IdentityPolicyState
policy = record { allow = 10 ∷ 11 ∷ []; deny = 12 ∷ [] }

abbrev engine : PolicyEngine
engine = (3, policy) ∷ []

registered : state_of engine 3 ≡ ok policy
unfolding state_of
registered = refl

evaluate_against_order_example :
    ((evaluate_against (10 ∷ 11 ∷ []) (12 ∷ []) 11 (some (10 ∷ [])) none
        ≡ OutcomeClass.denied_explicit)
      ↔ (mem 11 (12 ∷ []) ≡ true))
    × ((evaluate_against (10 ∷ 11 ∷ []) (12 ∷ []) 11 (some (10 ∷ [])) none ≡ OutcomeClass.allowed)
        ↔ ((mem 11 (12 ∷ []) ≡ false)
            × ((mem 11 (10 ∷ 11 ∷ []) && in_policy true (some (10 ∷ [])) 11
                  || in_policy false none 11)
                ≡ true)))
    × ((evaluate_against (10 ∷ 11 ∷ []) (12 ∷ []) 11 (some (10 ∷ [])) none
          ≡ OutcomeClass.denied_implicit)
        ↔ ((mem 11 (12 ∷ []) ≡ false)
            × ((mem 11 (10 ∷ 11 ∷ []) && in_policy true (some (10 ∷ [])) 11
                  || in_policy false none 11)
                ≡ false)))
evaluate_against_order_example =
    evaluate_against_order (10 ∷ 11 ∷ []) (12 ∷ []) 11 (some (10 ∷ [])) none

narrowed : evaluate_against (10 ∷ 11 ∷ []) [] 10 (some (10 ∷ [])) none ≡ OutcomeClass.allowed
unfolding evaluate_against effective_allow inter
narrowed = refl

undenied : (c : CapabilityId) → mem c (10 ∷ []) ≡ true → mem c policy.deny ≡ false
undenied c m = ground (arith, m)

remove_deny-apply_deny_example :
    (engine' : PolicyEngine) × ((apply_deny engine 3 (10 ∷ []) >>= λ e. remove_deny e 3 (10 ∷ []))
      ≡ ok engine')
    × ((j : IdentityId) (c : CapabilityId) (session resource : Option AuthoritySet)
        → evaluate engine' j c session resource ≡ evaluate engine j c session resource)
remove_deny-apply_deny_example =
    remove_deny-apply_deny engine 3 policy (10 ∷ []) registered undenied

abbrev store : SessionStore
store = record { max_session_duration_s = 43200; counter = 4; live = (3, 7200000) ∷ [] }

store-IsNumbered : IsNumbered store
store-IsNumbered id t h = ground (arith, h)

abbrev request : Request
request = record {
  target_identity_id = 3;
  mechanism = DelegationMechanism.role_chain;
  requested_duration_s = 7200;
  intended_capabilities = 10 ∷ [];
  issued_at_ms = 5000;
}

issue_lives_example :
    (c : CredentialRecord) × ((issue store request).0 ≡ ok c)
    × (c.expires_at ≡ 5000 + 1000 * granted_duration store request)
    × (lifetime_capped c ≡ ltb (granted_duration store request) 7200)
    × ((t : ℕ) → is_live (issue store request).1 c.credential_id t ≡ ltb t c.expires_at)
    × ((id t : ℕ) → id ≤ 4 → is_live (issue store request).1 id t ≡ is_live store id t)
    × IsNumbered (issue store request).1
issue_lives_example = issue_lives store request store-IsNumbered (omega arith) (omega arith)

abbrev flapping : MutationVisibility
flapping = record {
  applied_at_ms = 100;
  settle_at_ms = 200;
  oscillation_flips_ms = 120 ∷ 150 ∷ 180 ∷ [];
}

abbrev draw : ℕ → ℕ → ℕ
draw i top = top

draw_in_range : (i top : ℕ) → 0 < top → (1 ≤ draw i top) × (draw i top ≤ top)
draw_in_range i top h = (omega (arith, h), omega arith)

abbrev eventual : ConsistencyModel
eventual = record {
  propagation_delay_ms = 400;
  jitter_ms = 50;
  oscillate = true;
  oscillation_flip_count = 3;
}
