-- ===== src/Providers/Fake/Probes/Overrides.antt =====
-- What takes priority over a policy decision, and how a denial is attributed.
use chainbreak.Common.{ℕ, ◌≡◌, Bool, false, not, ◌&&◌, Option, none, arith, is_some, if◌then◌else◌}
use chainbreak.Common.Text.{Text}
use chainbreak.Core.Authority.{AuthoritySet}
use chainbreak.Core.Capabilities.{Capability}
use chainbreak.Core.Enums.{OutcomeClass, is_denial}
use chainbreak.Core.Errors.{ok}
use chainbreak.Capabilities.Preconditions.{PreconditionRegistry}
use chainbreak.Providers.Fake.Probes.{
  ProbeOutcome, Disambiguation, probe_outcome, denial_attribution_of, a_precondition_fails,
  build_probe_outcome,
}

-- The attribution is one that the validator of an outcome accepts.
attributed-ok :
    (o : OutcomeClass) (allow : AuthoritySet) (c : ℕ) (narrowed : Bool)
    → (is_some (denial_attribution_of o allow c narrowed) && not (is_denial o)) ≡ false
unfolding denial_attribution_of is_denial
attributed-ok o allow c narrowed = ground (arith, o)

-- The outcome that a decision is packaged into, given whether a precondition fails.
unfoldable pub packaged :
    Bool → Capability → OutcomeClass → AuthoritySet → Option AuthoritySet → ProbeOutcome
packaged fails capability o allow session =
    if fails
    then record {
      outcome_class = OutcomeClass.error_infrastructure;
      denial_attribution = none;
      disambiguation_path = Disambiguation.precondition_failed;
    }
    else if capability.is_control
    then record {
      outcome_class = OutcomeClass.allowed;
      denial_attribution = none;
      disambiguation_path = Disambiguation.control_capability;
    }
    else record {
      outcome_class = o;
      denial_attribution = denial_attribution_of o allow capability.id (is_some session);
      disambiguation_path = Disambiguation.policy_engine;
    }

-- Once the preconditions have been looked at, the packaging raises nothing.
pub build_probe_outcome-packaged :
    (preconditions : PreconditionRegistry Text) (ref : Text) (capability : Capability)
    (o : OutcomeClass) (allow : AuthoritySet) (session : Option AuthoritySet) (fails : Bool)
    → a_precondition_fails preconditions capability.requires_precondition ref ≡ ok fails
    → build_probe_outcome preconditions ref capability o allow session
      ≡ ok (packaged fails capability o allow session)
unfolding build_probe_outcome probe_outcome packaged
build_probe_outcome-packaged preconditions ref capability o allow session fails h =
    ground (arith, h, attributed-ok o allow capability.id (is_some session))
