-- ===== src/Analysis/Timing/Tests.antt =====
-- A revocation that is seen between two polls, and the tables of timing on small inputs.
use chainbreak.Common.{◌≡◌, ◌⊎◌, refl, true, List, [], ◌∷◌, arith}
use chainbreak.Core.Enums.{OutcomeClass, MutationKind}
use chainbreak.Core.Errors.{ok}
use chainbreak.Analysis.Timing.{PollSample, Poll, RevocationMeasurement, compute_revocation_window}
use chainbreak.Analysis.Timing.Window.{
  Started, Transition, NoTransition, compute_revocation_window_exact,
}

abbrev polls : List PollSample
polls =
    (record { monotonic_ns = 500; outcome = OutcomeClass.denied_explicit })
    ∷ (record { monotonic_ns = 200; outcome = OutcomeClass.allowed })
    ∷ (record { monotonic_ns = 300; outcome = OutcomeClass.error_transient })
    ∷ []

abbrev poll : Poll
poll = record {
  identity_id = 3;
  capability_id = 10;
  mutation_kind = MutationKind.attach_inline_deny;
  mutation_sent_ns = 100;
  poll_interval_ms = 50;
  mutation_receipt_confirmed = true;
}

polls-Started : Started polls 100
polls-Started t h = ground (arith, h)

compute_revocation_window_exact_example :
    (m : RevocationMeasurement) × (compute_revocation_window polls poll ≡ ok m)
    × (Transition polls poll m ⊎ NoTransition polls m)
compute_revocation_window_exact_example =
    compute_revocation_window_exact polls poll refl polls-Started
