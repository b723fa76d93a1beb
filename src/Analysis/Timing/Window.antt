-- ===== src/Analysis/Timing/Window.antt =====
-- What a revocation measurement says of the samples it was computed from.
use chainbreak.Common.{
  ℕ, ◌+◌, ◌-◌, ◌≤◌, ◌≡◌, refl, sym, ◌∙◌, ap, ◌⊎◌, inl, inr, Bool, true, false, List, none, some,
  arith, ltb, ◌==◌, length, Option-cases,
}
use chainbreak.Common.Int.{pos, sub_ℕ}
use chainbreak.Core.Enums.{is_allowed, is_denial}
use chainbreak.Core.Errors.{ok}
use chainbreak.Analysis.Timing.{
  PollSample, Interval, Note, RevocationMeasurement, revocation_measurement, sort_by_time, states,
  count_changes, window_between, last_time, Poll, no_transition, with_transition, last_allow,
  first_deny, compute_revocation_window,
}
use chainbreak.Analysis.Timing.Order.{sampled, sampled-sort}
use chainbreak.Analysis.Timing.Samples.{
  LastAllow, FirstDeny, interval-window_between, last_allow-some, last_allow-none, first_deny-some,
  first_deny-none, last_time-sampled, last_time-none,
}

-- Every sample was taken at or after the mutation.
abbrev pub Started : List PollSample → ℕ → Type 0
Started samples sent = (t : ℕ) → sampled (λ _. true) t samples ≡ true → sent ≤ t

-- A transition: the last ALLOWED instant, the first denial behind it, and the window between them.
abbrev pub Transition : List PollSample → Poll → RevocationMeasurement → Type 0
Transition samples p m =
    (a : ℕ) × (b : ℕ) × LastAllow samples a
    × FirstDeny samples a b
    × (m.transition_window ≡ some (window_between p.mutation_sent_ns a b))
    × (m.transition_observed ≡ true)

-- No transition: behind an ALLOWED sample that no ALLOWED sample follows, there is no denial.
abbrev pub NoTransition : List PollSample → RevocationMeasurement → Type 0
NoTransition samples m =
    (m.transition_window ≡ none)
    × (m.transition_observed ≡ false)
    × ((a t : ℕ) → LastAllow samples a → sampled is_denial t samples ≡ true → t ≤ a)

measured_none :
    (p : Poll) (count window : ℕ) (n : Note)
    → (p.poll_interval_ms == 0) ≡ false
    → revocation_measurement (no_transition p count (pos window) n)
      ≡ ok (no_transition p count (pos window) n)
unfolding revocation_measurement
measured_none p count window n h = let z : ltb (window + 0) 0 ≡ false = ground arith in rw (h, z)

measured_some :
    (p : Poll) (count window : ℕ) (i : Interval) (flips : Bool)
    → (p.poll_interval_ms == 0) ≡ false
    → revocation_measurement (with_transition p count (pos window) i flips)
      ≡ ok (with_transition p count (pos window) i flips)
unfolding revocation_measurement
measured_some p count window i flips h =
    let z : ltb (window + 0) 0 ≡ false = ground arith in rw (h, z)

window_length : (sent end : ℕ) → sent ≤ end → sub_ℕ end sent ≡ pos (end - sent)
window_length sent end h = ground arith

-- The computation succeeds when the poll interval is not zero and no sample was taken before the
-- mutation. It then reports a transition, from the last ALLOWED sample to the first denial behind
-- it, or there is none: no denial is behind the last ALLOWED sample.
pub compute_revocation_window_exact :
    (samples : List PollSample) (p : Poll)
    → (p.poll_interval_ms == 0) ≡ false
    → Started samples p.mutation_sent_ns
    → (m : RevocationMeasurement) × (compute_revocation_window samples p ≡ ok m)
      × (Transition samples p m ⊎ NoTransition samples m)
unfolding compute_revocation_window
compute_revocation_window_exact samples p positive started =
    let ordered = sort_by_time samples in
    elim (Option-cases (last_time ordered)) [
      | inl e ↦ (
        no_transition p 0 (pos 0) Note.no_poll_samples,
        (rw (compute_revocation_window, e) (measured_none p 0 0 Note.no_poll_samples positive)),
        inr (
          refl,
          refl,
          λ a t (l, top) m. absurd (
              ground (
                arith,
                l,
                sampled-sort is_allowed a samples,
                ap (sampled is_allowed a) (last_time-none ordered e),
              )),
        ),
      )
      | inr (end, e) ↦
          let count = length ordered in
          let from_start : sub_ℕ end p.mutation_sent_ns ≡ pos (end - p.mutation_sent_ns) =
            window_length p.mutation_sent_ns end (
              started end
                (sym (sampled-sort (λ _. true) end samples) ∙ last_time-sampled ordered end e)) in
          elim (Option-cases (last_allow ordered)) [
            | inl never ↦ (
              no_transition p count (pos (end - p.mutation_sent_ns)) Note.never_allowed,
              (rw (compute_revocation_window, e, never, from_start)
                  (measured_none p count (end - p.mutation_sent_ns) Note.never_allowed positive)),
              inr (
                refl,
                refl,
                λ a t (l, top) m. absurd (ground (arith, l, last_allow-none samples never a)),
              ),
            )
            | inr (a, allow) ↦ elim (Option-cases (first_deny a ordered)) [
              | inl steady ↦ (
                no_transition p count (pos (end - p.mutation_sent_ns))
                    Note.no_transition_within_window,
                (rw (compute_revocation_window, e, allow, steady, from_start)
                    (measured_none p count (end - p.mutation_sent_ns)
                      Note.no_transition_within_window positive)),
                inr (
                  refl,
                  refl,
                  λ c t (l, top) m. omega (
                    arith,
                    first_deny-none samples a steady t m,
                    top a (last_allow-some samples a allow).0,
                  ),
                ),
              )
              | inr (b, deny) ↦
                  let i = window_between p.mutation_sent_ns a b in
                  let flips = ltb 1 (count_changes none (states ordered)) in
                  let first = first_deny-some samples a b deny in
                  (
                    with_transition p count (pos (end - p.mutation_sent_ns)) i flips,
                    rw
                        (
                          compute_revocation_window,
                          e,
                          allow,
                          deny,
                          from_start,
                          interval-window_between p.mutation_sent_ns a b first.1,
                        )
                        (measured_some p count (end - p.mutation_sent_ns) i flips positive),
                    inl (a, b, last_allow-some samples a allow, first, refl, refl),
                  )
            ]
          ]
    ]
