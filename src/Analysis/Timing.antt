-- ===== src/Analysis/Timing.antt =====
-- src/chainbreak/analysis/timing.py. Monotonic instants are nanoseconds. A time in seconds is a
-- float in the source; here it is an exact integer: a window length in nanoseconds, the bounds and
-- the midpoint of an interval in half nanoseconds.
pub mod Order
pub mod Samples
pub mod Window
pub mod Transitions
pub mod Stale
mod Tests
use chainbreak.Common.{
  ℕ, suc, ◌+◌, ◌*◌, Bool, true, false, not, ◌&&◌, List, [], ◌∷◌, Option, none, some, ltb, leb, ◌==◌,
  if◌then◌else◌, filter, length, map, max, min,
}
use chainbreak.Common.Int.{ℤ, pos, sub_ℕ, leb_ℤ, ltb_ℤ, ◌+ℤ◌}
use chainbreak.Core.Authority.{CapabilityId}
use chainbreak.Core.Enums.{OutcomeClass, MutationKind, StaleAuthorityClass, is_allowed, is_denial}
use chainbreak.Core.Errors.{Result, ok, err, raise_if, value_error, ◌>>=◌, ◌>>◌}
use chainbreak.Core.Models.{IdentityId}

pub record PollSample : Type 0 where
  pub monotonic_ns : ℕ
  pub outcome : OutcomeClass

pub record Interval : Type 0 where
  pub low : ℤ
  pub point : ℤ
  pub high : ℤ

-- The validator `_ordered`.
unfoldable pub interval : Interval → Result Interval
interval i = do raise_if (not (leb_ℤ i.low i.point && leb_ℤ i.point i.high)) value_error; ok i

pub data Note : Type 0 where
  no_poll_samples never_allowed no_transition_within_window non_monotonic_transition : Note

pub record RevocationMeasurement : Type 0 where
  pub identity_id : IdentityId
  pub capability_id : CapabilityId
  pub mutation_kind : MutationKind
  pub transition_window : Option Interval
  pub transition_observed : Bool
  pub non_monotonic : Bool
  pub poll_interval_ms : ℕ
  pub poll_count : ℕ
  pub window_length_ns : ℤ
  pub mutation_receipt_confirmed : Bool
  pub notes : List Note

-- The validator `_window_present_iff_observed` and the bounds on the fields.
unfoldable pub revocation_measurement : RevocationMeasurement → Result RevocationMeasurement
revocation_measurement m = do
  raise_if (m.poll_interval_ms == 0) value_error
  raise_if (ltb_ℤ m.window_length_ns (pos 0)) value_error
  raise_if
      (elim m.transition_window [
        | none ↦ m.transition_observed
        | some _ ↦ not m.transition_observed
      ])
      value_error
  ok m

-- `sorted(samples, key=lambda sample: sample.monotonic_ns)`
unfoldable pub insert_by_time : PollSample → List PollSample → List PollSample
insert_by_time s [] = s ∷ []
insert_by_time s (t ∷ ts) =
    let rest = insert_by_time s ts in
    if leb s.monotonic_ns t.monotonic_ns then s ∷ t ∷ ts else t ∷ rest

unfoldable pub sort_by_time : List PollSample → List PollSample
unfolding insert_by_time
sort_by_time [] = []
sort_by_time (s ∷ ss) = insert_by_time s (sort_by_time ss)

-- The instants of the samples with an outcome of one kind.
unfoldable pub times : (OutcomeClass → Bool) → List PollSample → List ℕ
times p [] = []
times p (s ∷ ss) = if p s.outcome then s.monotonic_ns ∷ times p ss else times p ss

-- `max` and `min` of a list that is not empty.
unfoldable pub latest : List ℕ → Option ℕ
latest [] = none
latest (t ∷ ts) = some (elim (latest ts) [ none ↦ t | some u ↦ max t u ])

unfoldable pub earliest : List ℕ → Option ℕ
earliest [] = none
earliest (t ∷ ts) = some (elim (earliest ts) [ none ↦ t | some u ↦ min t u ])

-- The state that a sample carries: ALLOWED, denied, or neither.
unfoldable pub states : List PollSample → List Bool
states [] = []
states (s ∷ ss) =
    let rest = states ss in
    if is_allowed s.outcome then true ∷ rest else if is_denial s.outcome then false ∷ rest else rest

-- The loop that counts the changes of state, from the previous state.
unfoldable pub count_changes : Option Bool → List Bool → ℕ
count_changes previous [] = 0
count_changes none (state ∷ rest) = count_changes (some state) rest
count_changes (some true) (true ∷ rest) = count_changes (some true) rest
count_changes (some true) (false ∷ rest) = suc (count_changes (some false) rest)
count_changes (some false) (true ∷ rest) = suc (count_changes (some true) rest)
count_changes (some false) (false ∷ rest) = count_changes (some false) rest

-- `Interval(low=low, point=(low + high) / 2, high=high)` between two instants after `sent`.
unfoldable pub window_between : (sent last_allow first_deny : ℕ) → Interval
unfolding ◌+ℤ◌
window_between sent last_allow first_deny = record {
  low = sub_ℕ (2 * last_allow) (2 * sent);
  point = sub_ℕ (last_allow + first_deny) (2 * sent);
  high = sub_ℕ (2 * first_deny) (2 * sent);
}

-- The last instant of a sorted list; `none` for an empty one.
unfoldable pub last_time : List PollSample → Option ℕ
last_time [] = none
last_time (s ∷ []) = some s.monotonic_ns
last_time (s ∷ t ∷ ts) = last_time (t ∷ ts)

-- What the function returns without a transition, and with one.
pub record Poll : Type 0 where
  pub identity_id : IdentityId
  pub capability_id : CapabilityId
  pub mutation_kind : MutationKind
  pub mutation_sent_ns : ℕ
  pub poll_interval_ms : ℕ
  pub mutation_receipt_confirmed : Bool

abbrev pub no_transition : Poll → ℕ → ℤ → Note → RevocationMeasurement
no_transition p count window note = record {
  identity_id = p.identity_id;
  capability_id = p.capability_id;
  mutation_kind = p.mutation_kind;
  transition_window = none;
  transition_observed = false;
  non_monotonic = false;
  poll_interval_ms = p.poll_interval_ms;
  poll_count = count;
  window_length_ns = window;
  mutation_receipt_confirmed = p.mutation_receipt_confirmed;
  notes = note ∷ [];
}

abbrev pub with_transition : Poll → ℕ → ℤ → Interval → Bool → RevocationMeasurement
with_transition p count window transition non_monotonic = record {
  identity_id = p.identity_id;
  capability_id = p.capability_id;
  mutation_kind = p.mutation_kind;
  transition_window = some transition;
  transition_observed = true;
  non_monotonic = non_monotonic;
  poll_interval_ms = p.poll_interval_ms;
  poll_count = count;
  window_length_ns = window;
  mutation_receipt_confirmed = p.mutation_receipt_confirmed;
  notes = if non_monotonic then Note.non_monotonic_transition ∷ [] else [];
}

-- The last ALLOWED instant, and the first denial behind it.
unfoldable pub last_allow : List PollSample → Option ℕ
last_allow ordered = latest (times is_allowed ordered)

unfoldable pub first_deny : ℕ → List PollSample → Option ℕ
first_deny t_last_allow ordered =
    earliest (filter (λ t. ltb t_last_allow t) (times is_denial ordered))

unfoldable pub compute_revocation_window : List PollSample → Poll → Result RevocationMeasurement
compute_revocation_window samples p =
    let ordered = sort_by_time samples in
    elim (last_time ordered) [
      | none ↦ revocation_measurement (no_transition p 0 (pos 0) Note.no_poll_samples)
      | some end ↦
          let count = length ordered in
          let window = sub_ℕ end p.mutation_sent_ns in
          elim (last_allow ordered) [
            | none ↦ revocation_measurement (no_transition p count window Note.never_allowed)
            | some t_last_allow ↦ elim (first_deny t_last_allow ordered) [
              | none ↦
                  revocation_measurement
                    (no_transition p count window Note.no_transition_within_window)
              | some t_first_deny ↦ do
                transition ← interval (window_between p.mutation_sent_ns t_last_allow t_first_deny)
                revocation_measurement (
                    with_transition p count window transition
                      (ltb 1 (count_changes none (states ordered))))
            ]
          ]
    ]

-- The six-row table.
unfoldable pub classify_stale_authority :
    (deferred_outcome : OutcomeClass) (credential_expired_at_execution session_scope_removed : Bool)
    (fresh_outcome : Option OutcomeClass)
    → StaleAuthorityClass
unfolding is_denial is_allowed
classify_stale_authority deferred expired removed fresh =
    let denied = is_denial deferred in
    let allowed = is_allowed deferred in
    if denied && expired
    then StaleAuthorityClass.credential_expired
    else if allowed && expired
    then StaleAuthorityClass.expired_credential_honored
    else if denied && not expired
    then StaleAuthorityClass.current_authority
    else if allowed && not expired
    then (if removed
        then StaleAuthorityClass.session_scope_cached
        else if (elim fresh [ none ↦ false | some o ↦ is_allowed o ])
        then StaleAuthorityClass.indeterminate
        else StaleAuthorityClass.stale_authority_live_credential)
    else StaleAuthorityClass.indeterminate
