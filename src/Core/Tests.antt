-- ===== src/Core/Tests.antt =====
-- The sets and the safety gate on small inputs.
use chainbreak.Common.{◌++◌, ℕ, List, arith, ◌≡◌, ◌↔◌, refl, true, [], ◌∷◌, none, some, ◌==◌}
use chainbreak.Core.Authority.{is_subset_of}
use chainbreak.Core.Errors.{ok}
use chainbreak.Core.Ids.{
  start, new_ulids, encode_base32, is_ulid, ulid_text, joined_reversed, low_digits, at,
  matches_ulid, is_ulid_character,
}
use chainbreak.Core.Ids.Monotonic.{is_sequence, new_ulids_ascend}
use chainbreak.Core.Safety.{SafetyEnvelope, CostTable, ProbeMatrix, Arguments, authorize}
use chainbreak.Core.Safety.Gate.{IsWithin, authorize_iff}

repeats_inside : is_subset_of (11 ∷ 11 ∷ []) (10 ∷ 11 ∷ []) ≡ true
unfolding is_subset_of
repeats_inside = refl

abbrev envelope : SafetyEnvelope
envelope = record {
  allowed_account_ids = 111 ∷ [];
  allowed_regions = 1 ∷ 2 ∷ [];
  namespace_pattern = 5;
  max_estimated_cost_usd = 100;
}

abbrev matrix : ProbeMatrix
matrix = record { identities = 1 ∷ 2 ∷ []; capabilities = 10 ∷ 11 ∷ []; trials = 3 }

abbrev costs : CostTable
costs = record { default_cost = some 1; costs = (10, 4) ∷ [] }

abbrev arguments : Arguments
arguments = record {
  account_id = some 111;
  region = none;
  namespace = some 5;
  compiled = some (matrix ∷ []);
  cost_table = some costs;
}

authorize_iff_example :
    (authorize (λ p n. p == n) (some envelope) arguments ≡ ok tt)
    ↔ ((v : SafetyEnvelope) × (some envelope ≡ some v) × IsWithin (λ p n. p == n) v arguments)
authorize_iff_example = authorize_iff (λ p n. p == n) (some envelope) arguments

-- The clock stands still once and then steps back.
abbrev calls : List (ℕ × ℕ)
calls = (1700000000000, 9) ∷ (1700000000000, 4) ∷ (1699999999000, 700) ∷ (1700000000001, 1) ∷ []

new_ulids_ascend_example : is_sequence (new_ulids start calls) ≡ true
new_ulids_ascend_example =
    new_ulids_ascend calls
      (
        omega arith,
        omega arith,
        (omega arith, omega arith, (omega arith, omega arith, (omega arith, omega arith, tt))),
      )
      (omega arith)

-- `0110`, of 1 * 32 ^ 2 + 32.
encoded : encode_base32 1056 4 ≡ 48 ∷ 49 ∷ 49 ∷ 48 ∷ []
unfolding encode_base32 joined_reversed low_digits at
encoded = refl

-- A line break behind an identifier is let through.
line_break_accepted : is_ulid (ulid_text 5 7 ++ 10 ∷ []) ≡ true
unfolding is_ulid ulid_text matches_ulid encode_base32 joined_reversed low_digits is_ulid_character
    at
line_break_accepted = refl
