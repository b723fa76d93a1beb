-- ===== src/Core/Ids.antt =====
-- src/chainbreak/core/ids.py: run identifiers. The clock reading and the ten random bytes, as one
-- number, are arguments; the two module variables are the state of a call. The lock keeps calls
-- apart, and so they follow each other.
pub mod Order
pub mod Monotonic
use Prim.Native.Nat.{◌^◌}
use chainbreak.Common.{
  ℕ, zero, suc, ◌+◌, ◌-◌, ◌/◌, ◌%◌, Bool, true, false, ◌&&◌, ◌||◌, List, [], ◌∷◌, ◌++◌, Option,
  none, some, leb, ltb, ◌==◌, if◌then◌else◌,
}
use chainbreak.Common.Text.{Text}

-- `0123456789ABCDEFGHJKMNPQRSTVWXYZ`
abbrev pub crockford : Text
crockford =
    48 ∷ 49 ∷ 50 ∷ 51 ∷ 52 ∷ 53 ∷ 54 ∷ 55 ∷ 56 ∷ 57 ∷ 65 ∷ 66 ∷ 67 ∷ 68 ∷ 69 ∷ 70 ∷ 71 ∷ 72 ∷ 74
    ∷ 75 ∷ 77 ∷ 78 ∷ 80 ∷ 81 ∷ 82 ∷ 83 ∷ 84 ∷ 86 ∷ 87 ∷ 88 ∷ 89 ∷ 90 ∷ []

-- `text[index]`, at an index that is there.
unfoldable pub at : Text → ℕ → ℕ
at [] index = 0
at (c ∷ text) zero = c
at (c ∷ text) (suc index) = at text index

-- The loop of `_encode_base32`, which appends the last digit first.
unfoldable pub low_digits : (value length : ℕ) → Text
low_digits value zero = []
low_digits value (suc length) = at crockford (value % 32) ∷ low_digits (value / 32) length

-- `"".join(reversed(chars))`
unfoldable pub joined_reversed : Text → Text
joined_reversed [] = []
joined_reversed (c ∷ chars) = joined_reversed chars ++ c ∷ []

-- `_encode_base32`
unfoldable pub encode_base32 : (value length : ℕ) → Text
encode_base32 value length = joined_reversed (low_digits value length)

abbrev pub max_randomness : ℕ
max_randomness = 2 ^ 80 - 1

-- `_last_timestamp_ms`, -1 being `none`, and `_last_randomness`.
pub record UlidState : Type 0 where
  pub last_timestamp_ms : Option ℕ
  pub last_randomness : ℕ

abbrev pub start : UlidState
start = record { last_timestamp_ms = none; last_randomness = 0 }

-- The timestamp and the randomness of the next identifier.
unfoldable pub next_parts : UlidState → (timestamp_ms drawn : ℕ) → ℕ × ℕ
next_parts s timestamp_ms drawn = elim s.last_timestamp_ms [
  | none ↦ (timestamp_ms, drawn / 2)
  | some last ↦
      if timestamp_ms == last
      then if leb max_randomness s.last_randomness
        then (timestamp_ms + 1, drawn / 2)
        else (timestamp_ms, s.last_randomness + 1)
      else if ltb timestamp_ms last
      then (last, s.last_randomness + 1)
      else (timestamp_ms, drawn / 2)
]

unfoldable pub ulid_text : (timestamp_ms randomness : ℕ) → Text
ulid_text timestamp_ms randomness = encode_base32 timestamp_ms 10 ++ encode_base32 randomness 16

unfoldable pub new_ulid : UlidState → (timestamp_ms drawn : ℕ) → Text × UlidState
new_ulid s timestamp_ms drawn =
    let (timestamp, randomness) = next_parts s timestamp_ms drawn in
    (
      ulid_text timestamp randomness,
      record { last_timestamp_ms = some timestamp; last_randomness = randomness },
    )

-- Identifiers made one after the other, each at its reading of the clock and its random bytes.
unfoldable pub new_ulids : UlidState → List (ℕ × ℕ) → List Text
new_ulids s [] = []
new_ulids s ((timestamp_ms, drawn) ∷ calls) =
    let (text, after) = new_ulid s timestamp_ms drawn in text ∷ new_ulids after calls

-- `[0-9A-HJKMNP-TV-Z]`
unfoldable pub is_ulid_character : ℕ → Bool
is_ulid_character c =
    (leb 48 c && leb c 57)
    || (leb 65 c && leb c 72)
    || c == 74
    || c == 75
    || c == 77
    || c == 78
    || (leb 80 c && leb c 84)
    || (leb 86 c && leb c 90)

-- `[...]{count}$`, where `$` also matches before a last line break.
unfoldable pub matches_ulid : ℕ → Text → Bool
matches_ulid zero [] = true
matches_ulid zero (c ∷ []) = c == 10
matches_ulid zero (c ∷ d ∷ text) = false
matches_ulid (suc count) [] = false
matches_ulid (suc count) (c ∷ text) = is_ulid_character c && matches_ulid count text

unfoldable pub is_ulid : Text → Bool
is_ulid value = matches_ulid 26 value
