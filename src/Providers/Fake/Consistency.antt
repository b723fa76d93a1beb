-- ===== src/Providers/Fake/Consistency.antt =====
-- src/chainbreak/providers/fake/consistency.py: when a mutation is visible. The draws of the random
-- number generator are arguments: the jitter, and one flip for each number below the flip count,
-- given the width of the range.
pub mod Visibility
use chainbreak.Common.{
  ℕ, zero, suc, ◌+◌, ◌-◌, Bool, true, false, not, ◌&&◌, List, [], ◌∷◌, ltb, leb, ◌==◌,
  if◌then◌else◌, max,
}
use chainbreak.Common.Int.{ℤ, pos, negsuc, ◌+ℤ◌}

pub record MutationVisibility : Type 0 where
  pub applied_at_ms : ℕ
  pub settle_at_ms : ℕ
  pub oscillation_flips_ms : List ℕ

-- The loop over the flips, with its `break`.
unfoldable pub flip_until : ℕ → Bool → List ℕ → Bool
flip_until query_at_ms visible [] = visible
flip_until query_at_ms visible (flip_ms ∷ flips) =
    let rest = flip_until query_at_ms (not visible) flips in
    if ltb query_at_ms flip_ms then visible else rest

unfoldable pub is_visible : MutationVisibility → ℕ → Bool
is_visible v query_at_ms =
    if ltb query_at_ms v.applied_at_ms
    then false
    else if leb v.settle_at_ms query_at_ms
    then true
    else flip_until query_at_ms false v.oscillation_flips_ms

pub record ConsistencyModel : Type 0 where
  pub propagation_delay_ms : ℕ
  pub jitter_ms : ℕ
  pub oscillate : Bool
  pub oscillation_flip_count : ℕ

-- `max(0, i)`
unfoldable pub clamp : ℤ → ℕ
clamp (pos n) = n
clamp (negsuc n) = 0

unfoldable pub insert_sorted : ℕ → List ℕ → List ℕ
insert_sorted x [] = x ∷ []
insert_sorted x (y ∷ ys) = let rest = insert_sorted x ys in if leb x y then x ∷ y ∷ ys else y ∷ rest

-- `sorted(applied_at_ms + randint(1, top) for _ in range(count))`
unfoldable pub draw_flips : (ℕ → ℕ → ℕ) → (applied_at_ms top count : ℕ) → List ℕ
unfolding insert_sorted
draw_flips randint applied top zero = []
draw_flips randint applied top (suc count) =
    insert_sorted (applied + randint count top) (draw_flips randint applied top count)

-- `max(0, self.propagation_delay_ms + jitter)`
unfoldable pub delay_of : ℤ → ConsistencyModel → ℕ
unfolding clamp
delay_of jitter_draw m =
    clamp (pos m.propagation_delay_ms +ℤ (if m.jitter_ms == 0 then pos 0 else jitter_draw))

unfoldable pub schedule :
    (jitter_draw : ℤ) (randint : ℕ → ℕ → ℕ) → ConsistencyModel → ℕ → MutationVisibility
schedule jitter_draw randint m applied_at_ms =
    let span = delay_of jitter_draw m in
    record {
      applied_at_ms = applied_at_ms;
      settle_at_ms = applied_at_ms + span;
      oscillation_flips_ms =
          if m.oscillate && ltb 0 span
          then draw_flips randint applied_at_ms (max 1 (span - 1)) m.oscillation_flip_count
          else [];
    }
