-- ===== src/Analysis/Timing/Transitions.antt =====
-- The count of the changes of state: one change at most exactly when the states are one run of a
-- value and then one run of the other.
use chainbreak.Common.{
  ◌≡◌, ◌↔◌, refl, Bool, true, false, not, List, [], ◌∷◌, some, arith, ltb, if◌then◌else◌, all,
}
use chainbreak.Analysis.Timing.{count_changes}

abbrev pub is : Bool → Bool → Bool
is true b = b
is false b = not b

-- A run of `b`, as long as it goes, and behind it nothing but the other value.
abbrev pub one_change : Bool → List Bool → Bool
one_change b [] = true
one_change b (s ∷ ss) = let rest = one_change b ss in if is b s then rest else all (is (not b)) ss

count_changes-zero :
    (b : Bool) (ss : List Bool) → (count_changes (some b) ss ≡ 0) ↔ (all (is b) ss ≡ true)
unfolding count_changes
count_changes-zero b [] = ground arith
count_changes-zero true (true ∷ ss) = ground (arith, count_changes-zero true ss)
count_changes-zero true (false ∷ ss) = ground arith
count_changes-zero false (true ∷ ss) = ground arith
count_changes-zero false (false ∷ ss) = ground (arith, count_changes-zero false ss)

-- From a first state on, more than one change is counted exactly when the states are not one run of
-- that state followed by one run of the other.
count_changes_run :
    (b : Bool) (ss : List Bool) → ltb 1 (count_changes (some b) ss) ≡ not (one_change b ss)
unfolding count_changes
count_changes_run b [] = refl
count_changes_run true (true ∷ ss) = count_changes_run true ss
count_changes_run true (false ∷ ss) = ground (arith, count_changes-zero false ss)
count_changes_run false (true ∷ ss) = ground (arith, count_changes-zero true ss)
count_changes_run false (false ∷ ss) = count_changes_run false ss
