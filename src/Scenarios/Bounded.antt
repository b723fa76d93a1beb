-- ===== src/Scenarios/Bounded.antt =====
-- `_assert_bounded` (src/chainbreak/scenarios/safety.py): the guard against amplification and deep
-- nesting of a loaded document. A document that names one part at several places by an alias is the
-- tree in which that part stands at each of them.
pub mod Exact
use chainbreak.Common.{
  ℕ, zero, suc, ◌+◌, max, List, [], ◌∷◌, Option, none, some, ltb, if◌then◌else◌,
}
use chainbreak.Core.Errors.{Result, ok, err, scenario_safety_error}

-- A loaded value: of a mapping, the values count.
mutual
  pub data Value : Type 0 where
    scalar : Value
    mapping sequence : Items → Value

  pub data Items : Type 0 where
    nil : Items
    cons : Value → Items → Items

abbrev pub max_node_count : ℕ
max_node_count = 20000

abbrev pub max_nesting_depth : ℕ
max_nesting_depth = 32

-- `current.values()` of a mapping, the list itself, or nothing.
unfoldable pub parts : Value → Items
parts Value.scalar = Items.nil
parts (Value.mapping items) = items
parts (Value.sequence items) = items

-- `stack.extend(...)`, the top of the stack being the head of the list.
unfoldable pub push_all : Items → ℕ → List (Value × ℕ) → List (Value × ℕ)
push_all Items.nil depth stack = stack
push_all (Items.cons value items) depth stack = push_all items depth ((value, depth) ∷ stack)

-- The loop, on fuel; `none` is a loop that has not ended.
unfoldable pub bounded_loop :
    (max_count max_depth fuel : ℕ) → List (Value × ℕ) → (count : ℕ) → Option (Result (Unit {0}))
bounded_loop max_count max_depth zero stack count = none
bounded_loop max_count max_depth (suc fuel) [] count = some (ok tt)
bounded_loop max_count max_depth (suc fuel) ((current, depth) ∷ stack) count =
    let rest =
      bounded_loop max_count max_depth fuel (push_all (parts current) (depth + 1) stack)
        (count + 1) in
    if ltb max_count (count + 1)
    then some (err scenario_safety_error)
    else if ltb max_depth depth
    then some (err scenario_safety_error)
    else rest

unfoldable pub assert_bounded : (fuel : ℕ) → Value → Option (Result (Unit {0}))
assert_bounded fuel document =
    bounded_loop max_node_count max_nesting_depth fuel ((document, 0) ∷ []) 0
