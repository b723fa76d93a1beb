-- ===== src/Scenarios/Bounded/Exact.antt =====
-- The guard ends on every document, and accepts exactly those within both bounds.
use chainbreak.Common.{
  ℕ, zero, suc, ◌+◌, ◌≤◌, ◌<◌, max, ◌≡◌, refl, ◌⊎◌, inl, inr, List, [], ◌∷◌, Option, some, ltb,
  arith, Bool-cases,
}
use chainbreak.Core.Errors.{Result, ok, err, scenario_safety_error}
use chainbreak.Scenarios.Bounded.{
  Value, Items, parts, push_all, bounded_loop, assert_bounded, max_node_count, max_nesting_depth,
}

-- The number of values in a document, and the deepest level that one of them stands at, from the
-- document's own.
mutual
  pub size : Value → ℕ
  size Value.scalar = 1
  size (Value.mapping items) = suc (size_items items)
  size (Value.sequence items) = suc (size_items items)

  pub size_items : Items → ℕ
  size_items Items.nil = 0
  size_items (Items.cons value items) = size value + size_items items

mutual
  pub level : Value → ℕ → ℕ
  level Value.scalar depth = depth
  level (Value.mapping items) depth = max depth (level_items items (depth + 1))
  level (Value.sequence items) depth = max depth (level_items items (depth + 1))

  pub level_items : Items → ℕ → ℕ
  level_items Items.nil depth = 0
  level_items (Items.cons value items) depth = max (level value depth) (level_items items depth)

stack_size : List (Value × ℕ) → ℕ
stack_size [] = 0
stack_size ((value, depth) ∷ stack) = size value + stack_size stack

stack_level : List (Value × ℕ) → ℕ
stack_level [] = 0
stack_level ((value, depth) ∷ stack) = max (level value depth) (stack_level stack)

size-parts : (v : Value) → size v ≡ suc (size_items (parts v))
unfolding size parts
size-parts Value.scalar = refl
size-parts (Value.mapping items) = refl
size-parts (Value.sequence items) = refl

level-parts : (v : Value) (d : ℕ) → level v d ≡ max d (level_items (parts v) (d + 1))
unfolding level parts
level-parts Value.scalar d = omega arith
level-parts (Value.mapping items) d = refl
level-parts (Value.sequence items) d = refl

push_all-size :
    (items : Items) (d : ℕ) (stack : List (Value × ℕ))
    → stack_size (push_all items d stack) ≡ size_items items + stack_size stack
unfolding push_all stack_size size
push_all-size Items.nil d stack = omega arith
push_all-size (Items.cons v items) d stack = omega (arith, push_all-size items d ((v, d) ∷ stack))

push_all-level :
    (items : Items) (d : ℕ) (stack : List (Value × ℕ))
    → stack_level (push_all items d stack) ≡ max (level_items items d) (stack_level stack)
unfolding push_all stack_level level
push_all-level Items.nil d stack = omega arith
push_all-level (Items.cons v items) d stack = omega (arith, push_all-level items d ((v, d) ∷ stack))

module _ (max_count max_depth : ℕ) where
  -- The result that the bounds call for.
  abbrev pub Decides : Option (Result (Unit {0})) → ℕ → ℕ → Type 0
  Decides result total deepest =
      ((result ≡ some (ok tt)) × (total ≤ max_count) × (deepest ≤ max_depth))
      ⊎ ((result ≡ some (err scenario_safety_error))
          × ((max_count < total) ⊎ (max_depth < deepest)))

  bounded_loop-Decides :
      (fuel : ℕ) (stack : List (Value × ℕ)) (count : ℕ)
      → max_count + 1 < fuel + count
      → count ≤ max_count
      → Decides
          (bounded_loop max_count max_depth fuel stack count)
          (count + stack_size stack)
          (stack_level stack)
  unfolding bounded_loop stack_size stack_level
  bounded_loop-Decides zero stack count enough small = absurd (omega (arith, enough, small))
  bounded_loop-Decides (suc fuel) [] count enough small =
      inl (refl, omega (arith, small), omega arith)
  bounded_loop-Decides (suc fuel) ((v, d) ∷ stack) count enough small =
      let next = push_all (parts v) (d + 1) stack in
      let sizes = push_all-size (parts v) (d + 1) stack in
      let levels = push_all-level (parts v) (d + 1) stack in
      let whole = size-parts v in
      let deep = level-parts v d in
      elim (Bool-cases (ltb max_count (count + 1))) [
        | inl over ↦ inr (rw (bounded_loop, over) refl, inl (ground (arith, over, whole)))
        | inr within ↦ elim (Bool-cases (ltb max_depth d)) [
          | inl over ↦ inr (rw (bounded_loop, within, over) refl, inr (ground (arith, over, deep)))
          | inr shallow ↦
              elim (bounded_loop-Decides fuel next (count + 1) (omega (arith, enough))
                (ground (arith, within))) [
                  | inl (accepted, total, deepest) ↦ inl (
                    rw (bounded_loop, within, shallow) accepted,
                    omega (arith, total, sizes, whole),
                    ground (arith, deepest, levels, deep, shallow),
                  )
                  | inr (refused, why) ↦ inr (
                    rw (bounded_loop, within, shallow) refused,
                    elim why [
                      | inl total ↦ inl (omega (arith, total, sizes, whole))
                      | inr deepest ↦ inr (omega (arith, deepest, levels, deep))
                    ],
                  )
                ]
        ]
      ]

-- With fuel for two more rounds than the ceiling on values, the guard ends on every document,
-- however much an alias amplifies it: it accepts those of at most 20000 values and 32 levels below the
-- document's own, and refuses all others with a safety error.
pub assert_bounded-Decides :
    (fuel : ℕ) (document : Value)
    → max_node_count + 1 < fuel
    → Decides max_node_count max_nesting_depth
        (assert_bounded fuel document)
        (size document)
        (level document 0)
unfolding assert_bounded stack_size stack_level
assert_bounded-Decides fuel document enough =
    let decided =
      bounded_loop-Decides max_node_count max_nesting_depth fuel ((document, 0) ∷ []) 0
        (omega (arith, enough)) (omega arith) in
    elim decided [
      | inl (accepted, total, deepest) ↦
          inl (accepted, omega (arith, total), omega (arith, deepest))
      | inr (refused, inl total) ↦ inr (refused, inl (omega (arith, total)))
      | inr (refused, inr deepest) ↦ inr (refused, inr (omega (arith, deepest)))
    ]
