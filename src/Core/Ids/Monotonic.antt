-- ===== src/Core/Ids/Monotonic.antt =====
-- Successive identifiers ascend.
use Prim.Native.Nat.{◌^◌}
use chainbreak.Common.{
  ℕ, suc, ◌+◌, ◌/◌, ◌<◌, ◌≤◌, ◌≡◌, refl, Bool, true, false, ◌&&◌, List, [], ◌∷◌, some, ◌⊎◌, inl,
  inr, arith, length, ◌==◌, leb, ltb, Bool-cases, ==_iff, ap, ◌∙◌,
}
use chainbreak.Common.Text.{Text}
use chainbreak.Core.Ids.{
  UlidState, start, next_parts, ulid_text, new_ulid, new_ulids, is_ulid, max_randomness,
}
use chainbreak.Core.Ids.Order.{text_before, ulid_text-is_ulid, ulid_text-monotone}

-- Every identifier is well formed, and comes before the next.
abbrev pub is_sequence : List Text → Bool
is_sequence [] = true
is_sequence (text ∷ []) = is_ulid text
is_sequence (text ∷ next ∷ rest) =
    let later = is_sequence (next ∷ rest) in is_ulid text && text_before text next && later

-- The readings of a clock that ten digits hold, and ten random bytes.
abbrev pub AreInputs : List (ℕ × ℕ) → Type 0
AreInputs [] = Unit {0}
AreInputs ((timestamp_ms, drawn) ∷ calls) =
    (timestamp_ms < 2 ^ 50) × (drawn < 2 ^ 80) × AreInputs calls

state_of_parts : ℕ → ℕ → UlidState
state_of_parts t r = record { last_timestamp_ms = some t; last_randomness = r }

-- One call goes on from the last one, and uses up at most one of the randomness in reserve.
next_parts-advance :
    (t r now drawn k : ℕ)
    → t < 2 ^ 50
    → now < 2 ^ 50
    → drawn < 2 ^ 80
    → r < 2 ^ 79 + k
    → k < 2 ^ 79
    → (u s : ℕ) × (next_parts (state_of_parts t r) now drawn ≡ (u, s))
      × ((t < u) ⊎ ((t ≡ u) × (r < s)))
      × (u < 2 ^ 50)
      × (s < 2 ^ 79 + suc k)
unfolding next_parts state_of_parts
next_parts-advance t r now drawn k ht hn hd hr hk =
    let full : leb max_randomness r ≡ false = ground arith in
    elim (Bool-cases (now == t)) [
      | inl e ↦
          let same : now ≡ t = (==_iff now t).0 e in
          (now, r + 1, (rw (e, full) refl), omega arith, hn, omega arith)
      | inr e ↦ elim (Bool-cases (ltb now t)) [
        | inl back ↦ (t, r + 1, (rw (e, back) refl), omega arith, ht, omega arith)
        | inr on ↦ (now, drawn / 2, (rw (e, on) refl), inl (ground arith), hn, omega arith)
      ]
    ]

new_ulids-cons :
    (before : UlidState) (now drawn u s : ℕ) (calls : List (ℕ × ℕ))
    → next_parts before now drawn ≡ (u, s)
    → new_ulids before ((now, drawn) ∷ calls) ≡ ulid_text u s ∷ new_ulids (state_of_parts u s) calls
unfolding new_ulids new_ulid state_of_parts
new_ulids-cons before now drawn u s calls parts = rw parts refl

is_sequence-cons :
    (text next : Text) (rest : List Text)
    → is_ulid text ≡ true
    → text_before text next ≡ true
    → is_sequence (next ∷ rest) ≡ true
    → is_sequence (text ∷ next ∷ rest) ≡ true
is_sequence-cons text next rest well before later = rw (well, before, later) refl

-- Any number of calls after one that gave an identifier.
new_ulids-is_sequence :
    (calls : List (ℕ × ℕ)) (t r k : ℕ)
    → AreInputs calls
    → t < 2 ^ 50
    → r < 2 ^ 79 + k
    → k + length calls ≤ 2 ^ 79
    → is_sequence (ulid_text t r ∷ new_ulids (state_of_parts t r) calls) ≡ true
unfolding new_ulids
new_ulids-is_sequence [] t r k inputs ht hr few = ulid_text-is_ulid t r
new_ulids-is_sequence ((now, drawn) ∷ calls) t r k (hn, hd, inputs) ht hr few =
    let (u, s, parts, later, hu, hs) =
      next_parts-advance t r now drawn k ht hn hd hr (omega (arith, few)) in
    let rest = new_ulids-is_sequence calls u s (suc k) inputs hu hs (omega (arith, few)) in
    let before = ulid_text-monotone t r u s later (omega arith) (omega (arith, few)) in
    ap (λ texts. is_sequence (ulid_text t r ∷ texts))
      (new_ulids-cons (state_of_parts t r) now drawn u s calls parts)
    ∙ is_sequence-cons (ulid_text t r) (ulid_text u s) (new_ulids (state_of_parts u s) calls)
        (ulid_text-is_ulid t r) before rest

-- Whatever the clock does, backwards steps and repeated readings included, the identifiers that a
-- process makes one after the other, at most 2 ^ 79 of them, are well formed and each is before
-- the next as a text. The clock's readings are those that ten digits hold.
pub new_ulids_ascend :
    (calls : List (ℕ × ℕ))
    → AreInputs calls
    → length calls ≤ 2 ^ 79
    → is_sequence (new_ulids start calls) ≡ true
unfolding new_ulids new_ulid next_parts state_of_parts
new_ulids_ascend [] inputs few = refl
new_ulids_ascend ((now, drawn) ∷ calls) (hn, hd, inputs) few =
    new_ulids-is_sequence calls now (drawn / 2) 0 inputs hn (omega arith) (omega (arith, few))
