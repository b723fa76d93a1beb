-- ===== src/Core/Safety/Bill.antt =====
-- The calls of a plan one by one, and that the estimate is what they cost.
use chainbreak.Common.{
  ℕ, zero, suc, ◌+◌, ◌*◌, ◌≡◌, ◌↔◌, refl, sym, ap, ◌∙◌, ◌⊎◌, inl, inr, List, [], ◌∷◌, ◌++◌, none,
  some, arith, length, Option-cases,
}
use native.Mathlib.Nat.{suc-mul, mul_comm, mul_assoc}
use chainbreak.Common.Dict.{lookup}
use chainbreak.Core.Authority.{CapabilityId, sorted}
use chainbreak.Core.Models.{IdentityId}
use chainbreak.Core.Safety.{CostTable, ProbeMatrix, cost_of, per_call, estimate_cost}

abbrev pub trial_calls : (trials : ℕ) → List CapabilityId → List CapabilityId
trial_calls zero capabilities = []
trial_calls (suc trials) capabilities = capabilities ++ trial_calls trials capabilities

abbrev pub identity_calls : List IdentityId → List CapabilityId → List CapabilityId
identity_calls [] calls = []
identity_calls (i ∷ is) calls = calls ++ identity_calls is calls

-- The capability of every call: for each matrix, identity and trial, the members of its set.
abbrev pub plan_calls : List ProbeMatrix → List CapabilityId
plan_calls [] = []
plan_calls (m ∷ ms) =
    identity_calls m.identities (trial_calls m.trials (sorted m.capabilities)) ++ plan_calls ms

-- The entry of the table, or else the default one, or else nothing.
abbrev pub IsPrice : CostTable → CapabilityId → ℕ → Type 0
IsPrice table c price =
    (lookup c table.costs ≡ some price)
    ⊎ ((lookup c table.costs ≡ none)
        × ((table.default_cost ≡ some price) ⊎ ((table.default_cost ≡ none) × (price ≡ 0))))

-- What some calls cost, call by call.
abbrev pub Costs : CostTable → List CapabilityId → ℕ → Type 0
Costs table [] total = total ≡ 0
Costs table (c ∷ cs) total =
    (price : ℕ) × (rest : ℕ) × IsPrice table c price × Costs table cs rest × (total ≡ price + rest)

IsPrice-cost_of : (table : CostTable) (c : CapabilityId) → IsPrice table c (cost_of table c)
unfolding cost_of
IsPrice-cost_of table c = elim (Option-cases (lookup c table.costs)) [
  | inr (price, e) ↦ inl (e ∙ ap some (sym (rw (cost_of, e) refl)))
  | inl e ↦ elim (Option-cases table.default_cost) [
    | inl d ↦ inr (e, inr (d, rw (cost_of, e, d) refl))
    | inr (price, d) ↦ inr (e, inl (d ∙ ap some (sym (rw (cost_of, e, d) refl))))
  ]
]

price_unique :
    (table : CostTable) (c : CapabilityId) (p q : ℕ) → IsPrice table c p → IsPrice table c q → p ≡ q
price_unique table c p q (inl a) (inl b) = cc
price_unique table c p q (inl a) (inr (b, _)) = cc
price_unique table c p q (inr (a, _)) (inl b) = cc
price_unique table c p q (inr (_, inl a)) (inr (_, inl b)) = cc
price_unique table c p q (inr (_, inl a)) (inr (_, inr (b, _))) = cc
price_unique table c p q (inr (_, inr (a, _))) (inr (_, inl b)) = cc
price_unique table c p q (inr (_, inr (_, a))) (inr (_, inr (_, b))) = a ∙ sym b

Costs-per_call : (table : CostTable) (cs : List CapabilityId) → Costs table cs (per_call table cs)
unfolding per_call
Costs-per_call table [] = refl
Costs-per_call table (c ∷ cs) =
    (cost_of table c, per_call table cs, IsPrice-cost_of table c, Costs-per_call table cs, refl)

Costs-unique :
    (table : CostTable) (cs : List CapabilityId) (m n : ℕ)
    → Costs table cs m
    → Costs table cs n
    → m ≡ n
Costs-unique table [] m n a b = a ∙ sym b
Costs-unique table (c ∷ cs) m n (p, r, is_p, of_r, a) (q, s, is_q, of_s, b) =
    let same = price_unique table c p q is_p is_q in
    let rest = Costs-unique table cs r s of_r of_s in omega (arith, a, b, same, rest)

per_call-append :
    (table : CostTable) (xs ys : List CapabilityId)
    → per_call table (xs ++ ys) ≡ per_call table xs + per_call table ys
unfolding per_call
per_call-append table [] ys = omega arith
per_call-append table (x ∷ xs) ys = omega (arith, per_call-append table xs ys)

per_call-trial_calls :
    (table : CostTable) (n : ℕ) (xs : List CapabilityId)
    → per_call table (trial_calls n xs) ≡ n * per_call table xs
unfolding per_call
per_call-trial_calls table zero xs = omega arith
per_call-trial_calls table (suc n) xs = omega (
  arith,
  per_call-append table xs (trial_calls n xs),
  per_call-trial_calls table n xs,
  suc-mul n (per_call table xs),
)

per_call-identity_calls :
    (table : CostTable) (is : List IdentityId) (xs : List CapabilityId)
    → per_call table (identity_calls is xs) ≡ length is * per_call table xs
unfolding per_call
per_call-identity_calls table [] xs = omega arith
per_call-identity_calls table (i ∷ is) xs = omega (
  arith,
  per_call-append table xs (identity_calls is xs),
  per_call-identity_calls table is xs,
  suc-mul (length is) (per_call table xs),
)

estimate_cost-calls :
    (ms : List ProbeMatrix) (table : CostTable)
    → estimate_cost ms table ≡ per_call table (plan_calls ms)
unfolding estimate_cost per_call
estimate_cost-calls [] table = refl
estimate_cost-calls (m ∷ ms) table =
    let cs = sorted m.capabilities in
    let p = per_call table cs in
    let n = length m.identities in
    let swapped : p * n * m.trials ≡ n * (m.trials * p) =
      ap (λ z. z * m.trials) (mul_comm p n)
      ∙ mul_assoc n p m.trials
      ∙ ap (λ z. n * z) (mul_comm p m.trials) in
    let trials = per_call-trial_calls table m.trials cs in
    let identities = per_call-identity_calls table m.identities (trial_calls m.trials cs) in
    let all =
      per_call-append table (identity_calls m.identities (trial_calls m.trials cs))
        (plan_calls ms) in
    let scaled = ap (λ z. n * z) trials in
    omega (arith, swapped, identities, scaled, all, estimate_cost-calls ms table)

-- The estimate is what the calls of the plan cost.
pub estimate_cost-Costs :
    (ms : List ProbeMatrix) (table : CostTable) (total : ℕ)
    → Costs table (plan_calls ms) total ↔ (total ≡ estimate_cost ms table)
estimate_cost-Costs ms table total = (
  λ h.
      Costs-unique table (plan_calls ms) total (per_call table (plan_calls ms)) h
        (Costs-per_call table (plan_calls ms))
      ∙ sym (estimate_cost-calls ms table),
  λ h. rw (h ∙ estimate_cost-calls ms table) (Costs-per_call table (plan_calls ms)),
)
