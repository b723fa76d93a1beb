-- ===== src/Core/Safety/Gate.antt =====
-- What a run that the gate lets through has been checked for, and what the cost estimate adds up.
use chainbreak.Common.{
  ℕ, ◌≤◌, ◌≡◌, ◌↔◌, refl, ap, Bool, true, false, List, Option, none, some, arith, mem,
}
use chainbreak.Core.Errors.{ok, raise_if_then-eq-ok}
use chainbreak.Core.Safety.Bill.{Costs, plan_calls, estimate_cost-Costs}
use chainbreak.Core.Safety.{
  SafetyEnvelope, CostTable, ProbeMatrix, Arguments, refused, over_ceiling, authorize,
  estimate_cost,
}

refused_iff :
    (p : ℕ → Bool) (o : Option ℕ) → (refused p o ≡ false) ↔ ((x : ℕ) → o ≡ some x → p x ≡ true)
unfolding refused
refused_iff p none = (λ _ x e. cc, λ _. refl)
refused_iff p (some y) =
    (λ h x e. ground (arith, h, ap p (some-injective e)), λ h. ground (arith, h y refl))
  where
    some-injective : {a b : ℕ} → some a ≡ some b → a ≡ b
    some-injective e = cc

over_ceiling_iff :
    (v : SafetyEnvelope) (o : Option (List ProbeMatrix)) (t : Option CostTable)
    → (over_ceiling v o t ≡ false) ↔ (
        (ms : List ProbeMatrix) (u : CostTable)
        → o ≡ some ms
        → t ≡ some u
        → estimate_cost ms u ≤ v.max_estimated_cost_usd)
unfolding over_ceiling
over_ceiling_iff v none t = (λ _ ms u e f. cc, λ _. refl)
over_ceiling_iff v (some ns) none = (λ _ ms u e f. cc, λ _. refl)
over_ceiling_iff v (some ns) (some w) = (
  λ h ms u e f.
      let same : estimate_cost ns w ≡ estimate_cost ms u = cc in rw (← same) (ground (arith, h)),
  λ h. ground (arith, h ns w refl refl),
)

-- The arguments that are given are within the envelope.
abbrev pub IsWithin : (ℕ → ℕ → Bool) → SafetyEnvelope → Arguments → Type 0
IsWithin fullmatch v a =
    ((x : ℕ) → a.account_id ≡ some x → mem x v.allowed_account_ids ≡ true)
    × ((x : ℕ) → a.region ≡ some x → mem x v.allowed_regions ≡ true)
    × ((x : ℕ) → a.namespace ≡ some x → fullmatch v.namespace_pattern x ≡ true)
    × ((ms : List ProbeMatrix) (t : CostTable)
        → a.compiled ≡ some ms
        → a.cost_table ≡ some t
        → (total : ℕ) × Costs t (plan_calls ms) total × (total ≤ v.max_estimated_cost_usd))

within_cost :
    (ms : List ProbeMatrix) (t : CostTable) (ceiling : ℕ)
    → (estimate_cost ms t ≤ ceiling)
      ↔ ((total : ℕ) × Costs t (plan_calls ms) total × (total ≤ ceiling))
within_cost ms t ceiling = (
  λ h. (estimate_cost ms t, (estimate_cost-Costs ms t (estimate_cost ms t)).1 refl, h),
  λ (total, costs, h). rw (← (estimate_cost-Costs ms t total).0 costs) h,
)

-- The gate lets a run through exactly when there is an envelope and each argument that is given is
-- within it: the account and the region are on its lists, the namespace matches its pattern, and
-- what the calls of the plan cost together, one for each matrix, identity, trial and member of the
-- matrix's set, each at its own price or else the default one or else nothing, is at most its
-- ceiling.
pub authorize_iff :
    (fullmatch : ℕ → ℕ → Bool) (envelope : Option SafetyEnvelope) (a : Arguments)
    → (authorize fullmatch envelope a ≡ ok tt)
      ↔ ((v : SafetyEnvelope) × (envelope ≡ some v) × IsWithin fullmatch v a)
unfolding authorize
authorize_iff fullmatch none a = (λ h. cc, λ (v, e, _). absurd (cc))
authorize_iff fullmatch (some v) a = (
  λ h.
      let (account, h1) =
        raise_if_then-eq-ok (refused (λ x. mem x v.allowed_account_ids) a.account_id) _ _ h in
      let (region, h2) =
        raise_if_then-eq-ok (refused (λ x. mem x v.allowed_regions) a.region) _ _ h1 in
      let (namespace, h3) =
        raise_if_then-eq-ok (refused (fullmatch v.namespace_pattern) a.namespace) _ _ h2 in
      let (cost, _) = raise_if_then-eq-ok (over_ceiling v a.compiled a.cost_table) _ _ h3 in
      (
        v,
        refl,
        (
          (refused_iff (λ x. mem x v.allowed_account_ids) a.account_id).0 account,
          (refused_iff (λ x. mem x v.allowed_regions) a.region).0 region,
          (refused_iff (fullmatch v.namespace_pattern) a.namespace).0 namespace,
          λ ms t e g.
              (within_cost ms t v.max_estimated_cost_usd).0
                ((over_ceiling_iff v a.compiled a.cost_table).0 cost ms t e g),
        ),
      ),
  λ (w, e, within). let same : w ≡ v = cc in accepted (rw same at within),
)
  where
    accepted : IsWithin fullmatch v a → authorize fullmatch (some v) a ≡ ok tt
    accepted (account, region, namespace, cost) =
        rw
          (
            authorize,
            (refused_iff (λ x. mem x v.allowed_account_ids) a.account_id).1 account,
            (refused_iff (λ x. mem x v.allowed_regions) a.region).1 region,
            (refused_iff (fullmatch v.namespace_pattern) a.namespace).1 namespace,
            (over_ceiling_iff v a.compiled a.cost_table).1
                (λ ms t e g. (within_cost ms t v.max_estimated_cost_usd).1 (cost ms t e g)),
          )
          refl
