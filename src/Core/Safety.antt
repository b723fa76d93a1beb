-- ===== src/Core/Safety.antt =====
-- src/chainbreak/core/safety.py: the gate that every run passes before anything happens. Costs are
-- exact numbers of one unit of the cost table. The regular expression of the namespace is a parameter
-- of the gate: which texts match it is for Python's `re` to say.
pub mod Bill
pub mod Gate
use chainbreak.Common.{
  ℕ, ◌+◌, ◌*◌, Bool, true, false, not, List, [], ◌∷◌, Option, none, some, ltb, ◌==◌, if◌then◌else◌,
  mem, length,
}
use chainbreak.Common.Dict.{Dict, lookup}
use chainbreak.Core.Authority.{AuthoritySet, CapabilityId, sorted}
use chainbreak.Core.Errors.{
  Result, ok, err, raise_if, ◌>>=◌, ◌>>◌, safety_envelope_error, account_not_allowed_error,
  region_not_allowed_error, namespace_violation_error, cost_estimate_exceeded_error,
}
use chainbreak.Core.Models.{IdentityId}

-- `ProbeMatrix` (src/chainbreak/core/models.py)
pub record ProbeMatrix : Type 0 where
  pub identities : List IdentityId
  pub capabilities : AuthoritySet
  pub trials : ℕ

-- The fields of `SafetyEnvelope` (src/chainbreak/core/models.py) that the gate reads.
pub record SafetyEnvelope : Type 0 where
  pub allowed_account_ids : List ℕ
  pub allowed_regions : List ℕ
  pub namespace_pattern : ℕ
  pub max_estimated_cost_usd : ℕ

-- `cost_table`: the entry under the default key, and the others.
pub record CostTable : Type 0 where
  pub default_cost : Option ℕ
  pub costs : Dict ℕ

unfoldable pub cost_of : CostTable → CapabilityId → ℕ
cost_of table capability = elim (lookup capability table.costs) [
  | some cost ↦ cost
  | none ↦ elim table.default_cost [ none ↦ 0 | some cost ↦ cost ]
]

-- The sum over the capabilities, each of them once.
unfoldable pub per_call : CostTable → List CapabilityId → ℕ
per_call table [] = 0
per_call table (c ∷ cs) = cost_of table c + per_call table cs

unfoldable pub estimate_cost : List ProbeMatrix → CostTable → ℕ
unfolding per_call
estimate_cost [] table = 0
estimate_cost (m ∷ ms) table =
    per_call table (sorted m.capabilities) * length m.identities * m.trials + estimate_cost ms table

-- The keyword arguments of `authorize`; `compiled` stands for its probe matrices.
pub record Arguments : Type 0 where
  pub account_id : Option ℕ
  pub region : Option ℕ
  pub namespace : Option ℕ
  pub compiled : Option (List ProbeMatrix)
  pub cost_table : Option CostTable

-- `value is not None and not allowed(value)`
unfoldable pub refused : (ℕ → Bool) → Option ℕ → Bool
refused allowed none = false
refused allowed (some value) = not (allowed value)

unfoldable pub over_ceiling : SafetyEnvelope → Option (List ProbeMatrix) → Option CostTable → Bool
over_ceiling envelope (some compiled) (some table) =
    ltb envelope.max_estimated_cost_usd (estimate_cost compiled table)
over_ceiling envelope _ _ = false

unfoldable pub authorize :
    (fullmatch : ℕ → ℕ → Bool) → Option SafetyEnvelope → Arguments → Result (Unit {0})
authorize fullmatch none a = err safety_envelope_error
authorize fullmatch (some envelope) a = do
  raise_if (refused (λ x. mem x envelope.allowed_account_ids) a.account_id)
      account_not_allowed_error
  raise_if (refused (λ x. mem x envelope.allowed_regions) a.region) region_not_allowed_error
  raise_if (refused (fullmatch envelope.namespace_pattern) a.namespace) namespace_violation_error
  raise_if (over_ceiling envelope a.compiled a.cost_table) cost_estimate_exceeded_error
  ok tt
