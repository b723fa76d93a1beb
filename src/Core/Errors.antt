-- ===== src/Core/Errors.antt =====
-- The exceptions that the modelled code raises (src/chainbreak/core/errors.py), by class, without
-- their messages and contexts; `value_error`, `key_error`,
-- `index_error` and `stop_iteration_error` are Python's own. A call that may
-- raise returns a `Result`.
pub mod Collect
use chainbreak.Common.{◌≡◌, refl, ◌⊎◌, inl, inr, Bool, true, false, Option, none, some}

pub data Error : Type 0 where
  value_error key_error index_error : Error
  namespace_violation_error capability_broadening_error account_not_allowed_error : Error
  region_not_allowed_error mutation_target_forbidden_error dangerous_capability_error : Error
  safety_envelope_error scenario_semantic_error capability_resolution_error : Error
  binding_validation_error execution_error run_duration_exceeded_error : Error
  cost_estimate_exceeded_error delegation_error heterogeneous_comparison_error : Error
  mutation_not_confirmed_error stop_iteration_error scenario_safety_error : Error

pub data Result {ℓ} (T : Type ℓ) : Type ℓ where
  err : Error → Result T
  ok : T → Result T

infixl 5 ◌>>◌ ◌>>=◌
abbrev pub ◌>>=◌ {ℓ ℓ'} : {T : Type ℓ} {U : Type ℓ'} → Result T → (T → Result U) → Result U
err raised >>= continue = err raised
ok value >>= continue = continue value

abbrev pub ◌>>◌ {ℓ} : {U : Type ℓ} → Result (Unit {0}) → Result U → Result U
first >> second = first >>= λ _. second

-- `if condition: raise error`
abbrev pub raise_if : Bool → Error → Result (Unit {0})
raise_if true e = err e
raise_if false e = ok tt

-- A lookup that raises where the key is missing.
abbrev pub or_raise {ℓ} : {A : Type ℓ} → Option A → Error → Result A
or_raise none e = err e
or_raise (some a) e = ok a

abbrev pub is_ok {ℓ} : {A : Type ℓ} → Result A → Bool
is_ok (ok _) = true
is_ok (err _) = false

-- A chain that succeeds got past its first step.
pub >>=-eq-ok {ℓ ℓ'} :
    {T : Type ℓ} {U : Type ℓ'} (step : Result T) (next : T → Result U) {u : U}
    → (step >>= next) ≡ ok u
    → (t : T) × (step ≡ ok t) × (next t ≡ ok u)
>>=-eq-ok (err raised) next h = cc
>>=-eq-ok (ok t) next h = (t, refl, h)

-- Inversion of a guard that let the rest succeed.
pub raise_if_then-eq-ok {ℓ} :
    {B : Type ℓ} (b : Bool) (e : Error) (k : Result B) {r : B}
    → (raise_if b e >> k) ≡ ok r
    → (b ≡ false) × (k ≡ ok r)
raise_if_then-eq-ok true e k h = cc
raise_if_then-eq-ok false e k h = (refl, h)

pub Result-cases {ℓ} :
    {T : Type ℓ} (r : Result T) → ((e : Error) × (r ≡ err e)) ⊎ ((t : T) × (r ≡ ok t))
Result-cases (err e) = inl (e, refl)
Result-cases (ok t) = inr (t, refl)

pub ok_eq {ℓ} : {A : Type ℓ} {x y : A} → ok x ≡ ok y → x ≡ y
ok_eq h = cc
