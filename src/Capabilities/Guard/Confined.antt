-- ===== src/Capabilities/Guard/Confined.antt =====
-- SI-3 at run time: what a guarded block may have invoked.
use chainbreak.Common.{
  ℕ, ◌≡◌, refl, true, false, not, List, [], ◌∷◌, ◌++◌, arith, ap, sym, ◌∙◌, mem, filter, all, ◌==◌,
  ==_iff, Bool-cases, inl, inr,
}
use chainbreak.Core.Authority.{is_empty}
use chainbreak.Core.Authority.Algebra.{is_subset_of_iff}
use chainbreak.Core.Authority.{is_subset_of}
use chainbreak.Core.Capabilities.{ProviderCapabilityBinding}
use chainbreak.Core.Errors.{Result, err, capability_broadening_error}
use chainbreak.Capabilities.Guard.{
  OperationAllowlist, enter, record_operation, record_all, broadened, exit_block, guarded,
}

append_assoc : (xs : List ℕ) (y : ℕ) (zs : List ℕ) → (xs ++ y ∷ []) ++ zs ≡ xs ++ y ∷ zs
append_assoc [] y zs = refl
append_assoc (x ∷ xs) y zs = ap (λ l. x ∷ l) (append_assoc xs y zs)

append_nil : (xs : List ℕ) → xs ++ [] ≡ xs
append_nil [] = refl
append_nil (x ∷ xs) = ap (λ l. x ∷ l) (append_nil xs)

record_all-invoked :
    (a : OperationAllowlist) (ops : List ℕ)
    → record_all a ops ≡ record a { invoked = a.invoked ++ ops }
unfolding record_all record_operation
record_all-invoked a [] = ap (λ l. record a { invoked = l }) (sym (append_nil a.invoked))
record_all-invoked a (op ∷ ops) =
    record_all-invoked (record_operation a op) ops
    ∙ ap (λ l. record a { invoked = l }) (append_assoc a.invoked op ops)

filter-is_empty :
    (xs ys : List ℕ) → is_empty (filter (λ op. not (mem op ys)) xs) ≡ all (λ op. mem op ys) xs
unfolding is_empty
filter-is_empty [] ys = refl
filter-is_empty (x ∷ xs) ys = ground (arith, filter-is_empty xs ys)

not_all :
    (op : ℕ) (xs ys : List ℕ)
    → mem op xs ≡ true
    → mem op ys ≡ false
    → all (λ x. mem x ys) xs ≡ false
not_all op [] ys m n = cc
not_all op (x ∷ xs) ys m n = elim (Bool-cases (op == x)) [
  | inl e ↦ let same : op ≡ x = (==_iff op x).0 e in ground (arith, ap (λ z. mem z ys) same)
  | inr e ↦ ground (arith, not_all op xs ys (ground arith) n)
]

-- A guarded block fails with a broadening error, whatever it did itself, exactly when it invoked
-- an operation that its binding does not name; otherwise its own outcome stands, an error of its
-- own included.
pub guarded_lem {ℓ} :
    {Outcome : Type ℓ} (binding : ProviderCapabilityBinding) (operations : List ℕ)
    (block : Result Outcome)
    → (((op : ℕ) → mem op operations ≡ true → mem op binding.actions ≡ true)
        → guarded binding operations block ≡ block)
      × ((op : ℕ)
          → mem op operations ≡ true
          → mem op binding.actions ≡ false
          → guarded binding operations block ≡ err capability_broadening_error)
unfolding guarded exit_block broadened enter is_subset_of
guarded_lem binding operations block =
    let recorded = record_all-invoked (enter binding) operations in
    let empty = filter-is_empty operations binding.actions in
    (
      λ within. rw (recorded, empty, (is_subset_of_iff operations binding.actions).1 within) refl,
      λ op m n. rw (recorded, empty, not_all op operations binding.actions m n) refl,
    )
