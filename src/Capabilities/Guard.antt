-- ===== src/Capabilities/Guard.antt =====
-- src/chainbreak/capabilities/guard.py: the operations that one probe invokes, checked at its end.
pub mod Confined
use chainbreak.Common.{ℕ, Bool, not, List, [], ◌∷◌, ◌++◌, filter, mem}
use chainbreak.Core.Authority.{is_empty}
use chainbreak.Core.Capabilities.{ProviderCapabilityBinding}
use chainbreak.Core.Errors.{Result, ok, err, raise_if, capability_broadening_error, ◌>>=◌, ◌>>◌}

pub record OperationAllowlist : Type 0 where
  pub binding : ProviderCapabilityBinding
  pub invoked : List ℕ

-- `__init__` and `__enter__`, which both start an empty record.
unfoldable pub enter : ProviderCapabilityBinding → OperationAllowlist
enter binding = record { binding = binding; invoked = [] }

unfoldable pub record_operation : OperationAllowlist → ℕ → OperationAllowlist
record_operation allowlist operation = record allowlist {
  invoked = allowlist.invoked ++ operation ∷ [];
}

unfoldable pub record_all : OperationAllowlist → List ℕ → OperationAllowlist
unfolding record_operation
record_all allowlist [] = allowlist
record_all allowlist (operation ∷ operations) =
    record_all (record_operation allowlist operation) operations

-- `{op for op in self._invoked if op not in allowed}`
unfoldable pub broadened : OperationAllowlist → List ℕ
broadened allowlist = filter (λ op. not (mem op allowlist.binding.actions)) allowlist.invoked

-- `__exit__`: raises whatever the block itself did.
unfoldable pub exit_block : OperationAllowlist → Result (Unit {0})
unfolding broadened is_empty
exit_block allowlist = raise_if (not (is_empty (broadened allowlist))) capability_broadening_error

-- A `with` block that records the operations, one after the other, and gives its outcome.
unfoldable pub guarded {ℓ} :
    {Outcome : Type ℓ} → ProviderCapabilityBinding → List ℕ → Result Outcome → Result Outcome
unfolding enter record_all exit_block
guarded binding operations block = do exit_block (record_all (enter binding) operations); block
