-- ===== src/Core/Capabilities.antt =====
-- `Capability`, `CapabilityCatalog` and `ProviderCapabilityBinding` (src/chainbreak/core/models.py).
-- A precondition, an action and a resource template are numbers; descriptive fields are left out.
use chainbreak.Common.{ℕ, Bool, true, false, not, List, [], ◌∷◌, ◌==◌, filter, find, length}
use chainbreak.Common.Nodup.{all_distinct}
use chainbreak.Core.Authority.{AuthoritySet, CapabilityId}
use chainbreak.Core.Enums.{Provider, ProbeKind, Sensitivity}
use chainbreak.Core.Errors.{Result, ok, raise_if, value_error, key_error, or_raise, ◌>>◌}

pub record Capability : Type 0 where
  pub id : CapabilityId
  pub probe_kind : ProbeKind
  pub sensitivity : Sensitivity
  pub mutates_state : Bool
  pub is_control : Bool
  pub requires_precondition : List ℕ

unfoldable pub is_dangerous : Capability → Bool
is_dangerous c = elim c.sensitivity [ Sensitivity.dangerous ↦ true | _ ↦ false ]

-- The validator `_write_capabilities_must_mutate`.
unfoldable pub capability : Capability → Result Capability
capability c = elim c.sensitivity [
  | Sensitivity.benign_write ↦ do raise_if (not c.mutates_state) value_error; ok c
  | Sensitivity.benign_read ↦ do raise_if c.mutates_state value_error; ok c
  | _ ↦ ok c
]

abbrev pub CapabilityCatalog : Type 0
CapabilityCatalog = List Capability

abbrev pub ids : CapabilityCatalog → AuthoritySet
ids [] = []
ids (c ∷ cs) = c.id ∷ ids cs

-- The validator `_unique_ids`.
unfoldable pub capability_catalog : CapabilityCatalog → Result CapabilityCatalog
unfolding all_distinct
capability_catalog catalog = do raise_if (not (all_distinct (ids catalog))) value_error; ok catalog

unfoldable pub get : CapabilityCatalog → CapabilityId → Result Capability
get catalog capability_id = or_raise (find (λ c. c.id == capability_id) catalog) key_error

unfoldable pub controls : CapabilityCatalog → List Capability
controls catalog = filter (λ c. c.is_control) catalog

unfoldable pub dangerous : CapabilityCatalog → List Capability
unfolding is_dangerous
dangerous catalog = filter is_dangerous catalog

pub record ProviderCapabilityBinding : Type 0 where
  pub capability_id : CapabilityId
  pub provider : Provider
  pub actions : List ℕ
  pub resource_template : ℕ
  pub probe_kind : ProbeKind
  pub preconditions : List ℕ

-- The bound on the length of `actions` and the validator `_actions_unique`.
unfoldable pub provider_capability_binding :
    ProviderCapabilityBinding → Result ProviderCapabilityBinding
unfolding all_distinct
provider_capability_binding b = do
  raise_if (length b.actions == 0) value_error
  raise_if (not (all_distinct b.actions)) value_error
  ok b
