-- ===== src/Capabilities/Loader.antt =====
-- src/chainbreak/capabilities/loader.py: which bindings a run may use. The reading of the catalog's
-- text is left out.

pub mod Resolution
use chainbreak.Common.{ℕ, Bool, not, ◌&&◌, List, [], ◌∷◌, Option, none, some, ◌==◌}
use chainbreak.Common.Dict.{Dict, lookup}
use chainbreak.Core.Authority.{AuthoritySet, CapabilityId, diff, is_empty, sorted}
use chainbreak.Core.Capabilities.{
  Capability, CapabilityCatalog, ProviderCapabilityBinding, get, dangerous, is_dangerous,
}
use chainbreak.Core.Enums.{Provider}
use chainbreak.Core.Enums.Equality.{same_provider, same_kind}
use chainbreak.Core.Errors.{
  Result, ok, err, raise_if, binding_validation_error, capability_resolution_error,
  dangerous_capability_error, ◌>>=◌, ◌>>◌,
}

unfoldable pub assert_no_dangerous :
    CapabilityCatalog → (config_allows cli_allows : Bool) → Result (Unit {0})
assert_no_dangerous catalog config_allows cli_allows = elim (dangerous catalog) [
  | [] ↦ ok tt
  | _ ∷ _ ↦ raise_if (not (config_allows && cli_allows)) dangerous_capability_error
]

unfoldable pub validate_binding :
    Capability → ProviderCapabilityBinding → Provider → Result (Unit {0})
unfolding same_provider same_kind is_dangerous diff is_empty
validate_binding capability binding provider = do
  raise_if (not (binding.capability_id == capability.id)) binding_validation_error
  raise_if (not (same_provider binding.provider provider)) binding_validation_error
  raise_if (not (same_kind binding.probe_kind capability.probe_kind)) binding_validation_error
  raise_if (is_dangerous capability) binding_validation_error
  raise_if (not (is_empty (diff capability.requires_precondition binding.preconditions)))
      binding_validation_error

-- What one required capability has: neither a capability nor a binding may be missing.
unfoldable pub candidate :
    CapabilityCatalog
    → Dict ProviderCapabilityBinding
    → CapabilityId
    → Option (Capability × ProviderCapabilityBinding)
unfolding get
candidate catalog bindings capability_id = elim (get catalog capability_id) [
  | err _ ↦ none
  | ok capability ↦ elim (lookup capability_id bindings) [
    | none ↦ none
    | some binding ↦ some (capability, binding)
  ]
]

-- The loop over the sorted requirement: the bindings resolved, and the capabilities missing.
unfoldable pub resolve_each :
    CapabilityCatalog
    → Dict ProviderCapabilityBinding
    → Provider
    → List CapabilityId
    → Result (Dict ProviderCapabilityBinding × List CapabilityId)
resolve_each catalog bindings provider [] = ok ([], [])
resolve_each catalog bindings provider (c ∷ cs) = elim (candidate catalog bindings c) [
  | none ↦ do
    (resolved, missing) ← resolve_each catalog bindings provider cs
    ok (resolved, c ∷ missing)
  | some (capability, binding) ↦ do
    validate_binding capability binding provider
    (resolved, missing) ← resolve_each catalog bindings provider cs
    ok ((c, binding) ∷ resolved, missing)
]

unfoldable pub resolve_bindings :
    CapabilityCatalog
    → AuthoritySet
    → Dict ProviderCapabilityBinding
    → Provider
    → Result (Dict ProviderCapabilityBinding)
unfolding resolve_each sorted is_empty
resolve_bindings catalog required bindings provider = do
  (resolved, missing) ← resolve_each catalog bindings provider (sorted required)
  raise_if (not (is_empty missing)) capability_resolution_error
  ok resolved
