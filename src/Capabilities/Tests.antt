-- ===== src/Capabilities/Tests.antt =====
-- Two capabilities of one provider, both bound.
use chainbreak.Core.Enums.Equality.{same_provider}
use chainbreak.Common.{ℕ, ◌≡◌, refl, true, false, [], ◌∷◌, some, none, mem}
use chainbreak.Common.Dict.{Dict, lookup}
use chainbreak.Core.Capabilities.{Capability, CapabilityCatalog, ProviderCapabilityBinding}
use chainbreak.Core.Enums.{Provider, ProbeKind, Sensitivity}
use chainbreak.Core.Errors.{ok, err, binding_validation_error, capability_broadening_error}
use chainbreak.Capabilities.Guard.{guarded}
use chainbreak.Capabilities.Guard.Confined.{guarded_lem}
use chainbreak.Capabilities.Loader.{candidate, validate_binding, resolve_bindings}
use chainbreak.Capabilities.Loader.Resolution.{IsBound, resolve_bindings_lem}
use chainbreak.Capabilities.Preconditions.{verify_all}
use chainbreak.Capabilities.Registry.{register_all, for_provider}

abbrev capability_of : ℕ → Capability
capability_of i = record {
  id = i;
  probe_kind = ProbeKind.read_marker;
  sensitivity = Sensitivity.benign_read;
  mutates_state = false;
  is_control = false;
  requires_precondition = [];
}

abbrev binding_of : ℕ → ProviderCapabilityBinding
binding_of i = record {
  capability_id = i;
  provider = Provider.fake;
  actions = 7 ∷ 8 ∷ [];
  resource_template = 0;
  probe_kind = ProbeKind.read_marker;
  preconditions = [];
}

abbrev catalog : CapabilityCatalog
catalog = capability_of 3 ∷ capability_of 6 ∷ []

abbrev bindings : Dict ProviderCapabilityBinding
bindings = (3, binding_of 3) ∷ (6, binding_of 6) ∷ []

-- A second binding under the same key is refused; another provider's is left out.
refused : register_all [] (binding_of 3 ∷ binding_of 3 ∷ []) ≡ err binding_validation_error
unfolding register_all
refused = refl

listed :
    for_provider
      (binding_of 3 ∷ record (binding_of 6) { provider = Provider.aws } ∷ [])
      Provider.fake
    ≡ (3, binding_of 3) ∷ []
unfolding for_provider same_provider
listed = refl

verified :
    verify_all ((0, λ (_ : ℕ). true) ∷ (1, λ _. false) ∷ []) (0 ∷ 1 ∷ []) 9
    ≡ ok ((1, false) ∷ (0, true) ∷ [])
unfolding verify_all
verified = refl

resolve_bindings_lem_example :
    (((c : ℕ)
        → mem c (6 ∷ []) ≡ true
        → (b : ProviderCapabilityBinding) × IsBound catalog bindings Provider.fake c b)
      → (resolved : Dict ProviderCapabilityBinding) × (resolve_bindings catalog
            (6 ∷ [])
            bindings
            Provider.fake
          ≡ ok resolved))
    × ((resolved : Dict ProviderCapabilityBinding)
        → resolve_bindings catalog (6 ∷ []) bindings Provider.fake ≡ ok resolved
        → (c : ℕ)
        → (mem c (6 ∷ []) ≡ true
            → (b : ProviderCapabilityBinding) × IsBound catalog bindings Provider.fake c b
              × (lookup c resolved ≡ some b))
          × (mem c (6 ∷ []) ≡ false → lookup c resolved ≡ none))
resolve_bindings_lem_example = resolve_bindings_lem catalog bindings Provider.fake (6 ∷ [])

-- The requirement is bound, and so resolved.
bound : IsBound catalog bindings Provider.fake 6 (binding_of 6)
unfolding candidate validate_binding
bound = record { of_capability = capability_of 6; found = refl; valid = refl }

guarded_lem_example :
    (((op : ℕ) → mem op (8 ∷ []) ≡ true → mem op (7 ∷ 8 ∷ []) ≡ true)
      → guarded (binding_of 3) (8 ∷ []) (ok true) ≡ ok true)
    × ((op : ℕ)
        → mem op (8 ∷ []) ≡ true
        → mem op (7 ∷ 8 ∷ []) ≡ false
        → guarded (binding_of 3) (8 ∷ []) (ok true) ≡ err capability_broadening_error)
guarded_lem_example = guarded_lem (binding_of 3) (8 ∷ []) (ok true)
