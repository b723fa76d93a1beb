-- ===== src/Capabilities/Registry.antt =====
-- src/chainbreak/capabilities/registry.py: the bindings of the providers, by provider and capability.
use chainbreak.Common.{Bool, ◌&&◌, List, [], ◌∷◌, ◌++◌, find, any, ◌==◌, if◌then◌else◌}
use chainbreak.Common.Dict.{Dict}
use chainbreak.Core.Authority.{CapabilityId}
use chainbreak.Core.Capabilities.{ProviderCapabilityBinding}
use chainbreak.Core.Enums.{Provider}
use chainbreak.Core.Enums.Equality.{same_provider}
use chainbreak.Core.Errors.{
  Result, ok, raise_if, or_raise, binding_validation_error, capability_resolution_error, ◌>>=◌,
  ◌>>◌,
}

-- The entries of `_bindings`, in the order of registration; the key of an entry is read off the
-- binding itself.
abbrev pub BindingRegistry : Type 0
BindingRegistry = List ProviderCapabilityBinding

unfoldable pub has_key : Provider → CapabilityId → ProviderCapabilityBinding → Bool
unfolding same_provider
has_key provider capability_id b =
    same_provider b.provider provider && (b.capability_id == capability_id)

-- `__contains__`
unfoldable pub registered : BindingRegistry → Provider → CapabilityId → Bool
unfolding has_key
registered registry provider capability_id = any (has_key provider capability_id) registry

unfoldable pub register : BindingRegistry → ProviderCapabilityBinding → Result BindingRegistry
unfolding registered
register registry binding = do
  raise_if (registered registry binding.provider binding.capability_id) binding_validation_error
  ok (registry ++ binding ∷ [])

unfoldable pub register_all :
    BindingRegistry → List ProviderCapabilityBinding → Result BindingRegistry
unfolding register
register_all registry [] = ok registry
register_all registry (binding ∷ bindings) = do
  registry' ← register registry binding
  register_all registry' bindings

unfoldable pub get : BindingRegistry → Provider → CapabilityId → Result ProviderCapabilityBinding
unfolding has_key
get registry provider capability_id =
    or_raise (find (has_key provider capability_id) registry) capability_resolution_error

unfoldable pub for_provider : BindingRegistry → Provider → Dict ProviderCapabilityBinding
for_provider [] provider = []
for_provider (b ∷ bs) provider =
    let rest = for_provider bs provider in
    if same_provider b.provider provider then (b.capability_id, b) ∷ rest else rest
