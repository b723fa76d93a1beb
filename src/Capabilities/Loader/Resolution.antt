-- ===== src/Capabilities/Loader/Resolution.antt =====
-- CAP-1 and CAP-2: the requirement is resolved completely, by valid bindings, or not at all.
use chainbreak.Common.{
  ℕ, ◌≡◌, refl, ◌∙◌, ap, true, false, not, List, [], ◌∷◌, none, some, arith, mem, ◌==◌, ==_iff,
  Bool-cases, Option-cases, inl, inr,
}
use chainbreak.Common.Dict.{Dict, lookup}
use chainbreak.Core.Authority.{AuthoritySet, CapabilityId, is_empty, sorted}
use chainbreak.Core.Authority.Canonical.{mem-sorted}
use chainbreak.Core.Capabilities.{Capability, CapabilityCatalog, ProviderCapabilityBinding}
use chainbreak.Core.Enums.{Provider}
use chainbreak.Core.Errors.{ok, >>=-eq-ok, raise_if_then-eq-ok, capability_resolution_error}
use chainbreak.Capabilities.Loader.{validate_binding, candidate, resolve_each, resolve_bindings}

is_empty-nil : (xs : List ℕ) → not (is_empty xs) ≡ false → xs ≡ []
unfolding is_empty
is_empty-nil [] h = refl
is_empty-nil (x ∷ xs) h = cc

module _ (catalog : CapabilityCatalog) (bindings : Dict ProviderCapabilityBinding)
    (provider : Provider) where
  -- The catalog has the capability, and the provider a valid binding for it.
  pub record IsBound (c : CapabilityId) (binding : ProviderCapabilityBinding) : Type 0 where
    pub of_capability : Capability
    pub found : candidate catalog bindings c ≡ some (of_capability, binding)
    pub valid : validate_binding of_capability binding provider ≡ ok tt

  -- What the loop leaves, where nothing is missing.
  abbrev Covers : List CapabilityId → Dict ProviderCapabilityBinding → Type 0
  Covers cs resolved =
      (c : CapabilityId)
      → (mem c cs ≡ true
          → (b : ProviderCapabilityBinding) × IsBound c b × (lookup c resolved ≡ some b))
        × (mem c cs ≡ false → lookup c resolved ≡ none)

  Covers-cons :
      (c : CapabilityId) (cs : List CapabilityId) (b : ProviderCapabilityBinding)
      (resolved : Dict ProviderCapabilityBinding)
      → IsBound c b
      → Covers cs resolved
      → Covers (c ∷ cs) ((c, b) ∷ resolved)
  Covers-cons c cs b resolved bound rest d = elim (Bool-cases (d == c)) [
    | inl e ↦
        let same : d ≡ c = (==_iff d c).0 e in
        (λ _. (b, rw same bound, rw e refl), λ h. ground (arith, e, h))
    | inr e ↦ (
      λ h. let (b', bound', found) = (rest d).0 (ground (arith, e, h)) in (b', bound', rw e found),
      λ h. rw e ((rest d).1 (ground (arith, e, h))),
    )
  ]

  resolve_each-Covers :
      (cs : List CapabilityId) (resolved : Dict ProviderCapabilityBinding)
      → resolve_each catalog bindings provider cs ≡ ok (resolved, [])
      → Covers cs resolved
  unfolding resolve_each
  resolve_each-Covers [] resolved h = λ c. ground (arith, h)
  resolve_each-Covers (c ∷ cs) resolved h = elim (Option-cases (candidate catalog bindings c)) [
    | inl e ↦
        let (_, _, k) =
          >>=-eq-ok (resolve_each catalog bindings provider cs) _ (rw (resolve_each, e) at h) in
        cc
    | inr ((capability, binding), e) ↦
        let (_, valid, g) =
          >>=-eq-ok (validate_binding capability binding provider) _ (rw (resolve_each, e) at h) in
        let ((rest, missing), made, k) =
          >>=-eq-ok (resolve_each catalog bindings provider cs) _ g in
        let none_missing : missing ≡ [] = cc in
        let made_of : (c, binding) ∷ rest ≡ resolved = cc in
        rw (← made_of) (
          Covers-cons c cs binding rest
            (record { of_capability = capability; found = e; valid = valid })
            (resolve_each-Covers cs rest (made ∙ ap (λ m. ok (rest, m)) none_missing)))
  ]

  resolve_each-ok :
      (cs : List CapabilityId)
      → ((c : CapabilityId) → mem c cs ≡ true → (b : ProviderCapabilityBinding) × IsBound c b)
      → (resolved : Dict ProviderCapabilityBinding) × (resolve_each catalog bindings provider cs
          ≡ ok (resolved, []))
  unfolding resolve_each
  resolve_each-ok [] h = ([], refl)
  resolve_each-ok (c ∷ cs) h =
      let (b, bound) = h c (ground arith) in
      let (rest, made) = resolve_each-ok cs λ d m. h d (ground (arith, m)) in
      ((c, b) ∷ rest, rw (resolve_each, bound.found, bound.valid, made) refl)

  -- The resolution succeeds exactly when every required capability is in the catalog and has a
  -- valid binding, and then it gives that binding for each required capability and none for any
  -- other: no capability is skipped in silence.
  pub resolve_bindings_lem :
      (required : AuthoritySet)
      → (((c : CapabilityId)
            → mem c required ≡ true
            → (b : ProviderCapabilityBinding) × IsBound c b)
          → (resolved : Dict ProviderCapabilityBinding) × (resolve_bindings catalog required
                bindings provider
              ≡ ok resolved))
        × ((resolved : Dict ProviderCapabilityBinding)
            → resolve_bindings catalog required bindings provider ≡ ok resolved
            → (c : CapabilityId)
            → (mem c required ≡ true
                → (b : ProviderCapabilityBinding) × IsBound c b × (lookup c resolved ≡ some b))
              × (mem c required ≡ false → lookup c resolved ≡ none))
  unfolding resolve_bindings is_empty
  resolve_bindings_lem required = (
    λ bound.
        let (resolved, made) =
          resolve_each-ok (sorted required) λ c m. bound c (rw (← mem-sorted c required) m) in
        (resolved, rw made refl),
    λ resolved h c.
        let ((rest, missing), made, g) =
          >>=-eq-ok (resolve_each catalog bindings provider (sorted required)) _ h in
        let (complete, k) =
          raise_if_then-eq-ok (not (is_empty missing)) capability_resolution_error (ok rest) g in
        let same : rest ≡ resolved = cc in
        rw (← mem-sorted c required, ← same)
          (resolve_each-Covers (sorted required) rest
            (made ∙ ap (λ m. ok (rest, m)) (is_empty-nil missing complete)) c),
  )
