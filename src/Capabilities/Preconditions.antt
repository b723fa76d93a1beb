-- ===== src/Capabilities/Preconditions.antt =====
-- src/chainbreak/capabilities/preconditions.py: the verifiers of named preconditions. The argument
-- of a verifier is the reference of the provisioning identity.
use chainbreak.Common.{ℕ, Bool, List, [], ◌∷◌, is_some}
use chainbreak.Common.Dict.{Dict, lookup, insert}
use chainbreak.Core.Errors.{Result, ok, raise_if, or_raise, binding_validation_error, ◌>>=◌, ◌>>◌}

-- `PreconditionRegistry`, over a type of references.
abbrev pub PreconditionRegistry : Type 0 → Type 0
PreconditionRegistry Ref = Dict (Ref → Bool)

module _ {Ref : Type 0} where
  unfoldable pub register :
      PreconditionRegistry Ref → ℕ → (Ref → Bool) → Result (PreconditionRegistry Ref)
  register registry name verifier = do
    raise_if (is_some (lookup name registry)) binding_validation_error
    ok (insert name verifier registry)

  unfoldable pub resolve : PreconditionRegistry Ref → ℕ → Result (Ref → Bool)
  resolve registry name = or_raise (lookup name registry) binding_validation_error

  unfoldable pub verify : PreconditionRegistry Ref → ℕ → Ref → Result Bool
  unfolding resolve
  verify registry name provisioning_identity = do
    verifier ← resolve registry name
    ok (verifier provisioning_identity)

  unfoldable pub verify_all : PreconditionRegistry Ref → List ℕ → Ref → Result (Dict Bool)
  unfolding verify
  verify_all registry [] provisioning_identity = ok []
  verify_all registry (name ∷ names) provisioning_identity = do
    holds ← verify registry name provisioning_identity
    rest ← verify_all registry names provisioning_identity
    ok (insert name holds rest)
