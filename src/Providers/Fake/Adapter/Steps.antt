-- ===== src/Providers/Fake/Adapter/Steps.antt =====
-- The operations of the simulated provider as steps of its state, and the states they reach.
use chainbreak.Common.{ℕ, ◌≤◌, ◌<◌, ◌≡◌, Bool, List, Option}
use chainbreak.Common.Int.{ℤ}
use chainbreak.Common.Text.{Text}
use chainbreak.Core.Authority.{AuthoritySet}
use chainbreak.Core.Errors.{ok}
use chainbreak.Core.Models.{IdentityId}
use chainbreak.Providers.Fake.Adapter.{
  FakeProviderAdapter, advance_clock, record_scratch_marker, enable_authority_caching,
  register_identity, restore_declared_policy, restore_trust_policy, PolicyStateSnapshot,
  snapshot_policy_state,
}
use chainbreak.Providers.Fake.Adapter.Delegate.{DelegationRequest, delegate}
use chainbreak.Providers.Fake.Adapter.Mutate.{
  PolicyMutation, MutationReceipt, apply_policy_mutation,
}
use chainbreak.Providers.Fake.Adapter.Probe.{ProbeRequest, probe}

-- The draws of one schedule, each between 1 and its bound.
abbrev pub DrawsInRange : (ℕ → ℕ → ℕ) → Type 0
DrawsInRange randint = (i top : ℕ) → 0 < top → (1 ≤ randint i top) × (randint i top ≤ top)

-- One call, with whatever it is given and whatever is drawn for it; a call that raises before it changes anything is no step.
pub data Step (a : FakeProviderAdapter) : FakeProviderAdapter → Type 0 where
  registers :
      (i : IdentityId) (allow : AuthoritySet) (binding : Option ℕ)
      → Step a (register_identity a i allow binding).1
  delegates : (r : DelegationRequest) → Step a (delegate a r).1
  probes : (fault : Bool) (r : ProbeRequest) → Step a (probe a fault r).1
  mutates :
      (jitter : ℤ) (randint : ℕ → ℕ → ℕ) (m : PolicyMutation) (receipt : MutationReceipt)
      (after : FakeProviderAdapter)
      → DrawsInRange randint
      → apply_policy_mutation jitter randint a m ≡ ok (receipt, after)
      → Step a after
  advances :
      (milliseconds : ℤ) (after : FakeProviderAdapter)
      → advance_clock a milliseconds ≡ ok after
      → Step a after
  caches : (i : IdentityId) → Step a (enable_authority_caching a i)
  marks : (marker_id : Text) → Step a (record_scratch_marker a marker_id)
  restores :
      (i : IdentityId) (declared : AuthoritySet) → Step a (restore_declared_policy a i declared)
  snapshots :
      (digest : List ℕ → List ℕ → ℕ) (ref : Text) (taken : PolicyStateSnapshot)
      (after : FakeProviderAdapter)
      → snapshot_policy_state digest a ref ≡ ok (taken, after)
      → Step a after
  restores_trust : (i : IdentityId) → Step a (restore_trust_policy a i)

pub data Reach (a : FakeProviderAdapter) : FakeProviderAdapter → Type 0 where
  start : Reach a a
  then_step : (b c : FakeProviderAdapter) → Reach a b → Step b c → Reach a c
