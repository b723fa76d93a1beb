-- ===== src/Analysis/Rules/Reports.antt =====
-- What a finding of the rules about a node says.
use chainbreak.Common.{
  ℕ, ◌≡◌, ◌≢◌, refl, ◌∙◌, ◌⊎◌, inl, inr, Bool, false, not, ◌&&◌, ◌||◌, Option, some, mem, ◌==◌,
  Bool-cases,
}
use chainbreak.Common.Dict.{Dict}
use chainbreak.Core.Authority.{CapabilityId, is_empty}
use chainbreak.Core.Authority.Algebra.{mem-diff}
use chainbreak.Core.Authority.Canonical.{mem-sorted}
use chainbreak.Core.Enums.{Confidence, DriftClass, FindingType}
use chainbreak.Core.Models.{
  IdentityNode, ObservedAuthority, unexpected_gain, unexpected_loss, diverged,
}
use chainbreak.Analysis.Cells.{ProbeCellResult}
use chainbreak.Analysis.Findings.{Finding, Candidate, Payload, build, final_type, confidence_of}
use chainbreak.Analysis.Rules.{
  rule_expected_behavior, rule_authority_expansion, rule_authority_narrowing, rule_delegation_drift,
  is_origin, is_quiet,
}

-- A finding of a type, or an inconclusive one where the evidence does not suffice.
abbrev pub HasType : FindingType → Finding → Type 0
HasType type f =
    ((f.confidence ≡ Confidence.insufficient) × (f.type ≡ FindingType.inconclusive))
    ⊎ ((f.confidence ≢ Confidence.insufficient) × (f.type ≡ type))

final_type-cases :
    (k : Confidence) (type : FindingType)
    → ((k ≡ Confidence.insufficient) × (final_type k type ≡ FindingType.inconclusive))
      ⊎ ((k ≢ Confidence.insufficient) × (final_type k type ≡ type))
unfolding final_type
final_type-cases Confidence.insufficient type = inl (refl, refl)
final_type-cases Confidence.low type = inr (λ e. cc, refl)
final_type-cases Confidence.medium type = inr (λ e. cc, refl)
final_type-cases Confidence.high type = inr (λ e. cc, refl)

build-HasType : (digest : Payload → ℕ) (c : Candidate) → HasType c.type (build digest c)
unfolding build
build-HasType digest c = final_type-cases (confidence_of c) c.type

-- What a rule gives, if anything, is a finding of its type about the node, with that gain and that
-- loss.
abbrev pub Reports :
    IdentityNode → FindingType → (gain loss : CapabilityId → Bool) → Option Finding → Type 0
Reports n type gain loss o =
    (f : Finding)
    → o ≡ some f
    → (f.identity_id ≡ some n.identity_id)
      × ((c : CapabilityId) → mem c f.delta.unexpected_gain ≡ gain c)
      × ((c : CapabilityId) → mem c f.delta.unexpected_loss ≡ loss c)
      × HasType type f

built-Reports :
    (digest : Payload → ℕ) (c : Candidate) (n : IdentityNode) (gain loss : CapabilityId → Bool)
    → c.identity_id ≡ some n.identity_id
    → ((x : CapabilityId) → mem x c.delta.unexpected_gain ≡ gain x)
    → ((x : CapabilityId) → mem x c.delta.unexpected_loss ≡ loss x)
    → Reports n c.type gain loss (some (build digest c))
unfolding build
built-Reports digest c n gain loss about gains losses f given =
    let same : build digest c ≡ f = cc in rw (← same) (about, gains, losses, build-HasType digest c)

pub gained :
    (n : IdentityNode) (o : ObservedAuthority) (c : CapabilityId)
    → n.observed_authority ≡ some o
    → mem c (unexpected_gain n)
      ≡ (mem c o.capabilities && not (mem c n.expected_authority.capabilities))
unfolding unexpected_gain
gained n o c h =
    rw (unexpected_gain, h) (mem-diff c o.capabilities n.expected_authority.capabilities)

pub lost :
    (n : IdentityNode) (o : ObservedAuthority) (c : CapabilityId)
    → n.observed_authority ≡ some o
    → mem c (unexpected_loss n)
      ≡ (mem c n.expected_authority.capabilities && not (mem c o.capabilities))
unfolding unexpected_loss
lost n o c h = rw (unexpected_loss, h) (mem-diff c n.expected_authority.capabilities o.capabilities)

module _ (digest : Payload → ℕ) (n : IdentityNode) (o : ObservedAuthority)
    (cells : Dict ProbeCellResult) (measured : n.observed_authority ≡ some o) where
  pub rule_expected_behavior-Reports :
      Reports n FindingType.expected_behavior
        (λ c. false)
        (λ c. false)
        (rule_expected_behavior digest n cells)
  unfolding rule_expected_behavior
  rule_expected_behavior-Reports f given = elim (Bool-cases (diverged n)) [
    | inl e ↦ let given' = rw (rule_expected_behavior, measured, e) at given in cc
    | inr e ↦
        built-Reports digest _ n _ _ refl (λ c. refl) (λ c. refl) f
          (rw (rule_expected_behavior, measured, e) at given)
  ]

  pub rule_authority_narrowing-Reports :
      Reports n FindingType.authority_narrowing
        (λ c. false)
        (λ c. mem c n.expected_authority.capabilities && not (mem c o.capabilities))
        (rule_authority_narrowing digest n cells)
  unfolding rule_authority_narrowing
  rule_authority_narrowing-Reports f given = elim (Bool-cases (is_empty (unexpected_loss n))) [
    | inl e ↦ let given' = rw (rule_authority_narrowing, e) at given in cc
    | inr e ↦
        built-Reports digest _ n _ _ refl (λ c. refl)
          (λ c. mem-sorted c (unexpected_loss n) ∙ lost n o c measured) f
          (rw (rule_authority_narrowing, e, measured) at given)
  ]

  pub rule_authority_expansion-Reports :
      (drift : Option DriftClass)
      → Reports n FindingType.authority_expansion
          (λ c. mem c o.capabilities && not (mem c n.expected_authority.capabilities))
          (λ c. false)
          (rule_authority_expansion digest n drift cells)
  unfolding rule_authority_expansion
  rule_authority_expansion-Reports drift f given =
      elim (Bool-cases (is_empty (unexpected_gain n) || not (is_origin drift))) [
        | inl e ↦ let given' = rw (rule_authority_expansion, e) at given in cc
        | inr e ↦
            built-Reports digest _ n _ _ refl
              (λ c. mem-sorted c (unexpected_gain n) ∙ gained n o c measured) (λ c. refl) f
              (rw (rule_authority_expansion, e, measured) at given)
      ]

  pub rule_delegation_drift-Reports :
      (drift : Option DriftClass)
      → Reports n FindingType.delegation_drift
          (λ c. mem c o.capabilities && not (mem c n.expected_authority.capabilities))
          (λ c. false)
          (rule_delegation_drift digest n drift cells)
  unfolding rule_delegation_drift
  rule_delegation_drift-Reports drift f given =
      elim (Bool-cases (is_empty (unexpected_gain n) || n.hop_index == 0 || is_quiet drift)) [
        | inl e ↦ let given' = rw (rule_delegation_drift, e) at given in cc
        | inr e ↦
            built-Reports digest _ n _ _ refl
              (λ c. mem-sorted c (unexpected_gain n) ∙ gained n o c measured) (λ c. refl) f
              (rw (rule_delegation_drift, e, measured) at given)
      ]
