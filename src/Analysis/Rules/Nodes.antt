-- ===== src/Analysis/Rules/Nodes.antt =====
-- Which of the rules about a node fire.
use chainbreak.Common.{
  ◌↔◌, sym, refl, ◌∙◌, Bool, mem, ==_refl, ℕ, ◌≡◌, true, false, not, ◌&&◌, ◌||◌, [], ◌∷◌, Option,
  none, some, arith, ◌==◌, is_none, is_some,
}
use chainbreak.Common.Dict.{Dict}
use chainbreak.Core.Authority.Algebra.{is_empty_iff}
use chainbreak.Analysis.Rules.Reports.{
  Reports, gained, lost, rule_expected_behavior-Reports, rule_authority_narrowing-Reports,
  rule_authority_expansion-Reports, rule_delegation_drift-Reports,
}
use chainbreak.Core.Authority.{CapabilityId, AuthoritySet, is_empty, is_subset_of}
use chainbreak.Core.Enums.{DriftClass, FindingType}
use chainbreak.Core.Models.{
  ObservedAuthority, IdentityNode, unexpected_gain, unexpected_loss, diverged,
}
use chainbreak.Analysis.Cells.{ProbeCellResult}
use chainbreak.Analysis.Findings.{Payload}
use chainbreak.Analysis.Rules.{
  rule_expected_behavior, rule_authority_expansion, rule_authority_narrowing, rule_delegation_drift,
  is_origin, is_quiet,
}
use chainbreak.Graph.Divergence.{classify_gains, classify_drift}

gain_measured :
    (n : IdentityNode) → is_empty (unexpected_gain n) ≡ false → is_some n.observed_authority ≡ true
unfolding unexpected_gain is_empty
gain_measured n h = ground (arith, h)

loss_measured :
    (n : IdentityNode) → is_empty (unexpected_loss n) ≡ false → is_some n.observed_authority ≡ true
unfolding unexpected_loss is_empty
loss_measured n h = ground (arith, h)

-- A node that gained has a drift class, and not CORRECTED.
gain_drifts :
    (gain parent : AuthoritySet)
    → is_empty gain ≡ false
    → is_quiet (classify_gains gain parent) ≡ false
unfolding classify_gains is_quiet
gain_drifts gain parent h = ground (arith, h)

-- What a node without a parent gained originated there.
gain_originates :
    (gain : AuthoritySet) → is_empty gain ≡ false → is_origin (classify_gains gain []) ≡ true
unfolding classify_gains is_origin is_empty is_subset_of
gain_originates [] h = cc
gain_originates (c ∷ gain) h = ground arith

expected_fires :
    (digest : Payload → ℕ) (n : IdentityNode) (cells : Dict ProbeCellResult)
    → is_some (rule_expected_behavior digest n cells)
      ≡ (is_some n.observed_authority && not (diverged n))
unfolding rule_expected_behavior
expected_fires digest n cells = ground arith

narrowing_fires :
    (digest : Payload → ℕ) (n : IdentityNode) (cells : Dict ProbeCellResult)
    → is_some (rule_authority_narrowing digest n cells) ≡ not (is_empty (unexpected_loss n))
unfolding rule_authority_narrowing
narrowing_fires digest n cells = ground (arith, loss_measured n)

expansion_fires :
    (digest : Payload → ℕ) (n : IdentityNode) (drift : Option DriftClass)
    (cells : Dict ProbeCellResult)
    → is_some (rule_authority_expansion digest n drift cells)
      ≡ (not (is_empty (unexpected_gain n)) && is_origin drift)
unfolding rule_authority_expansion
expansion_fires digest n drift cells = ground (arith, gain_measured n)

drift_fires :
    (digest : Payload → ℕ) (n : IdentityNode) (drift : Option DriftClass)
    (cells : Dict ProbeCellResult)
    → is_some (rule_delegation_drift digest n drift cells)
      ≡ (not (is_empty (unexpected_gain n)) && not (n.hop_index == 0) && not (is_quiet drift))
unfolding rule_delegation_drift
drift_fires digest n drift cells = ground (arith, gain_measured n)

gain_reported :
    (digest : Payload → ℕ) (n : IdentityNode) (parent : Option IdentityNode)
    (cells : Dict ProbeCellResult)
    → (n.hop_index == 0) ≡ is_none parent
    → (is_some (rule_authority_expansion digest n (classify_drift n parent) cells)
        || is_some (rule_delegation_drift digest n (classify_drift n parent) cells))
      ≡ not (is_empty (unexpected_gain n))
unfolding classify_drift
gain_reported digest n none cells h = ground (
  arith,
  expansion_fires digest n (classify_drift n none) cells,
  drift_fires digest n (classify_drift n none) cells,
  gain_originates (unexpected_gain n),
  h,
)
gain_reported digest n (some p) cells h = ground (
  arith,
  expansion_fires digest n (classify_drift n (some p)) cells,
  drift_fires digest n (classify_drift n (some p)) cells,
  gain_drifts (unexpected_gain n) (unexpected_gain p),
  h,
)

nonempty_mem : (s : AuthoritySet) → is_empty s ≡ false → (c : CapabilityId) × (mem c s ≡ true)
unfolding is_empty
nonempty_mem [] h = cc
nonempty_mem (c ∷ s) h = (c, ground (arith, ==_refl c))

mem-nonempty : (s : AuthoritySet) (c : CapabilityId) → mem c s ≡ true → is_empty s ≡ false
unfolding is_empty
mem-nonempty [] c h = cc
mem-nonempty (d ∷ s) c h = refl

nonempty_iff :
    (fires : Bool) (s : AuthoritySet) (p : CapabilityId → Bool)
    → fires ≡ not (is_empty s)
    → ((c : CapabilityId) → mem c s ≡ p c)
    → (fires ≡ true) ↔ ((c : CapabilityId) × (p c ≡ true))
nonempty_iff fires s p e is = (
  λ h. let (c, m) = nonempty_mem s (ground (arith, e, h)) in (c, sym (is c) ∙ m),
  λ (c, m). let some_there = mem-nonempty s c (is c ∙ m) in ground (arith, e, some_there),
)

unmeasured_silent :
    (digest : Payload → ℕ) (n : IdentityNode) (drift : Option DriftClass)
    (cells : Dict ProbeCellResult)
    → n.observed_authority ≡ none
    → (rule_expected_behavior digest n cells ≡ none)
      × (rule_authority_narrowing digest n cells ≡ none)
      × (rule_authority_expansion digest n drift cells ≡ none)
      × (rule_delegation_drift digest n drift cells ≡ none)
unfolding rule_expected_behavior rule_authority_narrowing rule_authority_expansion
    rule_delegation_drift unexpected_gain unexpected_loss is_empty
unmeasured_silent digest n drift cells unmeasured = (
  rw (rule_expected_behavior, unmeasured) refl,
  rw (rule_authority_narrowing, unexpected_loss, unmeasured) refl,
  rw (rule_authority_expansion, unexpected_gain, unmeasured) refl,
  rw (rule_delegation_drift, unexpected_gain, unmeasured) refl,
)

-- The rules about a measured node, with the drift class that its parent gives it, where a node
-- without a parent is at hop zero and every other is not. EXPECTED_BEHAVIOR is found exactly when it
-- holds just what was expected; AUTHORITY_NARROWING exactly when it does not hold some expected
-- capability; AUTHORITY_EXPANSION or DELEGATION_DRIFT exactly when it holds some unexpected one: no
-- divergence is passed over in silence. Every finding is about the node and lists exactly the
-- capabilities gained or lost, and it has its rule's type, or is INCONCLUSIVE where its confidence
-- is INSUFFICIENT. Nothing is found of a node that was not measured.
pub rules_complete :
    (digest : Payload → ℕ) (n : IdentityNode) (parent : Option IdentityNode)
    (cells : Dict ProbeCellResult)
    → (n.hop_index == 0) ≡ is_none parent
    → let drift = classify_drift n parent in
      (n.observed_authority ≡ none
        → (rule_expected_behavior digest n cells ≡ none)
          × (rule_authority_narrowing digest n cells ≡ none)
          × (rule_authority_expansion digest n drift cells ≡ none)
          × (rule_delegation_drift digest n drift cells ≡ none))
      × ((o : ObservedAuthority)
          → n.observed_authority ≡ some o
          → let held = o.capabilities in
            let expected = n.expected_authority.capabilities in
            let extra : CapabilityId → Bool = λ c. mem c held && not (mem c expected) in
            let missing : CapabilityId → Bool = λ c. mem c expected && not (mem c held) in
            ((is_some (rule_expected_behavior digest n cells) ≡ true)
              ↔ ((c : CapabilityId) → mem c held ≡ mem c expected))
            × ((is_some (rule_authority_narrowing digest n cells) ≡ true)
                ↔ ((c : CapabilityId) × (missing c ≡ true)))
            × (((is_some (rule_authority_expansion digest n drift cells)
                    || is_some (rule_delegation_drift digest n drift cells))
                  ≡ true)
                ↔ ((c : CapabilityId) × (extra c ≡ true)))
            × Reports n FindingType.expected_behavior
                (λ c. false)
                (λ c. false)
                (rule_expected_behavior digest n cells)
            × Reports n FindingType.authority_narrowing
                (λ c. false)
                missing
                (rule_authority_narrowing digest n cells)
            × Reports n FindingType.authority_expansion extra
                (λ c. false)
                (rule_authority_expansion digest n drift cells)
            × Reports n FindingType.delegation_drift extra
                (λ c. false)
                (rule_delegation_drift digest n drift cells))
unfolding diverged
rules_complete digest n parent cells h = (
  λ unmeasured. unmeasured_silent digest n (classify_drift n parent) cells unmeasured,
  λ o measured.
      let drift = classify_drift n parent in
      let gain = unexpected_gain n in
      let loss = unexpected_loss n in
      let fires = expected_fires digest n cells in
      (
        (
          λ yes c. ground (
            arith,
            gained n o c measured,
            lost n o c measured,
            (is_empty_iff gain).0 (ground (arith, fires, yes)) c,
            (is_empty_iff loss).0 (ground (arith, fires, yes)) c,
          ),
          λ same.
              let no_gain : is_empty gain ≡ true =
                (is_empty_iff gain).1 (λ c. ground (arith, gained n o c measured, same c)) in
              let no_loss : is_empty loss ≡ true =
                (is_empty_iff loss).1 (λ c. ground (arith, lost n o c measured, same c)) in
              let is_measured : is_some n.observed_authority ≡ true = rw measured refl in
              ground (arith, fires, no_gain, no_loss, is_measured),
        ),
        nonempty_iff (is_some (rule_authority_narrowing digest n cells)) loss _
            (narrowing_fires digest n cells) (λ c. lost n o c measured),
        nonempty_iff
            (is_some (rule_authority_expansion digest n drift cells)
              || is_some (rule_delegation_drift digest n drift cells))
            gain _ (gain_reported digest n parent cells h) (λ c. gained n o c measured),
        rule_expected_behavior-Reports digest n o cells measured,
        rule_authority_narrowing-Reports digest n o cells measured,
        rule_authority_expansion-Reports digest n o cells measured drift,
        rule_delegation_drift-Reports digest n o cells measured drift,
      ),
)
