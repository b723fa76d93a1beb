-- ===== src/Analysis/Rules/Tests.antt =====
-- The rules about a node on the last identity of a chain.
use chainbreak.Common.{
  ◌↔◌, Bool, mem, none, true, ℕ, ◌≡◌, refl, false, not, ◌&&◌, ◌||◌, [], ◌∷◌, some, length, is_some,
}
use chainbreak.Core.Authority.{CapabilityId}
use chainbreak.Core.Graph.Tests.{node_at}
use chainbreak.Core.Enums.{FindingType}
use chainbreak.Core.Models.{ObservedAuthority, IdentityNode}
use chainbreak.Analysis.Findings.{Payload}
use chainbreak.Analysis.Rules.{
  rule_expected_behavior, rule_authority_expansion, rule_authority_narrowing, rule_delegation_drift,
}
use chainbreak.Analysis.Rules.Reports.{Reports}
use chainbreak.Analysis.Rules.Nodes.{rules_complete}
use chainbreak.Graph.Divergence.{classify_drift}

abbrev digest : Payload → ℕ
digest p = length p.observation_refs

abbrev leaf : IdentityNode
leaf = node_at 3 false 2 (some 2) (10 ∷ []) (some (10 ∷ 12 ∷ []))

abbrev parent : IdentityNode
parent = node_at 2 false 1 (some 1) (10 ∷ 11 ∷ []) (some (11 ∷ 10 ∷ []))

rules_complete_example :
    let drift = classify_drift leaf (some parent) in
    (leaf.observed_authority ≡ none
      → (rule_expected_behavior digest leaf [] ≡ none)
        × (rule_authority_narrowing digest leaf [] ≡ none)
        × (rule_authority_expansion digest leaf drift [] ≡ none)
        × (rule_delegation_drift digest leaf drift [] ≡ none))
    × ((o : ObservedAuthority)
        → leaf.observed_authority ≡ some o
        → let held = o.capabilities in
          let expected = leaf.expected_authority.capabilities in
          let extra : CapabilityId → Bool = λ c. mem c held && not (mem c expected) in
          let missing : CapabilityId → Bool = λ c. mem c expected && not (mem c held) in
          ((is_some (rule_expected_behavior digest leaf []) ≡ true)
            ↔ ((c : CapabilityId) → mem c held ≡ mem c expected))
          × ((is_some (rule_authority_narrowing digest leaf []) ≡ true)
              ↔ ((c : CapabilityId) × (missing c ≡ true)))
          × (((is_some (rule_authority_expansion digest leaf drift [])
                  || is_some (rule_delegation_drift digest leaf drift []))
                ≡ true)
              ↔ ((c : CapabilityId) × (extra c ≡ true)))
          × Reports leaf FindingType.expected_behavior
              (λ c. false)
              (λ c. false)
              (rule_expected_behavior digest leaf [])
          × Reports leaf FindingType.authority_narrowing
              (λ c. false)
              missing
              (rule_authority_narrowing digest leaf [])
          × Reports leaf FindingType.authority_expansion extra
              (λ c. false)
              (rule_authority_expansion digest leaf drift [])
          × Reports leaf FindingType.delegation_drift extra
              (λ c. false)
              (rule_delegation_drift digest leaf drift []))
rules_complete_example = rules_complete digest leaf (some parent) [] refl
