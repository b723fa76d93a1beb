-- ===== src/Analysis/Findings/Gating.antt =====
-- No finding is built with a type of its own on insufficient confidence.
use chainbreak.Common.{ℕ, refl, sym, ◌≡◌, ◌↔◌, ◌≢◌, arith}
use chainbreak.Core.Enums.{FindingType, Confidence}
use chainbreak.Analysis.Findings.{Payload, Candidate, confidence_of, final_type, build}

final_type_gated :
    (confidence : Confidence) (type : FindingType)
    → type ≢ FindingType.inconclusive
    → ((final_type confidence type ≡ FindingType.inconclusive)
        ↔ (confidence ≡ Confidence.insufficient))
      × ((final_type confidence type ≡ type) ↔ (confidence ≢ Confidence.insufficient))
unfolding final_type
final_type_gated Confidence.insufficient type named =
    ((λ _. refl, λ _. refl), (λ e _. named (sym e), λ n. absurd (n refl)))
final_type_gated confidence type named =
    ((λ e. absurd (named e), λ e. ground arith), (λ _ e. ground arith, λ _. refl))

-- A candidate whose rule names a type other than INCONCLUSIVE keeps its type exactly when its
-- confidence is not INSUFFICIENT, and is INCONCLUSIVE exactly when it is.
build_gated :
    (digest : Payload → ℕ) (c : Candidate)
    → c.type ≢ FindingType.inconclusive
    → (((build digest c).type ≡ FindingType.inconclusive)
        ↔ ((build digest c).confidence ≡ Confidence.insufficient))
      × (((build digest c).type ≡ c.type) ↔ ((build digest c).confidence ≢ Confidence.insufficient))
unfolding build
build_gated digest c named = final_type_gated (confidence_of c) c.type named
