-- ===== src/Analysis/Detector/Check.antt =====
-- A negative control passes exactly when one of the findings satisfies all of its conditions.
use chainbreak.Common.{
  ℕ, ◌≤◌, ◌≡◌, ◌↔◌, ◌⊎◌, inl, inr, refl, Bool, true, false, not, ◌&&◌, List, [], ◌∷◌, Option, none,
  some, arith, leb, ◌==◌, if◌then◌else◌, In, here, there, mem, any, Bool-cases,
}
use chainbreak.Core.Authority.{AuthoritySet, is_empty}
use chainbreak.Core.Authority.Algebra.{is_subset_of_iff, is_empty_iff}
use chainbreak.Core.Enums.{rank}
use chainbreak.Core.Enums.Equality.{same_finding, same_finding_iff}
use chainbreak.Analysis.Findings.{Finding}
use chainbreak.Analysis.Detector.{
  CompiledExpectedFinding, DetectorResult, mentioned, capabilities_satisfied,
  check_negative_control,
}

-- The finding that the control asks for: its type, its identity where one is named, all of its
-- capabilities where the finding mentions any, and at least its confidence.
abbrev pub Satisfies : CompiledExpectedFinding → Finding → Type 0
Satisfies expected finding =
    (finding.type ≡ expected.type)
    × ((expected.identity_id ≡ none) ⊎ (expected.identity_id ≡ finding.identity_id))
    × (((c : ℕ) → mem c expected.capabilities ≡ true → mem c (mentioned finding) ≡ true)
        ⊎ ((c : ℕ) → mem c (mentioned finding) ≡ false))
    × (rank expected.min_confidence ≤ rank finding.confidence)

names : CompiledExpectedFinding → Finding → Bool
names expected finding = elim expected.identity_id [
  | none ↦ true
  | some identity ↦ elim finding.identity_id [ none ↦ false | some i ↦ i == identity ]
]

satisfies : CompiledExpectedFinding → Finding → Bool
unfolding names
satisfies expected finding =
    same_finding finding.type expected.type
    && names expected finding
    && capabilities_satisfied finding expected.capabilities
    && leb (rank expected.min_confidence) (rank finding.confidence)

names_iff :
    (expected : CompiledExpectedFinding) (finding : Finding)
    → (names expected finding ≡ true)
      ↔ ((expected.identity_id ≡ none) ⊎ (expected.identity_id ≡ finding.identity_id))
unfolding names
names_iff expected finding = by_options expected.identity_id finding.identity_id
  where
    by_options :
        (e f : Option ℕ)
        → ((elim e [
          | none ↦ true
          | some identity ↦ elim f [ none ↦ false | some i ↦ i == identity ]
        ])
            ≡ true)
          ↔ ((e ≡ none) ⊎ (e ≡ f))
    by_options none f = (λ _. inl refl, λ _. refl)
    by_options (some e) none = (λ h. cc, λ h. elim h [ inl g ↦ cc | inr g ↦ cc ])
    by_options (some e) (some f) =
        (λ h. inr (ground (arith, h)), λ h. elim h [ inl g ↦ cc | inr g ↦ ground (arith, g) ])

capabilities_satisfied_iff :
    (finding : Finding) (expected : AuthoritySet)
    → (capabilities_satisfied finding expected ≡ true) ↔ (
        ((c : ℕ) → mem c expected ≡ true → mem c (mentioned finding) ≡ true)
        ⊎ ((c : ℕ) → mem c (mentioned finding) ≡ false))
unfolding capabilities_satisfied
capabilities_satisfied_iff finding expected = elim (Bool-cases (is_empty expected)) [
  | inl e ↦ (λ _. inl (λ c m. ground (arith, m, (is_empty_iff expected).0 e c)), λ _. rw e refl)
  | inr e ↦ elim (Bool-cases (is_empty (mentioned finding))) [
    | inl f ↦ (λ _. inr ((is_empty_iff (mentioned finding)).0 f), λ _. rw (e, f) refl)
    | inr f ↦ (
      λ h. inl ((is_subset_of_iff expected (mentioned finding)).0 (rw (e, f) at h)),
      λ h.
          rw (e, f)
            (elim h [
              | inl sub ↦ (is_subset_of_iff expected (mentioned finding)).1 sub
              | inr none_there ↦
                  absurd (ground (arith, f, (is_empty_iff (mentioned finding)).1 none_there))
            ]),
    )
  ]
]

satisfies_iff :
    (expected : CompiledExpectedFinding) (finding : Finding)
    → (satisfies expected finding ≡ true) ↔ Satisfies expected finding
unfolding satisfies
satisfies_iff expected finding = (
  λ h. (
    (same_finding_iff finding.type expected.type).0 (ground arith),
    (names_iff expected finding).0 (ground arith),
    (capabilities_satisfied_iff finding expected.capabilities).0 (ground arith),
    ground arith,
  ),
  λ (a, b, c, d). ground (
    arith,
    (same_finding_iff finding.type expected.type).1 a,
    (names_iff expected finding).1 b,
    (capabilities_satisfied_iff finding expected.capabilities).1 c,
    d,
  ),
)

identity_differs :
    (e f : Option ℕ)
    → (elim e [
      | none ↦ false
      | some identity ↦ not (elim f [ none ↦ false | some i ↦ i == identity ])
    ])
      ≡ not (elim e [
        | none ↦ true
        | some identity ↦ elim f [ none ↦ false | some i ↦ i == identity ]
      ])
identity_differs none f = refl
identity_differs (some e) f = refl

checked :
    (expected : CompiledExpectedFinding) (findings : List Finding) (id : ℕ)
    → (check_negative_control expected findings id).result ≡ (
        if any (satisfies expected) findings
        then DetectorResult.detector_ok
        else DetectorResult.detector_failure)
unfolding check_negative_control satisfies names
checked expected [] id = refl
checked expected (finding ∷ findings) id =
    ground (
      arith,
      checked expected findings id,
      identity_differs expected.identity_id finding.identity_id,
    )

In-any : {A : Type 0} (p : A → Bool) (xs : List A) {x : A} → In x xs → p x ≡ true → any p xs ≡ true
In-any p [] m h = elim m [ ]
In-any p (y ∷ xs) (here e) h = ground (arith, rw e at h)
In-any p (y ∷ xs) (there m) h = ground (arith, In-any p xs m h)

any-found :
    {A : Type 0} (p : A → Bool) (xs : List A) → any p xs ≡ true → (x : A) × In x xs × (p x ≡ true)
any-found p [] h = cc
any-found p (y ∷ xs) h = elim (Bool-cases (p y)) [
  | inl e ↦ (y, here refl, e)
  | inr e ↦ let (x, m, f) = any-found p xs (rw e at h) in (x, there m, f)
]

-- The check passes exactly when a finding of the run satisfies all of the control's conditions.
pub check_negative_control_iff :
    (expected : CompiledExpectedFinding) (findings : List Finding) (id : ℕ)
    → ((check_negative_control expected findings id).result ≡ DetectorResult.detector_ok)
      ↔ ((finding : Finding) × In finding findings × Satisfies expected finding)
check_negative_control_iff expected findings id = (
  λ h.
      let (f, m, s) =
        any-found (satisfies expected) findings (ground (arith, h, checked expected findings id)) in
      (f, m, (satisfies_iff expected f).0 s),
  λ (f, m, s). ground (
    arith,
    checked expected findings id,
    In-any (satisfies expected) findings m ((satisfies_iff expected f).1 s),
  ),
)
