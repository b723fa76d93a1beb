-- ===== src/Scenarios/Universe/Named.antt =====
-- What the default probe universe holds.
use chainbreak.Common.{
  ℕ, ◌≡◌, ◌↔◌, refl, sym, ap, ◌∙◌, ◌⊎◌, inl, inr, true, List, [], ◌∷◌, ◌++◌, Option, none, some,
  arith, ==_iff, ==_refl, mem, In, here, there, Bool-cases,
}
use mathlib.Core.Path.{subst}
use chainbreak.Core.Authority.{AuthoritySet, CapabilityId, union}
use chainbreak.Core.Authority.Algebra.{mem-append}
use chainbreak.Scenarios.Spec.{
  IdentitySpec, DelegationSpec, PhaseSpec, MutationSpec, TaskSpec, TaskStepSpec, ExpectationSpec,
  ScenarioSpec,
}
use chainbreak.Scenarios.Universe.{
  gather, or_empty, singleton_of, identity_names, phase_mentions, task_mentions,
  expectation_mentions, named_capabilities,
}

module _ {ℓ} {A : Type ℓ} (f : A → AuthoritySet) where
  gather-In :
      (c : CapabilityId) (xs : List A)
      → mem c (gather f xs) ≡ true
      → (x : A) × In x xs × (mem c (f x) ≡ true)
  gather-In c [] h = cc
  gather-In c (x ∷ xs) h = elim (Bool-cases (mem c (f x))) [
    | inl here_it_is ↦ (x, here refl, here_it_is)
    | inr other ↦
        let (y, m, k) =
          gather-In c xs (ground (arith, mem-append c (f x) (gather f xs), h, other)) in
        (y, there m, k)
  ]

  In-gather :
      (c : CapabilityId) (xs : List A) (x : A)
      → In x xs
      → mem c (f x) ≡ true
      → mem c (gather f xs) ≡ true
  In-gather c [] x m h = elim m [ ]
  In-gather c (y ∷ xs) x (here e) h =
      let held : mem c (f y) ≡ true = ap (λ z. mem c (f z)) (sym e) ∙ h in
      ground (arith, mem-append c (f y) (gather f xs), held)
  In-gather c (y ∷ xs) x (there m) h =
      ground (arith, mem-append c (f y) (gather f xs), In-gather c xs x m h)

-- A place of the scenario that names the capability.
pub data IsNamed (spec : ScenarioSpec) (c : CapabilityId) : Type 0 where
  by_identity :
      (i : IdentitySpec)
      → In i spec.identities
      → (mem c (or_empty i.capabilities) ≡ true) ⊎ (mem c (or_empty i.expect_capabilities) ≡ true)
      → IsNamed spec c
  by_delegation :
      (d : DelegationSpec)
      → In d spec.delegations
      → mem c d.intended_capabilities ≡ true
      → IsNamed spec c
  by_polled : (p : PhaseSpec) → In p spec.phases → p.capability ≡ some c → IsNamed spec c
  by_mutation :
      (p : PhaseSpec) (m : MutationSpec)
      → In p spec.phases
      → p.mutation ≡ some m
      → (mem c m.denies ≡ true) ⊎ (mem c m.grants ≡ true)
      → IsNamed spec c
  by_task :
      (t : TaskSpec)
      → In t spec.tasks
      → (mem c t.requires_capabilities ≡ true) ⊎ ((s : TaskStepSpec) × In s t.steps × (s.use_ ≡ c))
      → IsNamed spec c
  by_expectation :
      (e : ExpectationSpec)
      → In e spec.expectations
      → (mem c e.allow ≡ true) ⊎ ((mem c e.deny ≡ true) ⊎ (e.capability ≡ some c))
      → IsNamed spec c

pub mem_or :
    (c : ℕ) (xs ys : List ℕ) → mem c (xs ++ ys) ≡ true → (mem c xs ≡ true) ⊎ (mem c ys ≡ true)
mem_or c xs ys h = elim (Bool-cases (mem c xs)) [
  | inl e ↦ inl e
  | inr e ↦ inr (ground (arith, mem-append c xs ys, h, e))
]

pub or_mem :
    (c : ℕ) (xs ys : List ℕ) → (mem c xs ≡ true) ⊎ (mem c ys ≡ true) → mem c (xs ++ ys) ≡ true
or_mem c xs ys (inl h) = ground (arith, mem-append c xs ys, h)
or_mem c xs ys (inr h) = ground (arith, mem-append c xs ys, h)

mem-singleton_of : (c : ℕ) (o : Option ℕ) → (mem c (singleton_of o) ≡ true) ↔ (o ≡ some c)
mem-singleton_of c none = (λ h. cc, λ h. cc)
mem-singleton_of c (some d) = (
  λ h. ap some (sym ((==_iff c d).0 (ground (arith, h)))),
  λ h. let e : c ≡ d = cc in rw e (ground (arith, ==_refl d)),
)

mutation_iff :
    (c : CapabilityId) (o : Option MutationSpec)
    → (mem c (elim o [ none ↦ [] | some m ↦ union m.denies m.grants ]) ≡ true)
      ↔ ((m : MutationSpec) × (o ≡ some m) × ((mem c m.denies ≡ true) ⊎ (mem c m.grants ≡ true)))
unfolding union
mutation_iff c none = (λ h. cc, λ (m, e, h). cc)
mutation_iff c (some n) = (
  λ h. (n, refl, mem_or c n.denies n.grants h),
  λ (m, e, h).
      let same : m ≡ n = cc in
      or_mem c n.denies n.grants
        (subst (λ z. (mem c z.denies ≡ true) ⊎ (mem c z.grants ≡ true)) same h),
)

steps_iff :
    (c : CapabilityId) (steps : List TaskStepSpec)
    → (mem c (gather (λ s. s.use_ ∷ []) steps) ≡ true)
      ↔ ((s : TaskStepSpec) × In s steps × (s.use_ ≡ c))
steps_iff c steps = (
  λ h.
      let (s, m, e) = gather-In (λ s. s.use_ ∷ []) c steps h in
      (s, m, sym ((==_iff c s.use_).0 (ground (arith, e)))),
  λ (s, m, e).
      In-gather (λ s. s.use_ ∷ []) c steps s m (rw (sym e) (ground (arith, ==_refl s.use_))),
)

-- Where in the scenario the parts of the union come from.
named_parts :
    (spec : ScenarioSpec) (c : CapabilityId)
    → (mem c (named_capabilities spec) ≡ true) ↔ (
        (mem c (gather identity_names spec.identities) ≡ true)
        ⊎ ((mem c (gather (λ d. d.intended_capabilities) spec.delegations) ≡ true)
            ⊎ ((mem c (gather phase_mentions spec.phases) ≡ true)
                ⊎ ((mem c (gather task_mentions spec.tasks) ≡ true)
                    ⊎ (mem c (gather expectation_mentions spec.expectations) ≡ true)))))
unfolding named_capabilities
named_parts spec c =
    let is = gather identity_names spec.identities in
    let ds = gather (λ d. d.intended_capabilities) spec.delegations in
    let ps = gather phase_mentions spec.phases in
    let ts = gather task_mentions spec.tasks in
    let es = gather expectation_mentions spec.expectations in
    (
      λ h. elim (mem_or c is (ds ++ (ps ++ (ts ++ es))) h) [
        | inl x ↦ inl x
        | inr x ↦ elim (mem_or c ds (ps ++ (ts ++ es)) x) [
          | inl y ↦ inr (inl y)
          | inr y ↦ elim (mem_or c ps (ts ++ es) y) [
            | inl z ↦ inr (inr (inl z))
            | inr z ↦ inr (inr (inr (mem_or c ts es z)))
          ]
        ]
      ],
      λ h. ground (
        arith,
        h,
        mem-append c is (ds ++ (ps ++ (ts ++ es))),
        mem-append c ds (ps ++ (ts ++ es)),
        mem-append c ps (ts ++ es),
        mem-append c ts es,
      ),
    )

pub named_capabilities_iff :
    (spec : ScenarioSpec) (c : CapabilityId)
    → (mem c (named_capabilities spec) ≡ true) ↔ IsNamed spec c
unfolding identity_names phase_mentions task_mentions expectation_mentions
named_capabilities_iff spec c = (
  λ h. elim ((named_parts spec c).0 h) [
    | inl h1 ↦
        let (i, m, k) = gather-In identity_names c spec.identities h1 in
        by_identity i m (mem_or c (or_empty i.capabilities) (or_empty i.expect_capabilities) k)
    | inr (inl h2) ↦
        let (d, m, k) = gather-In (λ d. d.intended_capabilities) c spec.delegations h2 in
        by_delegation d m k
    | inr (inr (inl h3)) ↦
        let (p, m, k) = gather-In phase_mentions c spec.phases h3 in
        elim (mem_or c (singleton_of p.capability) _ k) [
          | inl x ↦ by_polled p m ((mem-singleton_of c p.capability).0 x)
          | inr x ↦ let (n, e, y) = (mutation_iff c p.mutation).0 x in by_mutation p n m e y
        ]
    | inr (inr (inr (inl h4))) ↦
        let (t, m, k) = gather-In task_mentions c spec.tasks h4 in
        elim (mem_or c t.requires_capabilities _ k) [
          | inl x ↦ by_task t m (inl x)
          | inr x ↦ by_task t m (inr ((steps_iff c t.steps).0 x))
        ]
    | inr (inr (inr (inr h5))) ↦
        let (e, m, k) = gather-In expectation_mentions c spec.expectations h5 in
        elim (mem_or c e.allow (e.deny ++ singleton_of e.capability) k) [
          | inl x ↦ by_expectation e m (inl x)
          | inr x ↦ elim (mem_or c e.deny (singleton_of e.capability) x) [
            | inl y ↦ by_expectation e m (inr (inl y))
            | inr y ↦ by_expectation e m (inr (inr ((mem-singleton_of c e.capability).0 y)))
          ]
        ]
  ],
  λ named. (named_parts spec c).1 (elim named [
    | by_identity i m h ↦ inl (
        In-gather identity_names c spec.identities i m
          (or_mem c (or_empty i.capabilities) (or_empty i.expect_capabilities) h))
    | by_delegation d m h ↦
        inr (inl (In-gather (λ d. d.intended_capabilities) c spec.delegations d m h))
    | by_polled p m h ↦ inr (
        inr (
          inl (
            In-gather phase_mentions c spec.phases p m (
              or_mem c (singleton_of p.capability) _
                (inl ((mem-singleton_of c p.capability).1 h))))))
    | by_mutation p n m e h ↦ inr (
        inr (
          inl (
            In-gather phase_mentions c spec.phases p m (
              or_mem c (singleton_of p.capability) _
                (inr ((mutation_iff c p.mutation).1 (n, e, h)))))))
    | by_task t m h ↦ inr (
        inr (
          inr (
            inl (
              In-gather task_mentions c spec.tasks t m (
                or_mem c t.requires_capabilities (gather (λ s. s.use_ ∷ []) t.steps)
                  (elim h [ inl x ↦ inl x | inr x ↦ inr ((steps_iff c t.steps).1 x) ]))))))
    | by_expectation e m h ↦ inr (
        inr (
          inr (
            inr (
              In-gather expectation_mentions c spec.expectations e m (
                or_mem c e.allow (e.deny ++ singleton_of e.capability) (elim h [
                  | inl x ↦ inl x
                  | inr (inl x) ↦ inr (or_mem c e.deny (singleton_of e.capability) (inl x))
                  | inr (inr x) ↦ inr (
                      or_mem c e.deny (singleton_of e.capability)
                        (inr ((mem-singleton_of c e.capability).1 x)))
                ]))))))
  ]),
)

-- The collected capabilities are exactly those that an identity, a delegation, a phase, its mutation,
-- a task, a step of it or an expectation names. What the expected finding of a negative control
-- names makes no difference to them.
pub named_capabilities-IsNamed :
    (spec : ScenarioSpec) (c : CapabilityId)
    → ((mem c (named_capabilities spec) ≡ true) ↔ IsNamed spec c)
      × ((s : AuthoritySet)
          → named_capabilities (record spec { expected_finding_capabilities = s })
            ≡ named_capabilities spec)
unfolding named_capabilities
named_capabilities-IsNamed spec c = (named_capabilities_iff spec c, λ s. refl)
