-- ===== src/Analysis/Tasks/Contract.antt =====
-- Which findings the contracts of a run's tasks give, and that none is downgraded.
use chainbreak.Common.{
  ℕ, suc, ◌+◌, ◌≡◌, ◌↔◌, refl, ◌⊎◌, inl, inr, Bool, true, false, not, ◌&&◌, ◌||◌, List, [], ◌∷◌,
  Option, none, some, arith, ◌==◌, if◌then◌else◌, In, here, there, first_or_later, length,
}
use chainbreak.Core.Authority.{is_empty}
use chainbreak.Core.Enums.{FindingType, Confidence}
use chainbreak.Analysis.Findings.{Finding, Payload, build, final_type, confidence_of}
use chainbreak.Analysis.Tasks.{
  TaskOutcome, TaskPlan, claims_complete_but_is_not, claims_output_that_does_not_exist, about_task,
  rule_silent_narrowing, rule_capability_substituted, rule_redelegation_attempted, append_some,
  plan_of, forbids_substitution, forbids_redelegation, task_contract_findings,
}

-- A task that claimed what its side effects do not bear out.
abbrev pub narrows : TaskOutcome → Bool
narrows t = claims_complete_but_is_not t || claims_output_that_does_not_exist t

-- A task that substituted a capability, which its plan does not permit; without a plan it is not
-- permitted.
abbrev pub substitutes : List TaskPlan → TaskOutcome → Bool
substitutes plans t =
    forbids_substitution (plan_of plans t.task_id) && not (is_empty t.substituted_capabilities)

-- A task that tried to redelegate, which its plan does not permit.
abbrev pub redelegates : List TaskPlan → TaskOutcome → Bool
redelegates plans t =
    forbids_redelegation (plan_of plans t.task_id) && not (t.redelegation_attempts == 0)

-- How many tasks are of a kind.
abbrev pub count : (TaskOutcome → Bool) → List TaskOutcome → ℕ
count p [] = 0
count p (t ∷ ts) = let rest = count p ts in if p t then suc rest else rest

module _ (digest : Payload → ℕ) where
  -- A finding that a task calls for.
  abbrev pub Calls : List TaskPlan → TaskOutcome → Finding → Type 0
  Calls plans t f =
      ((narrows t ≡ true) × (f ≡ build digest (about_task t FindingType.silent_narrowing)))
      ⊎ (((substitutes plans t ≡ true)
            × (f ≡ build digest (about_task t FindingType.capability_substituted)))
          ⊎ ((redelegates plans t ≡ true)
              × (f ≡ build digest (about_task t FindingType.redelegation_attempted))))

  -- What a rule gives: a finding where it applies, else nothing.
  when : Bool → Finding → Option Finding
  when b f = if b then some f else none

  when-some : (b : Bool) (x f : Finding) → when b x ≡ some f → (b ≡ true) × (f ≡ x)
  unfolding when
  when-some true x f h = let same : f ≡ x = cc in (refl, same)
  when-some false x f h = cc

  narrowing_when :
      (t : TaskOutcome)
      → rule_silent_narrowing digest t
        ≡ when (narrows t) (build digest (about_task t FindingType.silent_narrowing))
  unfolding rule_silent_narrowing when
  narrowing_when t = ground arith

  substituted_when :
      (plans : List TaskPlan) (t : TaskOutcome)
      → rule_capability_substituted digest t (forbids_substitution (plan_of plans t.task_id))
        ≡ when
            (substitutes plans t)
            (build digest (about_task t FindingType.capability_substituted))
  unfolding rule_capability_substituted when
  substituted_when plans t = ground arith

  redelegation_when :
      (plans : List TaskPlan) (t : TaskOutcome)
      → rule_redelegation_attempted digest t (forbids_redelegation (plan_of plans t.task_id))
        ≡ when
            (redelegates plans t)
            (build digest (about_task t FindingType.redelegation_attempted))
  unfolding rule_redelegation_attempted when
  redelegation_when plans t = ground arith

  one_task :
      (t : TaskOutcome) (ts : List TaskOutcome) (plans : List TaskPlan)
      → task_contract_findings digest (t ∷ ts) plans
        ≡ append_some
            (when (narrows t) (build digest (about_task t FindingType.silent_narrowing)))
            (append_some
              (when
                (substitutes plans t)
                (build digest (about_task t FindingType.capability_substituted)))
              (append_some
                (when
                  (redelegates plans t)
                  (build digest (about_task t FindingType.redelegation_attempted)))
                (task_contract_findings digest ts plans)))
  unfolding task_contract_findings
  one_task t ts plans =
      rw (← narrowing_when t, ← substituted_when plans t, ← redelegation_when plans t) refl

  In-append_when :
      (b : Bool) (x : Finding) (fs : List Finding) (f : Finding)
      → In f (append_some (when b x) fs)
      → ((b ≡ true) × (f ≡ x)) ⊎ In f fs
  unfolding when
  In-append_when true x fs f m = elim (first_or_later m) [ inl e ↦ inl (refl, e) | inr n ↦ inr n ]
  In-append_when false x fs f m = inr m

  append_when-first :
      (b : Bool) (x : Finding) (fs : List Finding) (f : Finding)
      → b ≡ true
      → f ≡ x
      → In f (append_some (when b x) fs)
  unfolding when
  append_when-first true x fs f e same = here same
  append_when-first false x fs f e same = cc

  append_when-later :
      (b : Bool) (x : Finding) (fs : List Finding) (f : Finding)
      → In f fs
      → In f (append_some (when b x) fs)
  unfolding when
  append_when-later true x fs f m = there m
  append_when-later false x fs f m = m

  length-append_when :
      (b : Bool) (x : Finding) (fs : List Finding)
      → length (append_some (when b x) fs) ≡ (if b then suc (length fs) else length fs)
  unfolding when
  length-append_when true x fs = refl
  length-append_when false x fs = refl

  findings_called :
      (ts : List TaskOutcome) (plans : List TaskPlan) (f : Finding)
      → In f (task_contract_findings digest ts plans)
      → (t : TaskOutcome) × In t ts × Calls plans t f
  unfolding task_contract_findings
  findings_called [] plans f m = elim m [ ]
  findings_called (t ∷ ts) plans f m =
      elim (In-append_when (narrows t) _ _ f (rw (one_task t ts plans) at m)) [
        | inl a ↦ (t, here refl, inl a)
        | inr m1 ↦ elim (In-append_when (substitutes plans t) _ _ f m1) [
          | inl a ↦ (t, here refl, inr (inl a))
          | inr m2 ↦ elim (In-append_when (redelegates plans t) _ _ f m2) [
            | inl a ↦ (t, here refl, inr (inr a))
            | inr m3 ↦ let (u, at, called) = findings_called ts plans f m3 in (u, there at, called)
          ]
        ]
      ]

  called_found :
      (ts : List TaskOutcome) (plans : List TaskPlan) (f : Finding) (t : TaskOutcome)
      → In t ts
      → Calls plans t f
      → In f (task_contract_findings digest ts plans)
  called_found [] plans f t at called = elim at [ ]
  called_found (u ∷ ts) plans f t at called = rw (one_task u ts plans) (elim (first_or_later at) [
    | inl e ↦ elim (rw e at called) [
      | inl (a, b) ↦ append_when-first (narrows u) _ _ f a b
      | inr (inl (a, b)) ↦
          append_when-later (narrows u) _ _ f (append_when-first (substitutes plans u) _ _ f a b)
      | inr (inr (a, b)) ↦ append_when-later (narrows u) _ _ f (
          append_when-later (substitutes plans u) _ _ f
            (append_when-first (redelegates plans u) _ _ f a b))
    ]
    | inr later ↦ append_when-later (narrows u) _ _ f (
        append_when-later (substitutes plans u) _ _ f
          (append_when-later (redelegates plans u) _ _ f (called_found ts plans f t later called)))
  ])

  findings_counted :
      (ts : List TaskOutcome) (plans : List TaskPlan)
      → length (task_contract_findings digest ts plans)
        ≡ count narrows ts + count (substitutes plans) ts + count (redelegates plans) ts
  unfolding task_contract_findings
  findings_counted [] plans = refl
  findings_counted (t ∷ ts) plans =
      let narrowing = build digest (about_task t FindingType.silent_narrowing) in
      let substituted = build digest (about_task t FindingType.capability_substituted) in
      let redelegated = build digest (about_task t FindingType.redelegation_attempted) in
      let fs = task_contract_findings digest ts plans in
      let gs = append_some (when (redelegates plans t) redelegated) fs in
      let hs = append_some (when (substitutes plans t) substituted) gs in
      let a = length-append_when (narrows t) narrowing hs in
      let b = length-append_when (substitutes plans t) substituted gs in
      let c = length-append_when (redelegates plans t) redelegated fs in
      let rest = findings_counted ts plans in
      rw (one_task t ts plans, a, b, c) (ground (arith, rest))

  -- A finding is among a run's task findings exactly when some task calls for it: SILENT_NARROWING
  -- where the task claimed what its side effects do not bear out, CAPABILITY_SUBSTITUTED where it
  -- substituted a capability and its plan does not permit that, and REDELEGATION_ATTEMPTED where it
  -- tried to redelegate and its plan does not permit that; a task without a plan is permitted
  -- neither. There are exactly as many findings as tasks call for, and each has its type and the
  -- task's identity, at HIGH confidence: none is downgraded.
  pub task_contract_findings_exact :
      (ts : List TaskOutcome) (plans : List TaskPlan)
      → ((f : Finding)
          → In f (task_contract_findings digest ts plans)
            ↔ ((t : TaskOutcome) × In t ts × Calls plans t f))
        × (length (task_contract_findings digest ts plans)
            ≡ count narrows ts + count (substitutes plans) ts + count (redelegates plans) ts)
        × ((t : TaskOutcome) (type : FindingType)
            → ((build digest (about_task t type)).type ≡ type)
              × ((build digest (about_task t type)).identity_id ≡ some t.identity_id)
              × ((build digest (about_task t type)).confidence ≡ Confidence.high))
  unfolding build final_type confidence_of
  task_contract_findings_exact ts plans = (
    λ f. (findings_called ts plans f, λ (t, at, called). called_found ts plans f t at called),
    findings_counted ts plans,
    λ t type. (refl, refl, refl),
  )
