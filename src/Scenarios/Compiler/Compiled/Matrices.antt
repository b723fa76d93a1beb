-- ===== src/Scenarios/Compiler/Compiled/Matrices.antt =====
-- Every probe matrix asks for its whole universe.
use chainbreak.Common.{
  first_or_later, List-cases, ℕ, ◌≡◌, ◌≢◌, ◌↔◌, refl, sym, ◌⊎◌, inl, inr, true, List, [], ◌∷◌, ◌++◌,
  some, arith, ==_iff, mem, In, here, there, Option-cases,
}
use chainbreak.Core.Authority.{AuthoritySet, CapabilityId, union}
use chainbreak.Core.Capabilities.{CapabilityCatalog, ids}
use chainbreak.Core.Errors.{ok_eq, ok, >>=-eq-ok}
use chainbreak.Core.Errors.Collect.{collect-from, collect-into}
use chainbreak.Core.Graph.Validation.{AuthorizationGraph, node}
use chainbreak.Core.Models.{IdentityId, IdentityNode}
use chainbreak.Core.Safety.{ProbeMatrix}
use chainbreak.Scenarios.Spec.{PhaseSpec, ProbeUniverse, ScenarioSpec}
use chainbreak.Scenarios.Universe.{
  whoami, named_capabilities, universe_base, capability_universe, probed_identities, matrix_trials,
  phase_matrix, build_probe_matrices, expected_of,
}
use chainbreak.Scenarios.Universe.Named.{IsNamed, named_capabilities_iff, mem_or, or_mem}

-- What a universe holds for some identities.
abbrev pub InUniverse :
    ProbeUniverse
    → ScenarioSpec
    → AuthorizationGraph
    → CapabilityCatalog
    → List IdentityId
    → CapabilityId
    → Type 0
InUniverse ProbeUniverse.catalog spec graph catalog is c = mem c (ids catalog) ≡ true
InUniverse ProbeUniverse.declared spec graph catalog is c =
    (i : IdentityId) × In i is
    × ((n : IdentityNode) × (node graph i ≡ ok n)
        × (mem c n.expected_authority.capabilities ≡ true))
InUniverse ProbeUniverse.scenario spec graph catalog is c = IsNamed spec c

-- A matrix asks for the control capability, and beside it exactly for the universe of its
-- identities.
abbrev pub AsksFor : ScenarioSpec → AuthorizationGraph → CapabilityCatalog → ProbeMatrix → Type 0
AsksFor spec graph catalog m =
    (c : CapabilityId)
    → (mem c m.capabilities ≡ true)
      ↔ ((c ≡ whoami) ⊎ InUniverse spec.probe_universe spec graph catalog m.identities c)

expected_of_iff :
    (graph : AuthorizationGraph) (is : List IdentityId) (s : AuthoritySet) (c : CapabilityId)
    → expected_of graph is ≡ ok s
    → (mem c s ≡ true) ↔ (
        (i : IdentityId) × In i is
        × ((n : IdentityNode) × (node graph i ≡ ok n)
            × (mem c n.expected_authority.capabilities ≡ true)))
unfolding expected_of
expected_of_iff graph [] s c made =
    let none_there : [] ≡ s = cc in rw (sym none_there) (λ h. cc, λ (i, m, _). elim m [ ])
expected_of_iff graph (i ∷ is) s c made =
    let (n, found, k) = >>=-eq-ok (node graph i) _ made in
    let (rest, later, last) = >>=-eq-ok (expected_of graph is) _ k in
    let (forth, back) = expected_of_iff graph is rest c later in
    let held = n.expected_authority.capabilities in
    let same : held ++ rest ≡ s = cc in
    rw (sym same) (
      λ h. elim (mem_or c held rest h) [
        | inl x ↦ (i, here refl, (n, found, x))
        | inr x ↦ let (j, m, e) = forth x in (j, there m, e)
      ],
      λ (j, m, (n', found', x)). elim (first_or_later m) [
        | inl e ↦
            let found_i : node graph i ≡ ok n' = rw e at found' in
            let is_n : n ≡ n' = cc in or_mem c held rest (inl (rw is_n x))
        | inr later' ↦ or_mem c held rest (inr (back (j, later', (n', found', x))))
      ],
    )

universe_base_iff :
    (u : ProbeUniverse) (spec : ScenarioSpec) (graph : AuthorizationGraph)
    (catalog : CapabilityCatalog) (is : List IdentityId) (s : AuthoritySet) (c : CapabilityId)
    → universe_base u graph catalog (named_capabilities spec) is ≡ ok s
    → (mem c s ≡ true) ↔ InUniverse u spec graph catalog is c
unfolding universe_base
universe_base_iff ProbeUniverse.catalog spec graph catalog is s c made =
    let same : ids catalog ≡ s = cc in rw (sym same) (λ h. h, λ h. h)
universe_base_iff ProbeUniverse.declared spec graph catalog is s c made =
    expected_of_iff graph is s c made
universe_base_iff ProbeUniverse.scenario spec graph catalog is s c made =
    let same : named_capabilities spec ≡ s = cc in rw (sym same) (named_capabilities_iff spec c)

pub capability_universe_iff :
    (spec : ScenarioSpec) (graph : AuthorizationGraph) (catalog : CapabilityCatalog)
    (is : List IdentityId) (s : AuthoritySet) (c : CapabilityId)
    → capability_universe spec graph catalog (named_capabilities spec) is ≡ ok s
    → (mem c s ≡ true) ↔ ((c ≡ whoami) ⊎ InUniverse spec.probe_universe spec graph catalog is c)
unfolding capability_universe union
capability_universe_iff spec graph catalog is s c made =
    let (base, based, last) =
      >>=-eq-ok (universe_base spec.probe_universe graph catalog (named_capabilities spec) is) _
        made in
    let (forth, back) = universe_base_iff spec.probe_universe spec graph catalog is base c based in
    let same : base ++ whoami ∷ [] ≡ s = cc in
    rw (sym same) (
      λ h. elim (mem_or c base (whoami ∷ []) h) [
        | inl x ↦ inr (forth x)
        | inr x ↦ inl ((==_iff c whoami).0 (ground (arith, x)))
      ],
      λ h. or_mem c base (whoami ∷ []) (elim h [ inl e ↦ inr (rw e refl) | inr x ↦ inl (back x) ]),
    )

-- The matrix of a phase that has one.
phase_matrix-made :
    (spec : ScenarioSpec) (graph : AuthorizationGraph) (catalog : CapabilityCatalog) (p : PhaseSpec)
    (m : ProbeMatrix)
    → phase_matrix spec graph catalog p ≡ ok (some m)
    → (trials : ℕ) × (i : IdentityId) × (is : List IdentityId) × (s : AuthoritySet) × (matrix_trials
          spec p.kind
        ≡ some trials)
      × (probed_identities p ≡ i ∷ is)
      × (capability_universe spec graph catalog (named_capabilities spec) (i ∷ is) ≡ ok s)
      × (record { identities = i ∷ is; capabilities = s; trials = trials } ≡ m)
unfolding phase_matrix
phase_matrix-made spec graph catalog p m made = elim (Option-cases (matrix_trials spec p.kind)) [
  | inl no_kind ↦ let made' = rw (phase_matrix, no_kind) at made in cc
  | inr (trials, kind) ↦ elim (List-cases (probed_identities p)) [
    | inl nobody ↦ let made' = rw (phase_matrix, kind, nobody) at made in cc
    | inr (i, is, probed) ↦
        let made' = rw (phase_matrix, kind, probed) at made in
        let (s, universe, last) =
          >>=-eq-ok (capability_universe spec graph catalog (named_capabilities spec) (i ∷ is)) _
            made' in
        (trials, i, is, s, kind, probed, universe, cc)
  ]
]

pub build_probe_matrices-AsksFor :
    (spec : ScenarioSpec) (graph : AuthorizationGraph) (catalog : CapabilityCatalog)
    (ps : List PhaseSpec) (ms : List ProbeMatrix)
    → build_probe_matrices spec graph catalog ps ≡ ok ms
    → (m : ProbeMatrix) → In m ms
    → AsksFor spec graph catalog m
unfolding build_probe_matrices
build_probe_matrices-AsksFor spec graph catalog ps ms made m at =
    let (p, _, built) = collect-from (phase_matrix spec graph catalog) ps ms made m at in
    let (trials, i, is, s, _, _, universe, same) = phase_matrix-made spec graph catalog p m built in
    rw (sym same) λ c. capability_universe_iff spec graph catalog (i ∷ is) s c universe

-- A phase that probes someone has its matrix, with its identities and its trials.
pub build_probe_matrices-covers :
    (spec : ScenarioSpec) (graph : AuthorizationGraph) (catalog : CapabilityCatalog)
    (ps : List PhaseSpec) (ms : List ProbeMatrix)
    → build_probe_matrices spec graph catalog ps ≡ ok ms
    → (p : PhaseSpec) (trials : ℕ) → In p ps
    → matrix_trials spec p.kind ≡ some trials
    → probed_identities p ≢ []
    → (m : ProbeMatrix) × In m ms × (m.identities ≡ probed_identities p) × (m.trials ≡ trials)
unfolding build_probe_matrices phase_matrix
build_probe_matrices-covers spec graph catalog ps ms made p trials at kind somebody =
    let (built, is_built, kept) = collect-into (phase_matrix spec graph catalog) ps ms made p at in
    elim (List-cases (probed_identities p)) [
      | inl nobody ↦ absurd (somebody nobody)
      | inr (i, is, probed) ↦
          let is_built' = rw (phase_matrix, kind, probed) at is_built in
          let (s, universe, last) =
            >>=-eq-ok (capability_universe spec graph catalog (named_capabilities spec) (i ∷ is)) _
              is_built' in
          (
            record { identities = i ∷ is; capabilities = s; trials = trials },
            kept (record { identities = i ∷ is; capabilities = s; trials = trials })
                (sym (ok_eq last)),
            sym probed,
            refl,
          )
    ]
