-- ===== src/Scenarios/Derivation/Indexed.antt =====
-- What the dicts of the first loop hold.
use chainbreak.Common.{
  ℕ, ◌≡◌, refl, sym, ap, ◌∙◌, true, false, List, [], ◌∷◌, ◌++◌, some, ◌==◌, ◌⊎◌, ◌≢◌, inl, inr,
  arith, mem, In, here, there, Bool-cases, ==_iff, ==_refl, is_some,
}
use chainbreak.Common.Dict.{
  Dict, lookup, insert, lookup-insert, lookup-insert_same, lookup-insert_other,
}
use chainbreak.Common.Nodup.{Nodup, mem-append}
use chainbreak.Core.Errors.{ok, scenario_semantic_error, raise_if_then-eq-ok}
use chainbreak.Core.Models.{IdentityId}
use chainbreak.Scenarios.Spec.{DelegationSpec}
use chainbreak.Scenarios.Derivation.{
  Tables, no_tables, children_of, add_delegation, index_delegations,
}

abbrev pub delegation_ids : List DelegationSpec → List ℕ
delegation_ids [] = []
delegation_ids (d ∷ ds) = d.id ∷ delegation_ids ds

abbrev pub delegation_targets : List DelegationSpec → List IdentityId
delegation_targets [] = []
delegation_targets (d ∷ ds) = d.to ∷ delegation_targets ds

abbrev pub TargetsDiffer : List DelegationSpec → Type 0
TargetsDiffer ds = (d d' : DelegationSpec) → In d ds → In d' ds → d.to ≡ d'.to → d ≡ d'

abbrev pub IdsDiffer : List DelegationSpec → Type 0
IdsDiffer ds = (d d' : DelegationSpec) → In d ds → In d' ds → d.id ≡ d'.id → d ≡ d'

pub In-delegation_ids :
    (ds : List DelegationSpec) (d : DelegationSpec) → In d ds → mem d.id (delegation_ids ds) ≡ true
In-delegation_ids [] d m = elim m [ ]
In-delegation_ids (x ∷ ds) d (here e) = rw e (ground (arith, ==_refl x.id))
In-delegation_ids (x ∷ ds) d (there m) = ground (arith, In-delegation_ids ds d m)

pub In-delegation_targets :
    (ds : List DelegationSpec) (d : DelegationSpec)
    → In d ds
    → mem d.to (delegation_targets ds) ≡ true
In-delegation_targets [] d m = elim m [ ]
In-delegation_targets (x ∷ ds) d (here e) = rw e (ground (arith, ==_refl x.to))
In-delegation_targets (x ∷ ds) d (there m) = ground (arith, In-delegation_targets ds d m)

pub Nodup-IdsDiffer : (ds : List DelegationSpec) → Nodup (delegation_ids ds) → IdsDiffer ds
Nodup-IdsDiffer [] n d d' m m' e = elim m [ ]
Nodup-IdsDiffer (x ∷ ds) n d d' (here h) (here h') e = h ∙ sym h'
Nodup-IdsDiffer (x ∷ ds) n d d' (here h) (there m') e =
    let same : x.id ≡ d'.id = ap (λ z. z.id) (sym h) ∙ e in
    let seen = In-delegation_ids ds d' m' in
    let clash : mem x.id (delegation_ids ds) ≡ true = rw same seen in let missing = n.0 in cc
Nodup-IdsDiffer (x ∷ ds) n d d' (there m) (here h') e =
    let same : x.id ≡ d.id = ap (λ z. z.id) (sym h') ∙ sym e in
    let seen = In-delegation_ids ds d m in
    let clash : mem x.id (delegation_ids ds) ≡ true = rw same seen in let missing = n.0 in cc
Nodup-IdsDiffer (x ∷ ds) n d d' (there m) (there m') e = Nodup-IdsDiffer ds n.1 d d' m m' e

mem_snoc : (c x : ℕ) (xs : List ℕ) → mem c (xs ++ x ∷ []) ≡ true → (mem c xs ≡ true) ⊎ (c ≡ x)
mem_snoc c x xs h = elim (Bool-cases (mem c xs)) [
  | inl old ↦ inl old
  | inr new ↦ inr ((==_iff c x).0 (ground (arith, mem-append c xs (x ∷ []), h, new)))
]

module _ {ℓ} {V : Type ℓ} where
  still_known :
      (c k : ℕ) (v : V) (d : Dict V)
      → is_some (lookup c d) ≡ true
      → is_some (lookup c (insert k v d)) ≡ true
  still_known c k v d h = ground (arith, lookup-insert c k v d, h)

  now_known : (c k : ℕ) (v : V) (d : Dict V) → c ≡ k → is_some (lookup c (insert k v d)) ≡ true
  now_known c k v d e = rw (e, lookup-insert_same k v d) refl

  was_unseen :
      (c k : ℕ) (v : V) (d : Dict V)
      → is_some (lookup c (insert k v d)) ≡ false
      → is_some (lookup c d) ≡ false
  was_unseen c k v d h = ground (arith, lookup-insert c k v d, h)

module _ (ds : List DelegationSpec) where
  -- Every entry is that of a delegation, and the entry of a child is there.
  pub record IsIndexed (t : Tables) : Type 0 where
    pub children :
        (i c : ℕ)
        → mem c (children_of t i) ≡ true
        → (d : DelegationSpec) × In d ds
          × (d.id ≡ c)
          × (d.from_ ≡ i)
          × (is_some (lookup c t.delegation_by_id) ≡ true)
    pub by_id :
        (c : ℕ) (d : DelegationSpec) → lookup c t.delegation_by_id ≡ some d → In d ds × (d.id ≡ c)

  children_of-same :
      (t : Tables) (d : DelegationSpec) (i : ℕ)
      → i ≡ d.from_
      → children_of (add_delegation t d) i ≡ children_of t d.from_ ++ d.id ∷ []
  unfolding children_of add_delegation
  children_of-same t d i e =
      let added = children_of t d.from_ ++ d.id ∷ [] in
      let found : lookup i (insert d.from_ added t.children_by_parent) ≡ some added =
        rw e (lookup-insert_same d.from_ added t.children_by_parent) in
      rw (children_of, found) refl

  children_of-other :
      (t : Tables) (d : DelegationSpec) (i : ℕ)
      → (i == d.from_) ≡ false
      → children_of (add_delegation t d) i ≡ children_of t i
  unfolding children_of add_delegation
  children_of-other t d i ne =
      rw
        (
          children_of,
          lookup-insert_other i d.from_ (children_of t d.from_ ++ d.id ∷ []) t.children_by_parent
              ne,
        )
        refl

  add_delegation-IsIndexed :
      (t : Tables) (d : DelegationSpec) → In d ds → IsIndexed t → IsIndexed (add_delegation t d)
  unfolding add_delegation
  add_delegation-IsIndexed t d m x = record {
    children = λ i c h. elim (Bool-cases (i == d.from_)) [
      | inl e ↦
          let same : i ≡ d.from_ = (==_iff i d.from_).0 e in
          let split =
            mem_snoc c d.id (children_of t d.from_) (rw (children_of-same t d i same) at h) in
          elim split [
            | inl old ↦
                let (d', m', a, b, k) = x.children d.from_ c old in
                (d', m', a, b ∙ sym same, still_known c d.id d t.delegation_by_id k)
            | inr new ↦ (
              d,
              m,
              sym new,
              sym same,
              (rw (new, lookup-insert_same d.id d t.delegation_by_id) refl),
            )
          ]
      | inr ne ↦
          let (d', m', a, b, k) = x.children i c (rw (children_of-other t d i ne) at h) in
          (d', m', a, b, still_known c d.id d t.delegation_by_id k)
    ];
    by_id = λ c d' h. elim (Bool-cases (c == d.id)) [
      | inl e ↦
          let same : c ≡ d.id = (==_iff c d.id).0 e in
          let found = lookup-insert_same d.id d t.delegation_by_id in
          let h' = rw same at h in
          let eq : d ≡ d' = cc in (rw (sym eq) m, ap (λ z. z.id) (sym eq) ∙ sym same)
      | inr ne ↦ x.by_id c d' (sym (lookup-insert_other c d.id d t.delegation_by_id ne) ∙ h)
    ];
  }

  -- The first loop keeps what its dicts hold, and gets through only where the targets differ.
  pub index_delegations-IsIndexed :
      (rest : List DelegationSpec) (t t' : Tables)
      → ((d : DelegationSpec) → In d rest → In d ds)
      → IsIndexed t
      → index_delegations t rest ≡ ok t'
      → IsIndexed t'
  unfolding index_delegations
  index_delegations-IsIndexed [] t t' sub x h = let e : t ≡ t' = cc in rw (sym e) x
  index_delegations-IsIndexed (d ∷ rest) t t' sub x h =
      let (fresh, next) =
        raise_if_then-eq-ok (is_some (lookup d.to t.targets_seen)) scenario_semantic_error
          (index_delegations (add_delegation t d) rest) h in
      index_delegations-IsIndexed rest (add_delegation t d) t' (λ d' m. sub d' (there m))
        (add_delegation-IsIndexed t d (sub d (here refl)) x) next

  pub no_tables-IsIndexed : IsIndexed no_tables
  unfolding children_of
  no_tables-IsIndexed = record { children = λ i c h. cc; by_id = λ c d h. cc }

TargetsDiffer-cons :
    (x : DelegationSpec) (rest : List DelegationSpec)
    → ((d : DelegationSpec) → In d rest → d.to ≢ x.to)
    → TargetsDiffer rest
    → TargetsDiffer (x ∷ rest)
TargetsDiffer-cons x rest apart differ d d' (here h) (here h') e = h ∙ sym h'
TargetsDiffer-cons x rest apart differ d d' (here h) (there m') e =
    absurd (apart d' m' (sym e ∙ ap (λ z. z.to) h))
TargetsDiffer-cons x rest apart differ d d' (there m) (here h') e =
    absurd (apart d m (e ∙ ap (λ z. z.to) h'))
TargetsDiffer-cons x rest apart differ d d' (there m) (there m') e = differ d d' m m' e

-- No target that is left was seen, and those left differ.
pub index_delegations-fresh :
    (rest : List DelegationSpec) (t t' : Tables)
    → index_delegations t rest ≡ ok t'
    → ((d : DelegationSpec) → In d rest → is_some (lookup d.to t.targets_seen) ≡ false)
      × TargetsDiffer rest
unfolding index_delegations add_delegation
index_delegations-fresh [] t t' h = (λ d m. elim m [ ], λ d d' m m' e. elim m [ ])
index_delegations-fresh (x ∷ rest) t t' h =
    let (unseen, next) =
      raise_if_then-eq-ok (is_some (lookup x.to t.targets_seen)) scenario_semantic_error
        (index_delegations (add_delegation t x) rest) h in
    let (later, differ) = index_delegations-fresh rest (add_delegation t x) t' next in
    let apart : (d : DelegationSpec) → In d rest → d.to ≢ x.to = λ d m e.
      let seen = now_known d.to x.to x.id t.targets_seen e in let unseen = later d m in cc in
    (
      λ d m. elim m [
        | here e ↦ rw e unseen
        | there n ↦ was_unseen d.to x.to x.id t.targets_seen (later d n)
      ],
      TargetsDiffer-cons x rest apart differ,
    )
