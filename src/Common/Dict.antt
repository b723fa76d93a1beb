-- ===== src/Common/Dict.antt =====
-- A Python dict keyed by identifiers, as an association list in insertion order.
use chainbreak.Common.{
  ℕ, ◌≡◌, refl, sym, ap, ◌∙◌, ◌⊎◌, inl, inr, In, here, there, Bool-cases, ==_iff, false, ◌||◌, List,
  [], ◌∷◌, Option, none, some, arith, ◌==◌, if◌then◌else◌, mem,
}

abbrev pub Dict {ℓ} : Type ℓ → Type ℓ
Dict Value = List (ℕ × Value)

module _ {ℓ} {Value : Type ℓ} where
  abbrev pub keys : Dict Value → List ℕ
  keys [] = []
  keys ((key, _) ∷ rest) = key ∷ keys rest

  -- `d.get(key)`
  abbrev pub lookup : ℕ → Dict Value → Option Value
  lookup key [] = none
  lookup key (entry ∷ rest) =
      let later = lookup key rest in if key == entry.0 then some entry.1 else later

  -- `d[key] = value`: a key that is there keeps its place.
  abbrev pub insert : ℕ → Value → Dict Value → Dict Value
  insert key value [] = (key, value) ∷ []
  insert key value (entry ∷ rest) =
      let later = insert key value rest in
      if key == entry.0 then (key, value) ∷ rest else entry ∷ later

  -- `d.pop(key, None)`, on every entry of the key.
  abbrev pub erase : ℕ → Dict Value → Dict Value
  erase key [] = []
  erase key (entry ∷ rest) =
      let later = erase key rest in if key == entry.0 then later else entry ∷ later

  pub lookup-insert :
      (j k : ℕ) (v : Value) (d : Dict Value)
      → lookup j (insert k v d) ≡ (if j == k then some v else lookup j d)
  lookup-insert j k v [] = refl
  lookup-insert j k v (e ∷ d) = ground (arith, lookup-insert j k v d)

  pub lookup-erase :
      (j k : ℕ) (d : Dict Value) → lookup j (erase k d) ≡ (if j == k then none else lookup j d)
  lookup-erase j k [] = ground arith
  lookup-erase j k (e ∷ d) = ground (arith, lookup-erase j k d)

  pub mem-keys-insert :
      (j k : ℕ) (v : Value) (d : Dict Value)
      → mem j (keys (insert k v d)) ≡ (j == k || mem j (keys d))
  mem-keys-insert j k v [] = refl
  mem-keys-insert j k v (e ∷ d) = ground (arith, mem-keys-insert j k v d)

  pub lookup-insert_same : (k : ℕ) (v : Value) (d : Dict Value) → lookup k (insert k v d) ≡ some v
  lookup-insert_same k v d = ground (arith, lookup-insert k k v d)

  pub lookup-insert_other :
      (j k : ℕ) (v : Value) (d : Dict Value)
      → (j == k) ≡ false
      → lookup j (insert k v d) ≡ lookup j d
  lookup-insert_other j k v d ne = ground (arith, lookup-insert j k v d, ne)

-- `{key(x): x for x in xs}`, from what was there before.
abbrev pub index_by {ℓ} : {A : Type ℓ} → (A → ℕ) → Dict A → List A → Dict A
index_by key d [] = d
index_by key d (x ∷ xs) = index_by key (insert (key x) x d) xs

pub lookup-index_by {ℓ} :
    {A : Type ℓ} (key : A → ℕ) (xs : List A) (d : Dict A) (k : ℕ) {y : A}
    → lookup k (index_by key d xs) ≡ some y
    → (lookup k d ≡ some y) ⊎ (In y xs × (key y ≡ k))
lookup-index_by key [] d k h = inl h
lookup-index_by key (x ∷ xs) d k {y} h = elim (lookup-index_by key xs (insert (key x) x d) k h) [
  | inl before ↦ elim (Bool-cases (k == key x)) [
    | inl same ↦
        let eq : k ≡ key x = (==_iff k (key x)).0 same in
        let stored = lookup-insert_same (key x) x d in
        let before' = rw eq at before in let is : y ≡ x = cc in inr (here is, ap key is ∙ sym eq)
    | inr other ↦ inl (sym (lookup-insert_other k (key x) x d other) ∙ before)
  ]
  | inr (m, e) ↦ inr (there m, e)
]
