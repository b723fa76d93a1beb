-- ===== src/Common/Lists.antt =====
-- Lists measured by native numbers and tested by Booleans, under the library's names.
use Prim.Native.Nat.{ℕ, suc, ◌+◌, ◌≤◌}
use mathlib.Core.Path.{◌≡◌, refl, sym, ap, ◌∙◌}
use mathlib.Core.Logic.{◌⊎◌, inl, inr}
use mathlib.Core.Bool.{Bool, true, false, ◌&&◌, ◌||◌}
use mathlib.Core.List.{List, [], ◌∷◌, ◌++◌}
use mathlib.Core.Option.{Option, none, some}
use native.Mathlib.Omega.{arith}
use chainbreak.Common.Tests.{◌==◌, if◌then◌else◌, Bool-cases, Option-cases, &&-eq-true}

module _ {ℓ} {A : Type ℓ} where
  abbrev pub length : List A → ℕ
  length [] = 0
  length (x ∷ xs) = suc (length xs)

  abbrev pub any : (A → Bool) → List A → Bool
  any p [] = false
  any p (x ∷ xs) = p x || any p xs

  abbrev pub all : (A → Bool) → List A → Bool
  all p [] = true
  all p (x ∷ xs) = p x && all p xs

  abbrev pub filter : (A → Bool) → List A → List A
  filter p [] = []
  filter p (x ∷ xs) = let rest = filter p xs in if p x then x ∷ rest else rest

  abbrev pub find : (A → Bool) → List A → Option A
  find p [] = none
  find p (x ∷ xs) = let rest = find p xs in if p x then some x else rest

  abbrev pub All {κ} : (A → Type κ) → List A → Type κ
  All P [] = Unit
  All P (x ∷ xs) = P x × All P xs

  -- A path between positions of a list: `x` occurs in the list.
  pub data In (x : A) : List A → Type ℓ where
    here : {y : A} {xs : List A} → x ≡ y → In x (y ∷ xs)
    there : {y : A} {xs : List A} → In x xs → In x (y ∷ xs)

module _ {ℓ} {A : Type ℓ} where
  pub length-append : (xs ys : List A) → length (xs ++ ys) ≡ length xs + length ys
  length-append [] ys = omega arith
  length-append (x ∷ xs) ys = omega (arith, length-append xs ys)

  -- Where an element of a longer list stands.
  pub first_or_later : {x y : A} {ys : List A} → In x (y ∷ ys) → (x ≡ y) ⊎ In x ys
  first_or_later (here e) = inl e
  first_or_later (there m) = inr m

  pub In-append_left : {x : A} (xs ys : List A) → In x xs → In x (xs ++ ys)
  In-append_left [] ys m = elim m [ ]
  In-append_left (y ∷ xs) ys (here e) = here e
  In-append_left (y ∷ xs) ys (there m) = there (In-append_left xs ys m)

  pub List-cases : (xs : List A) → (xs ≡ []) ⊎ ((y : A) × (ys : List A) × (xs ≡ y ∷ ys))
  List-cases [] = inl refl
  List-cases (x ∷ xs) = inr (x, xs, refl)

  pub length-filter-le : (p : A → Bool) (xs : List A) → length (filter p xs) ≤ length xs
  length-filter-le p [] = omega arith
  length-filter-le p (x ∷ xs) = ground (arith, length-filter-le p xs)

  pub all-In : (p : A → Bool) (xs : List A) {x : A} → all p xs ≡ true → In x xs → p x ≡ true
  all-In p [] h m = elim m [ ]
  all-In p (y ∷ xs) h (here e) = rw e (ground arith)
  all-In p (y ∷ xs) h (there m) = all-In p xs (&&-eq-true (p y) (all p xs) h).1 m

  pub In-all : (p : A → Bool) (xs : List A) → ((x : A) → In x xs → p x ≡ true) → all p xs ≡ true
  In-all p [] h = refl
  In-all p (x ∷ xs) h = ground (arith, h x (here refl), In-all p xs (λ y m. h y (there m)))

  pub find-In : (p : A → Bool) (xs : List A) {x : A} → find p xs ≡ some x → In x xs × (p x ≡ true)
  find-In p [] h = cc
  find-In p (y ∷ xs) {x} h = elim (Bool-cases (p y)) [
    | inl e ↦ (here (ground arith), ground arith)
    | inr e ↦ let f = find-In p xs (rw e at h) in (there f.0, f.1)
  ]

-- `x in xs` over numbers.
abbrev pub mem : ℕ → List ℕ → Bool
mem a [] = false
mem a (x ∷ xs) = a == x || mem a xs

pub mem-In : (a : ℕ) (xs : List ℕ) → mem a xs ≡ true → In a xs
mem-In a [] h = cc
mem-In a (x ∷ xs) h = elim (Bool-cases (a == x)) [
  | inl e ↦ here (ground arith)
  | inr e ↦ there (mem-In a xs (ground arith))
]

pub In-mem : (a : ℕ) (xs : List ℕ) → In a xs → mem a xs ≡ true
In-mem a [] m = elim m [ ]
In-mem a (x ∷ xs) (here e) = ground arith
In-mem a (x ∷ xs) (there m) = ground (arith, In-mem a xs m)

-- `[y for x in xs if (y := f(x)) is not None]`
abbrev pub gather_some {ℓ ℓ'} : {A : Type ℓ} {B : Type ℓ'} → (A → Option B) → List A → List B
gather_some f [] = []
gather_some f (x ∷ xs) = elim (f x) [ none ↦ gather_some f xs | some y ↦ y ∷ gather_some f xs ]

pub In-gather_some {ℓ ℓ'} :
    {A : Type ℓ} {B : Type ℓ'} (f : A → Option B) (xs : List A) {x : A} {y : B}
    → In x xs
    → f x ≡ some y
    → In y (gather_some f xs)
In-gather_some f [] at made = elim at [ ]
In-gather_some f (z ∷ xs) {x} {y} at made = elim (first_or_later at) [
  | inl e ↦ let made' : f z ≡ some y = sym (ap f e) ∙ made in rw (gather_some, made') (here refl)
  | inr later ↦
      let found = In-gather_some f xs later made in
      elim (Option-cases (f z)) [
        | inl skipped ↦ rw (gather_some, skipped) found
        | inr (w, kept) ↦ rw (gather_some, kept) (there found)
      ]
]
