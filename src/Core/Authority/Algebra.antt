-- ===== src/Core/Authority/Algebra.antt =====
-- The set algebra of `AuthoritySet`, by its membership test.
use chainbreak.Common.{
  ℕ, ◌≡◌, refl, ap, ◌↔◌, Bool, true, false, not, ◌&&◌, ◌||◌, List, [], ◌∷◌, ◌++◌, arith, filter,
  all, mem, ◌==◌, Bool-ext, &&-eq-true, ==_iff, inl, inr, Bool-cases,
}
use chainbreak.Core.Authority.{AuthoritySet, diff, inter, union, is_subset_of, is_empty, set_eq}

-- A test that is the same for equal numbers.
mem-filter : (p : ℕ → Bool) (x : ℕ) (xs : List ℕ) → mem x (filter p xs) ≡ (mem x xs && p x)
mem-filter p x [] = refl
mem-filter p x (y ∷ ys) = elim (Bool-cases (x == y)) [
  | inl e ↦ let same : x ≡ y = (==_iff x y).0 e in ground (arith, ap p same, mem-filter p x ys)
  | inr e ↦ ground (arith, mem-filter p x ys)
]

pub mem-append : (x : ℕ) (xs ys : List ℕ) → mem x (xs ++ ys) ≡ (mem x xs || mem x ys)
mem-append x [] ys = refl
mem-append x (y ∷ xs) ys = ground (arith, mem-append x xs ys)

pub mem-diff : (x : ℕ) (s t : AuthoritySet) → mem x (diff s t) ≡ (mem x s && not (mem x t))
unfolding diff
mem-diff x s t = mem-filter (λ y. not (mem y t)) x s

pub mem-inter : (x : ℕ) (s t : AuthoritySet) → mem x (inter s t) ≡ (mem x s && mem x t)
unfolding inter
mem-inter x s t = mem-filter (λ y. mem y t) x s

pub mem-union : (x : ℕ) (s t : AuthoritySet) → mem x (union s t) ≡ (mem x s || mem x t)
unfolding union
mem-union x s t = mem-append x s t

all-mem : (p : ℕ → Bool) (xs : List ℕ) → all p xs ≡ true → (x : ℕ) → mem x xs ≡ true → p x ≡ true
all-mem p [] h x m = cc
all-mem p (y ∷ ys) h x m = elim (Bool-cases (x == y)) [
  | inl e ↦ let same : x ≡ y = (==_iff x y).0 e in ground (arith, ap p same)
  | inr e ↦ all-mem p ys (&&-eq-true (p y) (all p ys) h).1 x (ground arith)
]

mem-all : (p : ℕ → Bool) (xs : List ℕ) → ((x : ℕ) → mem x xs ≡ true → p x ≡ true) → all p xs ≡ true
mem-all p [] h = refl
mem-all p (y ∷ ys) h = ground (arith, h y (ground arith), mem-all p ys (λ x m. h x (ground arith)))

-- The inclusion test decides inclusion.
pub is_subset_of_iff :
    (s t : AuthoritySet) → (is_subset_of s t ≡ true) ↔ ((x : ℕ) → mem x s ≡ true → mem x t ≡ true)
unfolding is_subset_of
is_subset_of_iff s t = (all-mem (λ x. mem x t) s, mem-all (λ x. mem x t) s)

-- The equality test of two sets decides that they have the same members.
pub set_eq_iff : (s t : AuthoritySet) → (set_eq s t ≡ true) ↔ ((x : ℕ) → mem x s ≡ mem x t)
unfolding set_eq
set_eq_iff s t = (
  λ h x.
      let both = &&-eq-true (is_subset_of s t) (is_subset_of t s) h in
      Bool-ext (mem x s) (mem x t) ((is_subset_of_iff s t).0 both.0 x)
        ((is_subset_of_iff t s).0 both.1 x),
  λ h. ground (
    arith,
    (is_subset_of_iff s t).1 (λ x m. rw (← h x) m),
    (is_subset_of_iff t s).1 (λ x m. rw (h x) m),
  ),
)

-- The emptiness test decides that there is no member.
pub is_empty_iff : (s : AuthoritySet) → (is_empty s ≡ true) ↔ ((x : ℕ) → mem x s ≡ false)
unfolding is_empty
is_empty_iff [] = (λ _ x. refl, λ _. refl)
is_empty_iff (y ∷ ys) = (λ h x. cc, λ h. ground (arith, h y))
