-- ===== src/Core/Authority/Canonical.antt =====
-- `AuthoritySet.sorted` is a canonical form: strictly ascending, and equal for equal sets.
use chainbreak.Common.{
  ℕ, ◌<◌, ◌≤◌, ◌≡◌, refl, sym, ap, ◌∙◌, true, false, ◌||◌, ◌↔◌, List, [], ◌∷◌, arith, All, mem,
  ◌==◌, length, inl, inr, Bool-cases,
}
use chainbreak.Core.Authority.{AuthoritySet, insert, sorted, len, set_eq, is_subset_of}
use chainbreak.Core.Authority.Algebra.{is_subset_of_iff, set_eq_iff}

abbrev pub IsAscending : List ℕ → Type 0
IsAscending [] = Unit
IsAscending (x ∷ xs) = All (λ y. x < y) xs × IsAscending xs

mem-insert : (x a : ℕ) (ys : List ℕ) → mem x (insert a ys) ≡ (x == a || mem x ys)
unfolding insert
mem-insert x a [] = refl
mem-insert x a (y ∷ ys) = ground (arith, mem-insert x a ys)

All-lt-insert :
    (b a : ℕ) (ys : List ℕ) → b < a → All (λ y. b < y) ys → All (λ y. b < y) (insert a ys)
unfolding insert
All-lt-insert b a [] h hs = (h, tt)
All-lt-insert b a (y ∷ ys) h hs = ground (arith, All-lt-insert b a ys h hs.1)

All-lt_trans : (a b : ℕ) (ys : List ℕ) → a < b → All (λ y. b < y) ys → All (λ y. a < y) ys
All-lt_trans a b [] h hs = tt
All-lt_trans a b (y ∷ ys) h hs = (omega arith, All-lt_trans a b ys h hs.1)

insert-IsAscending : (a : ℕ) (ys : List ℕ) → IsAscending ys → IsAscending (insert a ys)
unfolding insert
insert-IsAscending a [] h = (tt, tt)
insert-IsAscending a (y ∷ ys) h =
    ground (arith, insert-IsAscending a ys h.1, All-lt-insert y a ys, All-lt_trans a y ys)

pub sorted-IsAscending : (s : AuthoritySet) → IsAscending (sorted s)
unfolding sorted
sorted-IsAscending [] = tt
sorted-IsAscending (x ∷ xs) = insert-IsAscending x (sorted xs) (sorted-IsAscending xs)

pub mem-sorted : (x : ℕ) (s : AuthoritySet) → mem x (sorted s) ≡ mem x s
unfolding sorted
mem-sorted x [] = refl
mem-sorted x (y ∷ ys) = ground (arith, mem-insert x y (sorted ys), mem-sorted x ys)

All-lt-mem : (b x : ℕ) (ys : List ℕ) → All (λ y. b < y) ys → mem x ys ≡ true → b < x
All-lt-mem b x [] h m = cc
All-lt-mem b x (y ∷ ys) h m = ground (arith, All-lt-mem b x ys h.1)

-- Two ascending lists with the same members have the same head and tail.
IsAscending-ext :
    (xs ys : List ℕ) → IsAscending xs → IsAscending ys → ((x : ℕ) → mem x xs ≡ mem x ys) → xs ≡ ys
IsAscending-ext [] [] hx hy h = refl
IsAscending-ext [] (y ∷ ys) hx hy h = ground (arith, h y)
IsAscending-ext (x ∷ xs) [] hx hy h = ground (arith, h x)
IsAscending-ext (x ∷ xs) (y ∷ ys) hx hy h =
    let first : x ≡ y = ground (arith, h x, h y, All-lt-mem x y xs hx.0, All-lt-mem y x ys hy.0) in
    let rest : xs ≡ ys =
      IsAscending-ext xs ys hx.1 hy.1
        λ a. ground (arith, h a, All-lt-mem x a xs hx.0, All-lt-mem y a ys hy.0) in
    cc

-- Two sets are equal exactly when their canonical lists are.
sorted_canonical : (s t : AuthoritySet) → (set_eq s t ≡ true) ↔ (sorted s ≡ sorted t)
sorted_canonical s t = (
  λ h.
      IsAscending-ext (sorted s) (sorted t) (sorted-IsAscending s) (sorted-IsAscending t)
        λ x. mem-sorted x s ∙ (set_eq_iff s t).0 h x ∙ sym (mem-sorted x t),
  λ e. (set_eq_iff s t).1 λ x. sym (mem-sorted x s) ∙ ap (mem x) e ∙ mem-sorted x t,
)

All-lt-false : (a : ℕ) (ys : List ℕ) → All (λ y. a < y) ys → mem a ys ≡ false
All-lt-false a [] h = refl
All-lt-false a (y ∷ ys) h = ground (arith, All-lt-false a ys h.1)

length-le :
    (xs ys : List ℕ)
    → IsAscending xs
    → IsAscending ys
    → ((x : ℕ) → mem x xs ≡ true → mem x ys ≡ true)
    → length xs ≤ length ys
length-le [] ys hx hy h = omega arith
length-le (x ∷ xs) [] hx hy h = ground (arith, h x)
length-le (x ∷ xs) (y ∷ ys) hx hy h = elim (Bool-cases (x == y)) [
  | inl e ↦
      let rest : length xs ≤ length ys =
        length-le xs ys hx.1 hy.1 λ a m. ground (arith, h a, All-lt-mem x a xs hx.0 m) in
      omega arith
  | inr e ↦
      let rest : length (x ∷ xs) ≤ length ys = length-le (x ∷ xs) ys hx hy.1 λ a m. ground (
        arith,
        h x,
        h a,
        All-lt-mem x a xs hx.0,
        All-lt-mem y x ys hy.0,
        All-lt-false y xs,
        All-lt-mem x y xs hx.0,
      ) in
      omega arith
]

-- A subset has at most as many members.
pub len-le_of_subset : (s t : AuthoritySet) → is_subset_of s t ≡ true → len s ≤ len t
unfolding len
len-le_of_subset s t h =
    length-le (sorted s) (sorted t) (sorted-IsAscending s) (sorted-IsAscending t)
      λ x m. rw (mem-sorted x t) ((is_subset_of_iff s t).0 h x (rw (mem-sorted x s) at m))
