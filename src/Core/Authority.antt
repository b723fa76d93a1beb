-- ===== src/Core/Authority.antt =====
-- `AuthoritySet` (src/chainbreak/core/models.py). Identifiers are only compared, for equality and
-- for the lexicographic order, so an identifier is a number, its place in that order. A frozenset
-- is a list of which only the membership counts: repetitions and order carry no meaning, and
-- whatever the source derives from the order goes through `sorted`.
pub mod Algebra
pub mod Canonical
use chainbreak.Common.{
  ℕ, Bool, true, false, not, ◌&&◌, List, [], ◌∷◌, ◌++◌, ltb, ◌==◌, if◌then◌else◌, length, all,
  filter, mem,
}

abbrev pub CapabilityId : Type 0
CapabilityId = ℕ

abbrev pub AuthoritySet : Type 0
AuthoritySet = List CapabilityId

abbrev pub empty_authority : AuthoritySet
empty_authority = []

-- `AuthoritySet.from_iterable`, and `AuthoritySet.of` on its arguments.
abbrev pub from_iterable : List CapabilityId → AuthoritySet
from_iterable values = values

abbrev pub contains : AuthoritySet → CapabilityId → Bool
contains s item = mem item s

-- `__sub__`, `__and__` and `__or__`.
unfoldable pub diff : AuthoritySet → AuthoritySet → AuthoritySet
diff s other = filter (λ x. not (mem x other)) s

unfoldable pub inter : AuthoritySet → AuthoritySet → AuthoritySet
inter s other = filter (λ x. mem x other) s

unfoldable pub union : AuthoritySet → AuthoritySet → AuthoritySet
union s other = s ++ other

unfoldable pub is_subset_of : AuthoritySet → AuthoritySet → Bool
is_subset_of s other = all (λ x. mem x other) s

unfoldable pub is_superset_of : AuthoritySet → AuthoritySet → Bool
unfolding is_subset_of
is_superset_of s other = is_subset_of other s

unfoldable pub is_empty : AuthoritySet → Bool
is_empty [] = true
is_empty (_ ∷ _) = false

-- `==` of two frozensets.
unfoldable pub set_eq : AuthoritySet → AuthoritySet → Bool
unfolding is_subset_of
set_eq s other = is_subset_of s other && is_subset_of other s

-- Puts a number in its place in an ascending list, unless it is there.
unfoldable pub insert : CapabilityId → List CapabilityId → List CapabilityId
insert x [] = x ∷ []
insert x (y ∷ ys) =
    let rest = insert x ys in if ltb x y then x ∷ y ∷ ys else if x == y then y ∷ ys else y ∷ rest

-- `sorted(self.capabilities)`
unfoldable pub sorted : AuthoritySet → List CapabilityId
unfolding insert
sorted [] = []
sorted (x ∷ xs) = insert x (sorted xs)

-- `__len__`: a frozenset holds each member once.
unfoldable pub len : AuthoritySet → ℕ
unfolding sorted
len s = length (sorted s)
