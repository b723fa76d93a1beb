-- ===== src/Common/Nodup.antt =====
-- Lists of numbers without repetition, and the pigeonhole principle for them.
use chainbreak.Common.{
  ℕ, suc, ◌≤◌, ◌≡◌, refl, Bool, true, false, ◌||◌, not, ◌&&◌, List, [], ◌∷◌, ◌++◌, arith, ◌==◌,
  if◌then◌else◌, length, mem, Bool-cases, inl, inr, ==_iff,
}

abbrev pub Nodup : List ℕ → Type 0
Nodup [] = Unit
Nodup (x ∷ xs) = (mem x xs ≡ false) × Nodup xs

-- `len(set(xs)) == len(xs)`
unfoldable pub all_distinct : List ℕ → Bool
all_distinct [] = true
all_distinct (x ∷ xs) = not (mem x xs) && all_distinct xs

pub all_distinct-Nodup : (xs : List ℕ) → all_distinct xs ≡ true → Nodup xs
unfolding all_distinct
all_distinct-Nodup [] h = tt
all_distinct-Nodup (x ∷ xs) h = (ground arith, all_distinct-Nodup xs (ground arith))

pub mem-append : (x : ℕ) (xs ys : List ℕ) → mem x (xs ++ ys) ≡ (mem x xs || mem x ys)
mem-append x [] ys = refl
mem-append x (y ∷ xs) ys = ground (arith, mem-append x xs ys)

pub Nodup-append :
    (xs ys : List ℕ)
    → Nodup xs
    → Nodup ys
    → ((x : ℕ) → mem x xs ≡ true → mem x ys ≡ false)
    → Nodup (xs ++ ys)
Nodup-append [] ys hx hy apart = hy
Nodup-append (x ∷ xs) ys hx hy apart = (
  ground (arith, mem-append x xs ys, apart x),
  Nodup-append xs ys hx.1 hy (λ a m. apart a (ground arith)),
)

-- Takes out one occurrence.
remove : ℕ → List ℕ → List ℕ
remove x [] = []
remove x (y ∷ ys) = if x == y then ys else y ∷ remove x ys

length-remove : (x : ℕ) (ys : List ℕ) → mem x ys ≡ true → suc (length (remove x ys)) ≡ length ys
unfolding remove
length-remove x [] m = cc
length-remove x (y ∷ ys) m = ground (arith, length-remove x ys)

mem-remove :
    (a x : ℕ) (ys : List ℕ) → (a == x) ≡ false → mem a ys ≡ true → mem a (remove x ys) ≡ true
unfolding remove
mem-remove a x [] ne m = m
mem-remove a x (y ∷ ys) ne m = ground (arith, mem-remove a x ys ne)

pub mem_apart : (x a : ℕ) (xs : List ℕ) → mem x xs ≡ false → mem a xs ≡ true → (a == x) ≡ false
mem_apart x a [] h m = cc
mem_apart x a (y ∷ ys) h m = ground (arith, mem_apart x a ys)

-- A list without repetition that lies in another is no longer.
pub Nodup-length-le :
    (xs ys : List ℕ)
    → Nodup xs
    → ((x : ℕ) → mem x xs ≡ true → mem x ys ≡ true)
    → length xs ≤ length ys
Nodup-length-le [] ys nodup sub = omega arith
Nodup-length-le (x ∷ xs) ys nodup sub =
    let rest : length xs ≤ length (remove x ys) =
      Nodup-length-le xs (remove x ys) nodup.1
        λ a m. mem-remove a x ys (mem_apart x a xs nodup.0 m) (sub a (ground arith)) in
    omega (arith, length-remove x ys (sub x (ground arith)))

-- A list without repetition that lies in another and is as long covers it.
pub Nodup-covers :
    (xs ys : List ℕ)
    → Nodup xs
    → ((x : ℕ) → mem x xs ≡ true → mem x ys ≡ true)
    → length ys ≤ length xs
    → (y : ℕ) → mem y ys ≡ true
    → mem y xs ≡ true
Nodup-covers xs ys nodup sub long y m = elim (Bool-cases (mem y xs)) [
  | inl there_it_is ↦ there_it_is
  | inr missing ↦ absurd (
      omega (
        arith,
        Nodup-length-le (y ∷ xs) ys (missing, nodup)
            λ a h. elim (Bool-cases (a == y)) [
              | inl e ↦ let same : a ≡ y = (==_iff a y).0 e in rw same m
              | inr ne ↦ sub a (ground arith)
            ],
      ))
]
