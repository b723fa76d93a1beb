-- ===== src/Common/Text.antt =====
-- Texts, as lists of code points, with Python's `in` and `==` on them.
use chainbreak.Common.{
  ℕ, ◌≡◌, refl, Bool, true, false, ◌&&◌, ◌||◌, List, [], ◌∷◌, ◌++◌, Option, none, some, arith, ◌==◌,
  if◌then◌else◌, ==_refl, ==_iff, &&-eq-true,
}

abbrev pub Text : Type 0
Text = List ℕ

-- `text.startswith(prefix)`
abbrev pub starts_with : Text → Text → Bool
starts_with [] text = true
starts_with (p ∷ ps) [] = false
starts_with (p ∷ ps) (t ∷ ts) = p == t && starts_with ps ts

-- `part in text`
abbrev pub contains_text : Text → Text → Bool
contains_text part [] = starts_with part []
contains_text part (t ∷ ts) = starts_with part (t ∷ ts) || contains_text part ts

-- `left == right`
abbrev pub same_text : Text → Text → Bool
same_text [] [] = true
same_text [] (_ ∷ _) = false
same_text (_ ∷ _) [] = false
same_text (a ∷ xs) (b ∷ ys) = a == b && same_text xs ys

pub same_text_refl : (t : Text) → same_text t t ≡ true
same_text_refl [] = refl
same_text_refl (a ∷ t) = ground (arith, ==_refl a, same_text_refl t)

pub same_text-eq : (s t : Text) → same_text s t ≡ true → s ≡ t
same_text-eq [] [] h = refl
same_text-eq [] (b ∷ ys) h = cc
same_text-eq (a ∷ xs) [] h = cc
same_text-eq (a ∷ xs) (b ∷ ys) h =
    let (head, tail) = &&-eq-true (a == b) (same_text xs ys) h in
    let same : a ≡ b = (==_iff a b).0 head in let rest = same_text-eq xs ys tail in cc

starts_with-append : (part rest : Text) → starts_with part (part ++ rest) ≡ true
starts_with-append [] rest = refl
starts_with-append (p ∷ ps) rest = ground (arith, ==_refl p, starts_with-append ps rest)

-- A text contains what it was put together from.
pub contains_text-append :
    (before part rest : Text) → contains_text part (before ++ part ++ rest) ≡ true
contains_text-append [] [] [] = refl
contains_text-append [] [] (r ∷ rest) = refl
contains_text-append [] (p ∷ ps) rest = ground (arith, ==_refl p, starts_with-append ps rest)
contains_text-append (b ∷ before) part rest = ground (arith, contains_text-append before part rest)

module _ {ℓ} {Value : Type ℓ} where
  -- `d.get(text)` and `d[text] = value` of a dict keyed by texts.
  abbrev pub lookup_text : Text → List (Text × Value) → Option Value
  lookup_text key [] = none
  lookup_text key ((name, value) ∷ rest) =
      let later = lookup_text key rest in if same_text key name then some value else later

  abbrev pub insert_text : Text → Value → List (Text × Value) → List (Text × Value)
  insert_text key value [] = (key, value) ∷ []
  insert_text key value ((name, old) ∷ rest) =
      let later = insert_text key value rest in
      if same_text key name then (key, value) ∷ rest else (name, old) ∷ later

  pub lookup_text-insert_text :
      (key : Text) (value : Value) (d : List (Text × Value))
      → lookup_text key (insert_text key value d) ≡ some value
  lookup_text-insert_text key value [] = ground (arith, same_text_refl key)
  lookup_text-insert_text key value ((name, old) ∷ d) =
      ground (arith, same_text_refl key, lookup_text-insert_text key value d)
