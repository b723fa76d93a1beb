-- ===== src/Core/Errors/Collect.antt =====
-- The loop `for x in xs` that raises, or skips with `continue`, or appends to a list.
use chainbreak.Common.{
  ◌≡◌, refl, sym, ap, ◌∙◌, List, [], ◌∷◌, Option, none, some, In, here, there, first_or_later,
  Option-cases, inl, inr,
}
use chainbreak.Core.Errors.{Result, ok, ◌>>=◌, >>=-eq-ok, ok_eq}

abbrev pub collect {ℓ ℓ'} :
    {A : Type ℓ} {B : Type ℓ'} → (A → Result (Option B)) → List A → Result (List B)
collect step [] = ok []
collect step (x ∷ xs) = do
  built ← step x
  rest ← collect step xs
  ok (elim built [ none ↦ rest | some y ↦ y ∷ rest ])

module _ {ℓ ℓ'} {A : Type ℓ} {B : Type ℓ'} (step : A → Result (Option B)) where
  -- Every member of the result is appended for some element.
  pub collect-from :
      (xs : List A) (ys : List B)
      → collect step xs ≡ ok ys
      → (y : B) → In y ys
      → (x : A) × In x xs × (step x ≡ ok (some y))
  collect-from [] ys made y at =
      let nothing : [] ≡ ys = cc in let at' = rw (sym nothing) at at in elim at' [ ]
  collect-from (x ∷ xs) ys made y at =
      let (built, first, k) = >>=-eq-ok (step x) _ made in
      let (rest, later, last) = >>=-eq-ok (collect step xs) _ k in
      let behind : In y rest → (x' : A) × In x' (x ∷ xs) × (step x' ≡ ok (some y)) =
        λ m. let (x', m', e) = collect-from xs rest later y m in (x', there m', e) in
      elim (Option-cases built) [
        | inl skipped ↦
            let same : rest ≡ ys = ok_eq (rw skipped at last) in behind (rw (sym same) at at)
        | inr (z, added) ↦
            let same : z ∷ rest ≡ ys = ok_eq (rw added at last) in
            let at' : In y (z ∷ rest) = rw (sym same) at at in
            elim (first_or_later at') [
              | inl e ↦ (x, here refl, first ∙ ap ok (added ∙ ap some (sym e)))
              | inr m ↦ behind m
            ]
      ]

  -- No element raises, and what it appends is a member of the result.
  pub collect-into :
      (xs : List A) (ys : List B)
      → collect step xs ≡ ok ys
      → (x : A) → In x xs
      → (built : Option B) × (step x ≡ ok built) × ((y : B) → built ≡ some y → In y ys)
  collect-into [] ys made x at = elim at [ ]
  collect-into (x ∷ xs) ys made x' at =
      let (built, first, k) = >>=-eq-ok (step x) _ made in
      let (rest, later, last) = >>=-eq-ok (collect step xs) _ k in
      elim (Option-cases built) [
        | inl skipped ↦
            let same : rest ≡ ys = ok_eq (rw skipped at last) in
            elim (first_or_later at) [
              | inl e ↦ (built, ap step e ∙ first, λ y is. cc)
              | inr m ↦
                  let (b, e, kept) = collect-into xs rest later x' m in
                  (b, e, λ y is. rw same at kept y is)
            ]
        | inr (z, added) ↦
            let same : z ∷ rest ≡ ys = ok_eq (rw added at last) in
            elim (first_or_later at) [
              | inl e ↦ (
                built,
                ap step e ∙ first,
                λ y is. let is_z : y ≡ z = cc in (rw (sym same) (here is_z)),
              )
              | inr m ↦
                  let (b, e, kept) = collect-into xs rest later x' m in
                  (b, e, λ y is. (rw (sym same) (there (kept y is))))
            ]
      ]
