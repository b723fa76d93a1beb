-- ===== src/Core/Ids/Order.antt =====
-- The lexicographic order of identifiers, and what encoding does to the order of numbers.
use Prim.Native.Nat.{◌^◌}
use chainbreak.Common.{
  ℕ, zero, suc, ◌/◌, ◌%◌, ◌<◌, ◌≡◌, refl, Bool, true, false, ◌&&◌, ◌||◌, [], ◌∷◌, ◌++◌, ◌⊎◌, inl,
  inr, ltb, ◌==◌, arith, length, ==_refl, length-append, sym, ap, ◌∙◌,
}
use chainbreak.Common.Text.{Text}
use chainbreak.Core.Ids.{
  crockford, at, low_digits, joined_reversed, encode_base32, is_ulid_character, matches_ulid,
  is_ulid, ulid_text,
}

-- `left < right` on texts.
abbrev pub text_before : Text → Text → Bool
text_before [] [] = false
text_before [] (_ ∷ _) = true
text_before (_ ∷ _) [] = false
text_before (a ∷ xs) (b ∷ ys) = let rest = text_before xs ys in ltb a b || (a == b && rest)

-- Texts of equal length compare by their first parts, where these differ.
pub text_before-append :
    (xs ys us vs : Text)
    → length xs ≡ length ys
    → text_before xs ys ≡ true
    → text_before (xs ++ us) (ys ++ vs) ≡ true
text_before-append [] [] us vs same h = cc
text_before-append [] (y ∷ ys) us vs same h = ground (arith, same)
text_before-append (x ∷ xs) [] us vs same h = ground (arith, same)
text_before-append (x ∷ xs) (y ∷ ys) us vs same h =
    ground (arith, text_before-append xs ys us vs (omega (arith, same)), h)

pub text_before-append_same :
    (xs us vs : Text) → text_before us vs ≡ true → text_before (xs ++ us) (xs ++ vs) ≡ true
text_before-append_same [] us vs h = h
text_before-append_same (x ∷ xs) us vs h =
    ground (arith, ==_refl x, text_before-append_same xs us vs h)

-- A text whose code points ascend.
ascends_from : ℕ → Text → Bool
ascends_from least [] = true
ascends_from least (c ∷ text) = ltb least c && ascends_from c text

at-later :
    (least : ℕ) (text : Text) (j : ℕ)
    → ascends_from least text ≡ true
    → j < length text
    → least < at text j
unfolding at ascends_from
at-later least [] j h short = omega (arith, short)
at-later least (c ∷ text) zero h short = ground (arith, h)
at-later least (c ∷ text) (suc j) h short =
    ground (arith, at-later c text j (ground (arith, h)) (omega (arith, short)), h)

at-monotone :
    (least : ℕ) (text : Text) (i j : ℕ)
    → ascends_from least text ≡ true
    → i < j
    → j < length text
    → at text i < at text j
unfolding at ascends_from
at-monotone least [] i j h less short = omega (arith, short)
at-monotone least (c ∷ text) i zero h less short = omega (arith, less)
at-monotone least (c ∷ text) zero (suc j) h less short =
    at-later c text j (ground (arith, h)) (omega (arith, short))
at-monotone least (c ∷ text) (suc i) (suc j) h less short =
    at-monotone c text i j (ground (arith, h)) (omega (arith, less)) (omega (arith, short))

digit-monotone : (i j : ℕ) → i < j → j < 32 → at crockford i < at crockford j
unfolding ascends_from
digit-monotone i j less short = at-monotone 47 crockford i j refl less short

length-snoc : (text : Text) (c : ℕ) → length (text ++ c ∷ []) ≡ suc (length text)
length-snoc [] c = refl
length-snoc (d ∷ text) c = ap suc (length-snoc text c)

pub length-encode_base32 : (value n : ℕ) → length (encode_base32 value n) ≡ n
unfolding encode_base32 low_digits joined_reversed
length-encode_base32 value zero = refl
length-encode_base32 value (suc n) =
    length-snoc (encode_base32 (value / 32) n) (at crockford (value % 32))
    ∙ ap suc (length-encode_base32 (value / 32) n)

single_before : (c d : ℕ) → c < d → text_before (c ∷ []) (d ∷ []) ≡ true
single_before c d h = ground (arith, h)

-- Numbers that fit are encoded in their order.
pub encode_base32-monotone :
    (v w n : ℕ) → v < w → w < 32 ^ n → text_before (encode_base32 v n) (encode_base32 w n) ≡ true
unfolding encode_base32 low_digits joined_reversed
encode_base32-monotone v w zero less fits = ground (arith, less, fits)
encode_base32-monotone v w (suc n) less fits =
    let shorter : w / 32 < 32 ^ n = grind (arith, fits) in
    let split : (v / 32 < w / 32) ⊎ ((v / 32 ≡ w / 32) × (v % 32 < w % 32)) = ground arith in
    elim split [
      | inl h ↦
          text_before-append (encode_base32 (v / 32) n) (encode_base32 (w / 32) n)
            (at crockford (v % 32) ∷ []) (at crockford (w % 32) ∷ [])
            (length-encode_base32 (v / 32) n ∙ sym (length-encode_base32 (w / 32) n))
            (encode_base32-monotone (v / 32) (w / 32) n h shorter)
      | inr (same, last) ↦ rw same (
          text_before-append_same (encode_base32 (w / 32) n) (at crockford (v % 32) ∷ [])
            (at crockford (w % 32) ∷ [])
            (single_before (at crockford (v % 32)) (at crockford (w % 32))
              (digit-monotone (v % 32) (w % 32) last (omega arith))))
    ]

-- Every code point of an encoding is one that an identifier may have.
all_characters : Text → Bool
all_characters [] = true
all_characters (c ∷ text) = is_ulid_character c && all_characters text

all_characters-append :
    (xs ys : Text)
    → all_characters xs ≡ true
    → all_characters ys ≡ true
    → all_characters (xs ++ ys) ≡ true
unfolding all_characters
all_characters-append [] ys h k = k
all_characters-append (x ∷ xs) ys h k =
    ground (arith, all_characters-append xs ys (ground (arith, h)) k, h)

at-is_ulid_character :
    (text : Text) (i : ℕ)
    → all_characters text ≡ true
    → i < length text
    → is_ulid_character (at text i) ≡ true
unfolding all_characters at
at-is_ulid_character [] i h short = ground (arith, short)
at-is_ulid_character (c ∷ text) zero h short = ground (arith, h)
at-is_ulid_character (c ∷ text) (suc i) h short =
    at-is_ulid_character text i (ground (arith, h)) (omega (arith, short))

encode_base32-characters : (v n : ℕ) → all_characters (encode_base32 v n) ≡ true
unfolding all_characters encode_base32 low_digits joined_reversed is_ulid_character
encode_base32-characters v zero = refl
encode_base32-characters v (suc n) =
    all_characters-append (encode_base32 (v / 32) n) (at crockford (v % 32) ∷ [])
      (encode_base32-characters (v / 32) n)
      (ground (arith, at-is_ulid_character crockford (v % 32) refl (omega arith)))

matches_ulid-characters :
    (text : Text) → all_characters text ≡ true → matches_ulid (length text) text ≡ true
unfolding all_characters matches_ulid
matches_ulid-characters [] h = refl
matches_ulid-characters (c ∷ text) h =
    ground (arith, matches_ulid-characters text (ground (arith, h)), h)

pub ulid_text-is_ulid : (timestamp randomness : ℕ) → is_ulid (ulid_text timestamp randomness) ≡ true
unfolding is_ulid ulid_text
ulid_text-is_ulid t r =
    let long : length (encode_base32 t 10 ++ encode_base32 r 16) ≡ 26 =
      length-append (encode_base32 t 10) (encode_base32 r 16)
      ∙ rw (length-encode_base32 t 10, length-encode_base32 r 16) refl in
    let matched = matches_ulid-characters (encode_base32 t 10 ++ encode_base32 r 16) (
      all_characters-append (encode_base32 t 10) (encode_base32 r 16)
        (encode_base32-characters t 10) (encode_base32-characters r 16)) in
    rw long at matched

-- A later timestamp, or the same and a greater randomness, gives a later identifier.
pub ulid_text-monotone :
    (t r u s : ℕ)
    → (t < u) ⊎ ((t ≡ u) × (r < s))
    → u < 32 ^ 10
    → s < 2 ^ 80
    → text_before (ulid_text t r) (ulid_text u s) ≡ true
unfolding ulid_text
ulid_text-monotone t r u s (inl less) fits small =
    text_before-append (encode_base32 t 10) (encode_base32 u 10) (encode_base32 r 16)
      (encode_base32 s 16) (length-encode_base32 t 10 ∙ sym (length-encode_base32 u 10))
      (encode_base32-monotone t u 10 less fits)
ulid_text-monotone t r u s (inr (same, less)) fits small = rw same (
    text_before-append_same (encode_base32 u 10) (encode_base32 r 16) (encode_base32 s 16)
      (encode_base32-monotone r s 16 less small))
