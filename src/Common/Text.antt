-- ===== src/Common/Text.antt =====
-- Go's `strings` functions on the code points of a text.
use Prim.Native.Char.{code}
use spotalis.Common.{
  ℕ, zero, suc, String, Bool, true, false, ◌&&◌, ◌==◌, if◌then◌else◌, List, [], ◌∷◌, ◌++◌, ◌+◌, ◌≡◌,
  refl, arith, ap, leb,
}

abbrev pub Text : Type 0
Text = List ℕ

-- The code points of a text literal.
abbrev pub codes : String → Text
codes String.[] = []
codes (String.◌∷◌ c s) = code c ∷ codes s

-- strings.HasPrefix(s, prefix)
abbrev pub has_prefix : Text → Text → Bool
has_prefix [] s = true
has_prefix (p ∷ ps) [] = false
has_prefix (p ∷ ps) (c ∷ s) = (p == c) && has_prefix ps s

-- strings.TrimSuffix(s, suffix) for a suffix of one code point.
unfoldable pub trim_suffix : ℕ → Text → Text
trim_suffix p [] = []
trim_suffix p (c ∷ []) = if c == p then [] else c ∷ []
trim_suffix p (c ∷ (d ∷ s)) = c ∷ trim_suffix p (d ∷ s)

-- The text behind a prefix of the given length.
abbrev pub skip : ℕ → Text → Text
skip zero s = s
skip (suc n) [] = []
skip (suc n) (c ∷ s) = skip n s

-- strings.ReplaceAll(s, old, new) for a text `old` of two or of one code point, from left to right:
-- the rest of a match of two code points is passed over.
unfoldable pub replace_pair : ℕ → ℕ → Text → Text → Text
replace_pair o p new [] = []
replace_pair o p new (c ∷ []) = c ∷ []
replace_pair o p new (c ∷ (d ∷ s)) =
    let matched = new ++ replace_pair o p new s in
    let other = c ∷ replace_pair o p new (d ∷ s) in if (c == o) && (d == p) then matched else other

unfoldable pub replace_one : ℕ → Text → Text → Text
replace_one o new [] = []
replace_one o new (c ∷ s) = (if c == o then new else c ∷ []) ++ replace_one o new s

-- What is not the first code point of a match stays.
pub replace_pair-other :
    (o p : ℕ) (new : Text) (c : ℕ) (s : Text)
    → (c == o) ≡ false
    → replace_pair o p new (c ∷ s) ≡ c ∷ replace_pair o p new s
unfolding replace_pair
replace_pair-other o p new c [] h = refl
replace_pair-other o p new c (d ∷ s) h = rw h

-- A first code point that no second one follows stays.
pub replace_pair-half :
    (o p : ℕ) (new : Text) (d : ℕ) (s : Text)
    → (d == p) ≡ false
    → replace_pair o p new (o ∷ (d ∷ s)) ≡ o ∷ replace_pair o p new (d ∷ s)
unfolding replace_pair
replace_pair-half o p new d s h = ground arith

pub replace_pair-match :
    (o p : ℕ) (new : Text) (s : Text)
    → replace_pair o p new (o ∷ (p ∷ s)) ≡ new ++ replace_pair o p new s
unfolding replace_pair
replace_pair-match o p new s = ground arith

-- Go's == on texts.
abbrev pub eq_text : Text → Text → Bool
eq_text [] [] = true
eq_text [] (d ∷ t) = false
eq_text (c ∷ s) [] = false
eq_text (c ∷ s) (d ∷ t) = (c == d) && eq_text s t

pub eq_text_refl : (s : Text) → eq_text s s ≡ true
eq_text_refl [] = refl
eq_text_refl (c ∷ s) = ground (arith, eq_text_refl s)

pub trim_suffix-append : (p : ℕ) (s : Text) → trim_suffix p (s ++ p ∷ []) ≡ s
unfolding trim_suffix
trim_suffix-append p [] = ground arith
trim_suffix-append p (c ∷ []) = ground arith
trim_suffix-append p (c ∷ (d ∷ s)) = ap (λ r. c ∷ r) (trim_suffix-append p (d ∷ s))

-- strings.ToLower, as far as it goes on the ASCII letters.
unfoldable pub to_lower : Text → Text
to_lower [] = []
to_lower (c ∷ s) = (if leb b'A' c && leb c b'Z' then c + 32 else c) ∷ to_lower s

pub eq_of_eq_text : (s t : Text) → eq_text s t ≡ true → s ≡ t
eq_of_eq_text [] [] h = refl
eq_of_eq_text [] (d ∷ t) h = cc
eq_of_eq_text (c ∷ s) [] h = cc
eq_of_eq_text (c ∷ s) (d ∷ t) h = ground (arith, eq_of_eq_text s t)
