-- ===== src/Common/Strconv.antt =====
-- Go's `strconv.Atoi` and `strconv.FormatInt` in base ten, on the code points of a text.
use spotalis.Common.{
  ℕ, zero, suc, ◌+◌, ◌-◌, ◌*◌, ◌/◌, ◌%◌, ◌^◌, ◌<◌, ◌≤◌, ◌≡◌, refl, Bool, true, ◌&&◌, ◌==◌, ltb, leb,
  if◌then◌else◌, Option, none, some, [], ◌∷◌, ℤ, pos, negsuc, pos_part, neg_part, arith, Bool-cases,
  inl, inr, ◌∙◌, ap,
}
use spotalis.Common.Text.{Text}

is_digit : ℕ → Bool
is_digit c = leb b'0' c && leb c b'9'

-- The digits read so far are the number n; `none` is a syntax error.
parse_digits : ℕ → Text → Option ℕ
unfolding is_digit
parse_digits n [] = some n
parse_digits n (c ∷ s) =
    let rest = parse_digits (n * 10 + (c - b'0')) s in if is_digit c then rest else none

-- At least one digit.
parse_nat : Text → Option ℕ
unfolding parse_digits
parse_nat [] = none
parse_nat (c ∷ s) = parse_digits 0 (c ∷ s)

abbrev negated : ℕ → ℤ
negated zero = pos 0
negated (suc n) = negsuc n

-- The number of a text without its sign, if it fits `bits` bits.
abbrev in_range : ℕ → Option ℕ → Option ℤ
in_range limit none = none
in_range limit (some n) = if ltb n limit then some (pos n) else none

abbrev in_range_neg : ℕ → Option ℕ → Option ℤ
in_range_neg limit none = none
in_range_neg limit (some n) = if leb n limit then some (negated n) else none

-- strconv.ParseInt(s, 10, bits) for 2 ^ (bits - 1) = limit; an error is `none`.
unfoldable pub parse_int : ℕ → Text → Option ℤ
unfolding parse_nat
parse_int limit [] = none
parse_int limit (c ∷ s) =
    if c == b'-'
    then in_range_neg limit (parse_nat s)
    else if c == b'+'
    then in_range limit (parse_nat s)
    else in_range limit (parse_nat (c ∷ s))

-- strconv.Atoi(s)
unfoldable pub atoi : Text → Option ℤ
unfolding parse_int
atoi s = parse_int (2 ^ 63) s

-- The decimal digits of a number, on fuel: n + 1 rounds are enough for n.
format_digits : ℕ → ℕ → Text → Text
format_digits zero n acc = acc
format_digits (suc f) n acc =
    let acc' = (b'0' + n % 10) ∷ acc in
    let rest = format_digits f (n / 10) acc' in if ltb n 10 then acc' else rest

unfoldable pub format_nat : ℕ → Text
unfolding format_digits
format_nat n = format_digits (suc n) n []

-- strconv.FormatInt(z, 10)
unfoldable pub format_int : ℤ → Text
unfolding format_nat
format_int (pos n) = format_nat n
format_int (negsuc n) = b'-' ∷ format_nat (suc n)

digit_parses :
    (m n : ℕ) (acc : Text)
    → n < 10
    → parse_digits m ((b'0' + n) ∷ acc) ≡ parse_digits (m * 10 + n) acc
unfolding parse_digits
digit_parses m n acc h =
    let rest = (b'0' + n) - b'0' in
    let same : rest ≡ n = omega arith in rw same (rw (digit_true n h))
  where
    digit_true : (n : ℕ) → n < 10 → is_digit (b'0' + n) ≡ true
    digit_true n h = ground arith

parse_format_digits :
    (f n : ℕ) (acc : Text) → n < f → parse_digits 0 (format_digits f n acc) ≡ parse_digits n acc
unfolding format_digits
parse_format_digits zero n acc h = absurd (omega arith)
parse_format_digits (suc f) n acc h = elim (Bool-cases (ltb n 10)) [
  | inl last ↦
      rw last
        (digit_parses 0 (n % 10) acc (omega arith) ∙ ap (λ x. parse_digits x acc) (ground arith))
  | inr more ↦ rw more (
      parse_format_digits f (n / 10) _ (ground arith)
      ∙ digit_parses (n / 10) (n % 10) acc (omega arith)
      ∙ ap (λ x. parse_digits x acc) (omega arith))
]

-- The text of a number begins with a digit.
abbrev DigitFirst : Text → Type 0
DigitFirst [] = ⊥
DigitFirst (c ∷ s) = (b'0' ≤ c) × (c ≤ b'9')

format_digits-DigitFirst :
    (f n : ℕ) (acc : Text) → DigitFirst acc → DigitFirst (format_digits f n acc)
unfolding format_digits
format_digits-DigitFirst zero n acc h = h
format_digits-DigitFirst (suc f) n acc h = elim (Bool-cases (ltb n 10)) [
  | inl last ↦ rw last (omega arith, omega arith)
  | inr more ↦ rw more (format_digits-DigitFirst f (n / 10) _ (omega arith, omega arith))
]

format_nat-DigitFirst : (n : ℕ) → DigitFirst (format_nat n)
unfolding format_nat format_digits
format_nat-DigitFirst n = elim (Bool-cases (ltb n 10)) [
  | inl last ↦ rw last (omega arith, omega arith)
  | inr more ↦ rw more (format_digits-DigitFirst n (n / 10) _ (omega arith, omega arith))
]

parse_digits-format_nat : (n : ℕ) → parse_digits 0 (format_nat n) ≡ some n
unfolding format_nat
parse_digits-format_nat n =
    parse_format_digits (suc n) n [] (omega arith) ∙ unfold parse_digits in refl

-- A text that begins with a digit is parsed as a number without a sign.
parse_unsigned :
    (limit : ℕ) (s : Text) (n : ℕ)
    → DigitFirst s
    → parse_digits 0 s ≡ some n
    → n < limit
    → (parse_int limit s ≡ some (pos n)) × (parse_nat s ≡ some n)
unfolding parse_int
parse_unsigned limit [] n d e h = absurd d
parse_unsigned limit (c ∷ s) n d e h = (ground arith, e)

parse_negative :
    (limit : ℕ) (s : Text) (n : ℕ)
    → parse_nat s ≡ some (suc n)
    → suc n ≤ limit
    → parse_int limit (b'-' ∷ s) ≡ some (negsuc n)
unfolding parse_int
parse_negative limit s n e h = rw e (ground arith)

-- An integer of the range is read back from its text.
pub parse_int-format_int :
    (limit : ℕ) (z : ℤ)
    → pos_part z < limit
    → neg_part z ≤ limit
    → parse_int limit (format_int z) ≡ some z
unfolding format_int
parse_int-format_int limit (pos n) h k =
    (parse_unsigned limit (format_nat n) n (format_nat-DigitFirst n) (parse_digits-format_nat n)
      h).0
parse_int-format_int limit (negsuc n) h k =
    parse_negative limit (format_nat (suc n)) n
      (parse_unsigned (suc (suc n)) (format_nat (suc n)) (suc n) (format_nat-DigitFirst (suc n))
        (parse_digits-format_nat (suc n)) (omega arith)).1
      k

-- A parsed integer is in the range.
pub parse_int_bounds :
    (limit : ℕ) (s : Text) (z : ℤ)
    → 0 < limit
    → parse_int limit s ≡ some z
    → (pos_part z < limit) × (neg_part z ≤ limit)
unfolding parse_int
parse_int_bounds limit [] z k h = cc
parse_int_bounds limit (c ∷ s) z k h = ground arith
