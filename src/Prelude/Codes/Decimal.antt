-- ===== src/Prelude/Codes/Decimal.antt =====
-- Decimal numerals as bytes: `str(n)` and `int(text)`.
use smart_build.Prelude.{
  ℕ, zero, suc, ◌+◌, ◌-◌, ◌*◌, ◌/◌, ◌%◌, ◌^◌, ◌≤◌, ◌<◌, ◌≡◌, refl, Bool, true, false, ◌&&◌, not, [],
  ◌∷◌, Option, none, some, arith, leb, ltb, beq, length, all, if◌then◌else◌, inl, inr, ◌++◌, ap,
  ◌∙◌, replicate, List-cases,
}
use smart_build.Prelude.Codes.Trim.{lstrip-cons, rstrip-append_pad, rstrip_none}
use smart_build.Prelude.Codes.{Text, lstrip, rstrip, is_space}

-- on fuel: a number has fewer digits than its value and one
unfoldable pub decimal : (fuel n : ℕ) → Text → Text
decimal zero n rest = rest
decimal (suc fuel) n rest =
    let longer = decimal fuel (n / 10) ((b'0' + n % 10) ∷ rest) in
    if ltb n 10 then (b'0' + n) ∷ rest else longer

-- `str(n)`
unfoldable pub numeral : ℕ → Text
unfolding decimal
numeral n = decimal (suc n) n []

abbrev pub is_digit : ℕ → Bool
is_digit c = leb b'0' c && leb c b'9'

-- Digits with single underscores between them; the flag says whether a digit stands before.
unfoldable pub digits_value : ℕ → Bool → Text → Option ℕ
digits_value value digit [] = if digit then some value else none
digits_value value digit (c ∷ s) = elim (is_digit c) [
  | true ↦ digits_value (value * 10 + (c - b'0')) true s
  | false ↦ elim (beq c b'_' && digit) [ true ↦ digits_value value false s | false ↦ none ]
]

-- Python's `int`
pub data ℤ : Type 0 where
  pos negsuc : ℕ → ℤ

abbrev below_zero : Option ℕ → Option ℤ
below_zero none = none
below_zero (some zero) = some (pos 0)
below_zero (some (suc n)) = some (negsuc n)

abbrev not_below_zero : Option ℕ → Option ℤ
not_below_zero none = none
not_below_zero (some n) = some (pos n)

signed : Text → Option ℤ
unfolding digits_value
signed [] = none
signed (c ∷ s) =
    if beq c b'-'
    then below_zero (digits_value 0 false s)
    else if beq c b'+'
    then not_below_zero (digits_value 0 false s)
    else not_below_zero (digits_value 0 false (c ∷ s))

-- `int(text.strip())`; `none` is a ValueError
unfoldable pub parse_int : Text → Option ℤ
unfolding signed lstrip rstrip
parse_int text = signed (rstrip is_space (lstrip is_space text))

digits_value-digit :
    (value : ℕ) (digit : Bool) (d : ℕ) (s : Text)
    → d < 10
    → digits_value value digit ((b'0' + d) ∷ s) ≡ digits_value (value * 10 + d) true s
unfolding digits_value
digits_value-digit value digit d s h = ground arith

digits_value-decimal :
    (fuel n : ℕ) (digit : Bool) (rest : Text)
    → n < fuel
    → digits_value 0 digit (decimal fuel n rest) ≡ digits_value n true rest
unfolding decimal
digits_value-decimal zero n digit rest h = absurd (omega arith)
digits_value-decimal (suc fuel) n digit rest h = ground (
  arith,
  digits_value-digit 0 digit n rest,
  digits_value-decimal fuel (n / 10) digit ((b'0' + n % 10) ∷ rest),
  digits_value-digit (n / 10) true (n % 10) rest,
)

-- All characters are digits.
pub all-decimal :
    (fuel n : ℕ) (rest : Text)
    → all is_digit rest ≡ true
    → all is_digit (decimal fuel n rest) ≡ true
unfolding decimal
all-decimal zero n rest h = h
all-decimal (suc fuel) n rest h = ground (arith, all-decimal fuel (n / 10) ((b'0' + n % 10) ∷ rest))

pub length-decimal :
    (fuel n k : ℕ) (rest : Text)
    → n < 10 ^ suc k
    → length (decimal fuel n rest) ≤ suc k + length rest
unfolding decimal
length-decimal zero n k rest h = omega arith
length-decimal (suc fuel) n zero rest h = ground arith
length-decimal (suc fuel) n (suc k) rest h =
    ground (arith, length-decimal fuel (n / 10) k ((b'0' + n % 10) ∷ rest))

spaces_of_digits : (s : Text) → all is_digit s ≡ true → all (λ c. not (is_space c)) s ≡ true
spaces_of_digits [] h = refl
spaces_of_digits (c ∷ s) h = ground (arith, spaces_of_digits s)

parse_int-digits :
    (c : ℕ) (s : Text) (k : ℕ)
    → all is_digit (c ∷ s) ≡ true
    → parse_int ((c ∷ s) ++ replicate k b' ') ≡ not_below_zero (digits_value 0 false (c ∷ s))
unfolding parse_int signed
parse_int-digits c s k h = rw (lstrip-cons is_space c (s ++ replicate k b' ') (ground arith)) (
    rw (rstrip-append_pad is_space (c ∷ s) k b' ' refl)
      (rw (rstrip_none is_space (c ∷ s) (spaces_of_digits (c ∷ s) h)) (ground arith)))

pub all-numeral : (n : ℕ) → all is_digit (numeral n) ≡ true
unfolding numeral
all-numeral n = all-decimal (suc n) n [] refl

pub length-numeral : (n : ℕ) → n < 10 ^ 10 → length (numeral n) ≤ 10
unfolding numeral
length-numeral n h = omega (arith, length-decimal (suc n) n 9 [] h)

numeral-value : (n : ℕ) → digits_value 0 false (numeral n) ≡ some n
unfolding numeral digits_value
numeral-value n = digits_value-decimal (suc n) n false [] (omega arith)

-- A numeral in a field of blanks is read back.
pub parse_int-numeral : (n k : ℕ) → parse_int (numeral n ++ replicate k b' ') ≡ some (pos n)
unfolding digits_value
parse_int-numeral n k = elim (List-cases (numeral n)) [
  | inl e ↦ cc (rw e at (numeral-value n))
  | inr (c, s, e) ↦ rw e (
      parse_int-digits c s k (rw e at (all-numeral n))
      ∙ ap not_below_zero (rw e at (numeral-value n)))
]
