-- ===== src/Prelude/Codes/Lines.antt =====
-- `str.splitlines`, `str.split("\n\n")`, `str.split(":", 1)` and what a text file read in text mode
-- holds.
use smart_build.Prelude.{
  ℕ, ◌≡◌, refl, Bool, true, false, not, ◌&&◌, ◌||◌, List, [], ◌∷◌, ◌++◌, Option, none, some, arith,
  all, leb, beq, if◌then◌else◌,
}
use smart_build.Prelude.Codes.{Text}

-- what `splitlines` ends a line at
abbrev pub is_break : ℕ → Bool
is_break c =
    (leb 10 c && leb c 13) || (leb 28 c && leb c 30) || beq c 0x85 || beq c 0x2028 || beq c 0x2029

-- One more character before the first of some parts.
abbrev pub grow : ℕ → List Text → List Text
grow c [] = (c ∷ []) ∷ []
grow c (part ∷ parts) = (c ∷ part) ∷ parts

-- The flag says that a carriage return was read, with which a newline is one break.
unfoldable pub lines_from : Bool → Text → List Text
lines_from returned [] = []
lines_from returned (c ∷ s) = elim (returned && beq c b'\n') [
  | true ↦ lines_from false s
  | false ↦ elim (is_break c) [
    | true ↦ [] ∷ lines_from (beq c b'\r') s
    | false ↦ grow c (lines_from false s)
  ]
]

unfoldable pub splitlines : Text → List Text
unfolding lines_from
splitlines = lines_from false

-- `text.split("\n\n")`
unfoldable pub split_blank : Text → List Text
split_blank [] = [] ∷ []
split_blank (c ∷ []) = (c ∷ []) ∷ []
split_blank (c ∷ d ∷ s) = elim (beq c b'\n' && beq d b'\n') [
  | true ↦ [] ∷ split_blank s
  | false ↦ grow c (split_blank (d ∷ s))
]

-- `line.split(":", 1)`; `none` where there is no colon
abbrev pub add_key : ℕ → Option (Text × Text) → Option (Text × Text)
add_key c none = none
add_key c (some (key, value)) = some (c ∷ key, value)

unfoldable pub split_colon : Text → Option (Text × Text)
split_colon [] = none
split_colon (c ∷ s) = if beq c b':' then some ([], s) else add_key c (split_colon s)

-- the newlines that `read_text` makes of the ends of lines
unfoldable pub universal_newlines : Bool → Text → Text
universal_newlines returned [] = []
universal_newlines returned (c ∷ s) = elim (returned && beq c b'\n') [
  | true ↦ universal_newlines false s
  | false ↦ (if beq c b'\r' then b'\n' else c) ∷ universal_newlines (beq c b'\r') s
]

-- `separator.join(parts)`
unfoldable pub join : Text → List Text → Text
join separator [] = []
join separator (part ∷ []) = part
join separator (part ∷ next ∷ parts) = part ++ (separator ++ join separator (next ∷ parts))

abbrev pub no_break : Text → Bool
no_break = all (λ c. not (is_break c))

pub lines_from-append :
    (line s : Text)
    → no_break line ≡ true
    → lines_from false (line ++ b'\n' ∷ s) ≡ line ∷ lines_from false s
unfolding lines_from
lines_from-append [] s h = refl
lines_from-append (c ∷ line) s h = ground (arith, lines_from-append line s)

pub lines_from_last :
    (c : ℕ) (line : Text)
    → no_break (c ∷ line) ≡ true
    → lines_from false (c ∷ line) ≡ (c ∷ line) ∷ []
unfolding lines_from
lines_from_last c [] h = ground arith
lines_from_last c (d ∷ line) h = ground (arith, lines_from_last d line)

pub split_colon-append :
    (key value : Text)
    → all (λ c. not (beq c b':')) key ≡ true
    → split_colon (key ++ b':' ∷ value) ≡ some (key, value)
unfolding split_colon
split_colon-append [] value h = refl
split_colon-append (c ∷ key) value h =
    rw (split_colon-append key value (ground arith)) (ground arith)

-- No two newlines in a row, and none at the end.
abbrev pub Calm : Text → Type 0
Calm [] = Unit
Calm (c ∷ []) = beq c b'\n' ≡ false
Calm (c ∷ d ∷ s) = ((beq c b'\n' && beq d b'\n') ≡ false) × Calm (d ∷ s)

pub split_blank-append :
    (c : ℕ) (part s : Text)
    → Calm (c ∷ part)
    → split_blank ((c ∷ part) ++ b'\n' ∷ b'\n' ∷ s) ≡ (c ∷ part) ∷ split_blank s
unfolding split_blank
split_blank-append c [] s h = ground arith
split_blank-append c (d ∷ part) s h = ground (arith, split_blank-append d part s)

pub split_blank_last :
    (c : ℕ) (part : Text)
    → Calm (c ∷ part)
    → split_blank ((c ∷ part) ++ b'\n' ∷ []) ≡ ((c ∷ part) ++ b'\n' ∷ []) ∷ []
unfolding split_blank
split_blank_last c [] h = ground arith
split_blank_last c (d ∷ part) h = ground (arith, split_blank_last d part)

abbrev pub no_return : Text → Bool
no_return = all (λ c. not (beq c b'\r'))

pub no_return-append :
    (s t : Text) → no_return s ≡ true → no_return t ≡ true → no_return (s ++ t) ≡ true
no_return-append [] t h k = k
no_return-append (c ∷ s) t h k = ground (arith, no_return-append s t)

pub no_return-line : (line : Text) → no_break line ≡ true → no_return line ≡ true
no_return-line [] h = refl
no_return-line (c ∷ line) h = ground (arith, no_return-line line)

pub universal_newlines_none : (s : Text) → no_return s ≡ true → universal_newlines false s ≡ s
unfolding universal_newlines
universal_newlines_none [] h = refl
universal_newlines_none (c ∷ s) h = ground (arith, universal_newlines_none s)
