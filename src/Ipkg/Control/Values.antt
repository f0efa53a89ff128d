-- ===== src/Ipkg/Control/Values.antt =====
-- Whatever is read from a control file or a status file are values that can be written again.
use smart_build.Prelude.{
  ℕ, Bool, true, false, ◌&&◌, List, [], ◌∷◌, Option, none, some, ◌≡◌, refl, beq, All, if◌then◌else◌,
  arith, inl, inr, Bool-cases, sym, if_both,
}
use mathlib.Core.Path.{subst}
use smart_build.Prelude.Errors.{Result, ok, err, ◌>>=◌, >>=-eq-ok, ok-injective}
use smart_build.Prelude.Codes.{Text, same, lstrip, is_space}
use smart_build.Prelude.Codes.Lines.{
  splitlines, lines_from, split_colon, add_key, grow, is_break, no_break,
}
use smart_build.Prelude.Codes.Dict.{lookup, insert, lookup-insert}
use smart_build.Ipkg.Base.{IpkgError}
use smart_build.Ipkg.Control.{
  Fields, get, keep_split, add_split, parse_lines, is_missing, set_default, set_all_defaults,
  control_keys, parse_control, parse_stanza_lines, parse_status_stanza,
}
use smart_build.Ipkg.Control.RoundTrip.{IsValue}

abbrev pub HasValues : Fields → Type 0
HasValues fields = (key : Text) → IsValue (get key fields)

pub get-insert :
    (key other value : Text) (fields : Fields)
    → get other (insert key value fields) ≡ (if same key other then value else get other fields)
unfolding get
get-insert key other value fields = ground (arith, lookup-insert key other value fields)

abbrev OneLine : Text → Type 0
OneLine line = no_break line ≡ true

grow-OneLine :
    (c : ℕ) (lines : List Text)
    → is_break c ≡ false
    → All OneLine lines
    → All OneLine (grow c lines)
grow-OneLine c [] plain h = ground arith
grow-OneLine c (line ∷ lines) plain h = ground arith

lines_from-OneLine : (returned : Bool) (s : Text) → All OneLine (lines_from returned s)
unfolding lines_from
lines_from-OneLine returned [] = tt
lines_from-OneLine returned (c ∷ s) = elim (Bool-cases (returned && beq c b'\n')) [
  | inl e ↦ rw (e, lines_from) (lines_from-OneLine false s)
  | inr e ↦ elim (Bool-cases (is_break c)) [
    | inl b ↦ rw (e, lines_from) (rw (b, lines_from) (refl, lines_from-OneLine (beq c b'\r') s))
    | inr b ↦
        rw (e, lines_from)
          (rw (b, lines_from) (grow-OneLine c (lines_from false s) b (lines_from-OneLine false s)))
  ]
]

lstrip-OneLine : (s : Text) → OneLine s → OneLine (lstrip is_space s)
unfolding lstrip
lstrip-OneLine [] h = refl
lstrip-OneLine (c ∷ s) h = elim (Bool-cases (is_space c)) [
  | inl e ↦ rw (e, lstrip) (lstrip-OneLine s (ground arith))
  | inr e ↦ rw (e, lstrip) h
]

lstrip_idem : (s : Text) → lstrip is_space (lstrip is_space s) ≡ lstrip is_space s
unfolding lstrip
lstrip_idem [] = refl
lstrip_idem (c ∷ s) = elim (Bool-cases (is_space c)) [
  | inl e ↦ rw (e, lstrip) (lstrip_idem s)
  | inr e ↦ rw (e, lstrip) (rw (e, lstrip) refl)
]

lstrip-IsValue : (s : Text) → OneLine s → IsValue (lstrip is_space s)
lstrip-IsValue s h = record { one_line = lstrip-OneLine s h; trimmed = lstrip_idem s }

-- What stands behind the colon, if there is one, is on one line.
abbrev ValueOneLine : Option (Text × Text) → Type 0
ValueOneLine none = Unit
ValueOneLine (some (key, value)) = OneLine value

add_key-ValueOneLine :
    (c : ℕ) (o : Option (Text × Text)) → ValueOneLine o → ValueOneLine (add_key c o)
add_key-ValueOneLine c none h = tt
add_key-ValueOneLine c (some (key, value)) h = h

split_colon-ValueOneLine : (line : Text) → OneLine line → ValueOneLine (split_colon line)
unfolding split_colon
split_colon-ValueOneLine [] h = tt
split_colon-ValueOneLine (c ∷ s) h =
    if_both ValueOneLine (beq c b':') (λ _. ground arith)
      (λ _. add_key-ValueOneLine c (split_colon s) (split_colon-ValueOneLine s (ground arith)))

insert-HasValues :
    (key value : Text) (fields : Fields)
    → IsValue value
    → HasValues fields
    → HasValues (insert key value fields)
insert-HasValues key value fields v h other =
    subst IsValue (sym (get-insert key other value fields))
      (if_both IsValue (same key other) (λ _. v) (λ _. h other))

pub nil-HasValues : HasValues []
unfolding get lookup lstrip
nil-HasValues key = record { one_line = refl; trimmed = refl }

keep_split-HasValues :
    (fields : Fields) (o : Option (Text × Text))
    → ValueOneLine o
    → HasValues fields
    → HasValues (keep_split fields o)
keep_split-HasValues fields none h f = f
keep_split-HasValues fields (some (key, value)) h f =
    insert-HasValues key (lstrip is_space value) fields (lstrip-IsValue value h) f

parse_stanza_lines-HasValues :
    (fields : Fields) (lines : List Text)
    → All OneLine lines
    → HasValues fields
    → HasValues (parse_stanza_lines fields lines)
unfolding parse_stanza_lines
parse_stanza_lines-HasValues fields [] h f = f
parse_stanza_lines-HasValues fields (line ∷ lines) (one, h) f =
    parse_stanza_lines-HasValues (keep_split fields (split_colon line)) lines h
      (keep_split-HasValues fields (split_colon line) (split_colon-ValueOneLine line one) f)

pub parse_status_stanza-HasValues : (text : Text) → HasValues (parse_status_stanza text)
unfolding parse_status_stanza splitlines
parse_status_stanza-HasValues text =
    parse_stanza_lines-HasValues [] (splitlines text) (lines_from-OneLine false text) nil-HasValues

-- what a call that may raise returns, if it returns
abbrev Returns : {A : Type 0} → (A → Type 0) → Result IpkgError A → Type 0
Returns P (err e) = Unit
Returns P (ok a) = P a

add_split-HasValues :
    (line : Text) (fields : Fields) (o : Option (Text × Text)) (lines : List Text)
    → ValueOneLine o
    → HasValues fields
    → ((next : Fields) → HasValues next → Returns HasValues (parse_lines next lines))
    → Returns HasValues (add_split line fields o >>= (λ next. parse_lines next lines))
add_split-HasValues line fields none lines h f next = tt
add_split-HasValues line fields (some (key, value)) lines h f next =
    next (insert key (lstrip is_space value) fields)
      (insert-HasValues key (lstrip is_space value) fields (lstrip-IsValue value h) f)

parse_lines-HasValues :
    (fields : Fields) (lines : List Text)
    → All OneLine lines
    → HasValues fields
    → Returns HasValues (parse_lines fields lines)
unfolding parse_lines
parse_lines-HasValues fields [] h f = f
parse_lines-HasValues fields ([] ∷ lines) (_, h) f = parse_lines-HasValues fields lines h f
parse_lines-HasValues fields ((c ∷ line) ∷ lines) (one, h) f =
    add_split-HasValues (c ∷ line) fields (split_colon (c ∷ line)) lines
      (split_colon-ValueOneLine (c ∷ line) one) f (λ next n. parse_lines-HasValues next lines h n)

set_default-HasValues :
    (key : Text) (fields : Fields) → HasValues fields → HasValues (set_default key fields)
unfolding get
set_default-HasValues key fields f =
    if_both HasValues (is_missing fields key)
      (λ _. insert-HasValues key [] fields (nil-HasValues key) f) (λ _. f)

set_all_defaults-HasValues :
    (keys : List Text) (fields : Fields)
    → HasValues fields
    → HasValues (set_all_defaults keys fields)
unfolding set_all_defaults
set_all_defaults-HasValues [] fields f = f
set_all_defaults-HasValues (key ∷ keys) fields f =
    set_all_defaults-HasValues keys (set_default key fields) (set_default-HasValues key fields f)

-- What `_parse_control` returns can be written to a status file.
pub parse_control-HasValues :
    (text : Text) (fields : Fields) → parse_control text ≡ ok fields → HasValues fields
unfolding parse_control splitlines
parse_control-HasValues text fields h =
    let (read, e, last) = >>=-eq-ok (parse_lines [] (splitlines text)) _ h in
    subst HasValues (ok-injective last) (
      set_all_defaults-HasValues control_keys read (
        subst (Returns HasValues) e (
          parse_lines-HasValues [] (splitlines text) (lines_from-OneLine false text)
            nil-HasValues)))
