-- ===== src/Ipkg/Control/RoundTrip.antt =====
-- Fields that are written are read back.
use smart_build.Prelude.{
  Bool, true, false, not, ◌&&◌, List, [], ◌∷◌, ◌++◌, some, ◌≡◌, refl, ap, ◌∙◌, beq, all, All,
  filter, null, arith, append_assoc,
}
use mathlib.Core.Path.{subst}
use smart_build.Prelude.Errors.{ok, raise_if-ok, ok-injective}
use smart_build.Prelude.Codes.{Text, same, lstrip, is_space}
use smart_build.Prelude.Codes.Lines.{
  splitlines, lines_from, split_colon, join, no_break, lines_from-append, lines_from_last,
  split_colon-append,
}
use smart_build.Prelude.Codes.Dict.{lookup, insert, insert_all}
use smart_build.Ipkg.Control.{
  Fields, control_keys, status_keys, get, field_line, field_lines, is_missing, control_text,
  parse_lines, set_all_defaults, parse_control,
}

-- A value that a line of a control file can hold: on one line, with no white space before it.
pub record IsValue (value : Text) : Type 0 where
  pub one_line : no_break value ≡ true
  pub trimmed : lstrip is_space value ≡ value

-- A key: not empty, on one line, with no colon.
pub record IsKey (key : Text) : Type 0 where
  pub one_line : no_break key ≡ true
  pub no_colon : all (λ c. not (beq c b':')) key ≡ true
  pub ne_empty : null key ≡ false

pub no_break-append :
    (s t : Text) → no_break s ≡ true → no_break t ≡ true → no_break (s ++ t) ≡ true
no_break-append [] t h k = k
no_break-append (c ∷ s) t h k = ground (arith, no_break-append s t)

module _ (key value : Text) (k : IsKey key) (v : IsValue value) where
  pub no_break-field_line : no_break (field_line key value) ≡ true
  no_break-field_line = no_break-append key (b':' ∷ b' ' ∷ value) k.one_line v.one_line

  pub split-field_line : split_colon (field_line key value) ≡ some (key, b' ' ∷ value)
  split-field_line = split_colon-append key (b' ' ∷ value) k.no_colon

  pub lstrip-value : lstrip is_space (b' ' ∷ value) ≡ value
  unfolding lstrip
  lstrip-value = v.trimmed

-- The pairs of keys and values that are written.
abbrev pub pairs : Fields → List Text → List (Text × Text)
pairs fields [] = []
pairs fields (key ∷ keys) = (key, get key fields) ∷ pairs fields keys

parse_lines-cons :
    (fields : Fields) (key value : Text) (lines : List Text)
    → IsKey key
    → IsValue value
    → parse_lines fields (field_line key value ∷ lines)
      ≡ parse_lines (insert key value fields) lines
unfolding parse_lines
parse_lines-cons fields [] value lines k v = absurd (cc k.ne_empty)
parse_lines-cons fields (c ∷ key) value lines k v =
    rw (split-field_line (c ∷ key) value k v) (rw (lstrip-value (c ∷ key) value k v) refl)

parse_lines-field_lines :
    (fields read : Fields) (keys : List Text)
    → All IsKey keys
    → All (λ key. IsValue (get key fields)) keys
    → parse_lines read (splitlines (field_lines fields keys))
      ≡ ok (insert_all read (pairs fields keys))
unfolding parse_lines field_lines splitlines insert_all
parse_lines-field_lines fields read [] k v = refl
parse_lines-field_lines fields read (key ∷ keys) (k, ks) (v, vs) =
    ap (parse_lines read) (
      lines_from-append (field_line key (get key fields)) (field_lines fields keys)
        (no_break-field_line key (get key fields) k v))
    ∙ parse_lines-cons read key (get key fields) (splitlines (field_lines fields keys)) k v
    ∙ parse_lines-field_lines fields (insert key (get key fields) read) keys ks vs

abbrev is_key : Text → Bool
is_key key = no_break key && all (λ c. not (beq c b':')) key && not (null key)

keys_All : (keys : List Text) → all is_key keys ≡ true → All IsKey keys
keys_All [] h = tt
keys_All (key ∷ keys) h = (
  record { one_line = ground arith; no_colon = ground arith; ne_empty = ground arith },
  keys_All keys (ground arith),
)

pub status_keys-All : All IsKey status_keys
status_keys-All = keys_All status_keys refl

-- `_parse_control` reads the six fields that `_control_archive` writes, when each value is on one
-- line and has no white space before it.
pub parse_control-control_text :
    (fields : Fields) (text : Text)
    → All (λ key. IsValue (get key fields)) control_keys
    → control_text fields ≡ ok text
    → parse_control text ≡ ok (pairs fields control_keys)
unfolding parse_control control_text set_all_defaults lookup insert_all insert same
parse_control-control_text fields text v h =
    let (_, e) =
      raise_if-ok (not (null (filter (is_missing fields) control_keys))) _
        (ok (field_lines fields control_keys)) h in
    subst (λ t. parse_control t ≡ ok (pairs fields control_keys)) (ok-injective e)
      (let back : parse_control (field_lines fields control_keys) ≡ ok (pairs fields control_keys) =
          rw (parse_lines-field_lines fields [] control_keys (keys_All control_keys refl) v) refl in
        back)

-- The lines that are joined are the lines that are split.
abbrev pub IsLine : Text → Type 0
IsLine line = (no_break line ≡ true) × (null line ≡ false)

pub splitlines-join :
    (line : Text) (lines : List Text)
    → All IsLine (line ∷ lines)
    → splitlines (join (b'\n' ∷ []) (line ∷ lines)) ≡ line ∷ lines
unfolding splitlines join
splitlines-join [] lines ((_, e), _) = absurd (cc e)
splitlines-join (c ∷ line) [] ((one, _), _) = lines_from_last c line one
splitlines-join (c ∷ line) (next ∷ lines) ((one, _), hs) =
    lines_from-append (c ∷ line) (join (b'\n' ∷ []) (next ∷ lines)) one
    ∙ ap (◌∷◌ (c ∷ line)) (splitlines-join next lines hs)

-- The same with a newline at the end.
pub splitlines-join_newline :
    (line : Text) (lines : List Text)
    → All IsLine (line ∷ lines)
    → splitlines (join (b'\n' ∷ []) (line ∷ lines) ++ b'\n' ∷ []) ≡ line ∷ lines
unfolding splitlines join lines_from
splitlines-join_newline line [] ((one, _), _) = lines_from-append line [] one
splitlines-join_newline line (next ∷ lines) ((one, _), hs) =
    ap splitlines (append_assoc line (b'\n' ∷ join (b'\n' ∷ []) (next ∷ lines)) (b'\n' ∷ []))
    ∙ lines_from-append line (join (b'\n' ∷ []) (next ∷ lines) ++ b'\n' ∷ []) one
    ∙ ap (◌∷◌ line) (splitlines-join_newline next lines hs)
