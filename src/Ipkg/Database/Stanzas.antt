-- ===== src/Ipkg/Database/Stanzas.antt =====
-- A status file that is written is read back.
use smart_build.Prelude.{
  Bool, true, false, not, ◌&&◌, List, [], ◌∷◌, ◌≡◌, refl, ap, ◌∙◌, any, All, null, if◌then◌else◌,
  arith, inl, inr, Bool-cases, List-cases,
}
use smart_build.Prelude.Codes.{Text, same, same_iff}
use smart_build.Prelude.Codes.Dict.{insert}
use smart_build.Ipkg.Control.{
  Fields, status_keys, get, field_line, parse_stanza_lines, status_lines,
}
use smart_build.Ipkg.Control.RoundTrip.{
  IsValue, IsKey, split-field_line, lstrip-value, status_keys-All,
}
use smart_build.Ipkg.Control.Values.{get-insert}
use smart_build.Ipkg.Database.{package_of}

-- What a status file can hold of one package.
pub record IsRecord (item : Fields) : Type 0 where
  pub values : All (λ key. IsValue (get key item)) status_keys
  pub named : null (package_of item) ≡ false

parse_stanza_lines-cons :
    (read : Fields) (key value : Text) (lines : List Text)
    → IsKey key
    → IsValue value
    → parse_stanza_lines read (field_line key value ∷ lines)
      ≡ parse_stanza_lines (insert key value read) lines
unfolding parse_stanza_lines
parse_stanza_lines-cons read key value lines k v =
    rw (split-field_line key value k v) (rw (lstrip-value key value k v) refl)

-- The fields that are read from the lines that are written.
get-parse_stanza_lines :
    (fields read : Fields) (keys : List Text) (j : Text)
    → All IsKey keys
    → All (λ key. IsValue (get key fields)) keys
    → get j (parse_stanza_lines read (status_lines fields keys)) ≡ (
        if any (λ key. same key j) keys && not (null (get j fields))
        then get j fields
        else get j read)
unfolding parse_stanza_lines status_lines
get-parse_stanza_lines fields read [] j k v = refl
get-parse_stanza_lines fields read (key ∷ keys) j (k, ks) (v, vs) =
    elim (Bool-cases (null (get key fields))) [
      | inl e ↦
          rw e (get-parse_stanza_lines fields read keys j ks vs ∙ ground (arith, same_iff key j))
      | inr e ↦ rw e (
          ap (get j)
            (parse_stanza_lines-cons read key (get key fields) (status_lines fields keys) k v)
          ∙ get-parse_stanza_lines fields (insert key (get key fields) read) keys j ks vs
          ∙ ground (arith, get-insert key j (get key fields) read, same_iff key j))
    ]

-- What `_parse_status_stanza` makes of a stanza that `_format_status_stanza` writes.
unfoldable pub stored : Fields → Fields
unfolding parse_stanza_lines status_lines
stored item = parse_stanza_lines [] (status_lines item status_keys)

unfoldable pub is_status_key : Text → Bool
is_status_key j = any (λ key. same key j) status_keys

All-of_any :
    (P : Text → Type 0) (keys : List Text)
    → ((j : Text) → any (λ key. same key j) keys ≡ true → P j)
    → All P keys
All-of_any P [] h = tt
All-of_any P (key ∷ keys) h = (
  h key (rw ((same_iff key key).1 refl) refl),
  All-of_any P keys (λ j m. h j (ground (arith, m))),
)

module _ (item : Fields) (r : IsRecord item) where
  -- What is read back has the same fields.
  pub get-stored : (j : Text) → is_status_key j ≡ true → get j (stored item) ≡ get j item
  unfolding stored get is_status_key
  get-stored j m =
      let read : get j (stored item)
          ≡ (if is_status_key j && not (null (get j item)) then get j item else []) =
        get-parse_stanza_lines item [] status_keys j status_keys-All r.values in
      elim (List-cases (get j item)) [
        | inl e ↦ read ∙ rw (m, e) refl
        | inr (c, s, e) ↦ read ∙ rw (m, e) refl
      ]

  pub All-get-stored : All (λ key. get key (stored item) ≡ get key item) status_keys
  unfolding is_status_key
  All-get-stored = All-of_any _ status_keys get-stored
