-- ===== src/Ipkg/Database/Written.antt =====
-- A status file that is written is read back, whatever stands in its records.
use smart_build.Prelude.{
  ℕ, true, false, List, [], ◌∷◌, ◌++◌, some, ◌≡◌, refl, ap, ◌∙◌, sym, beq, All, map, filter, null,
  drop, arith, inl, inr, append_assoc, Bool-cases,
}
use mathlib.Core.Path.{subst}
use smart_build.Prelude.Codes.{Text, same}
use smart_build.Prelude.Codes.Lines.{
  join, is_break, no_break, Calm, split_blank, split_blank-append, split_blank_last,
  universal_newlines_none, no_return, no_return-append, no_return-line,
}
use smart_build.Ipkg.Control.{
  Fields, package_key, status_keys, get, field_line, parse_stanza_lines, parse_status_stanza,
  status_lines, format_status_stanza,
}
use smart_build.Ipkg.Control.RoundTrip.{
  IsValue, IsKey, IsLine, no_break-field_line, status_keys-All, splitlines-join,
  splitlines-join_newline,
}
use smart_build.Ipkg.Database.{
  Database, package_of, is_named, parse_records, records, blank_line, stanzas,
}
use smart_build.Ipkg.Database.Stanzas.{IsRecord, stored, get-stored, is_status_key}

null-field_line : (key value : Text) → null (field_line key value) ≡ false
null-field_line [] value = refl
null-field_line (c ∷ key) value = refl

status_lines-All :
    (item : Fields) (keys : List Text)
    → All IsKey keys
    → All (λ key. IsValue (get key item)) keys
    → All IsLine (status_lines item keys)
unfolding status_lines
status_lines-All item [] k v = tt
status_lines-All item (key ∷ keys) (k, ks) (v, vs) = elim (Bool-cases (null (get key item))) [
  | inl e ↦ rw e (status_lines-All item keys ks vs)
  | inr e ↦ rw e (
    (no_break-field_line key (get key item) k v, null-field_line key (get key item)),
    status_lines-All item keys ks vs,
  )
]

Calm-line : (c : ℕ) (line : Text) → no_break (c ∷ line) ≡ true → Calm (c ∷ line)
Calm-line c [] h = ground arith
Calm-line c (d ∷ line) h = (ground arith, Calm-line d line (ground arith))

Calm-append :
    (c d : ℕ) (line s : Text)
    → no_break (c ∷ line) ≡ true
    → beq d b'\n' ≡ false
    → Calm (d ∷ s)
    → Calm ((c ∷ line) ++ b'\n' ∷ d ∷ s)
Calm-append c d [] s h k calm = (ground arith, (ground arith, calm))
Calm-append c d (e ∷ line) s h k calm = (ground arith, Calm-append e d line s (ground arith) k calm)

-- Lines that are joined begin with a character of the first line, and are calm.
join-Calm :
    (line : Text) (lines : List Text)
    → All IsLine (line ∷ lines)
    → (c : ℕ) × (s : Text) × (join (b'\n' ∷ []) (line ∷ lines) ≡ c ∷ s)
      × (is_break c ≡ false)
      × Calm (c ∷ s)
unfolding join
join-Calm [] lines ((_, e), _) = absurd (cc e)
join-Calm (c ∷ line) [] ((one, _), _) = (c, line, refl, ground arith, Calm-line c line one)
join-Calm (c ∷ line) (next ∷ lines) ((one, _), hs) =
    let (d, s, e, plain, calm) = join-Calm next lines hs in
    (
      c,
      line ++ b'\n' ∷ join (b'\n' ∷ []) (next ∷ lines),
      refl,
      ground arith,
      rw e (Calm-append c d line s one (ground arith) calm),
    )

module _ (item : Fields) (r : IsRecord item) where
  pub package-stored : package_of (stored item) ≡ package_of item
  unfolding same is_status_key
  package-stored = get-stored item r package_key refl

  first_line :
      (lines : List Text) × (status_lines item status_keys
        ≡ field_line package_key (package_of item) ∷ lines)
  unfolding status_lines
  first_line = (status_lines item (drop 1 status_keys), rw r.named refl)

  stanza_lines-All : All IsLine (status_lines item status_keys)
  stanza_lines-All = status_lines-All item status_keys status_keys-All r.values

  pub stanza-Calm :
      (c : ℕ) × (s : Text) × (format_status_stanza item ≡ c ∷ s)
      × (is_break c ≡ false)
      × Calm (c ∷ s)
  unfolding format_status_stanza
  stanza-Calm =
      rw first_line.1 (join-Calm _ first_line.0 (subst (All IsLine) first_line.1 stanza_lines-All))

  pub parse-format : parse_status_stanza (format_status_stanza item) ≡ stored item
  unfolding format_status_stanza parse_status_stanza stored
  parse-format = rw first_line.1 (
      ap (parse_stanza_lines [])
        (splitlines-join _ first_line.0 (subst (All IsLine) first_line.1 stanza_lines-All)))

  pub parse-format_newline :
      parse_status_stanza (format_status_stanza item ++ b'\n' ∷ []) ≡ stored item
  unfolding format_status_stanza parse_status_stanza stored
  parse-format_newline = rw first_line.1 (
      ap (parse_stanza_lines [])
        (splitlines-join_newline _ first_line.0 (subst (All IsLine) first_line.1 stanza_lines-All)))

no_return-join : (lines : List Text) → All IsLine lines → no_return (join (b'\n' ∷ []) lines) ≡ true
unfolding join
no_return-join [] h = refl
no_return-join (line ∷ []) ((one, _), _) = no_return-line line one
no_return-join (line ∷ next ∷ lines) ((one, _), h) =
    no_return-append line _ (no_return-line line one) (no_return-join (next ∷ lines) h)

no_return-stanzas : (items : List Fields) → All IsRecord items → no_return (stanzas items) ≡ true
unfolding stanzas join format_status_stanza
no_return-stanzas [] h = refl
no_return-stanzas (item ∷ []) (r, _) =
    no_return-join (status_lines item status_keys) (stanza_lines-All item r)
no_return-stanzas (item ∷ next ∷ items) (r, h) =
    no_return-append (format_status_stanza item) _
      (no_return-join (status_lines item status_keys) (stanza_lines-All item r))
      (no_return-stanzas (next ∷ items) h)

-- The text of some stanzas is split into them.
parse-stanzas :
    (item : Fields) (items : List Fields)
    → All IsRecord (item ∷ items)
    → map parse_status_stanza (split_blank (stanzas (item ∷ items) ++ b'\n' ∷ []))
      ≡ map stored (item ∷ items)
unfolding stanzas join
parse-stanzas item [] (r, _) =
    let (c, s, e, _, calm) = stanza-Calm item r in
    ap (λ text. map parse_status_stanza (split_blank (text ++ b'\n' ∷ []))) e
    ∙ ap (map parse_status_stanza) (split_blank_last c s calm)
    ∙ ap (λ text. parse_status_stanza (text ++ b'\n' ∷ []) ∷ []) (sym e)
    ∙ ap (λ read. read ∷ []) (parse-format_newline item r)
parse-stanzas item (next ∷ items) (r, h) =
    let (c, s, e, _, calm) = stanza-Calm item r in
    ap
      (λ text.
        map parse_status_stanza
          (split_blank ((text ++ (blank_line ++ stanzas (next ∷ items))) ++ b'\n' ∷ [])))
      e
    ∙ ap (λ text. map parse_status_stanza (split_blank text))
        (append_assoc (c ∷ s) (blank_line ++ stanzas (next ∷ items)) (b'\n' ∷ []))
    ∙ ap (map parse_status_stanza)
        (split_blank-append c s (stanzas (next ∷ items) ++ b'\n' ∷ []) calm)
    ∙ ap
        (λ text.
          parse_status_stanza text
          ∷ map parse_status_stanza (split_blank (stanzas (next ∷ items) ++ b'\n' ∷ [])))
        (sym e)
    ∙ ap
        (λ read.
          read ∷ map parse_status_stanza (split_blank (stanzas (next ∷ items) ++ b'\n' ∷ [])))
        (parse-format item r)
    ∙ ap (◌∷◌ (stored item)) (parse-stanzas next items h)

named-stored :
    (items : List Fields)
    → All IsRecord items
    → filter is_named (map stored items) ≡ map stored items
named-stored [] h = refl
named-stored (item ∷ items) (r, h) =
    rw (package-stored item r) (rw r.named (ap (◌∷◌ (stored item)) (named-stored items h)))

-- The records of a status file that `commit` writes.
pub records-written :
    (db : Database) (item : Fields) (items : List Fields)
    → All IsRecord (item ∷ items)
    → db.status ≡ some (stanzas (item ∷ items) ++ b'\n' ∷ [])
    → records db ≡ map stored (item ∷ items)
unfolding records parse_records
records-written db item items h e =
    rw (e, records)
      (rw
        (universal_newlines_none _ (
          no_return-append (stanzas (item ∷ items)) (b'\n' ∷ [])
            (no_return-stanzas (item ∷ items) h) refl))
        (ap (filter is_named) (parse-stanzas item items h) ∙ named-stored (item ∷ items) h))
