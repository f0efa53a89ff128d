-- ===== src/Ipkg/Database/Remove.antt =====
-- `remove` takes one package out of the abstract data base.
use smart_build.Prelude.{
  Bool, true, false, not, List, [], ◌∷◌, ◌++◌, none, some, ◌≡◌, refl, ap, ◌∙◌, beq, ◌≤◌, All, map,
  null, length, arith, inl, inr, Bool-cases, All-filter,
}
use smart_build.Prelude.Errors.{ok, err}
use smart_build.Prelude.Codes.{Text, codes, same}
use smart_build.Prelude.Codes.Lines.{split_blank, universal_newlines, join, splitlines, lines_from}
use smart_build.Prelude.Codes.Dict.{lookup}
use smart_build.Ipkg.Base.{not_installed}
use smart_build.Ipkg.Control.{Fields, get, parse_status_stanza, parse_stanza_lines}
use smart_build.Ipkg.Database.{
  Database, is_package_name, validate_package_name, package_of, parse_records, records, find,
  others, stanzas, write_status, remove, closed,
}
use smart_build.Ipkg.Database.Stanzas.{IsRecord, stored, is_status_key}
use smart_build.Ipkg.Database.Written.{stanza-Calm, records-written}
use smart_build.Ipkg.Database.Table.{
  records-IsRecord, value_of, value_of-stored, registry, unregister, SameRegistry, find-others,
}

-- An entry goes exactly where the package is found.
length-others :
    (name : Text) (items : List Fields)
    → (length (others name items) ≤ length items)
      × (beq (length (others name items)) (length items)
          ≡ elim (find name items) [ none ↦ true | some _ ↦ false ])
unfolding find
length-others name [] = (omega arith, refl)
length-others name (item ∷ items) = ground (arith, length-others name items)

closed_lem : (text : Text) → null text ≡ false → closed text ≡ text ++ b'\n' ∷ []
closed_lem [] h = cc
closed_lem (c ∷ text) h = refl

null-stanzas :
    (item : Fields) (items : List Fields) → IsRecord item → null (stanzas (item ∷ items)) ≡ false
unfolding stanzas join
null-stanzas item [] r = let (c, s, e, _, _) = stanza-Calm item r in rw e refl
null-stanzas item (next ∷ items) r = let (c, s, e, _, _) = stanza-Calm item r in rw e refl

records-closed :
    (db : Database) (items : List Fields)
    → All IsRecord items
    → db.status ≡ some (closed (stanzas items))
    → records db ≡ map stored items
unfolding records parse_records stanzas join split_blank parse_status_stanza parse_stanza_lines
    splitlines lines_from get lookup universal_newlines
records-closed db [] h e = rw (e, records) refl
records-closed db (item ∷ items) (r, h) e =
    records-written db item items (r, h)
      (e ∙ ap some (closed_lem (stanzas (item ∷ items)) (null-stanzas item items r)))

module _ (refused : Text → Bool) (db : Database) (name : Text) where
  abbrev rest : List Fields
  rest = others name (records db)

  value-remove :
      (after : Database) (other key : Text)
      → after.status ≡ some (closed (stanzas rest))
      → (registry after).value other key ≡ (unregister name (registry db)).value other key
  value-remove after other key e = elim (Bool-cases (is_status_key key)) [
    | inr k ↦ rw k (ground arith)
    | inl k ↦ rw k (
        let safe =
          All-filter IsRecord (λ item. not (same (package_of item) name)) (records db)
            (records-IsRecord db) in
        ap (λ items. value_of key (find other items)) (records-closed after rest safe e)
        ∙ value_of-stored other key rest safe k
        ∙ ap (value_of key) (find-others name other (records db))
        ∙ ground arith)
  ]

  -- When its name is safe, the package is installed and no write is refused, `remove` takes the
  -- package out, with its list of files, and leaves every other package as it is.
  pub remove-unregister :
      (item : Fields)
      → is_package_name name ≡ true
      → ((file : Text) → refused file ≡ false)
      → find name (records db) ≡ some item
      → ((remove refused db name).1 ≡ ok tt)
        × SameRegistry (registry (remove refused db name).0) (unregister name (registry db))
  unfolding remove validate_package_name write_status
  remove-unregister item n w found =
      let shorter : beq (length rest) (length (records db)) ≡ false =
        (length-others name (records db)).1 ∙ rw found refl in
      rw (n, shorter, w (codes "status"))
        (refl, record { value = λ other key. value-remove _ other key refl; files = λ other. refl })

  -- A package that is not installed is refused, and the data base stays as it is.
  pub remove-not_installed :
      is_package_name name ≡ true
      → find name (records db) ≡ none
      → remove refused db name ≡ (db, err (not_installed name))
  unfolding remove validate_package_name
  remove-not_installed n absent =
      let same_length : beq (length rest) (length (records db)) ≡ true =
        (length-others name (records db)).1 ∙ rw absent refl in
      rw (n, same_length) refl
