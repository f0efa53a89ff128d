-- ===== src/Ipkg/Database/Commit.antt =====
-- `commit` and `remove` implement the abstract data base.
use smart_build.Prelude.{
  Bool, true, false, List, [], ◌∷◌, ◌++◌, some, ◌≡◌, refl, ap, ◌∙◌, All, null, arith, inl, inr,
  Bool-cases, All-append, All-filter,
}
use smart_build.Prelude.Errors.{ok}
use smart_build.Prelude.Codes.{Text, codes}
use smart_build.Ipkg.Control.{Fields, status_keys}
use smart_build.Ipkg.Control.Values.{HasValues}
use smart_build.Ipkg.Database.{
  Database, is_package_name, validate_package_name, package_of, records, find, others,
  installed_fields, stanzas, write_status, write_list, commit,
}
use smart_build.Ipkg.Database.Stanzas.{IsRecord, is_status_key}
use smart_build.Ipkg.Database.Table.{
  records-IsRecord, value_of, value_of-stored, value-replaced, installed-IsRecord, registry,
  register, SameRegistry, records_written,
}

module _ (refused : Text → Bool) (db : Database) (fields : Fields) (paths : List Text) where
  abbrev current : List Fields
  current = others (package_of fields) (records db) ++ installed_fields fields status_keys ∷ []

  current-All : HasValues fields → null (package_of fields) ≡ false → All IsRecord current
  current-All h n =
      All-append IsRecord (others (package_of fields) (records db))
        (installed_fields fields status_keys ∷ [])
        (All-filter IsRecord _ (records db) (records-IsRecord db))
        (installed-IsRecord fields h n, tt)

  value-commit :
      (after : Database) (name key : Text)
      → HasValues fields
      → null (package_of fields) ≡ false
      → after.status ≡ some (stanzas current ++ b'\n' ∷ [])
      → (registry after).value name key ≡ (register fields paths (registry db)).value name key
  value-commit after name key h n e = elim (Bool-cases (is_status_key key)) [
    | inr other ↦ rw other (ground arith)
    | inl k ↦ rw k (
        ap (λ items. value_of key (find name items))
          (records_written after (others (package_of fields) (records db))
            (installed_fields fields status_keys) (current-All h n) e)
        ∙ value_of-stored name key current (current-All h n) k
        ∙ value-replaced fields (records db) name key k)
  ]

  pub commit-register :
      HasValues fields
      → is_package_name (package_of fields) ≡ true
      → ((file : Text) → refused file ≡ false)
      → ((commit refused db fields paths).1 ≡ ok tt)
        × SameRegistry
            (registry (commit refused db fields paths).0)
            (register fields paths (registry db))
  unfolding commit validate_package_name write_status write_list
  commit-register h n w =
      rw (n, w (codes "status"), w (package_of fields ++ codes ".list"))
        (
          refl,
          record {
            value = λ name key. value-commit _ name key h (ground arith) refl;
            files = λ name. refl;
          },
        )
