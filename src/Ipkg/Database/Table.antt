-- ===== src/Ipkg/Database/Table.antt =====
-- The data base as a table: what `commit` and `remove` do to the fields and to the list of files of
-- each package.
use smart_build.Prelude.{
  true, false, List, [], ◌∷◌, ◌++◌, Option, none, some, ◌≡◌, refl, ap, ◌∙◌, any, All, map, null,
  if◌then◌else◌, arith, inl, inr, Bool-cases, Option-cases, filter-All, All-map, if_both,
}
use smart_build.Prelude.Codes.{Text, same, same_iff, lstrip}
use smart_build.Prelude.Codes.Lines.{split_blank, universal_newlines}
use smart_build.Prelude.Codes.Dict.{lookup}
use smart_build.Ipkg.Control.{Fields, status_key, status_keys, get, parse_status_stanza}
use smart_build.Ipkg.Control.RoundTrip.{IsValue}
use smart_build.Ipkg.Control.Values.{HasValues, parse_status_stanza-HasValues}
use smart_build.Ipkg.Database.{
  Database, package_of, is_named, parse_records, records, find, others, installed_value,
  installed_fields, stanzas, list_text,
}
use smart_build.Ipkg.Database.Stanzas.{IsRecord, stored, get-stored, is_status_key}
use smart_build.Ipkg.Database.Written.{package-stored, records-written}

All_keys :
    (item : Fields) (keys : List Text) → HasValues item → All (λ key. IsValue (get key item)) keys
All_keys item [] h = tt
All_keys item (key ∷ keys) h = (h key, All_keys item keys h)

IsRecord-of : (item : Fields) → HasValues item → is_named item ≡ true → IsRecord item
IsRecord-of item h n = record { values = All_keys item status_keys h; named = ground arith }

parts-HasValues : (parts : List Text) → All HasValues (map parse_status_stanza parts)
parts-HasValues [] = tt
parts-HasValues (part ∷ parts) = (parse_status_stanza-HasValues part, parts-HasValues parts)

parse_records-IsRecord : (text : Text) → All IsRecord (parse_records text)
unfolding parse_records
parse_records-IsRecord text =
    All-map {P = λ item. (is_named item ≡ true) × HasValues item}
      (λ item (n, h). IsRecord-of item h n) _
      (filter-All HasValues is_named (map parse_status_stanza (split_blank text))
        (parts-HasValues (split_blank text)))

-- Whatever stands in the status file, its records can be written again.
pub records-IsRecord : (db : Database) → All IsRecord (records db)
unfolding records
records-IsRecord db = elim (Option-cases db.status) [
  | inl e ↦ rw (e, records) tt
  | inr (text, e) ↦ rw (e, records) (parse_records-IsRecord (universal_newlines false text))
]

-- the value of a key, in the fields of a package
abbrev pub value_of : Text → Option Fields → Option Text
value_of key none = none
value_of key (some item) = some (get key item)

pub value_of-stored :
    (name key : Text) (items : List Fields)
    → All IsRecord items
    → is_status_key key ≡ true
    → value_of key (find name (map stored items)) ≡ value_of key (find name items)
unfolding find
value_of-stored name key [] h k = refl
value_of-stored name key (item ∷ items) (r, h) k =
    rw (package-stored item r)
      (ground (arith, get-stored item r key k, value_of-stored name key items h k))

pub find-others :
    (name other : Text) (items : List Fields)
    → find other (others name items) ≡ (if same name other then none else find other items)
unfolding find
find-others name other [] = ground arith
find-others name other (item ∷ items) = ground (
  arith,
  find-others name other items,
  same_iff name other,
  same_iff (package_of item) name,
  same_iff (package_of item) other,
)

abbrev or_last : Option Fields → Option Fields → Option Fields
or_last none last = last
or_last (some item) last = some item

or_last-none : (o : Option Fields) → or_last o none ≡ o
or_last-none none = refl
or_last-none (some item) = refl

find-append :
    (other : Text) (items : List Fields) (last : Fields)
    → find other (items ++ last ∷ [])
      ≡ or_last (find other items) (if same (package_of last) other then some last else none)
unfolding find
find-append other [] last = refl
find-append other (item ∷ items) last = elim (Bool-cases (same (package_of item) other)) [
  | inl e ↦ rw e refl
  | inr e ↦ rw e (find-append other items last)
]

get-installed_fields :
    (fields : Fields) (keys : List Text) (j : Text)
    → any (λ key. same key j) keys ≡ true
    → get j (installed_fields fields keys) ≡ installed_value fields j
unfolding get lookup installed_fields
get-installed_fields fields [] j h = cc
get-installed_fields fields (key ∷ keys) j h =
    ground (arith, same_iff key j, get-installed_fields fields keys j)

installed_value-IsValue :
    (fields : Fields) (key : Text) → HasValues fields → IsValue (installed_value fields key)
unfolding lstrip
installed_value-IsValue fields key h =
    if_both IsValue (same key status_key) (λ _. record { one_line = refl; trimmed = refl })
      (λ _. h key)

installed_fields-HasValues :
    (fields : Fields) (keys : List Text)
    → HasValues fields
    → HasValues (installed_fields fields keys)
unfolding get lookup installed_fields lstrip
installed_fields-HasValues fields [] h j = record { one_line = refl; trimmed = refl }
installed_fields-HasValues fields (key ∷ keys) h j = elim (Bool-cases (same key j)) [
  | inl e ↦ rw e (installed_value-IsValue fields key h)
  | inr e ↦ rw e (installed_fields-HasValues fields keys h j)
]

module _ (fields : Fields) where
  pub package-installed : package_of (installed_fields fields status_keys) ≡ package_of fields
  unfolding get lookup installed_fields same
  package-installed = refl

  pub installed-IsRecord :
      HasValues fields
      → null (package_of fields) ≡ false
      → IsRecord (installed_fields fields status_keys)
  installed-IsRecord h n = record {
    values = All_keys _ status_keys (installed_fields-HasValues fields status_keys h);
    named = ap null package-installed ∙ n;
  }

-- the abstract data base: the value of each status field of each package, and the files of each
-- package
pub record Registry : Type 0 where
  pub value : Text → Text → Option Text
  pub files : Text → Option Text

-- what a data base stands for
abbrev pub registry : Database → Registry
registry db = record {
  value = λ name key. if is_status_key key then value_of key (find name (records db)) else none;
  files = db.lists;
}

-- a package is entered or replaced
abbrev pub register : Fields → List Text → Registry → Registry
register fields paths r = record {
  value = λ name key.
      if same (package_of fields) name
      then (if is_status_key key then some (installed_value fields key) else none)
      else r.value name key;
  files = λ name. if same (package_of fields) name then some (list_text paths) else r.files name;
}

abbrev pub unregister : Text → Registry → Registry
unregister name r = record {
  value = λ other key. if same name other then none else r.value other key;
  files = λ other. if same name other then none else r.files other;
}

pub record SameRegistry (r s : Registry) : Type 0 where
  pub value : (name key : Text) → r.value name key ≡ s.value name key
  pub files : (name : Text) → r.files name ≡ s.files name

pub records_written :
    (db : Database) (items : List Fields) (last : Fields)
    → All IsRecord (items ++ last ∷ [])
    → db.status ≡ some (stanzas (items ++ last ∷ []) ++ b'\n' ∷ [])
    → records db ≡ map stored (items ++ last ∷ [])
records_written db [] last h e = records-written db last [] h e
records_written db (item ∷ items) last h e = records-written db item (items ++ last ∷ []) h e

-- The fields of a package behind `commit`.
pub value-replaced :
    (fields : Fields) (items : List Fields) (other key : Text)
    → is_status_key key ≡ true
    → value_of key
        (find other (others (package_of fields) items ++ installed_fields fields status_keys ∷ []))
      ≡ (if same (package_of fields) other
          then some (installed_value fields key)
          else value_of key (find other items))
unfolding is_status_key
value-replaced fields items other key k =
    let last : Fields = installed_fields fields status_keys in
    let found = find-append other (others (package_of fields) items) last in
    elim (Bool-cases (same (package_of fields) other)) [
      | inl e ↦
          let absent : find other (others (package_of fields) items) ≡ none =
            find-others (package_of fields) other items ∙ rw e refl in
          let here : same (package_of last) other ≡ true =
            ap (λ name. same name other) (package-installed fields) ∙ e in
          rw e (
            ap (value_of key) (rw absent at (rw here at found))
            ∙ ap some (get-installed_fields fields status_keys key k))
      | inr e ↦
          let kept : find other (others (package_of fields) items) ≡ find other items =
            find-others (package_of fields) other items ∙ rw e refl in
          let elsewhere : same (package_of last) other ≡ false =
            ap (λ name. same name other) (package-installed fields) ∙ e in
          rw e (ap (value_of key) (rw elsewhere at found ∙ or_last-none _ ∙ kept))
    ]
