-- ===== src/Ipkg/Database.antt =====
-- `IpkgDatabase`: the status file of the installed packages and their lists of files. A write that
-- the operating system refuses is the test `refused`, by the name of the file.
pub mod Stanzas
pub mod Written
pub mod Table
pub mod Commit
pub mod Remove
use smart_build.Prelude.{
  ℕ, Bool, true, false, not, ◌&&◌, ◌||◌, List, [], ◌∷◌, ◌++◌, Option, none, some, map, filter, null,
  all, beq, leb, length, if◌then◌else◌,
}
use smart_build.Prelude.Errors.{Result, ok, err, raise_if, ◌>>=◌, ◌>>◌}
use smart_build.Prelude.Codes.{Text, codes, same}
use smart_build.Prelude.Codes.Lines.{split_blank, universal_newlines, join}
use smart_build.Ipkg.Base.{IpkgError, unsafe_name, not_installed, update_failed}
use smart_build.Ipkg.Control.{
  Fields, package_key, status_key, status_keys, get, parse_status_stanza, format_status_stanza,
}

pub record Database : Type 0 where
  -- the status file, if there is one
  pub status : Option Text
  -- the list file of a package, if there is one
  pub lists : Text → Option Text

abbrev pub is_name_char : ℕ → Bool
is_name_char c =
    (leb b'A' c && leb c b'Z')
    || (leb b'a' c && leb c b'z')
    || (leb b'0' c && leb c b'9')
    || beq c b'.'
    || beq c b'_'
    || beq c b'+'
    || beq c b'-'

abbrev pub is_package_name : Text → Bool
is_package_name name = not (null name) && all is_name_char name

unfoldable pub validate_package_name : Text → Result IpkgError (Unit {0})
validate_package_name name = raise_if (not (is_package_name name)) (unsafe_name name)

abbrev pub package_of : Fields → Text
package_of item = get package_key item

abbrev pub is_named : Fields → Bool
is_named item = not (null (package_of item))

-- the loop of `records` over a status file
unfoldable pub parse_records : Text → List Fields
parse_records text = filter is_named (map parse_status_stanza (split_blank text))

unfoldable pub records : Database → List Fields
unfolding parse_records universal_newlines
records db = elim db.status [
  | none ↦ []
  | some text ↦ parse_records (universal_newlines false text)
]

unfoldable pub find : Text → List Fields → Option Fields
find name [] = none
find name (item ∷ items) = if same (package_of item) name then some item else find name items

unfoldable pub get_package : Database → Text → Result IpkgError (Option Fields)
get_package db name = do validate_package_name name; ok (find name (records db))

abbrev pub others : Text → List Fields → List Fields
others name = filter (λ item. not (same (package_of item) name))

-- `{key: str(fields.get(key, "")) …}` with the status `installed`
abbrev pub installed_value : Fields → Text → Text
installed_value fields key =
    if same key status_key then codes "install ok installed" else get key fields

unfoldable pub installed_fields : Fields → List Text → Fields
installed_fields fields [] = []
installed_fields fields (key ∷ keys) =
    (key, installed_value fields key) ∷ installed_fields fields keys

abbrev pub blank_line : Text
blank_line = b'\n' ∷ b'\n' ∷ []

unfoldable pub stanzas : List Fields → Text
stanzas items = join blank_line (map format_status_stanza items)

unfoldable pub list_text : List Text → Text
list_text [] = []
list_text (path ∷ paths) = path ++ b'\n' ∷ list_text paths

-- `_atomic_write_text` on the status file and on a list file: a failed write leaves the old text
unfoldable pub write_status :
    (refused : Bool) → Database → Text → Database × Result IpkgError (Unit {0})
write_status refused db text =
    if refused
    then (db, err (update_failed (codes "status")))
    else (record db { status = some text }, ok tt)

abbrev pub put_list : Database → Text → Option Text → Database
put_list db name text = record db {
  lists = λ other. if same name other then text else db.lists other;
}

unfoldable pub write_list :
    (refused : Bool) → Database → Text → Text → Database × Result IpkgError (Unit {0})
write_list refused db name text =
    if refused
    then (db, err (update_failed (name ++ codes ".list")))
    else (put_list db name (some text), ok tt)

infixl 5 ◌then_do◌
abbrev ◌then_do◌ :
    Database × Result IpkgError (Unit {0})
    → (Database → Database × Result IpkgError (Unit {0}))
    → Database × Result IpkgError (Unit {0})
(db, err e) then_do next = (db, err e)
(db, ok _) then_do next = next db

-- `if status_text: status_text += "\n"`
abbrev pub closed : Text → Text
closed [] = []
closed (c ∷ text) = (c ∷ text) ++ b'\n' ∷ []

module _ (refused : Text → Bool) where
  unfoldable pub commit : Database → Fields → List Text → Database × Result IpkgError (Unit {0})
  commit db fields paths =
      let name = package_of fields in
      let current = others name (records db) ++ installed_fields fields status_keys ∷ [] in
      (db, validate_package_name name)
      then_do (λ old. write_status (refused (codes "status")) old (stanzas current ++ b'\n' ∷ []))
      then_do (λ next. write_list (refused (name ++ codes ".list")) next name (list_text paths))

  unfoldable pub remove : Database → Text → Database × Result IpkgError (Unit {0})
  remove db name =
      let current = others name (records db) in
      (db, validate_package_name name)
      then_do (λ old.
          (old, raise_if (beq (length current) (length (records db))) (not_installed name)))
      then_do (λ old. write_status (refused (codes "status")) old (closed (stanzas current)))
      then_do (λ next. (put_list next name none, ok tt))
