-- ===== src/Ipkg/Control.antt =====
-- The text of control files and of the status file: `_control_archive`, `_parse_control`,
-- `_parse_status_stanza` and `_format_status_stanza`.
pub mod RoundTrip
pub mod Values
use smart_build.Prelude.{
  ℕ, Bool, true, false, not, List, [], ◌∷◌, ◌++◌, Option, none, some, filter, null, if◌then◌else◌,
}
use smart_build.Prelude.Errors.{Result, ok, err, raise_if, ◌>>=◌, ◌>>◌}
use smart_build.Prelude.Codes.{Text, codes, lstrip, is_space}
use smart_build.Prelude.Codes.Lines.{splitlines, split_colon, join}
use smart_build.Prelude.Codes.Dict.{Dict, lookup, insert}
use smart_build.Ipkg.Base.{IpkgError, missing_fields, invalid_control_line}

abbrev pub Fields : Type 0
Fields = Dict Text

abbrev pub package_key : Text
package_key = codes "Package"

abbrev pub version_key : Text
version_key = codes "Version"

abbrev pub status_key : Text
status_key = codes "Status"

-- `CONTROL_FIELDS`
abbrev pub control_keys : List Text
control_keys =
    package_key
    ∷ version_key
    ∷ codes "Architecture"
    ∷ codes "Depends"
    ∷ codes "Provides"
    ∷ codes "Description"
    ∷ []

-- `CONTROL_STATUS_FIELDS`
abbrev pub status_keys : List Text
status_keys = control_keys ++ status_key ∷ []

-- `fields.get(key, "")`
abbrev pub or_empty : Option Text → Text
or_empty none = []
or_empty (some value) = value

unfoldable pub get : Text → Fields → Text
unfolding lookup
get key fields = or_empty (lookup key fields)

abbrev pub is_missing : Fields → Text → Bool
is_missing fields key = elim (lookup key fields) [ none ↦ true | some _ ↦ false ]

-- `f"{key}: {value}"`
abbrev pub field_line : Text → Text → Text
field_line key value = key ++ b':' ∷ b' ' ∷ value

unfoldable pub field_lines : Fields → List Text → Text
unfolding get
field_lines fields [] = []
field_lines fields (key ∷ keys) = field_line key (get key fields) ++ b'\n' ∷ field_lines fields keys

-- the text that `_control_archive` packs
unfoldable pub control_text : Fields → Result IpkgError Text
unfolding field_lines
control_text fields = do
  let missing = filter (is_missing fields) control_keys
  raise_if (not (null missing)) (missing_fields missing)
  ok (field_lines fields control_keys)

-- a line of `_parse_control`
abbrev pub add_split : Text → Fields → Option (Text × Text) → Result IpkgError Fields
add_split line fields none = err (invalid_control_line line)
add_split line fields (some (key, value)) = ok (insert key (lstrip is_space value) fields)

unfoldable pub parse_lines : Fields → List Text → Result IpkgError Fields
parse_lines fields [] = ok fields
parse_lines fields ([] ∷ lines) = parse_lines fields lines
parse_lines fields ((c ∷ line) ∷ lines) = do
  next ← add_split (c ∷ line) fields (split_colon (c ∷ line))
  parse_lines next lines

-- `fields.setdefault(key, "")`
abbrev pub set_default : Text → Fields → Fields
set_default key fields = if is_missing fields key then insert key [] fields else fields

unfoldable pub set_all_defaults : List Text → Fields → Fields
set_all_defaults [] fields = fields
set_all_defaults (key ∷ keys) fields = set_all_defaults keys (set_default key fields)

unfoldable pub parse_control : Text → Result IpkgError Fields
unfolding parse_lines set_all_defaults
parse_control text = do
  fields ← parse_lines [] (splitlines text)
  ok (set_all_defaults control_keys fields)

-- a line of `_parse_status_stanza`: one with no colon is left out
abbrev pub keep_split : Fields → Option (Text × Text) → Fields
keep_split fields none = fields
keep_split fields (some (key, value)) = insert key (lstrip is_space value) fields

unfoldable pub parse_stanza_lines : Fields → List Text → Fields
parse_stanza_lines fields [] = fields
parse_stanza_lines fields (line ∷ lines) =
    parse_stanza_lines (keep_split fields (split_colon line)) lines

unfoldable pub parse_status_stanza : Text → Fields
unfolding parse_stanza_lines
parse_status_stanza text = parse_stanza_lines [] (splitlines text)

-- the lines of `_format_status_stanza`
unfoldable pub status_lines : Fields → List Text → List Text
status_lines fields [] = []
status_lines fields (key ∷ keys) =
    let rest = status_lines fields keys in
    if null (get key fields) then rest else field_line key (get key fields) ∷ rest

unfoldable pub format_status_stanza : Fields → Text
unfolding status_lines
format_status_stanza fields = join (b'\n' ∷ []) (status_lines fields status_keys)
