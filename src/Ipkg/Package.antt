-- ===== src/Ipkg/Package.antt =====
-- `create_ipkg`, `read_control_fields` and what they call. UTF-8 and the compressed tar archives are
-- the library's: `Formats` names what the program uses of them.
pub mod RoundTrip
pub mod Values
use smart_build.Prelude.{
  ℕ, Bool, true, false, not, List, [], ◌∷◌, ◌++◌, Option, none, some, map, if◌then◌else◌, ◌≡◌,
}
use smart_build.Prelude.Errors.{Result, ok, err, raise_if, ◌>>=◌, ◌>>◌}
use smart_build.Prelude.Codes.{Text, Bytes, codes, same}
use smart_build.Prelude.Codes.Dict.{Dict, lookup}
use smart_build.Ipkg.Base.{
  IpkgError, unsupported_version, missing_control, control_not_file, invalid_control, missing_data,
  invalid_data, source_not_found,
}
use smart_build.Ipkg.Ar.{write_ar, read_ar}
use smart_build.Ipkg.Paths.{package_file_member_name}
use smart_build.Ipkg.Control.{Fields, control_keys, control_text, parse_control}

-- what a member of an archive is: `link` with what its target holds, `unreadable` is a file that
-- `extractfile` returns no handle for, and reading a `broken` one raises
pub data Content : Type 0 where
  directory special unreadable broken : Content
  link : (target : Option Bytes) → Content
  file : Bytes → Content

pub record Member : Type 0 where
  pub name : Text
  pub mode : ℕ
  pub content : Content

-- what `_tar_gz` packs
pub record Entry : Type 0 where
  pub name : Text
  pub payload : Bytes
  pub mode : ℕ

abbrev pub member_of : Entry → Member
member_of entry = record { name = entry.name; mode = entry.mode; content = file entry.payload }

-- `str.encode`, `bytes.decode` and the archives of `tarfile` under `gzip`; `none` is an exception
pub record Formats : Type 0 where
  pub encode : Text → Bytes
  pub decode : Bytes → Option Text
  pub tar_gz : List Entry → Bytes
  pub members : Bytes → Option (List Member)

pub record IsFaithful (f : Formats) : Type 0 where
  pub decode-encode : (text : Text) → f.decode (f.encode text) ≡ some text
  pub members-tar_gz :
      (entries : List Entry) → f.members (f.tar_gz entries) ≡ some (map member_of entries)

pub record PackageFile : Type 0 where
  pub source : Text
  pub path : Text
  pub mode : ℕ

abbrev pub ipkg_version : Bytes
ipkg_version = codes "2.0\n"

abbrev pub version_member : Text
version_member = codes "debian-binary"

abbrev pub control_member : Text
control_member = codes "control.tar.gz"

abbrev pub data_member : Text
data_member = codes "data.tar.gz"

-- `archive.getmember(name)`: the last member of that name
abbrev last_or : Option Member → Member → Bool → Option Member
last_or (some later) member named = some later
last_or none member named = if named then some member else none

unfoldable pub get_member : Text → List Member → Option Member
get_member name [] = none
get_member name (member ∷ members) =
    last_or (get_member name members) member (same member.name name)

abbrev pub or_member : Option Member → Option Member → Option Member
or_member (some member) other = some member
or_member none other = other

-- the control file of an archive: `./control`, or `control`
unfoldable pub control_file : List Member → Option Member
control_file members =
    or_member (get_member (codes "./control") members) (get_member (codes "control") members)

module _ (f : Formats) where
  abbrev pub decoded : Option Text → Result IpkgError Fields
  decoded none = err invalid_control
  decoded (some text) = parse_control text

  abbrev pub control_content : Content → Result IpkgError Fields
  control_content (file payload) = decoded (f.decode payload)
  control_content (link (some payload)) = decoded (f.decode payload)
  control_content (link none) = err invalid_control
  control_content broken = err invalid_control
  control_content _ = err control_not_file

  abbrev pub control_of : Option Member → Result IpkgError Fields
  control_of none = err invalid_control
  control_of (some member) = control_content member.content

  abbrev pub open_control : Option (List Member) → Result IpkgError Fields
  open_control none = err invalid_control
  open_control (some members) = control_of (control_file members)

  abbrev pub control_bytes : Option Bytes → Result IpkgError Fields
  control_bytes none = err missing_control
  control_bytes (some archive) = open_control (f.members archive)

  abbrev pub is_version : Option Bytes → Bool
  is_version none = false
  is_version (some bytes) = same bytes ipkg_version

  unfoldable pub read_control_fields : Bytes → Result IpkgError Fields
  read_control_fields package_bytes = do
    members ← read_ar package_bytes
    raise_if (not (is_version (lookup version_member members))) unsupported_version
    control_bytes (lookup control_member members)

  unfoldable pub control_archive : Fields → Result IpkgError Bytes
  control_archive fields = do
    text ← control_text fields
    ok (f.tar_gz (record { name = codes "./control"; payload = f.encode text; mode = 0o644 } ∷ []))

  -- what a source of a package holds, where it is a file
  module _ (sources : Text → Option Bytes) where
    abbrev source_bytes : Text → Option Bytes → Result IpkgError Bytes
    source_bytes source none = err (source_not_found source)
    source_bytes source (some payload) = ok payload

    unfoldable pub data_entries : List PackageFile → Result IpkgError (List Entry)
    data_entries [] = ok []
    data_entries (package_file ∷ files) = do
      payload ← source_bytes package_file.source (sources package_file.source)
      name ← package_file_member_name package_file.path
      entries ← data_entries files
      ok (record { name = name; payload = payload; mode = package_file.mode } ∷ entries)

    unfoldable pub data_archive : List PackageFile → Result IpkgError Bytes
    data_archive files = do entries ← data_entries files; ok (f.tar_gz entries)

    -- the bytes of the package that is written
    unfoldable pub create_ipkg : Fields → List PackageFile → Result IpkgError Bytes
    create_ipkg fields files = do
      control ← control_archive fields
      payload ← data_archive files
      write_ar
          ((version_member, ipkg_version) ∷ (control_member, control) ∷ (data_member, payload) ∷ [])
