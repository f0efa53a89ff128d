-- ===== src/Ipkg/Package/Values.antt =====
-- The fields that `read_control_fields` returns can be written to a status file.
use smart_build.Prelude.{not, List, Option, none, some, ◌≡◌, refl}
use mathlib.Core.Path.{subst}
use smart_build.Prelude.Errors.{Result, ok, err, >>=-eq-ok, raise_if-ok}
use smart_build.Prelude.Codes.{Text, Bytes}
use smart_build.Prelude.Codes.Dict.{lookup}
use smart_build.Ipkg.Base.{IpkgError, unsupported_version}
use smart_build.Ipkg.Ar.{read_ar}
use smart_build.Ipkg.Control.{Fields, parse_control}
use smart_build.Ipkg.Control.Values.{HasValues, parse_control-HasValues}
use smart_build.Ipkg.Package.{
  Formats, Content, file, link, broken, directory, special, unreadable, Member, version_member,
  control_member, is_version, control_file, decoded, control_content, control_of, open_control,
  control_bytes, read_control_fields,
}

-- what a call returns, if it returns
abbrev Returns : Result IpkgError Fields → Type 0
Returns (err e) = Unit
Returns (ok fields) = HasValues fields

module _ (f : Formats) where
  parsed-Returns :
      (text : Text) (result : Result IpkgError Fields)
      → parse_control text ≡ result
      → Returns result
  parsed-Returns text (err e) h = tt
  parsed-Returns text (ok fields) h = parse_control-HasValues text fields h

  decoded-Returns : (text : Option Text) → Returns (decoded f text)
  decoded-Returns none = tt
  decoded-Returns (some text) = parsed-Returns text (parse_control text) refl

  content-Returns : (content : Content) → Returns (control_content f content)
  content-Returns (file payload) = decoded-Returns (f.decode payload)
  content-Returns (link (some payload)) = decoded-Returns (f.decode payload)
  content-Returns (link none) = tt
  content-Returns broken = tt
  content-Returns directory = tt
  content-Returns special = tt
  content-Returns unreadable = tt

  control_of-Returns : (found : Option Member) → Returns (control_of f found)
  control_of-Returns none = tt
  control_of-Returns (some member) = content-Returns member.content

  open_control-Returns : (members : Option (List Member)) → Returns (open_control f members)
  open_control-Returns none = tt
  open_control-Returns (some members) = control_of-Returns (control_file members)

  control_bytes-Returns : (bytes : Option Bytes) → Returns (control_bytes f bytes)
  control_bytes-Returns none = tt
  control_bytes-Returns (some archive) = open_control-Returns (f.members archive)

  -- The fields of a package can be written to a status file.
  pub read_control_fields-HasValues :
      (package_bytes : Bytes) (fields : Fields)
      → read_control_fields f package_bytes ≡ ok fields
      → HasValues fields
  unfolding read_control_fields
  read_control_fields-HasValues package_bytes fields h =
      let (members, _, h1) = >>=-eq-ok (read_ar package_bytes) _ h in
      let (_, h2) =
        raise_if-ok (not (is_version f (lookup version_member members))) unsupported_version
          (control_bytes f (lookup control_member members)) h1 in
      subst Returns h2 (control_bytes-Returns (lookup control_member members))
