-- ===== src/Ipkg/Package/RoundTrip.antt =====
-- What `create_ipkg` packs is what `read_control_fields` and an installation find.
use smart_build.Prelude.{
  true, not, List, [], ◌∷◌, ◌++◌, Option, ◌≡◌, refl, ap, ◌∙◌, ◌<◌, ◌≤◌, ◌^◌, length, arith, All,
  All-map, length-append, sym, ltb, beq,
}
use mathlib.Core.Path.{subst}
use smart_build.Prelude.Errors.{ok, >>=-eq-ok, raise_if-ok, ok-injective}
use smart_build.Prelude.Codes.{Text, Bytes, same, rstrip}
use smart_build.Prelude.Codes.Dict.{Dict, lookup, insert, insert_all}
use smart_build.Ipkg.Base.{not_ascii, name_too_long}
use smart_build.Ipkg.Ar.{
  ar_magic, is_ascii, encoded, header, padding, write_members, write_ar, read_ar,
}
use smart_build.Ipkg.Ar.RoundTrip.{IsMember, read_ar-write_ar}
use smart_build.Ipkg.Control.{Fields, control_keys, get, control_text}
use smart_build.Ipkg.Control.RoundTrip.{IsValue, pairs, parse_control-control_text}
use smart_build.Ipkg.Package.{
  Formats, IsFaithful, PackageFile, ipkg_version, version_member, control_member, data_member,
  control_file, get_member, read_control_fields, control_archive, data_archive, create_ipkg,
}

IsWithin : Bytes → Text × Bytes → Type 0
IsWithin out (name, payload) = length payload ≤ length out

-- No payload is longer than the archive that holds it.
write_members_long :
    (members : List (Text × Bytes)) (out : Bytes)
    → write_members members ≡ ok out
    → All (IsWithin out) members
unfolding write_members IsWithin
write_members_long [] out h = tt
write_members_long ((name, payload) ∷ members) out h =
    let (_, h1) = raise_if-ok (not (is_ascii name)) (not_ascii name) _ h in
    let (_, h2) = raise_if-ok (ltb 16 (length (encoded name))) (name_too_long name) _ h1 in
    let (rest, h3, h4) = >>=-eq-ok (write_members members) _ h2 in
    let total =
      length-append (header name (length payload))
        (payload ++ (padding (length payload) ++ rest)) in
    let inner = length-append payload (padding (length payload) ++ rest) in
    let last = length-append (padding (length payload)) rest in
    let same_length = ap length (ok-injective h4) in
    (
      omega (arith, total, inner, last, same_length),
      All-map {P = IsWithin rest} {Q = IsWithin out}
          (λ (n, p) within. omega (arith, total, inner, last, same_length)) members
          (write_members_long members rest h3),
    )

IsMember-fits :
    (name : Text) (payload : Bytes)
    → is_ascii name ≡ true
    → length (encoded name) ≤ 16
    → rstrip (λ c. beq c b'/') name ≡ name
    → length payload < 10 ^ 10
    → IsMember (name, payload)
IsMember-fits name payload a b c d = record { ascii = a; fits = b; bare = c; small = d }

-- the members of a package
abbrev pub packed : Bytes → Bytes → Dict Bytes
packed control payload =
    (version_member, ipkg_version) ∷ (control_member, control) ∷ (data_member, payload) ∷ []

packed-IsMember :
    (control payload : Bytes)
    → length control < 10 ^ 10
    → length payload < 10 ^ 10
    → All IsMember (packed control payload)
unfolding rstrip
packed-IsMember control payload c p = (
  IsMember-fits version_member ipkg_version refl (omega arith) refl (omega arith),
  (
    IsMember-fits control_member control refl (omega arith) refl c,
    (IsMember-fits data_member payload refl (omega arith) refl p, tt),
  ),
)

module _ (f : Formats) (sources : Text → Option Bytes) (fields : Fields) (files : List PackageFile)
    (archive : Bytes) where
  -- `_read_ar` finds the three members of a package of less than 10^10 bytes.
  pub read_ar-create_ipkg :
      create_ipkg f sources fields files ≡ ok archive
      → length archive < 10 ^ 10
      → (control : Bytes) × (payload : Bytes) × (control_archive f fields ≡ ok control)
        × (data_archive f sources files ≡ ok payload)
        × (read_ar archive ≡ ok (packed control payload))
  unfolding create_ipkg write_ar insert_all insert same rstrip IsWithin
  read_ar-create_ipkg h small =
      let (control, h1, h2) = >>=-eq-ok (control_archive f fields) _ h in
      let (payload, h3, h4) =
        >>=-eq-ok (data_archive f sources files) (λ bytes. write_ar (packed control bytes)) h2 in
      let (body, h5, h6) =
        >>=-eq-ok (write_members (packed control payload)) (λ rest. ok (ar_magic ++ rest)) h4 in
      let (w1, (w2, (w3, _))) = write_members_long (packed control payload) body h5 in
      let longer = ap length (ok-injective h6) in
      let (written, e, read) =
        read_ar-write_ar (packed control payload) (
          packed-IsMember control payload (omega (arith, w2, longer))
            (omega (arith, w3, longer))) in
      (
        control,
        payload,
        h1,
        h3,
        subst (λ bytes. read_ar bytes ≡ ok (packed control payload)) (ok-injective (sym e ∙ h4))
            read,
      )

  -- `read_control_fields` reads from a package of less than 10^10 bytes the six fields that
  -- `create_ipkg` was given, when each is on one line with no white space before it.
  pub read_control_fields-create_ipkg :
      IsFaithful f
      → All (λ key. IsValue (get key fields)) control_keys
      → length archive < 10 ^ 10
      → create_ipkg f sources fields files ≡ ok archive
      → read_control_fields f archive ≡ ok (pairs fields control_keys)
  unfolding read_control_fields control_archive lookup same control_file get_member
  read_control_fields-create_ipkg faithful values small h =
      let (control, payload, h1, _, read) = read_ar-create_ipkg h small in
      let (text, h2, h3) = >>=-eq-ok (control_text fields) _ h1 in
      rw read (
        rw (← ok-injective h3) (
          rw faithful.members-tar_gz
            (rw faithful.decode-encode (parse_control-control_text fields text values h2))))
