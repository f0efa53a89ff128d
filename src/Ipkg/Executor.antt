-- ===== src/Ipkg/Executor.antt =====
-- `_make_ipkg_executor` and `_make_files_ipkg_executor`: the executors of the tasks that pack. The
-- paths of the manifest are texts that `Path` and `str` leave as they are, and the bytes of a source
-- are read as they stand when the executor begins. Writing the package may raise and leave any part
-- of it; writing to the log does not raise here.
pub mod Packed
mod Samples
use smart_build.Prelude.{ℕ, Bool, true, false, List, [], ◌∷◌, ◌++◌, Option, none, some, length}
use smart_build.Prelude.Errors.{Result, ok, err}
use smart_build.Prelude.Codes.{Text, Bytes, codes}
use smart_build.Prelude.Codes.Decimal.{numeral}
use smart_build.Ipkg.Base.{IpkgError, app_output_not_found, os_error}
use smart_build.Ipkg.Control.{Fields}
use smart_build.Ipkg.Package.{Formats, PackageFile, create_ipkg}
use smart_build.Ipkg.Sources.{
  Disk, InstallItem, Output, missing, symlink_there, other_there, plain, expand_files,
  package_files_from_manifest, prepare_package_output,
}

-- the fields of `package_manifest` that stay as they are
pub record PackageManifest : Type 0 where
  pub name : Text
  pub version : Text
  pub architecture : Text
  pub depends : Text
  pub provides : Text
  pub description : Text
  pub path : Text
  pub install_path : Text
  pub app_output : Text

-- what the executors change: the package, the fields `files` and `checksum`, and the log
pub record Packing : Type 0 where
  pub output : Output
  pub files : List PackageFile
  pub checksum : Option Text
  pub log : Text

abbrev pub control_fields : PackageManifest → Fields
control_fields m =
    (codes "Package", m.name)
    ∷ (codes "Version", m.version)
    ∷ (codes "Architecture", m.architecture)
    ∷ (codes "Depends", m.depends)
    ∷ (codes "Provides", m.provides)
    ∷ (codes "Description", m.description)
    ∷ []

-- `if output.exists() or output.is_symlink(): _prepare_package_output(output)`
abbrev pub cleared_output : Text → Output → Result IpkgError Output
cleared_output path missing = ok missing
cleared_output path output = prepare_package_output path output

abbrev pub cleared :
    Packing
    → Result IpkgError Output
    → (Packing → Packing × Result IpkgError ℕ)
    → Packing × Result IpkgError ℕ
cleared p (err e) next = (p, err e)
cleared p (ok output) next = next (record p { output = output })

abbrev pub with_files :
    Packing
    → Result IpkgError (List PackageFile)
    → (Packing → Packing × Result IpkgError ℕ)
    → Packing × Result IpkgError ℕ
with_files p (err e) next = (p, err e)
with_files p (ok files) next = next (record p { files = files })

-- the files of the build task, if there is one
abbrev pub build_files :
    Disk
    → Option (Option (List InstallItem))
    → List PackageFile
    → Result IpkgError (List PackageFile)
build_files disk none files = ok files
build_files disk (some install_files) files = package_files_from_manifest disk install_files

-- how the package is written: whole, or an exception with what is left of it
pub data Writing : Type 0 where
  whole : Writing
  broken : (left : Output) → Writing

module _ (f : Formats) (disk : Disk) (checksum : Bytes → Text) (writing : Bytes → Writing) where
  -- the bytes are written, and read again for the checksum
  abbrev pub put_package : Packing → Text → Bytes → Writing → Packing × Result IpkgError ℕ
  put_package p line archive (broken left) = (record p { output = left }, err os_error)
  put_package p line archive whole = (
    record p { output = plain 1 archive; checksum = some (checksum archive); log = p.log ++ line },
    ok 0,
  )

  -- what follows `create_ipkg`
  abbrev pub packed : Packing → Text → Result IpkgError Bytes → Packing × Result IpkgError ℕ
  packed p line (err e) = (p, err e)
  packed p line (ok archive) = put_package p line archive (writing archive)

  abbrev pub app_line : PackageManifest → Text
  app_line m = codes "packaged app: " ++ (m.app_output ++ (codes " -> " ++ (m.path ++ b'\n' ∷ [])))

  abbrev pub files_line : PackageManifest → ℕ → Text
  files_line m count =
      codes "packaged files: " ++ (numeral count ++ (codes " -> " ++ (m.path ++ b'\n' ∷ [])))

  abbrev pub app_files : PackageManifest → List PackageFile
  app_files m = record { source = m.app_output; path = m.install_path; mode = 0o755 } ∷ []

  abbrev pub pack_app : PackageManifest → Packing → Option Bytes → Packing × Result IpkgError ℕ
  pack_app m p none = (p, err (app_output_not_found m.app_output))
  pack_app m p (some _) =
      cleared p (cleared_output m.path p.output)
        (λ q. packed q (app_line m) (create_ipkg f disk.bytes (control_fields m) (app_files m)))

  unfoldable pub ipkg_executor : PackageManifest → Packing → Packing × Result IpkgError ℕ
  unfolding prepare_package_output
  ipkg_executor m p = pack_app m p (disk.bytes m.app_output)

  unfoldable pub files_ipkg_executor :
      PackageManifest → Option (Option (List InstallItem)) → Packing → Packing × Result IpkgError ℕ
  unfolding prepare_package_output
  files_ipkg_executor m build p = cleared p (cleared_output m.path p.output) (λ q.
      with_files q (build_files disk build q.files) (λ r.
        with_files r (expand_files disk r.files) (λ s.
          packed s (files_line m (length s.files))
            (create_ipkg f disk.bytes (control_fields m) s.files))))
