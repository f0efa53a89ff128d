-- ===== src/Ipkg/Runtime.antt =====
-- `install_ipkg_runtime`, `remove_ipkg_runtime` and `list_ipkg_runtime`: a root file system with its
-- data base, which is kept apart from the places that packages are installed to.
pub mod Removed
pub mod Round
use smart_build.Prelude.{ℕ, Bool, true, false, List, [], ◌∷◌, ◌++◌, Option, none, some, map}
use smart_build.Prelude.Errors.{Result, ok, err, ◌>>=◌, ◌>>◌}
use smart_build.Prelude.Codes.{Text, Bytes}
use smart_build.Prelude.Codes.Lines.{splitlines, universal_newlines}
use smart_build.Ipkg.Base.{IpkgError, not_installed}
use smart_build.Ipkg.Control.{Fields}
use smart_build.Ipkg.Database.{
  Database, package_of, validate_package_name, records, get_package, commit, remove,
}
use smart_build.Ipkg.Files.{Place, Files, unlink_file}
use smart_build.Ipkg.Package.{Formats, read_control_fields}
use smart_build.Ipkg.Install.{
  Host, Destination, InstalledFile, place, safe_destination, install_ipkg,
}

pub record System : Type 0 where
  pub files : Files
  pub db : Database

module _ (host : Host) (rootfs : Place) (refused : Text → Bool) where
  -- what is read before anything is installed
  unfoldable pub runtime_fields : Formats → Bytes → Result IpkgError Fields
  runtime_fields f package_bytes = do
    fields ← read_control_fields f package_bytes
    validate_package_name (package_of fields)
    ok fields

  abbrev pub committed :
      Files
      → List InstalledFile
      → Database × Result IpkgError (Unit {0})
      → System × Result IpkgError (List InstalledFile)
  committed files installed (db, err e) = (record { files = files; db = db }, err e)
  committed files installed (db, ok _) = (record { files = files; db = db }, ok installed)

  abbrev pub after_install :
      Database
      → Fields
      → Files × Result IpkgError (List InstalledFile)
      → System × Result IpkgError (List InstalledFile)
  after_install db fields (files, err e) = (record { files = files; db = db }, err e)
  after_install db fields (files, ok installed) =
      committed files installed (commit refused db fields (map (λ r. r.path) installed))

  abbrev pub install_checked :
      Formats
      → Text
      → Bytes
      → System
      → Result IpkgError Fields
      → System × Result IpkgError (List InstalledFile)
  install_checked f source package_bytes system (err e) = (system, err e)
  install_checked f source package_bytes system (ok fields) =
      after_install system.db fields (install_ipkg host rootfs f source package_bytes system.files)

  unfoldable pub install_ipkg_runtime :
      Formats → Text → Bytes → System → System × Result IpkgError (List InstalledFile)
  install_ipkg_runtime f source package_bytes system =
      install_checked f source package_bytes system (runtime_fields f package_bytes)

  -- the loop over the lines of a list file
  abbrev pub unlink_found :
      Files
      → Result IpkgError Destination
      → (Files → Files × Result IpkgError (Unit {0}))
      → Files × Result IpkgError (Unit {0})
  unlink_found files (err e) next = (files, err e)
  unlink_found files (ok d) next = next (unlink_file files (place host rootfs d))

  unfoldable pub unlink_paths : Files → List Text → Files × Result IpkgError (Unit {0})
  unlink_paths files [] = (files, ok tt)
  unlink_paths files (raw_path ∷ paths) =
      unlink_found files (safe_destination host rootfs files raw_path)
        (λ next. unlink_paths next paths)

  -- the paths of a list file, if there is one
  abbrev pub listed_paths : Option Text → List Text
  listed_paths none = []
  listed_paths (some text) = splitlines (universal_newlines false text)

  abbrev pub removed :
      Files → Database × Result IpkgError (Unit {0}) → System × Result IpkgError (Unit {0})
  removed files (db, result) = (record { files = files; db = db }, result)

  abbrev pub after_unlink :
      Database → Text → Files × Result IpkgError (Unit {0}) → System × Result IpkgError (Unit {0})
  after_unlink db name (files, err e) = (record { files = files; db = db }, err e)
  after_unlink db name (files, ok _) = removed files (remove refused db name)

  abbrev pub remove_found :
      System → Text → Result IpkgError (Option Fields) → System × Result IpkgError (Unit {0})
  remove_found system name (err e) = (system, err e)
  remove_found system name (ok none) = (system, err (not_installed name))
  remove_found system name (ok (some _)) =
      after_unlink system.db name (unlink_paths system.files (listed_paths (system.db.lists name)))

  unfoldable pub remove_ipkg_runtime : System → Text → System × Result IpkgError (Unit {0})
  remove_ipkg_runtime system name = remove_found system name (get_package system.db name)

unfoldable pub list_ipkg_runtime : Database → List Fields
list_ipkg_runtime = records
