-- ===== src/Ipkg/Runtime/Round.antt =====
-- A package that was installed is removed again.
use smart_build.Prelude.{Bool, true, false, not, List, map, ◌≡◌, refl, ap, ◌∙◌, sym, arith}
use mathlib.Core.Path.{subst}
use smart_build.Prelude.Errors.{Result, ok, err, >>=-eq-ok, raise_if-ok, ok-injective}
use smart_build.Prelude.Codes.{Text, Bytes}
use smart_build.Ipkg.Base.{IpkgError, unsafe_name}
use smart_build.Ipkg.Control.{Fields}
use smart_build.Ipkg.Control.Values.{HasValues}
use smart_build.Ipkg.Package.{Formats, read_control_fields}
use smart_build.Ipkg.Package.Values.{read_control_fields-HasValues}
use smart_build.Ipkg.Database.{Database, package_of, is_package_name, validate_package_name, commit}
use smart_build.Ipkg.Database.Table.{registry, register, SameRegistry}
use smart_build.Ipkg.Database.Commit.{commit-register}
use smart_build.Ipkg.Files.{Place, Files}
use smart_build.Ipkg.Install.{Host, InstalledFile, install_ipkg}
use smart_build.Ipkg.Runtime.{
  System, runtime_fields, committed, after_install, install_checked, install_ipkg_runtime,
}

module _ (host : Host) (rootfs : Place) (refused : Text → Bool) (f : Formats) where
  fields-known :
      (package_bytes : Bytes) (fields : Fields)
      → runtime_fields host rootfs refused f package_bytes ≡ ok fields
      → HasValues fields × (is_package_name (package_of fields) ≡ true)
  unfolding runtime_fields validate_package_name
  fields-known package_bytes fields h =
      let (read, e, h1) = >>=-eq-ok (read_control_fields f package_bytes) _ h in
      let (safe, h2) =
        raise_if-ok (not (is_package_name (package_of read))) (unsafe_name (package_of read))
          (ok read) h1 in
      let same_fields = ok-injective h2 in
      (
        subst HasValues same_fields (read_control_fields-HasValues f package_bytes read e),
        subst (λ fields. is_package_name (package_of fields) ≡ true) same_fields (ground arith),
      )

  committed-ok :
      (files : Files) (found : List InstalledFile) (result : Database × Result IpkgError (Unit {0}))
      {installed : List InstalledFile}
      → (committed host rootfs refused files found result).1 ≡ ok installed
      → ((committed host rootfs refused files found result).0
          ≡ record { files = files; db = result.0 })
        × (found ≡ installed)
  committed-ok files found (db, err e) h = absurd (cc h)
  committed-ok files found (db, ok _) h = (refl, ok-injective h)

  -- the system behind an installation that returns
  after_install-ok :
      (db : Database) (fields : Fields) (result : Files × Result IpkgError (List InstalledFile))
      {installed : List InstalledFile}
      → (after_install host rootfs refused db fields result).1 ≡ ok installed
      → (result.1 ≡ ok installed)
        × ((after_install host rootfs refused db fields result).0 ≡ record {
          files = result.0;
          db = (commit refused db fields (map (λ r. r.path) installed)).0;
        })
  after_install-ok db fields (files, err e) h = cc
  after_install-ok db fields (files, ok found) {installed} h =
      let (same_system, same_found) =
        committed-ok files found (commit refused db fields (map (λ r. r.path) found)) h in
      (
        ap ok same_found,
        same_system
            ∙ ap
                (λ (list : List InstalledFile). record {
                  files = files;
                  db = (commit refused db fields (map (λ r. r.path) list)).0;
                })
                same_found,
      )

  module _ (source : Text) (package_bytes : Bytes) (before : System) (fields : Fields)
      {installed : List InstalledFile}
      (read : runtime_fields host rootfs refused f package_bytes ≡ ok fields)
      (open_files : (name : Text) → refused name ≡ false)
      (done : (install_ipkg_runtime host rootfs refused f source package_bytes before).1
        ≡ ok installed) where
    abbrev mid : System
    mid = (install_ipkg_runtime host rootfs refused f source package_bytes before).0

    abbrev paths : List Text
    paths = map (λ r. r.path) installed

    returned :
        ((install_ipkg host rootfs f source package_bytes before.files).1 ≡ ok installed)
        × (mid ≡ record {
          files = (install_ipkg host rootfs f source package_bytes before.files).0;
          db = (commit refused before.db fields paths).0;
        })
    unfolding install_ipkg_runtime
    returned =
        let step = ap (install_checked host rootfs refused f source package_bytes before) read in
        let (files, system) =
          after_install-ok before.db fields
            (install_ipkg host rootfs f source package_bytes before.files)
            (sym (ap (λ (out : System × Result IpkgError (List InstalledFile)). out.1) step)
              ∙ done) in
        (files, ap (λ (out : System × Result IpkgError (List InstalledFile)). out.0) step ∙ system)

    -- An installation that returns enters the package with the paths of its records.
    pub install_ipkg_runtime-register :
        SameRegistry (registry mid.db) (register fields paths (registry before.db))
    install_ipkg_runtime-register =
        let (values, safe) = fields-known package_bytes fields read in
        subst
          (λ (db : Database).
            SameRegistry (registry db) (register fields paths (registry before.db)))
          (sym (ap (λ (system : System). system.db) returned.1))
          (commit-register refused before.db fields paths values safe open_files).1

    abbrev name : Text
    name = package_of fields
