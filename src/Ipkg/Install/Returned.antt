-- ===== src/Ipkg/Install/Returned.antt =====
-- What is kept of every record while a package is installed holds of the records that are returned.
use smart_build.Prelude.{List, [], Option, none, some, All, ◌≡◌}
use mathlib.Core.Path.{subst}
use smart_build.Prelude.Errors.{Result, ok, err, ok-injective}
use smart_build.Prelude.Codes.{Text, Bytes}
use smart_build.Ipkg.Base.{IpkgError}
use smart_build.Ipkg.Control.{Fields}
use smart_build.Ipkg.Package.{Formats, Member}
use smart_build.Ipkg.Files.{Place, Files, make_directories}
use smart_build.Ipkg.Install.{
  Host, Progress, InstalledFile, root, finish, start, install_data, below_rootfs, install_members,
  opened, install_opened, install_ipkg,
}
use smart_build.Ipkg.Install.Loop.{Keeps, install_members_keeps}

module _ (host : Host) (rootfs : Place) (f : Formats) (source : Text)
    (P : Files → InstalledFile → Type 0)
    (keeps : (fields : Fields)
      → Keeps host rootfs fields source (λ (p : Progress). All (P p.files) p.records)) where
  finish-All :
      (fields : Fields) (result : Progress × Result IpkgError (Unit {0}))
      {records : List InstalledFile}
      → All (P result.0.files) result.0.records
      → (finish host rootfs fields source result).1 ≡ ok records
      → All (P (finish host rootfs fields source result).0) records
  finish-All fields (p, ok _) h e = subst (All (P p.files)) (ok-injective e) h
  finish-All fields (p, err raised) h e = cc

  install_data-All :
      (fields : Fields) (files : Files) (members : Option (List Member))
      {records : List InstalledFile}
      → (install_data host rootfs fields source files members).1 ≡ ok records
      → All (P (install_data host rootfs fields source files members).0) records
  install_data-All fields files none e = cc
  install_data-All fields files (some members) e =
      finish-All fields
        (install_members host rootfs fields source (start host rootfs fields source files) members)
        (install_members_keeps host rootfs fields source
          (λ (p : Progress). All (P p.files) p.records) (keeps fields)
          (start host rootfs fields source files) members tt)
        e

  below_rootfs-All :
      (fields : Fields) (payload : Bytes) (result : Files × Result IpkgError (Unit {0}))
      {records : List InstalledFile}
      → (below_rootfs host rootfs f source fields payload result).1 ≡ ok records
      → All (P (below_rootfs host rootfs f source fields payload result).0) records
  below_rootfs-All fields payload (files, err raised) e = cc
  below_rootfs-All fields payload (files, ok _) e =
      install_data-All fields files (f.members payload) e

  install_opened-All :
      (files : Files) (found : Result IpkgError (Fields × Bytes)) {records : List InstalledFile}
      → (install_opened host rootfs f source files found).1 ≡ ok records
      → All (P (install_opened host rootfs f source files found).0) records
  install_opened-All files (err raised) e = cc
  install_opened-All files (ok (fields, payload)) e =
      below_rootfs-All fields payload (make_directories host.faults files [] (root host rootfs)) e

  pub install_ipkg-All :
      (package_bytes : Bytes) (files : Files) {records : List InstalledFile}
      → (install_ipkg host rootfs f source package_bytes files).1 ≡ ok records
      → All (P (install_ipkg host rootfs f source package_bytes files).0) records
  unfolding install_ipkg
  install_ipkg-All package_bytes files e =
      install_opened-All files (opened host rootfs f source package_bytes) e
