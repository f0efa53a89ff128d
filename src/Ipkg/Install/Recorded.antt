-- ===== src/Ipkg/Install/Recorded.antt =====
-- The records that an installation returns tell what stands in the root file system.
use smart_build.Prelude.{
  ℕ, Bool, true, false, not, List, [], ◌∷◌, ◌++◌, ◌≡◌, refl, ap, ◌∙◌, sym, All, All-map, All-append,
  append_assoc,
}
use mathlib.Core.Path.{subst}
use smart_build.Prelude.Errors.{Result, ok, err}
use smart_build.Prelude.Codes.{Text, Bytes}
use smart_build.Ipkg.Base.{IpkgError}
use smart_build.Ipkg.Control.{Fields}
use smart_build.Ipkg.Package.{Formats}
use smart_build.Ipkg.Paths.{path_parts, as_posix}
use smart_build.Ipkg.Files.{
  Place, Node, absent, symlink, other, directory, regular, Files, set, Fault, fine, refused, partly,
  is_absent, is_file, written, write_bytes, make_directories, base_name,
}
use smart_build.Ipkg.Install.{
  Host, Destination, Progress, InstalledFile, root, place, resolved_parent, installed_over,
  install_file, node_checksum, installed_file, after_file, start, install_ipkg,
}
use smart_build.Ipkg.Install.Kept.{is_probe, set_at, Kept-refl, Kept-file, make_directories-Kept}
use smart_build.Ipkg.Install.Elsewhere.{probe_elsewhere, installed_over-same}
use smart_build.Ipkg.Install.Known.{Known, was_created, was_kept, set-Kept}
use smart_build.Ipkg.Install.Loop.{IsDestination, Keeps}
use smart_build.Ipkg.Install.Returned.{install_ipkg-All}
use smart_build.Ipkg.Install.Steps.{after_file-Known}

-- A file with this checksum.
abbrev pub HasChecksum : Host → Text → Node → Type 0
HasChecksum host checksum (regular payload mode) = host.checksum payload mode ≡ checksum
HasChecksum host checksum _ = ⊥

-- Files that stand at a place that is no temporary file stay as they are.
abbrev Stay : Files → Files → Type 0
Stay files after = (l : Place) → is_probe l ≡ false → is_file (files l) ≡ true → after l ≡ files l

module _ (host : Host) (rootfs : Place) where
  -- where the path of a record lies
  abbrev pub place_of : Text → Place
  place_of path = resolved_parent host rootfs (path_parts path) ++ base_name (path_parts path) ∷ []

  -- A record is true of some files: unless its path is one of a temporary file, a file with its
  -- checksum stands there.
  pub record IsTrue (files : Files) (r : InstalledFile) : Type 0 where
    pub holds :
        is_probe (place_of r.path) ≡ false → HasChecksum host r.checksum (files (place_of r.path))

  HasChecksum-file : (checksum : Text) (n : Node) → HasChecksum host checksum n → is_file n ≡ true
  HasChecksum-file checksum (regular payload mode) h = refl
  HasChecksum-file checksum absent h = elim h [ ]
  HasChecksum-file checksum symlink h = elim h [ ]
  HasChecksum-file checksum other h = elim h [ ]
  HasChecksum-file checksum (directory mode) h = elim h [ ]

  IsTrue-Stay :
      (files after : Files) (r : InstalledFile) → Stay files after → IsTrue files r → IsTrue after r
  IsTrue-Stay files after r stay t = record {
    holds = λ plain.
        let here = t.holds plain in
        rw
          (stay (place_of r.path) plain
            (HasChecksum-file r.checksum (files (place_of r.path)) here))
          here;
  }

  -- a regular file stands where a file was installed
  abbrev IsRegular : Node → Type 0
  IsRegular (regular _ _) = Unit
  IsRegular _ = ⊥

  HasChecksum-self : (n : Node) → IsRegular n → HasChecksum host (node_checksum host rootfs n) n
  HasChecksum-self (regular payload mode) h = refl
  HasChecksum-self absent h = elim h [ ]
  HasChecksum-self symlink h = elim h [ ]
  HasChecksum-self other h = elim h [ ]
  HasChecksum-self (directory mode) h = elim h [ ]

  written-IsRegular :
      (files : Files) (at : Place) (payload : Bytes) (mode : ℕ) (fault : Fault)
      → (written files at payload mode fault).1 ≡ ok tt
      → IsRegular ((written files at payload mode fault).0 at)
  written-IsRegular files at payload mode fine h =
      rw (set_at files at at (regular payload mode) refl) tt
  written-IsRegular files at payload mode refused h = cc
  written-IsRegular files at payload mode (partly start) h = cc

  installed_over-IsRegular :
      (files : Files) (at : Place) (payload : Bytes) (mode : ℕ) (node : Node)
      → is_probe at ≡ false
      → files at ≡ node
      → (installed_over host rootfs files at payload mode node).1 ≡ ok tt
      → IsRegular ((installed_over host rootfs files at payload mode node).0 at)
  unfolding write_bytes
  installed_over-IsRegular files at payload mode absent plain e h =
      written-IsRegular files at payload mode (host.faults at) h
  installed_over-IsRegular files at payload mode (regular old old_mode) plain e h =
      subst IsRegular
        (sym (
          installed_over-same host rootfs at at (probe_elsewhere at plain at) files payload mode
            (regular old old_mode) refl
          ∙ e))
        tt
  installed_over-IsRegular files at payload mode symlink plain e h = cc
  installed_over-IsRegular files at payload mode other plain e h = cc
  installed_over-IsRegular files at payload mode (directory was) plain e h = cc

  pub place_of-destination :
      (d : Destination)
      → IsDestination host rootfs d
      → place_of (as_posix d.parts) ≡ place host rootfs d
  place_of-destination d safe =
      ap (λ (parts : List Text). resolved_parent host rootfs parts ++ base_name parts ∷ [])
        safe.parts
      ∙ ap (λ (above : Place). above ++ base_name d.parts ∷ []) (sym safe.resolved)
      ∙ append_assoc (root host rootfs) d.below (base_name d.parts ∷ [])

module _ (host : Host) (rootfs : Place) (fields : Fields) (source : Text) where
  -- The files behind a member do not depend on what was created before.
  after_file_files :
      (p q : Progress) (d : Destination) (existed : Bool)
      (result : Files × Result IpkgError (Unit {0}))
      → (after_file host rootfs fields source p d existed result).0.files
        ≡ (after_file host rootfs fields source q d existed result).0.files
  after_file_files p q d true (files, err e) = refl
  after_file_files p q d false (files, err e) = refl
  after_file_files p q d true (files, ok _) = refl
  after_file_files p q d false (files, ok _) = refl

  Known-Stay :
      (files after : Files) (created : List Place) (l : Place)
      → Known (files l) l after created
      → is_file (files l) ≡ true
      → after l ≡ files l
  Known-Stay files after created l (was_created m a f) h = absurd (cc (ap is_file a, h))
  Known-Stay files after created l (was_kept m k) h = Kept-file (files l) (after l) h k

  after_file-Stay :
      (p : Progress) (d : Destination) (payload : Bytes) (mode : ℕ)
      → Stay p.files
          (after_file host rootfs fields source p d
            (not (is_absent (p.files (place host rootfs d))))
            (installed_over host rootfs p.files
              (place host rootfs d)
              payload
              mode
              (p.files (place host rootfs d)))).0.files
  after_file-Stay p d payload mode l plain h =
      let fresh : Progress = record p { created = [] } in
      let node = p.files (place host rootfs d) in
      let result = installed_over host rootfs p.files (place host rootfs d) payload mode node in
      ap (λ (f : Files). f l) (after_file_files p fresh d (not (is_absent node)) result)
      ∙ Known-Stay p.files _ _ l
          (after_file-Known host rootfs fields source (p.files l) l plain fresh d payload mode node
            (was_kept refl (Kept-refl (p.files l))) refl)
          h

  abbrev AllTrue : Progress → Type 0
  AllTrue p = All (IsTrue host rootfs p.files) p.records

  Stay-AllTrue :
      (files after : Files) (records : List InstalledFile)
      → Stay files after
      → All (IsTrue host rootfs files) records
      → All (IsTrue host rootfs after) records
  Stay-AllTrue files after records stay h =
      All-map (λ r t. IsTrue-Stay host rootfs files after r stay t) records h

  recorded :
      (p : Progress) (d : Destination) (files : Files)
      → IsDestination host rootfs d
      → Stay p.files files
      → (is_probe (place host rootfs d) ≡ false
          → IsRegular host rootfs (files (place host rootfs d)))
      → AllTrue p
      → All
          (IsTrue host rootfs files)
          (p.records ++ installed_file host rootfs fields source d files ∷ [])
  recorded p d files safe stay is h =
      let here = place_of-destination host rootfs d safe in
      All-append (IsTrue host rootfs files) p.records
        (installed_file host rootfs fields source d files ∷ [])
        (Stay-AllTrue p.files files p.records stay h)
        (
          record {
            holds = λ plain. rw here (
                HasChecksum-self host rootfs (files (place host rootfs d))
                  (is (subst (λ at. is_probe at ≡ false) here plain)));
          },
          tt,
        )

  after_file-AllTrue :
      (p : Progress) (d : Destination) (existed : Bool)
      (result : Files × Result IpkgError (Unit {0}))
      → IsDestination host rootfs d
      → Stay p.files (after_file host rootfs fields source p d existed result).0.files
      → (is_probe (place host rootfs d) ≡ false
          → result.1 ≡ ok tt
          → IsRegular host rootfs (result.0 (place host rootfs d)))
      → AllTrue p
      → AllTrue (after_file host rootfs fields source p d existed result).0
  after_file-AllTrue p d true (files, err e) safe stay is h =
      Stay-AllTrue p.files files p.records stay h
  after_file-AllTrue p d false (files, err e) safe stay is h =
      Stay-AllTrue p.files _ p.records stay h
  after_file-AllTrue p d true (files, ok _) safe stay is h =
      recorded p d files safe stay (λ plain. is plain refl) h
  after_file-AllTrue p d false (files, ok _) safe stay is h =
      recorded p d files safe stay (λ plain. is plain refl) h

  AllTrue-kept : Keeps host rootfs fields source AllTrue
  unfolding install_file
  AllTrue-kept = record {
    directories = λ p rest h.
        Stay-AllTrue p.files (make_directories host.faults p.files (root host rootfs) rest).0
          p.records
          (λ l _ stands.
            Kept-file (p.files l) _ stands
              (make_directories-Kept host.faults p.files (root host rootfs) rest l))
          h;
    mode = λ p d mode h made.
        Stay-AllTrue p.files (set p.files (place host rootfs d) (directory mode)) p.records
          (λ l _ stands.
            Kept-file (p.files l) _ stands (set-Kept p.files (place host rootfs d) l mode made))
          h;
    payload = λ p d payload mode safe h.
        let node = p.files (place host rootfs d) in
        after_file-AllTrue p d (not (is_absent node))
          (installed_over host rootfs p.files (place host rootfs d) payload mode node) safe
          (after_file-Stay p d payload mode)
          (λ plain done.
            installed_over-IsRegular host rootfs p.files (place host rootfs d) payload mode node
              plain refl done)
          h;
  }

-- When `install_ipkg` returns records, a file with the checksum of the record stands at the place of
-- each record's path, unless that place is named like a temporary file.
pub install_ipkg-IsTrue :
    (host : Host) (rootfs : Place) (f : Formats) (source : Text) (package_bytes : Bytes)
    (files : Files) {records : List InstalledFile}
    → (install_ipkg host rootfs f source package_bytes files).1 ≡ ok records
    → All (IsTrue host rootfs (install_ipkg host rootfs f source package_bytes files).0) records
install_ipkg-IsTrue host rootfs f source package_bytes files e =
    install_ipkg-All host rootfs f source (IsTrue host rootfs)
      (λ fields. AllTrue-kept host rootfs fields source) package_bytes files e
