-- ===== src/Ipkg/Install/Listed.antt =====
-- The paths that an installation records are found again: none is refused by `_safe_destination`.
use smart_build.Prelude.{
  ℕ, Bool, true, false, not, List, [], ◌∷◌, ◌++◌, some, ◌≡◌, inl, inr, refl, ap, ◌∙◌, sym, if_both,
  Bool-cases, All, All-map, All-append, append_assoc,
}
use smart_build.Prelude.Errors.{Result, ok, err}
use smart_build.Prelude.Codes.{Text, Bytes, same_refl, same_all, same_all_iff}
use smart_build.Ipkg.Base.{IpkgError}
use smart_build.Ipkg.Control.{Fields}
use smart_build.Ipkg.Package.{Formats}
use smart_build.Ipkg.Paths.{as_posix}
use smart_build.Ipkg.Files.{
  Place, Node, absent, symlink, other, directory, regular, Files, set, Fault, fine, refused, partly,
  is_absent, is_file, is_symlink, unlink_file, ◌then_with◌, written, write_bytes, base_name,
  relative_to, probe_of,
}
use smart_build.Ipkg.Install.{
  Host, Destination, Progress, InstalledFile, root, place, resolved_parent, safe_destination,
  checked_probe, probed, incoming_file_checksum, same_checksum, installed_over, install_file,
  installed_file, after_file, install_ipkg,
}
use smart_build.Ipkg.Install.Kept.{Kept, set_at, set_elsewhere, make_directories-Kept}
use smart_build.Ipkg.Install.Loop.{IsDestination, Keeps}
use smart_build.Ipkg.Install.Returned.{install_ipkg-All}

-- No symbolic link stands where none stood.
abbrev pub NoNewLink : Files → Files → Type 0
NoNewLink files after = (l : Place) → is_symlink (files l) ≡ false → is_symlink (after l) ≡ false

set-NoNewLink :
    (files : Files) (at : Place) (node : Node)
    → is_symlink node ≡ false
    → NoNewLink files (set files at node)
set-NoNewLink files at node n l h = elim (Bool-cases (same_all at l)) [
  | inl s ↦ rw (set_at files at l node ((same_all_iff at l).0 s)) n
  | inr s ↦ rw (set_elsewhere files at l node s) h
]

pub unlink-NoNewLink : (files : Files) (at : Place) → NoNewLink files (unlink_file files at)
unlink-NoNewLink files at l h =
    if_both (λ (after : Files). is_symlink (after l) ≡ false) (is_file (files at))
      (λ _. set-NoNewLink files at absent refl l h) (λ _. h)

Kept-symlink : (a b : Node) → Kept a b → is_symlink a ≡ false → is_symlink b ≡ false
Kept-symlink absent absent k h = refl
Kept-symlink absent (directory _) k h = refl
Kept-symlink absent symlink k h = elim k [ ]
Kept-symlink absent other k h = refl
Kept-symlink absent (regular _ _) k h = refl
Kept-symlink (directory _) (directory _) k h = refl
Kept-symlink (directory _) absent k h = refl
Kept-symlink (directory _) symlink k h = elim k [ ]
Kept-symlink (directory _) other k h = refl
Kept-symlink (directory _) (regular _ _) k h = refl
Kept-symlink symlink b k h = cc
Kept-symlink other b k h = rw k refl
Kept-symlink (regular _ _) b k h = rw k refl

written-NoNewLink :
    (files : Files) (at : Place) (payload : Bytes) (mode : ℕ) (fault : Fault)
    → NoNewLink files (written files at payload mode fault).0
written-NoNewLink files at payload mode fine = set-NoNewLink files at (regular payload mode) refl
written-NoNewLink files at payload mode refused = λ l h. h
written-NoNewLink files at payload mode (partly start) =
    set-NoNewLink files at (regular start 0o644) refl

relative_to-append : (root below : Place) → relative_to root (root ++ below) ≡ some below
unfolding relative_to
relative_to-append [] below = refl
relative_to-append (name ∷ root) below = rw (same_refl name) (relative_to-append root below)

module _ (host : Host) (rootfs : Place) where
  checked_probe-NoNewLink :
      (files : Files) (probe : Place) (payload : Bytes) (mode : ℕ)
      (result : Files × Result IpkgError (Unit {0}))
      → NoNewLink files result.0
      → NoNewLink files (checked_probe host rootfs probe payload mode result).0
  checked_probe-NoNewLink files probe payload mode (after, err e) n l h =
      unlink-NoNewLink after probe l (n l h)
  checked_probe-NoNewLink files probe payload mode (after, ok _) n l h =
      unlink-NoNewLink after probe l (n l h)

  probed-NoNewLink :
      (files : Files) (probe : Place) (payload : Bytes) (mode : ℕ) (node : Node)
      → NoNewLink files (probed host rootfs files probe payload mode node).0
  unfolding write_bytes
  probed-NoNewLink files probe payload mode absent =
      checked_probe-NoNewLink files probe payload mode
        (write_bytes host.faults files probe payload mode)
        (written-NoNewLink files probe payload mode (host.faults probe))
  probed-NoNewLink files probe payload mode (directory _) = λ l h. h
  probed-NoNewLink files probe payload mode symlink = set-NoNewLink files probe absent refl
  probed-NoNewLink files probe payload mode other = set-NoNewLink files probe absent refl
  probed-NoNewLink files probe payload mode (regular _ _) = set-NoNewLink files probe absent refl

  compared-NoNewLink :
      (files : Files) (at : Place) (old : Text) (result : Files × Result IpkgError Text)
      → NoNewLink files result.0
      → NoNewLink files (result then_with same_checksum host rootfs at old).0
  compared-NoNewLink files at old (after, err e) n = n
  compared-NoNewLink files at old (after, ok _) n = n

  installed_over-NoNewLink :
      (files : Files) (at : Place) (payload : Bytes) (mode : ℕ) (node : Node)
      → NoNewLink files (installed_over host rootfs files at payload mode node).0
  unfolding write_bytes incoming_file_checksum
  installed_over-NoNewLink files at payload mode absent =
      written-NoNewLink files at payload mode (host.faults at)
  installed_over-NoNewLink files at payload mode (regular old old_mode) =
      compared-NoNewLink files at (host.checksum old old_mode)
        (incoming_file_checksum host rootfs files at payload mode)
        (probed-NoNewLink files (probe_of at) payload mode (files (probe_of at)))
  installed_over-NoNewLink files at payload mode symlink = λ l h. h
  installed_over-NoNewLink files at payload mode other = λ l h. h
  installed_over-NoNewLink files at payload mode (directory _) = λ l h. h

  installed_over-is_symlink :
      (files : Files) (at : Place) (payload : Bytes) (mode : ℕ) (node : Node)
      → (installed_over host rootfs files at payload mode node).1 ≡ ok tt
      → is_symlink node ≡ false
  installed_over-is_symlink files at payload mode absent h = refl
  installed_over-is_symlink files at payload mode (regular _ _) h = refl
  installed_over-is_symlink files at payload mode symlink h = cc
  installed_over-is_symlink files at payload mode other h = refl
  installed_over-is_symlink files at payload mode (directory _) h = refl

  -- A path of a list file that is found: it comes from a destination, where no link stands.
  pub record IsListed (files : Files) (path : Text) : Type 0 where
    pub destination : Destination
    pub safe : IsDestination host rootfs destination
    pub posix : path ≡ as_posix destination.parts
    pub unlinked : is_symlink (files (place host rootfs destination)) ≡ false

  pub IsListed-NoNewLink :
      (files after : Files) (path : Text)
      → NoNewLink files after
      → IsListed files path
      → IsListed after path
  IsListed-NoNewLink files after path n t = record {
    destination = t.destination;
    safe = t.safe;
    posix = t.posix;
    unlinked = n (place host rootfs t.destination) t.unlinked;
  }

  pub safe_destination-IsListed :
      (files : Files) (path : Text) (t : IsListed files path)
      → safe_destination host rootfs files path ≡ ok t.destination
  unfolding safe_destination
  safe_destination-IsListed files path t =
      let d = t.destination in
      let here : resolved_parent host rootfs d.parts ++ base_name d.parts ∷ []
          ≡ place host rootfs d =
        ap (λ (above : Place). above ++ base_name d.parts ∷ []) (sym t.safe.resolved)
        ∙ append_assoc (root host rootfs) d.below (base_name d.parts ∷ []) in
      let below : relative_to (root host rootfs) (resolved_parent host rootfs d.parts)
          ≡ some d.below =
        ap (relative_to (root host rootfs)) (sym t.safe.resolved)
        ∙ relative_to-append (root host rootfs) d.below in
      rw (t.posix, t.safe.again, here, t.unlinked, below) refl

module _ (host : Host) (rootfs : Place) (fields : Fields) (source : Text) where
  abbrev AllListed : Files → List InstalledFile → Type 0
  AllListed files = All (λ r. IsListed host rootfs files r.path)

  AllListed-NoNewLink :
      (files after : Files) (records : List InstalledFile)
      → NoNewLink files after
      → AllListed files records
      → AllListed after records
  AllListed-NoNewLink files after records n h =
      All-map (λ r t. IsListed-NoNewLink host rootfs files after r.path n t) records h

  listed :
      (p : Progress) (d : Destination) (files : Files)
      → IsDestination host rootfs d
      → NoNewLink p.files files
      → is_symlink (p.files (place host rootfs d)) ≡ false
      → AllListed p.files p.records
      → AllListed files (p.records ++ installed_file host rootfs fields source d files ∷ [])
  listed p d files safe n no_link h =
      All-append (λ r. IsListed host rootfs files r.path) p.records
        (installed_file host rootfs fields source d files ∷ [])
        (AllListed-NoNewLink p.files files p.records n h)
        (
          record {
            destination = d;
            safe = safe;
            posix = refl;
            unlinked = n (place host rootfs d) no_link;
          },
          tt,
        )

  after_file-AllListed :
      (p : Progress) (d : Destination) (existed : Bool)
      (result : Files × Result IpkgError (Unit {0}))
      → IsDestination host rootfs d
      → NoNewLink p.files result.0
      → (result.1 ≡ ok tt → is_symlink (p.files (place host rootfs d)) ≡ false)
      → AllListed p.files p.records
      → AllListed
          (after_file host rootfs fields source p d existed result).0.files
          (after_file host rootfs fields source p d existed result).0.records
  after_file-AllListed p d true (files, err e) safe n no_link h =
      AllListed-NoNewLink p.files files p.records n h
  after_file-AllListed p d false (files, err e) safe n no_link h =
      AllListed-NoNewLink p.files (unlink_file files (place host rootfs d)) p.records
        (λ l k. unlink-NoNewLink files (place host rootfs d) l (n l k)) h
  after_file-AllListed p d true (files, ok _) safe n no_link h =
      listed p d files safe n (no_link refl) h
  after_file-AllListed p d false (files, ok _) safe n no_link h =
      listed p d files safe n (no_link refl) h

  AllListed-kept : Keeps host rootfs fields source (λ (p : Progress). AllListed p.files p.records)
  unfolding install_file
  AllListed-kept = record {
    directories = λ p rest h.
        AllListed-NoNewLink p.files _ p.records
          (λ l k.
            Kept-symlink (p.files l) _
              (make_directories-Kept host.faults p.files (root host rootfs) rest l) k)
          h;
    mode = λ p d mode h made.
        AllListed-NoNewLink p.files _ p.records
          (set-NoNewLink p.files (place host rootfs d) (directory mode) refl) h;
    payload = λ p d payload mode safe h.
        let at = place host rootfs d in
        let node = p.files at in
        after_file-AllListed p d (not (is_absent node))
          (installed_over host rootfs p.files at payload mode node) safe
          (installed_over-NoNewLink host rootfs p.files at payload mode node)
          (installed_over-is_symlink host rootfs p.files at payload mode node) h;
  }

pub install_ipkg-IsListed :
    (host : Host) (rootfs : Place) (f : Formats) (source : Text) (package_bytes : Bytes)
    (files : Files) {records : List InstalledFile}
    → (install_ipkg host rootfs f source package_bytes files).1 ≡ ok records
    → All
        (λ r. IsListed host rootfs (install_ipkg host rootfs f source package_bytes files).0 r.path)
        records
install_ipkg-IsListed host rootfs f source package_bytes files e =
    install_ipkg-All host rootfs f source (λ after r. IsListed host rootfs after r.path)
      (λ fields. AllListed-kept host rootfs fields source) package_bytes files e
