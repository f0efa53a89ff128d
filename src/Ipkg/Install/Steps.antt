-- ===== src/Ipkg/Install/Steps.antt =====
-- The steps of an installation, at one place that is no temporary file.
use smart_build.Prelude.{ℕ, true, false, not, ◌≡◌, inl, inr, refl, ap, Bool-cases}
use smart_build.Prelude.Errors.{Result, ok, err}
use smart_build.Prelude.Codes.{Text, Bytes, same_all, same_all_iff}
use smart_build.Ipkg.Base.{IpkgError}
use smart_build.Ipkg.Control.{Fields}
use smart_build.Ipkg.Files.{
  Place, Node, absent, symlink, other, directory, regular, Files, set, Fault, fine, refused, partly,
  is_absent, written, write_bytes,
}
use smart_build.Ipkg.Install.{
  Host, Destination, Progress, root, place, installed_over, install_file, after_file,
}
use smart_build.Ipkg.Install.Kept.{is_probe, set_at, set_elsewhere, make_directories-Kept}
use smart_build.Ipkg.Install.Elsewhere.{probe_elsewhere, installed_over-same}
use smart_build.Ipkg.Install.Known.{
  set-Kept, Known, was_created, Known-Kept, Known-same, Known-absent, Known-cons, unlink_absent,
  unlink_written,
}
use smart_build.Ipkg.Install.Loop.{Keeps}

abbrev pub KnownIn : Node → Place → Progress → Type 0
KnownIn first l p = Known first l p.files p.created

module _ (host : Host) (rootfs : Place) (fields : Fields) (source : Text) (first : Node) (l : Place)
    (plain : is_probe l ≡ false) where
  -- a file that is written where nothing stood
  after_new_file :
      (p : Progress) (d : Destination) (payload : Bytes) (mode : ℕ) (fault : Fault)
      → KnownIn first l p
      → p.files (place host rootfs d) ≡ absent
      → KnownIn first l
          (after_file host rootfs fields source p d false
            (written p.files (place host rootfs d) payload mode fault)).0
  after_new_file p d payload mode fine k e = elim (Bool-cases (same_all (place host rootfs d) l)) [
    | inl s ↦
        let here = (same_all_iff (place host rootfs d) l).0 s in
        let (a, m) = Known-absent first l p.files p.created k (rw (← here) e) in
        was_created (rw s refl) a
          (rw (set_at p.files (place host rootfs d) l (regular payload mode) here) refl)
    | inr s ↦
        Known-cons first l (set p.files (place host rootfs d) (regular payload mode)) p.created
          (place host rootfs d) s
          (Known-same first l p.files (set p.files (place host rootfs d) (regular payload mode))
            p.created k (set_elsewhere p.files (place host rootfs d) l (regular payload mode) s))
  ]
  after_new_file p d payload mode refused k e =
      Known-same first l p.files _ p.created k
        (ap (λ (f : Files). f l) (unlink_absent p.files (place host rootfs d) e))
  after_new_file p d payload mode (partly start) k e =
      Known-same first l p.files _ p.created k
        (unlink_written p.files (place host rootfs d) l start e)

  -- a file that stood already
  after_old :
      (p : Progress) (d : Destination) (result : Files × Result IpkgError (Unit {0}))
      → Known first l result.0 p.created
      → KnownIn first l (after_file host rootfs fields source p d true result).0
  after_old p d (files, err e) k = k
  after_old p d (files, ok _) k = k

  pub after_file-Known :
      (p : Progress) (d : Destination) (payload : Bytes) (mode : ℕ) (node : Node)
      → KnownIn first l p
      → p.files (place host rootfs d) ≡ node
      → KnownIn first l
          (after_file host rootfs fields source p d
            (not (is_absent node))
            (installed_over host rootfs p.files (place host rootfs d) payload mode node)).0
  unfolding write_bytes
  after_file-Known p d payload mode absent k e =
      after_new_file p d payload mode (host.faults (place host rootfs d)) k e
  after_file-Known p d payload mode (regular old old_mode) k e =
      after_old p d
        (installed_over host rootfs p.files (place host rootfs d) payload mode
          (regular old old_mode))
        (Known-same first l p.files _ p.created k (
          installed_over-same host rootfs l (place host rootfs d)
            (probe_elsewhere l plain (place host rootfs d)) p.files payload mode
            (regular old old_mode) refl))
  after_file-Known p d payload mode symlink k e =
      after_old p d (installed_over host rootfs p.files (place host rootfs d) payload mode symlink)
        k
  after_file-Known p d payload mode other k e =
      after_old p d (installed_over host rootfs p.files (place host rootfs d) payload mode other) k
  after_file-Known p d payload mode (directory was) k e =
      after_old p d
        (installed_over host rootfs p.files (place host rootfs d) payload mode (directory was)) k

  -- Each step of the loop keeps what is known of the place.
  pub Known_kept : Keeps host rootfs fields source (KnownIn first l)
  unfolding install_file
  Known_kept = record {
    directories = λ p rest k.
        Known-Kept first l p.files _ p.created k
          (make_directories-Kept host.faults p.files (root host rootfs) rest l);
    mode = λ p d mode k made.
        Known-Kept first l p.files _ p.created k
          (set-Kept p.files (place host rootfs d) l mode made);
    payload = λ p d payload mode _ k.
        after_file-Known p d payload mode (p.files (place host rootfs d)) k refl;
  }
