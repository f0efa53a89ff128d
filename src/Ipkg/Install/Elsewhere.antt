-- ===== src/Ipkg/Install/Elsewhere.antt =====
-- Places that `_install_file` does not touch.
use smart_build.Prelude.{ℕ, false, ◌≡◌, inl, inr, refl, ap, ◌∙◌, if_both, Bool-cases}
use smart_build.Prelude.Errors.{Result, ok, err}
use smart_build.Prelude.Codes.{Text, Bytes, same_all, same_all_iff}
use smart_build.Ipkg.Base.{IpkgError}
use smart_build.Ipkg.Files.{
  Place, Node, absent, symlink, other, directory, regular, Files, Fault, fine, refused, partly,
  is_absent, is_file, unlink_file, ◌then_with◌, written, write_bytes, probe_of,
}
use smart_build.Ipkg.Install.{
  Host, checked_probe, probed, incoming_file_checksum, same_checksum, installed_over,
}
use smart_build.Ipkg.Install.Kept.{is_probe, is_probe-probe_of, set_elsewhere}

module _ (l : Place) where
  pub probe_elsewhere : is_probe l ≡ false → (at : Place) → same_all (probe_of at) l ≡ false
  probe_elsewhere plain at = elim (Bool-cases (same_all (probe_of at) l)) [
    | inr e ↦ e
    | inl e ↦
        absurd (cc (plain, ap is_probe ((same_all_iff (probe_of at) l).0 e), is_probe-probe_of at))
  ]

  pub unlink_elsewhere :
      (files : Files) (at : Place) → same_all at l ≡ false → unlink_file files at l ≡ files l
  unlink_elsewhere files at h =
      if_both (λ (after : Files). after l ≡ files l) (is_file (files at))
        (λ _. set_elsewhere files at l absent h) (λ _. refl)

  pub written_elsewhere :
      (files : Files) (at : Place) (payload : Bytes) (mode : ℕ) (fault : Fault)
      → same_all at l ≡ false
      → (written files at payload mode fault).0 l ≡ files l
  written_elsewhere files at payload mode fine h = set_elsewhere files at l _ h
  written_elsewhere files at payload mode refused h = refl
  written_elsewhere files at payload mode (partly start) h = set_elsewhere files at l _ h

module _ (host : Host) (rootfs l at : Place) (away : same_all (probe_of at) l ≡ false) where
  checked_probe_elsewhere :
      (payload : Bytes) (mode : ℕ) (result : Files × Result IpkgError (Unit {0}))
      → (checked_probe host rootfs (probe_of at) payload mode result).0 l ≡ result.0 l
  checked_probe_elsewhere payload mode (files, err e) = unlink_elsewhere l files (probe_of at) away
  checked_probe_elsewhere payload mode (files, ok _) = unlink_elsewhere l files (probe_of at) away

  probed_elsewhere :
      (files : Files) (payload : Bytes) (mode : ℕ) (node : Node)
      → (probed host rootfs files (probe_of at) payload mode node).0 l ≡ files l
  unfolding write_bytes
  probed_elsewhere files payload mode absent =
      checked_probe_elsewhere payload mode
        (write_bytes host.faults files (probe_of at) payload mode)
      ∙ written_elsewhere l files (probe_of at) payload mode (host.faults (probe_of at)) away
  probed_elsewhere files payload mode (directory _) = refl
  probed_elsewhere files payload mode symlink = set_elsewhere files (probe_of at) l absent away
  probed_elsewhere files payload mode other = set_elsewhere files (probe_of at) l absent away
  probed_elsewhere files payload mode (regular _ _) =
      set_elsewhere files (probe_of at) l absent away

  compared_elsewhere :
      (files : Files) (old : Text) (result : Files × Result IpkgError Text)
      → result.0 l ≡ files l
      → (result then_with same_checksum host rootfs at old).0 l ≡ files l
  compared_elsewhere files old (after, err e) h = h
  compared_elsewhere files old (after, ok _) h = h

  -- Over a node that stands, the check of a file changes no place but the probe.
  pub installed_over-same :
      (files : Files) (payload : Bytes) (mode : ℕ) (node : Node)
      → is_absent node ≡ false
      → (installed_over host rootfs files at payload mode node).0 l ≡ files l
  unfolding incoming_file_checksum
  installed_over-same files payload mode absent h = cc
  installed_over-same files payload mode (regular old old_mode) h =
      compared_elsewhere files (host.checksum old old_mode)
        (incoming_file_checksum host rootfs files at payload mode)
        (probed_elsewhere files payload mode (files (probe_of at)))
  installed_over-same files payload mode symlink h = refl
  installed_over-same files payload mode other h = refl
  installed_over-same files payload mode (directory _) h = refl

  -- At another place nothing changes.
  pub installed_over_elsewhere :
      (files : Files) (payload : Bytes) (mode : ℕ) (node : Node)
      → same_all at l ≡ false
      → (installed_over host rootfs files at payload mode node).0 l ≡ files l
  unfolding write_bytes
  installed_over_elsewhere files payload mode absent h =
      written_elsewhere l files at payload mode (host.faults at) h
  installed_over_elsewhere files payload mode (regular old old_mode) h =
      installed_over-same files payload mode (regular old old_mode) refl
  installed_over_elsewhere files payload mode symlink h = refl
  installed_over_elsewhere files payload mode other h = refl
  installed_over_elsewhere files payload mode (directory _) h = refl
