-- ===== src/Ipkg/Install/RollBack.antt =====
-- What an installation leaves at a place that is no temporary file.
use smart_build.Prelude.{if_both, true, false, List, [], ◌∷◌, ◌≡◌, ◌⊎◌, refl, ◌∙◌, arith}
use smart_build.Prelude.Errors.{Result, ok, err}
use smart_build.Prelude.Codes.{Text}
use smart_build.Ipkg.Base.{IpkgError}
use smart_build.Ipkg.Control.{Fields}
use smart_build.Ipkg.Package.{Formats}
use smart_build.Ipkg.Files.{Place, Node, absent, symlink, Files, is_file, is_symlink, unlink_file}
use smart_build.Ipkg.Install.{Host, InstalledFile, Progress, unlink_path, roll_back}
use smart_build.Ipkg.Install.Kept.{Kept, is_probe}
use smart_build.Ipkg.Install.Elsewhere.{unlink_elsewhere}
use smart_build.Ipkg.Install.Known.{elem_place, Known}
use smart_build.Ipkg.Install.Steps.{KnownIn}

-- A rollback in which each path leads where it led.
unlink_all : Files → List Place → Files
unlink_all files [] = files
unlink_all files (at ∷ created) = unlink_all (unlink_file files at) created

-- A place that is not created is left alone by a rollback, wherever the paths lead.
pub roll_back_elsewhere :
    (host : Host) (rootfs : Place) (fields : Fields) (source : Text) (l : Place) (files : Files)
    (created : List Place)
    → elem_place l created ≡ false
    → roll_back host rootfs fields source files created l ≡ files l
unfolding roll_back
roll_back_elsewhere host rootfs fields source l files [] m = refl
roll_back_elsewhere host rootfs fields source l files (at ∷ created) m =
    roll_back_elsewhere host rootfs fields source l (unlink_path host rootfs fields source files at)
      created (ground (arith, m))
    ∙ if_both (λ (after : Files). after l ≡ files l) (host.leads files at)
        (λ _. unlink_elsewhere l files at (ground (arith, m))) (λ _. refl)

-- Every symbolic link of the one disk stands on the other.
abbrev pub LinksStand : Files → Files → Type 0
LinksStand before after = (l : Place) → is_symlink (before l) ≡ true → after l ≡ symlink

-- The paths of created files lead where they led as long as the symbolic links stand that stood.
abbrev pub LeadsOn : Host → Files → Type 0
LeadsOn host before =
    (after : Files) → LinksStand before after → (at : Place) → host.leads after at ≡ true

-- The links stand, and none of them was created.
abbrev IsLinked : Files → Files → List Place → Type 0
IsLinked before files created =
    (l : Place)
    → is_symlink (before l) ≡ true
    → (files l ≡ symlink) × (elem_place l created ≡ false)

-- What an installation may do to a place: where it returns, a file may stand where nothing stood,
-- and where it raises, nothing new is left but directories.
abbrev pub Untouched : {A : Type 0} → Node → Node → Result IpkgError A → Type 0
Untouched first last (ok _) = Kept first last ⊎ ((first ≡ absent) × (is_file last ≡ true))
Untouched first last (err _) = Kept first last

module _ (host : Host) (rootfs : Place) (f : Formats) (source : Text) (before : Files)
    (leads : LeadsOn host before)
    (no_link : (l : Place) → is_probe l ≡ true → is_symlink (before l) ≡ false) where
  abbrev LeftIn : Files × Result IpkgError (List InstalledFile) → Type 0
  LeftIn (files, result) = (l : Place) → is_probe l ≡ false → Untouched (before l) (files l) result

  -- what is known at each place
  abbrev AllKnown : Progress → Type 0
  AllKnown p = (l : Place) → is_probe l ≡ false → KnownIn (before l) l p
