-- ===== src/Ipkg/Install/Outside.antt =====
-- An installation touches no place that is not below its root file system.
use smart_build.Prelude.{
  Bool, true, false, not, List, [], ◌∷◌, ◌++◌, Option, none, some, ◌≡◌, refl, ap, ◌∙◌, sym,
  Bool-cases, append_assoc, inl, inr,
}
use smart_build.Prelude.Errors.{Result, ok, err}
use smart_build.Prelude.Codes.{Text, Bytes, same_all, same_all_iff, same_refl}
use smart_build.Ipkg.Base.{IpkgError}
use smart_build.Ipkg.Control.{Fields}
use smart_build.Ipkg.Package.{Formats, Member}
use smart_build.Ipkg.Files.{
  Place, Node, absent, symlink, other, directory, regular, Files, Fault, fine, refused, partly,
  is_absent, ◌then_with◌, made, make_directory, make_directories, parent, base_name, relative_to,
  probe_suffix, probe_of,
}
use smart_build.Ipkg.Install.{
  Host, Destination, Progress, root, place, installed_over, install_file, after_file, finish, start,
  install_data, below_rootfs, install_members, opened, install_opened, install_ipkg,
}
use smart_build.Ipkg.Install.Kept.{set_elsewhere, base_name-append}
use smart_build.Ipkg.Install.Elsewhere.{unlink_elsewhere, installed_over_elsewhere}
use smart_build.Ipkg.Install.Known.{elem_place}
use smart_build.Ipkg.Install.Loop.{Keeps, install_members_keeps}
use smart_build.Ipkg.Install.RollBack.{roll_back_elsewhere}

parent-append : (at : Place) (name : Text) → parent (at ++ name ∷ []) ≡ at
unfolding parent
parent-append [] name = refl
parent-append (x ∷ []) name = refl
parent-append (x ∷ y ∷ at) name = ap (◌∷◌ x) (parent-append (y ∷ at) name)

relative_to-append : (root at : Place) → relative_to root (root ++ at) ≡ some at
unfolding relative_to
relative_to-append [] at = refl
relative_to-append (name ∷ root) at = rw (same_refl name) (relative_to-append root at)

module _ (l : Place) where
  abbrev Away : Place → Type 0
  Away base = (rest : Place) → same_all (base ++ rest) l ≡ false

  Away-of_none : (base : Place) → relative_to base l ≡ none → Away base
  Away-of_none base h rest = elim (Bool-cases (same_all (base ++ rest) l)) [
    | inr e ↦ e
    | inl e ↦ absurd (
        cc (
          h,
          ap (relative_to base) ((same_all_iff (base ++ rest) l).0 e),
          relative_to-append base rest,
        ))
  ]

  Away-append : (base rest : Place) → Away base → Away (base ++ rest)
  Away-append base rest h more = rw (append_assoc base rest more) (h (rest ++ more))

  made_elsewhere :
      (files : Files) (at : Place) (node : Node) (fault : Fault)
      → same_all at l ≡ false
      → (made files at node fault).0 l ≡ files l
  made_elsewhere files at absent fine h = set_elsewhere files at l (directory 0o755) h
  made_elsewhere files at absent refused h = refl
  made_elsewhere files at absent (partly _) h = refl
  made_elsewhere files at (directory _) fault h = refl
  made_elsewhere files at symlink fault h = refl
  made_elsewhere files at other fault h = refl
  made_elsewhere files at (regular _ _) fault h = refl

  then_elsewhere :
      {A B : Type 0} (files : Files) (first : Files × Result IpkgError A)
      (next : Files → A → Files × Result IpkgError B)
      → first.0 l ≡ files l
      → ((after : Files) (a : A) → (next after a).0 l ≡ after l)
      → (first then_with next).0 l ≡ files l
  then_elsewhere files (after, err e) next h k = h
  then_elsewhere files (after, ok a) next h k = k after a ∙ h

  make_directories_elsewhere :
      (faults : Place → Fault) (files : Files) (base rest : Place)
      → Away base
      → (make_directories faults files base rest).0 l ≡ files l
  unfolding make_directories make_directory
  make_directories_elsewhere faults files base [] h = refl
  make_directories_elsewhere faults files base (name ∷ rest) h =
      let here = base ++ name ∷ [] in
      then_elsewhere files (make_directory faults files here)
        (λ next _. make_directories faults next here rest)
        (made_elsewhere files here (files here) (faults here) (h (name ∷ [])))
        (λ next _.
          make_directories_elsewhere faults next here rest (Away-append base (name ∷ []) h))

  -- The directories on the way to a place that is not below `l`.
  make_directories_aside :
      (faults : Place → Fault) (files : Files) (base rest : Place)
      → relative_to l (base ++ rest) ≡ none
      → (make_directories faults files base rest).0 l ≡ files l
  unfolding make_directories make_directory
  make_directories_aside faults files base [] h = refl
  make_directories_aside faults files base (name ∷ rest) h =
      let here = base ++ name ∷ [] in
      let split : here ++ rest ≡ base ++ name ∷ rest = append_assoc base (name ∷ []) rest in
      let aside : same_all here l ≡ false = elim (Bool-cases (same_all here l)) [
        | inr e ↦ e
        | inl e ↦ absurd (
            cc (
              h,
              ap (λ at. relative_to l at) split,
              relative_to-append here rest,
              ap (λ at. relative_to at (here ++ rest)) ((same_all_iff here l).0 e),
            ))
      ] in
      then_elsewhere files (make_directory faults files here)
        (λ next _. make_directories faults next here rest)
        (made_elsewhere files here (files here) (faults here) aside)
        (λ next _. make_directories_aside faults next here rest (rw split h))

module _ (host : Host) (rootfs : Place) (l : Place) (away : Away l (root host rootfs)) where
  place_away : (d : Destination) → same_all (place host rootfs d) l ≡ false
  place_away d = away (d.below ++ base_name d.parts ∷ [])

  probe_away : (d : Destination) → same_all (probe_of (place host rootfs d)) l ≡ false
  probe_away d =
      let name = base_name d.parts in
      let split : place host rootfs d ≡ (root host rootfs ++ d.below) ++ name ∷ [] =
        sym (append_assoc (root host rootfs) d.below (name ∷ [])) in
      let probe : probe_of (place host rootfs d)
          ≡ root host rootfs ++ (d.below ++ (name ++ probe_suffix) ∷ []) =
        ap probe_of split
        ∙ ap
            (λ above.
              above
              ++ (base_name ((root host rootfs ++ d.below) ++ name ∷ []) ++ probe_suffix) ∷ [])
            (parent-append (root host rootfs ++ d.below) name)
        ∙ ap (λ last. (root host rootfs ++ d.below) ++ (last ++ probe_suffix) ∷ [])
            (base_name-append (root host rootfs ++ d.below) name)
        ∙ append_assoc (root host rootfs) d.below ((name ++ probe_suffix) ∷ []) in
      rw probe (away (d.below ++ (name ++ probe_suffix) ∷ []))

  abbrev Steady : Node → Progress → Type 0
  Steady first p = (p.files l ≡ first) × (elem_place l p.created ≡ false)

  module _ (fields : Fields) (source : Text) (first : Node) where
    after_file-Steady :
        (p : Progress) (d : Destination) (existed : Bool)
        (result : Files × Result IpkgError (Unit {0}))
        → result.0 l ≡ first
        → elem_place l p.created ≡ false
        → Steady first (after_file host rootfs fields source p d existed result).0
    after_file-Steady p d true (files, err e) h m = (h, m)
    after_file-Steady p d false (files, err e) h m =
        (unlink_elsewhere l files (place host rootfs d) (place_away d) ∙ h, m)
    after_file-Steady p d true (files, ok _) h m = (h, m)
    after_file-Steady p d false (files, ok _) h m = (h, rw (place_away d) m)

    Steady-kept : Keeps host rootfs fields source (Steady first)
    unfolding install_file
    Steady-kept = record {
      directories = λ p rest (h, m).
          (make_directories_elsewhere l host.faults p.files (root host rootfs) rest away ∙ h, m);
      mode = λ p d mode (h, m) _.
          (set_elsewhere p.files (place host rootfs d) l (directory mode) (place_away d) ∙ h, m);
      payload = λ p d payload mode _ (h, m).
          after_file-Steady p d (not (is_absent (p.files (place host rootfs d))))
            (installed_over host rootfs p.files (place host rootfs d) payload mode
              (p.files (place host rootfs d)))
            (installed_over_elsewhere host rootfs l (place host rootfs d) (probe_away d) p.files
                payload mode (p.files (place host rootfs d)) (place_away d)
              ∙ h)
            m;
    }

    finish_elsewhere :
        (result : Progress × Result IpkgError (Unit {0}))
        → Steady first result.0
        → (finish host rootfs fields source result).0 l ≡ first
    finish_elsewhere (p, ok _) (h, m) = h
    finish_elsewhere (p, err e) (h, m) =
        roll_back_elsewhere host rootfs fields source l p.files p.created m ∙ h

    install_data_elsewhere :
        (files : Files) (members : Option (List Member))
        → files l ≡ first
        → (install_data host rootfs fields source files members).0 l ≡ first
    install_data_elsewhere files none h = h
    install_data_elsewhere files (some members) h =
        finish_elsewhere
          (install_members host rootfs fields source (start host rootfs fields source files)
            members)
          (install_members_keeps host rootfs fields source (Steady first) Steady-kept
            (start host rootfs fields source files) members (h, refl))

  module _ (f : Formats) (source : Text) (first : Node) where
    below_rootfs_elsewhere :
        (fields : Fields) (payload : Bytes) (result : Files × Result IpkgError (Unit {0}))
        → result.0 l ≡ first
        → (below_rootfs host rootfs f source fields payload result).0 l ≡ first
    below_rootfs_elsewhere fields payload (files, err e) h = h
    below_rootfs_elsewhere fields payload (files, ok _) h =
        install_data_elsewhere fields source first files (f.members payload) h

    install_opened_elsewhere :
        (files : Files) (found : Result IpkgError (Fields × Bytes))
        → files l ≡ first
        → (make_directories host.faults files [] (root host rootfs)).0 l ≡ first
        → (install_opened host rootfs f source files found).0 l ≡ first
    install_opened_elsewhere files (err e) h k = h
    install_opened_elsewhere files (ok (fields, payload)) h k =
        below_rootfs_elsewhere fields payload
          (make_directories host.faults files [] (root host rootfs)) k

-- A place that lies neither below the resolved root file system nor above it is what it was, whether
-- `install_ipkg` returns or raises, temporary files included.
pub install_ipkg_elsewhere :
    (host : Host) (rootfs : Place) (f : Formats) (source : Text) (package_bytes : Bytes)
    (files : Files) (l : Place)
    → relative_to (root host rootfs) l ≡ none
    → relative_to l (root host rootfs) ≡ none
    → (install_ipkg host rootfs f source package_bytes files).0 l ≡ files l
unfolding install_ipkg
install_ipkg_elsewhere host rootfs f source package_bytes files l not_below not_above =
    install_opened_elsewhere host rootfs l (Away-of_none l (root host rootfs) not_below) f source
      (files l) files (opened host rootfs f source package_bytes) refl
      (make_directories_aside l host.faults files [] (root host rootfs) not_above)
