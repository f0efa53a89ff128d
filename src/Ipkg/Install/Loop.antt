-- ===== src/Ipkg/Install/Loop.antt =====
-- The loop of `install_ipkg` keeps what each of its steps keeps.
use smart_build.Prelude.{
  not, List, [], ◌∷◌, ◌++◌, ℕ, ◌%◌, Option, none, some, ◌≡◌, refl, ap, ◌∙◌, sym, inl, inr,
  Bool-cases,
}
use smart_build.Prelude.Errors.{Result, ok, err, >>=-eq-ok, raise_if-ok, ok-injective}
use smart_build.Prelude.Codes.{Text, Bytes, same, eq_of_same}
use smart_build.Ipkg.Base.{IpkgError}
use smart_build.Ipkg.Control.{Fields}
use smart_build.Ipkg.Package.{
  Content, Member, directory as directory_content, special, unreadable, broken, link, file,
}
use mathlib.Core.Path.{subst}
use smart_build.Ipkg.Paths.{path_parts, as_posix, safe_relative_path}
use smart_build.Ipkg.Paths.Safe.{
  path_parts-safe, safe_relative_path-ok, safe_relative_path-as_posix,
}
use smart_build.Ipkg.Files.{
  Place, directory, Files, set, is_absent, is_symlink, make_directories, base_name, relative_to,
}
use smart_build.Ipkg.Install.{
  Host, Destination, Progress, root, place, resolved_parent, below_root, safe_destination,
  install_file, after_file, set_mode, install_directory, member_bytes, with_bytes, in_parent,
  install_regular, at_destination, install_content, install_member, go_on, install_members,
}
use smart_build.Ipkg.Install.Kept.{IsDirectory}
use smart_build.Ipkg.Install.Known.{make_directories_last}

append-relative_to :
    (root at : Place) {below : Place} → relative_to root at ≡ some below → root ++ below ≡ at
unfolding relative_to
append-relative_to [] at h = cc
append-relative_to (name ∷ root) [] h = cc
append-relative_to (name ∷ root) (next ∷ at) h = elim (Bool-cases (same name next)) [
  | inl e ↦ cc (eq_of_same name next e, append-relative_to root at (rw (e, relative_to) at h))
  | inr e ↦ cc (rw (e, relative_to) at h)
]

module _ (host : Host) (rootfs : Place) where
  -- What is known of a destination that `_safe_destination` returns.
  pub record IsDestination (d : Destination) : Type 0 where
    pub resolved : root host rootfs ++ d.below ≡ resolved_parent host rootfs d.parts
    pub parts : path_parts (as_posix d.parts) ≡ d.parts
    pub again : safe_relative_path (as_posix d.parts) ≡ ok d.parts

  below_root-IsDestination :
      (raw_name : Text) (parts : List Text) (below : Option Place) (d : Destination)
      → relative_to (root host rootfs) (resolved_parent host rootfs parts) ≡ below
      → path_parts (as_posix parts) ≡ parts
      → safe_relative_path (as_posix parts) ≡ ok parts
      → below_root host rootfs raw_name parts below ≡ ok d
      → IsDestination d
  below_root-IsDestination raw_name parts none d e h again k = cc
  below_root-IsDestination raw_name parts (some below) d e h again k =
      subst IsDestination (ok-injective k) (record {
        resolved = append-relative_to (root host rootfs) (resolved_parent host rootfs parts) e;
        parts = h;
        again = again;
      })

  pub safe_destination-IsDestination :
      (files : Files) (raw_name : Text) (d : Destination)
      → safe_destination host rootfs files raw_name ≡ ok d
      → IsDestination d
  unfolding safe_destination
  safe_destination-IsDestination files raw_name d h =
      let (parts, e, h1) = >>=-eq-ok (safe_relative_path raw_name) _ h in
      let (_, h2) =
        raise_if-ok (is_symlink (files (resolved_parent host rootfs parts ++ base_name parts ∷ [])))
          _
          (below_root host rootfs raw_name parts
            (relative_to (root host rootfs) (resolved_parent host rootfs parts)))
          h1 in
      below_root-IsDestination raw_name parts
        (relative_to (root host rootfs) (resolved_parent host rootfs parts)) d refl
        (path_parts-safe raw_name parts e) (safe_relative_path-as_posix raw_name parts e) h2

  below_root-parts :
      (raw_name : Text) (parts : List Text) (below : Option Place) (d : Destination)
      → below_root host rootfs raw_name parts below ≡ ok d
      → parts ≡ d.parts
  below_root-parts raw_name parts none d h = cc
  below_root-parts raw_name parts (some below) d h =
      ap (λ (d : Destination). d.parts) (ok-injective h)

  pub safe_destination-parts :
      (files : Files) (raw_name : Text) (d : Destination)
      → safe_destination host rootfs files raw_name ≡ ok d
      → path_parts raw_name ≡ path_parts (as_posix d.parts)
  unfolding safe_destination
  safe_destination-parts files raw_name d h =
      let (parts, e, h1) = >>=-eq-ok (safe_relative_path raw_name) _ h in
      let (_, h2) =
        raise_if-ok (is_symlink (files (resolved_parent host rootfs parts ++ base_name parts ∷ [])))
          _
          (below_root host rootfs raw_name parts
            (relative_to (root host rootfs) (resolved_parent host rootfs parts)))
          h1 in
      let (_, found, _, _) = (safe_relative_path-ok raw_name parts).0 e in
      found
      ∙ sym (path_parts-safe raw_name parts e)
      ∙ ap (λ (parts : List Text). path_parts (as_posix parts))
          (below_root-parts raw_name parts _ d h2)

module _ (host : Host) (rootfs : Place) (fields : Fields) (source : Text) where
  -- What a step of the loop has to keep.
  pub record Keeps (P : Progress → Type 0) : Type 0 where
    pub directories :
        (p : Progress) (rest : Place)
        → P p
        → P (record p { files = (make_directories host.faults p.files (root host rootfs) rest).0 })
    pub mode :
        (p : Progress) (d : Destination) (mode : ℕ)
        → P p
        → IsDirectory (p.files (place host rootfs d))
        → P (record p { files = set p.files (place host rootfs d) (directory mode) })
    pub payload :
        (p : Progress) (d : Destination) (payload : Bytes) (mode : ℕ)
        → IsDestination host rootfs d
        → P p
        → P
            (after_file host rootfs fields source p d
              (not (is_absent (p.files (place host rootfs d))))
              (install_file host rootfs p.files (place host rootfs d) payload mode)).0

  module _ (P : Progress → Type 0) (keeps : Keeps P) where
    with_bytes_keeps :
        (p : Progress) (d : Destination) (mode : ℕ) (bytes : Result IpkgError Bytes)
        → IsDestination host rootfs d
        → P p
        → P (with_bytes host rootfs fields source p d mode bytes).0
    with_bytes_keeps p d mode (err e) safe h = h
    with_bytes_keeps p d mode (ok payload) safe h = keeps.payload p d payload (mode % 4096) safe h

    in_parent_keeps :
        (p : Progress) (d : Destination) (member : Member)
        (result : Files × Result IpkgError (Unit {0}))
        → IsDestination host rootfs d
        → P (record p { files = result.0 })
        → P (in_parent host rootfs fields source p d member result).0
    in_parent_keeps p d member (files, err e) safe h = h
    in_parent_keeps p d member (files, ok _) safe h =
        with_bytes_keeps (record p { files = files }) d member.mode
          (member_bytes host rootfs fields source member.name member.content) safe h

    set_mode_keeps :
        (p : Progress) (d : Destination) (mode : ℕ) (result : Files × Result IpkgError (Unit {0}))
        → P (record p { files = result.0 })
        → (result.1 ≡ ok tt → IsDirectory (result.0 (place host rootfs d)))
        → P (set_mode host rootfs fields source p d mode result).0
    set_mode_keeps p d mode (files, err e) h made = h
    set_mode_keeps p d mode (files, ok _) h made =
        keeps.mode (record p { files = files }) d (mode % 4096) h (made refl)

    install_directory_keeps :
        (p : Progress) (d : Destination) (mode : ℕ)
        → P p
        → P (install_directory host rootfs fields source p d mode).0
    unfolding install_directory
    install_directory_keeps p d mode h =
        let below = d.below ++ base_name d.parts ∷ [] in
        set_mode_keeps p d mode (make_directories host.faults p.files (root host rootfs) below)
          (keeps.directories p below h)
          (make_directories_last host.faults p.files (root host rootfs) d.below (base_name d.parts))

    at_destination_keeps :
        (p : Progress) (found : Result IpkgError Destination)
        (next : Destination → Progress × Result IpkgError (Unit {0}))
        → P p
        → ((d : Destination) → found ≡ ok d → P (next d).0)
        → P (at_destination host rootfs fields source p found next).0
    at_destination_keeps p (err e) next h k = h
    at_destination_keeps p (ok d) next h k = k d refl

    install_regular_keeps :
        (p : Progress) (member : Member)
        → P p
        → P
            (at_destination host rootfs fields source p
              (safe_destination host rootfs p.files member.name)
              (λ d. install_regular host rootfs fields source p d member)).0
    unfolding install_regular
    install_regular_keeps p member h =
        at_destination_keeps p (safe_destination host rootfs p.files member.name)
          (λ d. install_regular host rootfs fields source p d member) h
          (λ d e.
            in_parent_keeps p d member
              (make_directories host.faults p.files (root host rootfs) d.below)
              (safe_destination-IsDestination host rootfs p.files member.name d e)
              (keeps.directories p d.below h))

    install_content_keeps :
        (p : Progress) (member : Member) (content : Content)
        → P p
        → P (install_content host rootfs fields source p member content).0
    install_content_keeps p member directory_content h =
        at_destination_keeps p (safe_destination host rootfs p.files member.name)
          (λ d. install_directory host rootfs fields source p d member.mode) h
          (λ d _. install_directory_keeps p d member.mode h)
    install_content_keeps p member (link _) h = h
    install_content_keeps p member special h = h
    install_content_keeps p member (file _) h = install_regular_keeps p member h
    install_content_keeps p member unreadable h = install_regular_keeps p member h
    install_content_keeps p member broken h = install_regular_keeps p member h

    go_on_keeps :
        (result : Progress × Result IpkgError (Unit {0}))
        (next : Progress → Progress × Result IpkgError (Unit {0}))
        → P result.0
        → ((p : Progress) → P p → P (next p).0)
        → P (go_on host rootfs fields source next result).0
    go_on_keeps (p, err e) next h k = h
    go_on_keeps (p, ok _) next h k = k p h

    pub install_members_keeps :
        (p : Progress) (members : List Member)
        → P p
        → P (install_members host rootfs fields source p members).0
    unfolding install_members install_member
    install_members_keeps p [] h = h
    install_members_keeps p (member ∷ members) h =
        go_on_keeps (install_member host rootfs fields source p member)
          (λ next. install_members host rootfs fields source next members)
          (install_content_keeps p member member.content h)
          (λ next k. install_members_keeps next members k)
