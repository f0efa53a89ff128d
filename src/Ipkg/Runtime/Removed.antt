-- ===== src/Ipkg/Runtime/Removed.antt =====
-- What is left of a package that was installed and is removed.
use smart_build.Prelude.{
  Bool, true, false, List, [], ◌∷◌, ◌++◌, some, All, All-map, ◌≡◌, refl, ap, ◌∙◌, sym, if_both, inl,
  inr, Bool-cases,
}
use mathlib.Core.Path.{subst}
use smart_build.Prelude.Errors.{Result, ok, err}
use smart_build.Prelude.Codes.{Text, same_all, same_all_iff}
use smart_build.Prelude.Codes.Lines.{
  splitlines, universal_newlines_none, no_return, no_return-append, no_return-line, no_break,
  lines_from, lines_from-append,
}
use smart_build.Ipkg.Base.{IpkgError}
use smart_build.Ipkg.Control.{Fields}
use smart_build.Ipkg.Database.{is_package_name, find, records, list_text}
use smart_build.Ipkg.Database.Table.{registry, unregister, SameRegistry}
use smart_build.Ipkg.Database.Remove.{remove-unregister}
use smart_build.Ipkg.Files.{Place, Files, absent, is_file, base_name, unlink_file}
use smart_build.Ipkg.Install.{Host, Destination, place, resolved_parent, safe_destination}
use smart_build.Ipkg.Install.Kept.{set_at}
use smart_build.Ipkg.Install.Elsewhere.{unlink_elsewhere}
use smart_build.Ipkg.Install.Loop.{safe_destination-IsDestination, safe_destination-parts}
use smart_build.Ipkg.Install.Listed.{
  IsListed, IsListed-NoNewLink, unlink-NoNewLink, safe_destination-IsListed,
}
use smart_build.Ipkg.Install.Recorded.{place_of, place_of-destination}
use smart_build.Ipkg.Runtime.{System, unlink_found, unlink_paths, listed_paths, after_unlink}

-- The paths of a list file are read back, when each is on one line.
no_return-list :
    (paths : List Text)
    → All (λ path. no_break path ≡ true) paths
    → no_return (list_text paths) ≡ true
unfolding list_text
no_return-list [] h = refl
no_return-list (path ∷ paths) (one, h) =
    no_return-append path (b'\n' ∷ list_text paths) (no_return-line path one)
      (no_return-list paths h)

splitlines-list_text :
    (paths : List Text)
    → All (λ path. no_break path ≡ true) paths
    → splitlines (list_text paths) ≡ paths
unfolding splitlines list_text lines_from
splitlines-list_text [] h = refl
splitlines-list_text (path ∷ paths) (one, h) =
    lines_from-append path (list_text paths) one ∙ ap (◌∷◌ path) (splitlines-list_text paths h)

pub listed_paths-list_text :
    (host : Host) (rootfs : Place) (refused : Text → Bool) (paths : List Text)
    → All (λ path. no_break path ≡ true) paths
    → listed_paths host rootfs refused (some (list_text paths)) ≡ paths
listed_paths-list_text host rootfs refused paths h =
    ap splitlines (universal_newlines_none (list_text paths) (no_return-list paths h))
    ∙ splitlines-list_text paths h

-- A removal leaves a place alone, or leaves no file there.
unlink-gone :
    (files : Files) (at l : Place)
    → is_file (files l) ≡ false
    → is_file (unlink_file files at l) ≡ false
unlink-gone files at l h = elim (Bool-cases (same_all at l)) [
  | inr s ↦ rw (unlink_elsewhere l files at s) h
  | inl s ↦
      let here : at ≡ l = (same_all_iff at l).0 s in
      if_both (λ (after : Files). is_file (after l) ≡ false) (is_file (files at))
        (λ _. rw (set_at files at l absent here) refl) (λ _. h)
]

unlink_self : (files : Files) (at : Place) → is_file (unlink_file files at at) ≡ false
unlink_self files at =
    if_both (λ (after : Files). is_file (after at) ≡ false) (is_file (files at))
      (λ _. rw (set_at files at at absent refl) refl) (λ h. h)

module _ (host : Host) (rootfs : Place) (refused : Text → Bool) where
  unlink_found_keeps :
      (P : Files → Type 0) (files : Files) (found : Result IpkgError Destination)
      (next : Files → Files × Result IpkgError (Unit {0}))
      → P files
      → ((d : Destination) → found ≡ ok d → P (next (unlink_file files (place host rootfs d))).0)
      → P (unlink_found host rootfs refused files found next).0
  unlink_found_keeps P files (err e) next h k = h
  unlink_found_keeps P files (ok d) next h k = k d refl

  unlink_paths-gone :
      (files : Files) (paths : List Text) (l : Place)
      → is_file (files l) ≡ false
      → is_file ((unlink_paths host rootfs refused files paths).0 l) ≡ false
  unfolding unlink_paths
  unlink_paths-gone files [] l h = h
  unlink_paths-gone files (raw ∷ paths) l h =
      unlink_found_keeps (λ after. is_file (after l) ≡ false) files
        (safe_destination host rootfs files raw)
        (λ next. unlink_paths host rootfs refused next paths) h
        (λ d _.
          unlink_paths-gone (unlink_file files (place host rootfs d)) paths l
            (unlink-gone files (place host rootfs d) l h))

  place-raw :
      (files : Files) (raw : Text) (d : Destination)
      → safe_destination host rootfs files raw ≡ ok d
      → place_of host rootfs raw ≡ place host rootfs d
  place-raw files raw d h =
      let safe = safe_destination-IsDestination host rootfs files raw d h in
      ap (λ (parts : List Text). resolved_parent host rootfs parts ++ base_name parts ∷ [])
        (safe_destination-parts host rootfs files raw d h)
      ∙ place_of-destination host rootfs d safe

  -- Listed paths are gone where the loop ends.
  unlink_found-ok :
      (files : Files) (found : Result IpkgError Destination)
      (next : Files → Files × Result IpkgError (Unit {0}))
      → (unlink_found host rootfs refused files found next).1 ≡ ok tt
      → (d : Destination) × (found ≡ ok d)
        × (unlink_found host rootfs refused files found next
            ≡ next (unlink_file files (place host rootfs d)))
        × ((next (unlink_file files (place host rootfs d))).1 ≡ ok tt)
  unlink_found-ok files (err e) next h = cc
  unlink_found-ok files (ok d) next h = (d, refl, refl, h)

  unlink_paths-ok :
      (files : Files) (paths : List Text)
      → (unlink_paths host rootfs refused files paths).1 ≡ ok tt
      → All
          (λ raw.
            is_file ((unlink_paths host rootfs refused files paths).0 (place_of host rootfs raw))
            ≡ false)
          paths
  unfolding unlink_paths
  unlink_paths-ok files [] h = tt
  unlink_paths-ok files (raw ∷ paths) h =
      let (d, e, same_result, h1) =
        unlink_found-ok files (safe_destination host rootfs files raw)
          (λ next. unlink_paths host rootfs refused next paths) h in
      let after = unlink_file files (place host rootfs d) in
      subst
        (λ (result : Files × Result IpkgError (Unit {0})).
          All (λ path. is_file (result.0 (place_of host rootfs path)) ≡ false) (raw ∷ paths))
        (sym same_result)
        (
          rw (place-raw files raw d e) (
              unlink_paths-gone after paths (place host rootfs d)
                (unlink_self files (place host rootfs d))),
          unlink_paths-ok after paths h1,
        )

  -- A place of no listed path is left alone, however the loop ends.
  unlink_paths_elsewhere :
      (files : Files) (paths : List Text) (l : Place)
      → All (λ raw. same_all (place_of host rootfs raw) l ≡ false) paths
      → (unlink_paths host rootfs refused files paths).0 l ≡ files l
  unfolding unlink_paths
  unlink_paths_elsewhere files [] l h = refl
  unlink_paths_elsewhere files (raw ∷ paths) l (away, h) =
      unlink_found_keeps (λ after. after l ≡ files l) files (safe_destination host rootfs files raw)
        (λ next. unlink_paths host rootfs refused next paths) refl
        (λ d e.
          unlink_paths_elsewhere (unlink_file files (place host rootfs d)) paths l h
          ∙ unlink_elsewhere l files (place host rootfs d) (rw (← place-raw files raw d e) away))

  unlink_found-listed :
      (files : Files) (found : Result IpkgError Destination)
      (next : Files → Files × Result IpkgError (Unit {0})) (d : Destination)
      → found ≡ ok d
      → (next (unlink_file files (place host rootfs d))).1 ≡ ok tt
      → (unlink_found host rootfs refused files found next).1 ≡ ok tt
  unlink_found-listed files found next d e h = rw e h

  -- The loop does not raise over paths that an installation recorded.
  unlink_paths-IsListed :
      (files : Files) (paths : List Text)
      → All (IsListed host rootfs files) paths
      → (unlink_paths host rootfs refused files paths).1 ≡ ok tt
  unfolding unlink_paths
  unlink_paths-IsListed files [] h = refl
  unlink_paths-IsListed files (raw ∷ paths) (t, h) =
      let after = unlink_file files (place host rootfs t.destination) in
      unlink_found-listed files (safe_destination host rootfs files raw)
        (λ next. unlink_paths host rootfs refused next paths) t.destination
        (safe_destination-IsListed host rootfs files raw t)
        (unlink_paths-IsListed after paths (
          All-map
            (λ path.
              IsListed-NoNewLink host rootfs files after path
                (unlink-NoNewLink files (place host rootfs t.destination)))
            paths h))

  -- What a removal has to do.
  pub record IsRemoved (before after : System) (name : Text) (paths : List Text) : Type 0 where
    pub gone : All (λ path. is_file (after.files (place_of host rootfs path)) ≡ false) paths
    pub others :
        (l : Place)
        → All (λ path. same_all (place_of host rootfs path) l ≡ false) paths
        → after.files l ≡ before.files l
    pub table : SameRegistry (registry after.db) (unregister name (registry before.db))

  remove_found-done :
      (before : System) (name : Text) (paths : List Text) (item : Fields)
      → is_package_name name ≡ true
      → ((file : Text) → refused file ≡ false)
      → find name (records before.db) ≡ some item
      → (result : Files × Result IpkgError (Unit {0}))
      → unlink_paths host rootfs refused before.files paths ≡ result
      → result.1 ≡ ok tt
      → ((after_unlink host rootfs refused before.db name result).1 ≡ ok tt)
        × IsRemoved before (after_unlink host rootfs refused before.db name result).0 name paths
  remove_found-done before name paths item n w found (files, err e) same_result h = cc
  remove_found-done before name paths item n w found (files, ok _) same_result h =
      let (done, table) = remove-unregister refused before.db name item n w found in
      (
        done,
        record {
          gone =
              subst
                (λ (result : Files × Result IpkgError (Unit {0})).
                  All (λ path. is_file (result.0 (place_of host rootfs path)) ≡ false) paths)
                same_result (unlink_paths-ok before.files paths (ap (λ (_, r). r) same_result));
          others = λ l away.
              ap (λ (result : Files × Result IpkgError (Unit {0})). result.0 l) (sym same_result)
              ∙ unlink_paths_elsewhere before.files paths l away;
          table = table;
        },
      )

  -- The removal of an installed package whose paths were recorded.
  pub remove_found-ok :
      (before : System) (name : Text) (paths : List Text) (item : Fields)
      → is_package_name name ≡ true
      → ((file : Text) → refused file ≡ false)
      → find name (records before.db) ≡ some item
      → All (IsListed host rootfs before.files) paths
      → ((after_unlink host rootfs refused before.db name
            (unlink_paths host rootfs refused before.files paths)).1
          ≡ ok tt)
        × IsRemoved before
            (after_unlink host rootfs refused before.db name
              (unlink_paths host rootfs refused before.files paths)).0
            name
            paths
  remove_found-ok before name paths item n w found h =
      remove_found-done before name paths item n w found
        (unlink_paths host rootfs refused before.files paths) refl
        (unlink_paths-IsListed before.files paths h)
