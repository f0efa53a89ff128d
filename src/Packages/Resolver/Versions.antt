-- ===== src/Packages/Resolver/Versions.antt =====
-- The versions of a resolution satisfy all requirements.
use smart_build.Prelude.{
  String, suc, Bool, true, false, List, [], ◌∷◌, ◌++◌, map, length, Option, none, some, Bool-cases,
  inl, inr, ◌⊎◌, ◌≡◌, ◌≢◌, refl, sym, ap, ◌∙◌, arith, All, All-map, All-of_map, append-All,
  All-append,
}
use mathlib.Core.Path.{subst}
use smart_build.Prelude.Texts.{◌==◌, eq_iff, elem, elem-All, elem-append, update}
use smart_build.Prelude.Errors.{ok, >>=-eq-ok, ok-injective}
use smart_build.Prelude.Walk.Noted.{walk-Noted}
use smart_build.Packages.Symbols.{Chars}
use smart_build.Packages.Metadata.{PackageMetadata}
use smart_build.Packages.Resolver.{
  Values, ResolvedPackage, required_version, resolve_packages, resolve_package_selection,
  PackageSelection, index_packages,
}
use smart_build.Packages.Resolver.Providers.{found_in}
use smart_build.Packages.Resolver.Selection.{children-eq, resolve_packages-IsSelection}
use smart_build.Packages.Resolver.Closure.{
  provider_of, IsSelection, IsMet, IsMetIfKnown, names_of, walker, Parts, parts_of, IsResolved,
  resolved_packages-IsResolved,
}
use smart_build.Packages.Resolver.Requirements.{
  IsNoted, note-IsNoted, note-keeps, selected_version-IsVersion,
}

-- The user asks for the name, or a selected package depends on it or selects it.
abbrev pub AsksFor : List PackageMetadata → (asked selected : List String) → String → Type 0
AsksFor ps asked selected n =
    (elem n asked ≡ true)
    ⊎ ((name : String) × (m : PackageMetadata) × (elem name selected ≡ true)
        × (found_in ps name ≡ some m)
        × (elem n (m.host_depends ++ m.depends ++ m.selects) ≡ true))

module _ (chars : Chars) (values : Values) (ps : List PackageMetadata) (asked : List String)
    (rs : List ResolvedPackage) (h : resolve_packages chars values ps asked ≡ ok rs) where
  abbrev p : Parts chars values ps asked rs
  p = parts_of chars values ps asked rs h

  abbrev Written : String × Bool → Type 0
  Written = IsNoted chars values ps p.walked.noted

  written :
      All Written (map (λ n. (n, true)) asked)
      × ((n : String)
          → elem n p.walked.met ≡ true
          → All Written ((walker chars values ps).children n))
  written =
      walk-Noted (walker chars values ps) (IsNoted chars values ps) (note-IsNoted chars values ps)
        (note-keeps chars values ps) (suc (length ps)) (λ _. none) (map (λ n. (n, true)) asked)
        p.walked p.walked_eq

  any_flag : (n : String) (b : Bool) → Written (n, b) → (c : Bool) → Written (n, c)
  unfolding IsNoted
  any_flag n b noted c = noted

  related-Written :
      (name : String) (m : PackageMetadata)
      → elem name p.walked.met ≡ true
      → found_in ps name ≡ some m
      → All (λ x. (b : Bool) → Written (x, b)) (m.host_depends ++ m.depends ++ m.selects)
  related-Written name m here present =
      let items =
        subst (All Written) (children-eq chars values ps name m present) (written.1 name here) in
      let (weak, strong) =
        append-All Written (map (λ d. (d, false)) (m.host_depends ++ m.depends))
          (map (λ d. (d, true)) m.selects) items in
      All-append _ (m.host_depends ++ m.depends) m.selects
        (All-map (λ x. any_flag x false) (m.host_depends ++ m.depends)
          (All-of_map Written (λ d. (d, false)) (m.host_depends ++ m.depends) weak))
        (All-map (λ x. any_flag x true) m.selects
          (All-of_map Written (λ d. (d, true)) m.selects strong))

  pub AsksFor-Written : (n : String) → AsksFor ps asked p.walked.met n → Written (n, true)
  AsksFor-Written n (inl e) =
      elem-All (λ x. Written (x, true)) asked n
        (All-of_map Written (λ d. (d, true)) asked written.0) e
  AsksFor-Written n (inr (name, m, here, present, e)) =
      elem-All (λ x. (b : Bool) → Written (x, b)) (m.host_depends ++ m.depends ++ m.selects) n
        (related-Written name m here present) e true

  pub version-agrees :
      (r : ResolvedPackage)
      → IsResolved chars values ps p.walked.noted r.name r
      → ((r.metadata.native ≡ true) × (r.version ≡ r.metadata.default_version)
          ⊎ (r.metadata.native ≡ false) × (elem r.version r.metadata.versions ≡ true))
        × ((n v : String)
            → AsksFor ps asked p.walked.met n
            → provider_of ps n ≡ some r.name
            → required_version chars values n ≡ ok (some v)
            → v ≢ ""
            → r.version ≡ v)
  unfolding IsNoted
  version-agrees r made =
      let (listed, agrees) =
        selected_version-IsVersion chars values ps r.metadata (p.walked.noted r.name) r.version
          made.versioned in
      (
        listed,
        λ n v a present required given.
            agrees v (AsksFor-Written n a r.name v present required) given,
      )

-- Each resolved package has its default version, where its Kconfig file is native, and else one of
-- its versions.
pub resolve_packages-versions :
    (chars : Chars) (values : Values) (ps : List PackageMetadata) (asked : List String)
    (rs : List ResolvedPackage)
    → resolve_packages chars values ps asked ≡ ok rs
    → All
        (λ r.
          (r.metadata.native ≡ true) × (r.version ≡ r.metadata.default_version)
          ⊎ (r.metadata.native ≡ false) × (elem r.version r.metadata.versions ≡ true))
        rs
resolve_packages-versions chars values ps asked rs h =
    let p = parts_of chars values ps asked rs h in
    let (_, made) =
      resolved_packages-IsResolved chars values ps p.walked.noted p.walked.met rs p.resolved in
    All-map (λ r m. (version-agrees chars values ps asked rs h r m).0) rs made

index-absent :
    (found : String → Option ResolvedPackage) (rs : List ResolvedPackage) (n : String)
    → elem n (names_of rs) ≡ false
    → index_packages found rs n ≡ found n
unfolding index_packages elem update
index-absent found [] n h = refl
index-absent found (r ∷ rs) n h =
    index-absent (update found r.name (some r)) rs n (ground arith) ∙ ground arith

index-present :
    (P : ResolvedPackage → Type 0) (found : String → Option ResolvedPackage)
    (rs : List ResolvedPackage) (n : String)
    → All P rs
    → elem n (names_of rs) ≡ true
    → (r : ResolvedPackage) × (index_packages found rs n ≡ some r) × (r.name ≡ n) × P r
unfolding index_packages elem update
index-present P found [] n all_p h = cc
index-present P found (r ∷ rs) n (pr, all_p) h = elim (Bool-cases (elem n (names_of rs))) [
  | inl later ↦ index-present P (update found r.name (some r)) rs n all_p later
  | inr last ↦
      let here : (r.name == n) ≡ true = ground arith in
      (
        r,
        index-absent (update found r.name (some r)) rs n last ∙ rw here refl,
        (eq_iff r.name n).0 here,
        pr,
      )
]

-- A selected package stands behind each name that is asked for and stands for a package.
AsksFor-elem :
    (ps : List PackageMetadata) (asked selected : List String) (n q : String)
    → IsSelection ps asked selected
    → AsksFor ps asked selected n
    → provider_of ps n ≡ some q
    → elem q selected ≡ true
AsksFor-elem ps asked selected n q s (inl e) present =
    let (q', known, here) = elem-All (IsMet ps selected) asked n s.asked_for e in
    let same : q' ≡ q = cc in subst (λ x. elem x selected ≡ true) same here
AsksFor-elem ps asked selected n q s (inr (name, m, here, found, e)) present =
    elim (Bool-cases (elem n m.selects)) [
      | inl chosen ↦
          let (q', known, there) =
            elem-All (IsMet ps selected) m.selects n (s.selects name m here found) chosen in
          let same : q' ≡ q = cc in subst (λ x. elem x selected ≡ true) same there
      | inr other ↦
          elem-All (IsMetIfKnown ps selected) (m.host_depends ++ m.depends) n
            (s.depends name m here found)
            (ground (arith, elem-append n (m.host_depends ++ m.depends) m.selects)) q present
    ]

required-here :
    (chars : Chars) (values : Values) (ps : List PackageMetadata) (asked : List String)
    (rs : List ResolvedPackage) (n q v : String)
    → resolve_packages chars values ps asked ≡ ok rs
    → AsksFor ps asked (names_of rs) n
    → provider_of ps n ≡ some q
    → required_version chars values n ≡ ok (some v)
    → v ≢ ""
    → (r : ResolvedPackage) × (index_packages (λ _. none) rs q ≡ some r)
      × (r.name ≡ q)
      × (r.version ≡ v)
required-here chars values ps asked rs n q v h asks_for present required given =
    let p = parts_of chars values ps asked rs h in
    let (same, made) =
      resolved_packages-IsResolved chars values ps p.walked.noted p.walked.met rs p.resolved in
    let s = resolve_packages-IsSelection chars values ps asked rs h in
    let (r, found, named, good) =
      index-present (λ r. IsResolved chars values ps p.walked.noted r.name r) (λ _. none) rs q made
        (AsksFor-elem ps asked (names_of rs) n q s asks_for present) in
    let agrees = (version-agrees chars values ps asked rs h r good).1 in
    (
      r,
      found,
      named,
      agrees n v (subst (λ x. AsksFor ps asked x n) same asks_for) (present ∙ ap some (sym named))
          required given,
    )

-- If the configuration requires a version of a name which the user asks for, or on which a selected
-- package depends, or which one selects, then the selected package that the name stands for, found
-- in `by_name`, has that version, unless the version is empty.
pub resolve_package_selection-required :
    (chars : Chars) (values : Values) (ps : List PackageMetadata) (asked : List String)
    (s : PackageSelection) (n q v : String)
    → resolve_package_selection chars values ps asked ≡ ok s
    → AsksFor ps asked (names_of s.packages) n
    → provider_of ps n ≡ some q
    → required_version chars values n ≡ ok (some v)
    → v ≢ ""
    → (r : ResolvedPackage) × (s.by_name q ≡ some r) × (r.name ≡ q) × (r.version ≡ v)
unfolding resolve_package_selection
resolve_package_selection-required chars values ps asked s n q v h asks_for present required given =
    let (rs, resolved, last) = >>=-eq-ok (resolve_packages chars values ps asked) _ h in
    subst
      (λ (x : PackageSelection).
        AsksFor ps asked (names_of x.packages) n
        → (r : ResolvedPackage) × (x.by_name q ≡ some r) × (r.name ≡ q) × (r.version ≡ v))
      (ok-injective last)
      (λ a. required-here chars values ps asked rs n q v resolved a present required given) asks_for
