-- ===== src/Packages/Resolver/Closure.antt =====
-- What a selection is, and the parts of a resolution that returns.
use smart_build.Prelude.{
  suc, String, Bool, true, List, [], ◌∷◌, ◌++◌, map, length, Option, none, some, Option-cases, inl,
  inr, ◌≡◌, refl, sym, All,
}
use mathlib.Core.Path.{subst}
use smart_build.Prelude.Texts.{elem, Distinct}
use smart_build.Prelude.Errors.{ok, >>=-eq-ok, ok-injective}
use smart_build.Prelude.Walk.{Walker, Walked, walk}
use smart_build.Packages.Symbols.{Chars, PackageError}
use smart_build.Packages.Metadata.{PackageMetadata}
use smart_build.Packages.Resolver.{
  Values, Requirements, ResolvedPackage, resolve_provider, include_walker, reject_conflicts,
  resolved_package, resolved_packages, resolve_packages, selected_version, selected_options,
}
use smart_build.Packages.Resolver.Providers.{found_in, providers_in}

-- the package that a name stands for
abbrev pub provider_of : List PackageMetadata → String → Option String
provider_of ps n = resolve_provider (found_in ps) (providers_in ps) n

abbrev pub related : PackageMetadata → List String
related m = m.host_depends ++ m.depends ++ m.selects

-- A package is asked for by name, or a package that is needed depends on it or selects it.
pub data IsNeeded (ps : List PackageMetadata) (asked : List String) : String → Type 0 where
  by_user :
      (n : String) {q : String}
      → elem n asked ≡ true
      → provider_of ps n ≡ some q
      → IsNeeded ps asked q
  by_package :
      (name d : String) (m : PackageMetadata) {q : String}
      → IsNeeded ps asked name
      → found_in ps name ≡ some m
      → elem d (related m) ≡ true
      → provider_of ps d ≡ some q
      → IsNeeded ps asked q

-- the name stands for a selected package
abbrev pub IsMet : List PackageMetadata → List String → String → Type 0
IsMet ps selected n = (q : String) × (provider_of ps n ≡ some q) × (elem q selected ≡ true)

-- the name stands for a selected package, or for none
abbrev pub IsMetIfKnown : List PackageMetadata → List String → String → Type 0
IsMetIfKnown ps selected n = (q : String) → provider_of ps n ≡ some q → elem q selected ≡ true

pub record IsSelection (ps : List PackageMetadata) (asked selected : List String) : Type 0 where
  pub distinct : Distinct selected
  pub asked_for : All (IsMet ps selected) asked
  pub depends :
      (name : String) (m : PackageMetadata)
      → elem name selected ≡ true
      → found_in ps name ≡ some m
      → All (IsMetIfKnown ps selected) (m.host_depends ++ m.depends)
  pub selects :
      (name : String) (m : PackageMetadata)
      → elem name selected ≡ true
      → found_in ps name ≡ some m
      → All (IsMet ps selected) m.selects
  pub needed : (name : String) → elem name selected ≡ true → IsNeeded ps asked name

abbrev pub names_of : List ResolvedPackage → List String
names_of rs = map (λ r. r.name) rs

module _ (chars : Chars) (values : Values) (ps : List PackageMetadata) where
  abbrev pub walker : Walker PackageError Requirements (String × Bool)
  walker = include_walker chars values (found_in ps) (providers_in ps)

  -- the three parts of a resolution that returns
  pub record Parts (asked : List String) (rs : List ResolvedPackage) : Type 0 where
    pub walked : Walked Requirements
    pub walked_eq :
        walk walker (suc (length ps)) (λ _. none) (map (λ n. (n, true)) asked) ≡ ok walked
    pub no_conflict : reject_conflicts chars values (found_in ps) walked.met walked.met ≡ ok tt
    pub resolved :
        resolved_packages chars values (found_in ps) (providers_in ps) walked.noted walked.met
        ≡ ok rs

  pub parts_of :
      (asked : List String) (rs : List ResolvedPackage)
      → resolve_packages chars values ps asked ≡ ok rs
      → Parts asked rs
  unfolding resolve_packages
  parts_of asked rs h =
      let (w, walked, rest) =
        >>=-eq-ok (walk walker (suc (length ps)) (λ _. none) (map (λ n. (n, true)) asked)) _ h in
      let (u, fine, last) =
        >>=-eq-ok (reject_conflicts chars values (found_in ps) w.met w.met) _ rest in
      record { walked = w; walked_eq = walked; no_conflict = fine; resolved = last }

  -- what a resolved package is made of
  pub record IsResolved (requirements : Requirements) (name : String) (r : ResolvedPackage)
      : Type 0 where
    pub here : found_in ps name ≡ some r.metadata
    pub named : r.name ≡ name
    pub versioned : selected_version chars values r.metadata (requirements name) ≡ ok r.version

  resolved_package-IsResolved :
      (requirements : Requirements) (name : String) (r : ResolvedPackage)
      → resolved_package chars values (found_in ps) (providers_in ps) requirements name ≡ ok r
      → IsResolved requirements name r
  unfolding resolved_package
  resolved_package-IsResolved reqs n r h = elim (Option-cases (found_in ps n)) [
    | inl absent ↦ absurd (cc (rw (resolved_package, absent) at h))
    | inr (m, present) ↦
        let (v, versioned, rest) =
          >>=-eq-ok (selected_version chars values m (reqs n)) _
            (rw (resolved_package, present) at h) in
        let (o, chosen, last) =
          >>=-eq-ok (selected_options chars values m.name (λ _. none) m.options) _ rest in
        subst (IsResolved reqs n) (ok-injective last)
          (record { here = present; named = refl; versioned = versioned })
  ]

  -- Each selected name has its resolved package, in the same order.
  pub resolved_packages-IsResolved :
      (requirements : Requirements) (selected : List String) (rs : List ResolvedPackage)
      → resolved_packages chars values (found_in ps) (providers_in ps) requirements selected ≡ ok rs
      → (names_of rs ≡ selected) × All (λ r. IsResolved requirements r.name r) rs
  unfolding resolved_packages
  resolved_packages-IsResolved reqs [] rs h =
      subst (λ x. (names_of x ≡ []) × All (λ r. IsResolved reqs r.name r) x) (ok-injective h)
        (refl, tt)
  resolved_packages-IsResolved reqs (n ∷ ns) rs h =
      let (r, one, more) =
        >>=-eq-ok (resolved_package chars values (found_in ps) (providers_in ps) reqs n) _ h in
      let (rest, others, last) =
        >>=-eq-ok (resolved_packages chars values (found_in ps) (providers_in ps) reqs ns) _ more in
      let made = resolved_package-IsResolved reqs n r one in
      let (names_eq, all_made) = resolved_packages-IsResolved reqs ns rest others in
      subst (λ x. (names_of x ≡ n ∷ ns) × All (λ r. IsResolved reqs r.name r) x) (ok-injective last)
        (
          rw (made.named, names_eq) refl,
          (subst (λ k. IsResolved reqs k r) (sym made.named) made, all_made),
        )
