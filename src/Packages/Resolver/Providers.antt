-- ===== src/Packages/Resolver/Providers.antt =====
-- The dicts of packages and of providers hold only names of the list.
use smart_build.Prelude.{
  String, true, false, List, [], ◌∷◌, Option, none, some, Option-cases, Bool-cases, inl, inr, ◌≡◌,
  refl, sym, ◌∙◌, arith,
}
use smart_build.Prelude.Texts.{◌==◌, eq_iff, eq_refl, elem, update}
use smart_build.Packages.Metadata.{PackageMetadata, names, by_name}
use smart_build.Packages.Resolver.{Found, set_defaults, provider_map, resolve_provider}

-- what the dicts are for a list of packages
abbrev pub found_in : List PackageMetadata → Found
found_in packages = by_name (λ _. none) packages

abbrev pub providers_in : List PackageMetadata → String → Option String
providers_in packages = provider_map (λ _. none) packages

by_name-absent :
    (found : Found) (ps : List PackageMetadata) (n : String)
    → elem n (names ps) ≡ false
    → by_name found ps n ≡ found n
unfolding by_name elem update
by_name-absent found [] n h = refl
by_name-absent found (p ∷ ps) n h =
    by_name-absent (update found p.name (some p)) ps n (ground arith) ∙ ground arith

by_name-present :
    (found : Found) (ps : List PackageMetadata) (n : String)
    → elem n (names ps) ≡ true
    → (m : PackageMetadata) × (by_name found ps n ≡ some m) × (m.name ≡ n)
unfolding by_name elem update
by_name-present found [] n h = cc
by_name-present found (p ∷ ps) n h = elim (Bool-cases (elem n (names ps))) [
  | inl later ↦ by_name-present (update found p.name (some p)) ps n later
  | inr last ↦
      let here : (p.name == n) ≡ true = ground arith in
      (
        p,
        by_name-absent (update found p.name (some p)) ps n last ∙ rw here refl,
        (eq_iff p.name n).0 here,
      )
]

-- Each name of the list has a package, with that name.
pub found_in-names :
    (ps : List PackageMetadata) (n : String)
    → elem n (names ps) ≡ true
    → (m : PackageMetadata) × (found_in ps n ≡ some m) × (m.name ≡ n)
found_in-names ps n h = by_name-present (λ _. none) ps n h

-- Only names of the list have one.
pub names-found_in :
    (ps : List PackageMetadata) (n : String) (m : PackageMetadata)
    → found_in ps n ≡ some m
    → elem n (names ps) ≡ true
names-found_in ps n m h = elim (Bool-cases (elem n (names ps))) [
  | inl e ↦ e
  | inr e ↦ absurd (cc (sym h ∙ by_name-absent (λ _. none) ps n e))
]

-- the providers are names of the list
OnlyNames : (String → Option String) → List String → Type 0
OnlyNames providers given = (n q : String) → providers n ≡ some q → elem q given ≡ true

set_defaults-OnlyNames :
    (given : List String) (name : String)
    → elem name given ≡ true
    → (providers : String → Option String) (provided : List String) → OnlyNames providers given
    → OnlyNames (set_defaults providers name provided) given
unfolding set_defaults OnlyNames update
set_defaults-OnlyNames given name m providers [] only = only
set_defaults-OnlyNames given name m providers (x ∷ xs) only = elim (Option-cases (providers x)) [
  | inl absent ↦
      rw (set_defaults, absent)
        (set_defaults-OnlyNames given name m (update providers x (some name)) xs (λ n q h.
          elim (Bool-cases (x == n)) [
            | inl e ↦ let same : name ≡ q = cc (rw e at h) in rw⁻¹ same m
            | inr e ↦ only n q (rw e at h)
          ]))
  | inr (y, present) ↦
      rw (set_defaults, present) (set_defaults-OnlyNames given name m providers xs only)
]

provider_map-OnlyNames :
    (given : List String) (providers : String → Option String) (ps : List PackageMetadata)
    → ((n : String) → elem n (names ps) ≡ true → elem n given ≡ true)
    → OnlyNames providers given
    → OnlyNames (provider_map providers ps) given
unfolding provider_map elem
provider_map-OnlyNames given providers [] sub only = only
provider_map-OnlyNames given providers (p ∷ ps) sub only =
    provider_map-OnlyNames given (set_defaults providers p.name p.provides) ps
      (λ n m. sub n (ground (arith, m)))
      (set_defaults-OnlyNames given p.name (sub p.name (rw eq_refl)) providers p.provides only)

pub resolve_provider-names :
    (ps : List PackageMetadata) (n q : String)
    → resolve_provider (found_in ps) (providers_in ps) n ≡ some q
    → elem q (names ps) ≡ true
unfolding resolve_provider OnlyNames
resolve_provider-names ps n q h = elim (Option-cases (found_in ps n)) [
  | inl absent ↦
      provider_map-OnlyNames (names ps) (λ _. none) ps (λ i m. m) (λ i j e. cc) n q
        (rw (resolve_provider, absent) at h)
  | inr (m, present) ↦
      let same : n ≡ q = cc (rw (resolve_provider, present) at h) in
      rw⁻¹ same (names-found_in ps n m present)
]
