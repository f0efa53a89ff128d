-- ===== src/Packages/Resolver.antt =====
-- src/smart_build/package_resolver.py. The list of packages is what `load_all_package_metadata`
-- returns, which has no name twice; `values` is the configuration. The nested function `include` is
-- a walk whose items are the names with the flag `required`.
pub mod Providers
pub mod Closure
pub mod Selection
pub mod Conflicts
pub mod Requirements
pub mod Versions
pub mod Raising
pub mod Total
use smart_build.Prelude.{
  ℕ, suc, String, Bool, true, false, not, List, [], ◌∷◌, ◌++◌, map, length, Option, none, some,
  if◌then◌else◌, ◌&&◌,
}
use Prim.Native.String.{◌++◌ as ◌⧺◌}
use smart_build.Prelude.Texts.{◌==◌, elem, update}
use smart_build.Prelude.Errors.{Result, ok, err, ◌>>=◌, ◌>>◌, raise_if}
use smart_build.Prelude.Walk.{Walker, walk}
use smart_build.Packages.Symbols.{
  Chars, PackageError, not_found, requirement_conflict, version_conflict, unsupported_version,
  unsupported_value, conflict, key_error, out_of_fuel, strip, package_symbol, package_option_symbol,
}
use smart_build.Packages.Metadata.{
  PackageMetadata, PackageOption, OptionValue, no_value, flag, text, OptionType, bool, choice,
  string, by_name, truth,
}

pub record ResolvedPackage : Type 0 where
  pub name : String
  pub version : String
  pub options : String → Option OptionValue
  pub metadata : PackageMetadata

pub record PackageSelection : Type 0 where
  pub packages : List ResolvedPackage
  pub by_name : String → Option ResolvedPackage

-- `{package.name: package for package in resolved}`
unfoldable pub index_packages :
    (String → Option ResolvedPackage) → List ResolvedPackage → String → Option ResolvedPackage
unfolding update
index_packages found [] = found
index_packages found (r ∷ rs) = index_packages (update found r.name (some r)) rs

abbrev pub Values : Type 0
Values = String → Option String

abbrev pub Found : Type 0
Found = String → Option PackageMetadata

-- `providers.setdefault(provided, package.name)` for all that a package provides
unfoldable pub set_defaults :
    (String → Option String) → String → List String → String → Option String
unfolding update
set_defaults providers pkg [] = providers
set_defaults providers pkg (provided ∷ rest) =
    set_defaults
      (elim (providers provided) [
        | none ↦ update providers provided (some pkg)
        | some _ ↦ providers
      ])
      pkg rest

unfoldable pub provider_map :
    (String → Option String) → List PackageMetadata → String → Option String
unfolding set_defaults
provider_map providers [] = providers
provider_map providers (pkg ∷ packages) =
    provider_map (set_defaults providers pkg.name pkg.provides) packages

unfoldable pub resolve_provider : Found → (String → Option String) → String → Option String
resolve_provider metadata providers name = elim (metadata name) [
  | some _ ↦ some name
  | none ↦ providers name
]

abbrev pub Requirements : Type 0
Requirements = String → Option String

unfoldable pub record_version_requirement :
    Requirements → String → Option String → Result PackageError Requirements
unfolding update
record_version_requirement requirements package_name none = ok requirements
record_version_requirement requirements package_name (some required) =
    elim (requirements package_name) [
      | none ↦ ok (update requirements package_name (some required))
      | some existing ↦
          if not (existing == required)
          then err (requirement_conflict package_name existing required)
          else ok (update requirements package_name (some required))
    ]

-- `required or default`
abbrev pub or_default : Option String → String → String
or_default none default = default
or_default (some required) default = if required == "" then default else required

abbrev pub is_enabled_text : List String
is_enabled_text = "y" ∷ "yes" ∷ "true" ∷ "1" ∷ []

-- the last steps of `_selected_version` for a package whose Kconfig file is generated
abbrev pub check_version : PackageMetadata → Option String → String → Result PackageError String
check_version metadata none version = do
  raise_if (not (elem version metadata.versions)) (unsupported_version metadata.name version)
  ok version
check_version metadata (some required) version = do
  raise_if (not (version == required)) (version_conflict metadata.name version required)
  raise_if (not (elem version metadata.versions)) (unsupported_version metadata.name version)
  ok version

abbrev pub get : Option String → String → String
get none default = default
get (some value) default = value

module _ (chars : Chars) (values : Values) where
  unfoldable pub required_version : String → Result PackageError (Option String)
  required_version package_name = do
    symbol ← package_symbol chars package_name
    ok (values (symbol ⧺ "_REQUIRE_VERSION"))

  unfoldable pub selected_version : PackageMetadata → Option String → Result PackageError String
  unfolding elem
  selected_version metadata required =
      let usual = or_default required metadata.default_version in
      elim metadata.native [
        | true ↦ do
          raise_if (not (usual == metadata.default_version))
              (unsupported_version metadata.name usual)
          ok usual
        | false ↦ do
          symbol ← package_symbol chars metadata.name
          check_version metadata required (get (values (symbol ⧺ "_VERSION")) usual)
      ]

  unfoldable pub bool_value : Option String → OptionValue → Bool
  unfolding elem strip
  bool_value none default = truth default
  bool_value (some value) default = elem (chars.lower (strip chars.is_space value)) is_enabled_text

  abbrev pub raw_or : Option String → OptionValue → OptionValue
  raw_or none default = default
  raw_or (some value) default = text value

  unfoldable pub is_choice : OptionValue → List String → Bool
  unfolding elem
  is_choice no_value choices = false
  is_choice (flag b) choices = false
  is_choice (text t) choices = elem t choices

  -- the value of one option, by its type
  unfoldable pub option_value :
      OptionType → String → PackageOption → Option String → Result PackageError OptionValue
  unfolding bool_value is_choice
  option_value bool name option raw_value = ok (flag (bool_value raw_value option.default))
  option_value choice name option raw_value = do
    raise_if (not (is_choice (raw_or raw_value option.default) option.choices))
        (unsupported_value name option.name)
    ok (raw_or raw_value option.default)
  option_value string name option raw_value = ok (raw_or raw_value option.default)

  unfoldable pub selected_options :
      String
      → (String → Option OptionValue)
      → List PackageOption
      → Result PackageError (String → Option OptionValue)
  unfolding option_value update
  selected_options name result [] = ok result
  selected_options name result (option ∷ options) = do
    symbol ← package_option_symbol chars name option.name
    value ← option_value option.type name option (values symbol)
    selected_options name (update result option.name (some value)) options

  -- the loops of `_reject_conflicts`
  unfoldable pub reject_each :
      Found → List String → String → List String → Result PackageError (Unit {0})
  unfolding elem
  reject_each metadata selected name [] = ok tt
  reject_each metadata selected name (other ∷ others) = elim (metadata other) [
    | none ↦ reject_each metadata selected name others
    | some _ ↦ elim (elem other selected) [
      | true ↦ err (conflict name other)
      | false ↦ reject_each metadata selected name others
    ]
  ]

  unfoldable pub reject_conflicts :
      Found → (selected rest : List String) → Result PackageError (Unit {0})
  unfolding reject_each
  reject_conflicts metadata selected [] = ok tt
  reject_conflicts metadata selected (name ∷ rest) = elim (metadata name) [
    | none ↦ err key_error
    | some pkg ↦ do
      reject_each metadata selected name pkg.conflicts
      reject_conflicts metadata selected rest
  ]

  module _ (metadata : Found) (providers : String → Option String) where
    -- a name that is included, and whether it has to be there
    abbrev pub Item : Type 0
    Item = String × Bool

    abbrev pub listed : PackageMetadata → List Item
    listed pkg =
        map (λ d. (d, false)) (pkg.host_depends ++ pkg.depends) ++ map (λ d. (d, true)) pkg.selects

    abbrev pub note : Requirements → Item → Result PackageError Requirements
    note requirements (raw_name, required) = do
      version ← required_version raw_name
      elim (resolve_provider metadata providers raw_name) [
        | none ↦ if required then err (not_found raw_name) else ok requirements
        | some provider ↦ record_version_requirement requirements provider version
      ]

    unfoldable pub include_walker : Walker PackageError Requirements Item
    unfolding required_version resolve_provider record_version_requirement
    include_walker = record {
      target = λ item. resolve_provider metadata providers item.0;
      note = note;
      children = λ name. elim (metadata name) [ none ↦ [] | some pkg ↦ listed pkg ];
      stop = out_of_fuel;
    }

    unfoldable pub resolved_package : Requirements → String → Result PackageError ResolvedPackage
    unfolding selected_version selected_options
    resolved_package requirements name = elim (metadata name) [
      | none ↦ err key_error
      | some pkg ↦ do
        version ← selected_version pkg (requirements name)
        options ← selected_options pkg.name (λ _. none) pkg.options
        ok (record { name = name; version = version; options = options; metadata = pkg })
    ]

    unfoldable pub resolved_packages :
        Requirements → List String → Result PackageError (List ResolvedPackage)
    unfolding resolved_package
    resolved_packages requirements [] = ok []
    resolved_packages requirements (name ∷ names) = do
      first ← resolved_package requirements name
      rest ← resolved_packages requirements names
      ok (first ∷ rest)

  -- all but the last line of `resolve_package_selection`
  unfoldable pub resolve_packages :
      List PackageMetadata → List String → Result PackageError (List ResolvedPackage)
  unfolding by_name provider_map include_walker walk reject_conflicts resolved_packages
  resolve_packages packages package_names =
      let metadata = by_name (λ _. none) packages in
      let providers = provider_map (λ _. none) packages in
      do
        w ←
            walk (include_walker metadata providers) (suc (length packages)) (λ _. none)
              (map (λ n. (n, true)) package_names)
        reject_conflicts metadata w.met w.met
        resolved_packages metadata providers w.noted w.met

  unfoldable pub resolve_package_selection :
      List PackageMetadata → List String → Result PackageError PackageSelection
  unfolding resolve_packages index_packages
  resolve_package_selection packages package_names = do
    resolved ← resolve_packages packages package_names
    ok (record { packages = resolved; by_name = index_packages (λ _. none) resolved })
