-- ===== src/Packages/Metadata.antt =====
-- `PackageMetadata` of src/smart_build/package_metadata.py, with the fields that a resolution reads.
use smart_build.Prelude.{String, Bool, false, List, [], ◌∷◌, map, Option, some, not}
use smart_build.Prelude.Texts.{◌==◌, update}

-- `None`, a truth value or a text
pub data OptionValue : Type 0 where
  no_value : OptionValue
  flag : Bool → OptionValue
  text : String → OptionValue

pub data OptionType : Type 0 where
  bool choice string : OptionType

pub record PackageOption : Type 0 where
  pub name : String
  pub type : OptionType
  pub default : OptionValue
  pub choices : List String

pub record PackageMetadata : Type 0 where
  pub name : String
  pub versions : List String
  pub default_version : String
  pub native : Bool
  pub options : List PackageOption
  pub depends : List String
  pub host_depends : List String
  pub selects : List String
  pub conflicts : List String
  pub provides : List String

abbrev pub names : List PackageMetadata → List String
names packages = map (λ p. p.name) packages

-- `{package.name: package for package in packages}`
unfoldable pub by_name :
    (String → Option PackageMetadata) → List PackageMetadata → String → Option PackageMetadata
unfolding update
by_name found [] = found
by_name found (pkg ∷ packages) = by_name (update found pkg.name (some pkg)) packages

-- `bool(default)`
abbrev pub truth : OptionValue → Bool
truth no_value = false
truth (flag b) = b
truth (text t) = not (t == "")
