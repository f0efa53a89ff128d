-- ===== src/Config.antt =====
-- The root file system part of src/smart_build/config.py. The configuration is a function from keys
-- to texts; `int` of a text is given by `parse_int`, and what YAML holds is a value of `Description`.
pub mod Valid
mod Samples
use smart_build.Prelude.{
  ℕ, String, Bool, true, false, not, null, List, [], ◌∷◌, Option, none, some, any, beq,
  if◌then◌else◌, ◌&&◌, ◌||◌,
}
use smart_build.Prelude.Texts.{◌==◌, elem}
use smart_build.Prelude.Errors.{Result, ok, err, ◌>>=◌, ◌>>◌, raise_if}

pub data ConfigError : Type 0 where
  unsupported_format unsupported_size_mode not_integer unsupported_build_mode
        unsupported_package_mode :
      (value : String) → ConfigError
  size_not_supported size_mode_not_supported expandable_not_supported empty_profile : ConfigError
  unsupported_size : (negative : Bool) (magnitude : ℕ) → ConfigError
  unsupported_rootfs : (rootfs : String) → ConfigError
  profiles_not_mapping packages_not_list package_not_text no_default_profile : ConfigError
  unknown_profile : Option String → ConfigError

abbrev pub Values : Type 0
Values = String → Option String

-- an integer by its sign and its magnitude
pub data Integer : Type 0 where
  integer : (negative : Bool) (magnitude : ℕ) → Integer

abbrev pub rootfs_build_modes : List String
rootfs_build_modes = "static" ∷ "dynamic" ∷ "mixed" ∷ []

abbrev pub rootfs_image_formats : List String
rootfs_image_formats = "ext4" ∷ "fat" ∷ "romfs" ∷ []

abbrev pub rootfs_image_sizes_mb : List ℕ
rootfs_image_sizes_mb = 1 ∷ 4 ∷ 8 ∷ 16 ∷ 32 ∷ 64 ∷ 128 ∷ 256 ∷ 512 ∷ 1024 ∷ []

abbrev pub rootfs_image_size_modes : List String
rootfs_image_size_modes = "fixed" ∷ "expandable" ∷ []

-- `values.get(key, default)` and `key in values`
abbrev pub get_or : String → Option String → String
get_or default none = default
get_or default (some value) = value

abbrev pub is_set : Option String → Bool
is_set none = false
is_set (some _) = true

pub record ImageConfig : Type 0 where
  pub format : String
  pub size_mb : Option ℕ
  pub size_mode : Option String

abbrev pub allowed_size : Bool → ℕ → Bool
allowed_size negative magnitude =
    (not negative || beq magnitude 0) && any (beq magnitude) rootfs_image_sizes_mb

abbrev pub check_size : String → Option Integer → Result ConfigError ℕ
check_size raw none = err (not_integer raw)
check_size raw (some (integer negative magnitude)) = do
  raise_if (not (allowed_size negative magnitude)) (unsupported_size negative magnitude)
  ok magnitude

module _ (parse_int : String → Option Integer) where
  unfoldable pub rootfs_image_size_mb : Values → Result ConfigError ℕ
  rootfs_image_size_mb values =
      let raw_size = get_or "16" (values "ROOTFS_IMAGE_SIZE_MB") in
      check_size raw_size (parse_int raw_size)

  abbrev pub romfs_config : Values → Result ConfigError ImageConfig
  romfs_config values = do
    raise_if (is_set (values "ROOTFS_IMAGE_SIZE_MB")) size_not_supported
    raise_if (is_set (values "ROOTFS_IMAGE_SIZE_MODE")) size_mode_not_supported
    ok (record { format = "romfs"; size_mb = none; size_mode = none })

  abbrev pub fat_config : Values → Result ConfigError ImageConfig
  fat_config values = do
    size ← rootfs_image_size_mb values
    raise_if (not (get_or "fixed" (values "ROOTFS_IMAGE_SIZE_MODE") == "fixed"))
        expandable_not_supported
    ok (record { format = "fat"; size_mb = some size; size_mode = some "fixed" })

  abbrev pub ext4_config : Values → String → Result ConfigError ImageConfig
  unfolding elem
  ext4_config values format = do
    size ← rootfs_image_size_mb values
    let mode = get_or "expandable" (values "ROOTFS_IMAGE_SIZE_MODE")
    raise_if (not (elem mode rootfs_image_size_modes)) (unsupported_size_mode mode)
    ok (record { format = format; size_mb = some size; size_mode = some mode })

  unfoldable pub rootfs_image_config : Values → Result ConfigError ImageConfig
  unfolding rootfs_image_size_mb elem
  rootfs_image_config values =
      let format = get_or "ext4" (values "ROOTFS_IMAGE_FORMAT") in
      raise_if (not (elem format rootfs_image_formats)) (unsupported_format format)
      >> (if format == "romfs"
          then romfs_config values
          else if format == "fat"
          then fat_config values
          else ext4_config values format)

abbrev pub build_mode_of : Values → Option String → Option String
build_mode_of values (some mode) = some mode
build_mode_of values none =
    if not (get_or "" (values "ROOTFS") == "full") then values "ROOTFS_PROFILE" else none

unfoldable pub rootfs_build_mode : Values → Result ConfigError String
unfolding elem
rootfs_build_mode values =
    let mode = get_or "mixed" (build_mode_of values (values "ROOTFS_BUILD_MODE")) in
    raise_if (not (elem mode rootfs_build_modes)) (unsupported_build_mode mode) >> ok mode

unfoldable pub rootfs_package_mode :
    (explicit_package_keys : List String) → Option String → Result ConfigError String
unfolding elem
rootfs_package_mode explicit_package_keys none =
    ok (if not (null explicit_package_keys) then "manual" else "profile")
rootfs_package_mode explicit_package_keys (some mode) =
    raise_if (not (elem mode ("profile" ∷ "manual" ∷ []))) (unsupported_package_mode mode)
    >> ok mode

-- a list of packages in a description, whose items need not be texts
pub data Item : Type 0 where
  name : String → Item
  something : Item

pub data PackageList : Type 0 where
  items : List Item → PackageList
  no_list : PackageList

pub data Profiles : Type 0 where
  mapping : (String → Option PackageList) → (is_empty : Bool) → Profiles
  no_mapping : Profiles

-- What a description of a root file system holds. A list that is missing is empty; a profile that
-- is no mapping is as one that is missing.
pub record Description : Type 0 where
  pub profiles : Option Profiles
  pub packages : PackageList
  pub default_profile : Option String

abbrev pub all_names : List Item → Result ConfigError (List String)
all_names [] = ok []
all_names (name n ∷ rest) = do ns ← all_names rest; ok (n ∷ ns)
all_names (something ∷ rest) = err package_not_text

unfoldable pub validated_package_list : PackageList → Result ConfigError (List String)
validated_package_list no_list = err packages_not_list
validated_package_list (items []) = err packages_not_list
validated_package_list (items (i ∷ is)) = all_names (i ∷ is)

unfoldable pub default_profile : Description → Result ConfigError String
default_profile d = elim d.default_profile [
  | none ↦ err no_default_profile
  | some p ↦ if p == "" then err no_default_profile else ok p
]

-- `profile or _default_profile(root, rootfs)`
abbrev pub chosen : Description → Option String → Result ConfigError String
chosen d none = default_profile d
chosen d (some p) = if p == "" then default_profile d else ok p

abbrev pub packages_of : Profiles → String → Result ConfigError (List String)
packages_of no_mapping selected = err profiles_not_mapping
packages_of (mapping profiles is_empty) selected =
    if is_empty then err profiles_not_mapping else elim (profiles selected) [
      | none ↦ err (unknown_profile (some selected))
      | some packages ↦ validated_package_list packages
    ]

unfoldable pub profile_packages : Description → Option String → Result ConfigError (List String)
unfolding validated_package_list default_profile
profile_packages d profile = elim d.profiles [
  | none ↦ validated_package_list d.packages
  | some profiles ↦ do selected ← chosen d profile; packages_of profiles selected
]
