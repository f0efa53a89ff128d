-- ===== src/Config/Samples.antt =====
-- Configurations of one machine.
use smart_build.Prelude.{String, true, false, [], ◌∷◌, Option, none, some, ◌≡◌, refl, if◌then◌else◌}
use smart_build.Prelude.Texts.{◌==◌}
use smart_build.Prelude.Errors.{ok, err}
use smart_build.Config.{
  Values, Integer, integer, ImageConfig, rootfs_image_config, rootfs_build_mode, unsupported_size,
  Description, items, name, profile_packages, mapping,
}
use smart_build.Config.Valid.{IsConfig, rootfs_image_config-IsConfig}

abbrev parse_int : String → Option Integer
parse_int text =
    if text == "16"
    then some (integer false 16)
    else if text == "-16"
    then some (integer true 16)
    else none

abbrev values : Values
values key =
    if key == "ROOTFS_IMAGE_FORMAT"
    then some "fat"
    else if key == "ROOTFS_PROFILE"
    then some "static"
    else none

abbrev fat : ImageConfig
fat = record { format = "fat"; size_mb = some 16; size_mode = some "fixed" }

accepted : rootfs_image_config parse_int values ≡ ok fat
unfolding rootfs_image_config
accepted = refl

refused :
    rootfs_image_config parse_int
      (λ key. if key == "ROOTFS_IMAGE_SIZE_MB" then some "-16" else none)
    ≡ err (unsupported_size true 16)
unfolding rootfs_image_config
refused = refl

rootfs_image_config-IsConfig_example : IsConfig parse_int values fat
rootfs_image_config-IsConfig_example = rootfs_image_config-IsConfig parse_int values fat accepted

static_mode : rootfs_build_mode values ≡ ok "static"
unfolding rootfs_build_mode
static_mode = refl

abbrev minimal : Description
minimal = record {
  profiles =
      some (mapping (λ p. if p == "static" then some (items (name "hello" ∷ [])) else none) false);
  packages = items [];
  default_profile = some "static";
}

packaged : profile_packages minimal none ≡ ok ("hello" ∷ [])
unfolding profile_packages
packaged = refl
