-- ===== src/Ipkg/Base.antt =====
-- What the parts of src/smart_build/domains/ipkg.py raise.
use smart_build.Prelude.{ℕ, Bool, List, beq}
use smart_build.Prelude.Codes.{Text}

pub data IpkgError : Type 0 where
  -- _write_ar and _read_ar
  name_too_long : (name : Text) → IpkgError
  invalid_archive truncated_header invalid_header truncated_member : IpkgError
  -- a name that is not ASCII, in `encode`
  not_ascii : (name : Text) → IpkgError
  -- control files
  missing_fields : List Text → IpkgError
  invalid_control_line : (line : Text) → IpkgError
  unsupported_version missing_control control_not_file invalid_control missing_data invalid_data :
      IpkgError
  -- paths
  absolute_path empty_path unsafe_path escaping_path symlink_destination : (path : Text) → IpkgError
  -- an installation
  symlink_member unsupported_member unreadable_member : (name : Text) → IpkgError
  file_conflict probe_exists : (path : List Text) → IpkgError
  source_not_found : (path : Text) → IpkgError
  -- what a package is made of, and the package file
  no_install_files not_mapping : IpkgError
  symlink_source unsupported_source app_output_not_found : (path : Text) → IpkgError
  symlink_output other_output hardlink_output : (path : Text) → IpkgError
  -- the data base
  unsafe_name not_installed update_failed : (name : Text) → IpkgError
  -- an exception of the operating system
  os_error : IpkgError
  -- the end of the fuel of a loop, which the theorems exclude
  out_of_fuel : IpkgError

abbrev pub is_slash : ℕ → Bool
is_slash c = beq c b'/'
