-- ===== src/Ipkg/Install.antt =====
-- `install_ipkg`, `_safe_destination`, `_install_file` and `_incoming_file_checksum`. Links are
-- resolved by `resolve`. An installation makes no symbolic link; the only one it can remove has the
-- name of a temporary file, and the member at which it does raises. What follows is the rollback, in
-- which a path may lead nowhere any more: `leads` tells.
pub mod Kept
pub mod Elsewhere
pub mod Known
pub mod Loop
pub mod Steps
pub mod RollBack
pub mod Outside
pub mod Returned
pub mod Recorded
pub mod Listed
use smart_build.Prelude.{
  ℕ, Bool, true, false, not, List, [], ◌∷◌, ◌++◌, Option, none, some, ◌%◌, if◌then◌else◌,
}
use smart_build.Prelude.Errors.{Result, ok, err, raise_if, ◌>>=◌, ◌>>◌}
use smart_build.Prelude.Codes.{Text, Bytes, codes, same}
use smart_build.Prelude.Codes.Lines.{join}
use smart_build.Prelude.Codes.Dict.{lookup}
use smart_build.Ipkg.Base.{
  IpkgError, symlink_destination, escaping_path, symlink_member, unsupported_member,
  unreadable_member, file_conflict, probe_exists, missing_data, invalid_data, os_error,
}
use smart_build.Ipkg.Ar.{read_ar}
use smart_build.Ipkg.Paths.{safe_relative_path, as_posix}
use smart_build.Ipkg.Control.{Fields, package_key, version_key, get}
use smart_build.Ipkg.Package.{
  Formats, Content, directory, special, unreadable, broken, link, file, Member, data_member,
  read_control_fields,
}
use smart_build.Ipkg.Files.{
  Place, Node, absent, symlink, other, directory as directory_node, regular, Files, set, Fault,
  is_absent, is_symlink, is_file, unlink_file, ◌then_with◌, write_bytes, make_directories, parent,
  base_name, relative_to, probe_of,
}

-- what the host gives: its links, its faults, the checksum of a file's bytes and mode, and whether
-- the path by which a file was created still leads to its place
pub record Host : Type 0 where
  pub resolve : Place → Place
  pub faults : Place → Fault
  pub checksum : Bytes → ℕ → Text
  pub leads : Files → Place → Bool

pub record InstalledFile : Type 0 where
  pub path : Text
  pub owner : Text
  pub version : Text
  pub source : Text
  pub checksum : Text

-- the place below the resolved root, and the parts of the path in the package
pub record Destination : Type 0 where
  pub parts : List Text
  pub below : Place

pub record Progress : Type 0 where
  pub files : Files
  pub created : List Place
  pub records : List InstalledFile

module _ (host : Host) (rootfs : Place) where
  abbrev pub root : Place
  root = host.resolve rootfs

  -- where a destination lies
  abbrev pub place : Destination → Place
  place d = root ++ (d.below ++ base_name d.parts ∷ [])

  abbrev pub below_root : Text → List Text → Option Place → Result IpkgError Destination
  below_root raw_name parts none = err (escaping_path raw_name)
  below_root raw_name parts (some below) = ok (record { parts = parts; below = below })

  abbrev pub resolved_parent : List Text → Place
  resolved_parent parts = host.resolve (rootfs ++ parent parts)

  unfoldable pub safe_destination : Files → Text → Result IpkgError Destination
  safe_destination files raw_name = do
    parts ← safe_relative_path raw_name
    let at = resolved_parent parts ++ base_name parts ∷ []
    raise_if (is_symlink (files at)) (symlink_destination raw_name)
    below_root raw_name parts (relative_to root (resolved_parent parts))

  -- the checksum of a probe that is written beside the destination, and removed in any case
  abbrev pub checked_probe :
      Place → Bytes → ℕ → Files × Result IpkgError (Unit {0}) → Files × Result IpkgError Text
  checked_probe probe payload mode (files, err e) = (unlink_file files probe, err e)
  checked_probe probe payload mode (files, ok _) =
      (unlink_file files probe, ok (host.checksum payload mode))

  -- At a probe that stands already the `finally` clause removes it, unless it is a directory, which
  -- cannot be unlinked.
  abbrev pub probed : Files → Place → Bytes → ℕ → Node → Files × Result IpkgError Text
  probed files probe payload mode absent =
      checked_probe probe payload mode (write_bytes host.faults files probe payload mode)
  probed files probe payload mode (directory_node _) = (files, err os_error)
  probed files probe payload mode symlink = (set files probe absent, err (probe_exists probe))
  probed files probe payload mode other = (set files probe absent, err (probe_exists probe))
  probed files probe payload mode (regular _ _) = (set files probe absent, err (probe_exists probe))

  unfoldable pub incoming_file_checksum : Files → Place → Bytes → ℕ → Files × Result IpkgError Text
  incoming_file_checksum files destination payload mode =
      probed files (probe_of destination) payload mode (files (probe_of destination))

  abbrev pub same_checksum : Place → Text → Files → Text → Files × Result IpkgError (Unit {0})
  same_checksum destination old files new =
      (files, raise_if (not (same old new)) (file_conflict destination))

  abbrev pub installed_over : Files → Place → Bytes → ℕ → Node → Files × Result IpkgError (Unit {0})
  installed_over files at payload mode absent = write_bytes host.faults files at payload mode
  installed_over files at payload mode (regular old old_mode) =
      incoming_file_checksum files at payload mode
      then_with same_checksum at (host.checksum old old_mode)
  installed_over files at payload mode symlink = (files, err (file_conflict at))
  installed_over files at payload mode other = (files, err (file_conflict at))
  installed_over files at payload mode (directory_node _) = (files, err (file_conflict at))

  unfoldable pub install_file : Files → Place → Bytes → ℕ → Files × Result IpkgError (Unit {0})
  install_file files destination payload mode =
      installed_over files destination payload mode (files destination)

  -- the bytes of a node that was just installed
  abbrev pub node_checksum : Node → Text
  node_checksum (regular payload mode) = host.checksum payload mode
  node_checksum _ = []

  abbrev pub note : (existed : Bool) → Place → List Place → List Place
  note true at created = created
  note false at created = at ∷ created

  module _ (fields : Fields) (source : Text) where
    abbrev pub installed_file : Destination → Files → InstalledFile
    installed_file d files = record {
      path = as_posix d.parts;
      owner = get package_key fields;
      version = get version_key fields;
      source = source;
      checksum = node_checksum (files (place d));
    }

    -- what follows `_install_file` on a member
    abbrev pub after_file :
        Progress
        → Destination
        → (existed : Bool) → Files × Result IpkgError (Unit {0})
        → Progress × Result IpkgError (Unit {0})
    after_file p d true (files, err e) = (record p { files = files }, err e)
    after_file p d false (files, err e) = (record p { files = unlink_file files (place d) }, err e)
    after_file p d existed (files, ok _) = (
      record {
        files = files;
        created = note existed (place d) p.created;
        records = p.records ++ installed_file d files ∷ [];
      },
      ok tt,
    )

    abbrev pub set_mode :
        Progress
        → Destination
        → ℕ
        → Files × Result IpkgError (Unit {0})
        → Progress × Result IpkgError (Unit {0})
    set_mode p d mode (files, err e) = (record p { files = files }, err e)
    set_mode p d mode (files, ok _) =
        (record p { files = set files (place d) (directory_node (mode % 4096)) }, ok tt)

    -- a member that is a directory
    unfoldable pub install_directory :
        Progress → Destination → ℕ → Progress × Result IpkgError (Unit {0})
    install_directory p d mode =
        set_mode p d mode
          (make_directories host.faults p.files root (d.below ++ base_name d.parts ∷ []))

    abbrev pub member_bytes : Text → Content → Result IpkgError Bytes
    member_bytes name (file payload) = ok payload
    member_bytes name unreadable = err (unreadable_member name)
    member_bytes name _ = err os_error

    abbrev pub with_bytes :
        Progress → Destination → ℕ → Result IpkgError Bytes → Progress × Result IpkgError (Unit {0})
    with_bytes p d mode (err e) = (p, err e)
    with_bytes p d mode (ok payload) =
        after_file p d (not (is_absent (p.files (place d))))
          (install_file p.files (place d) payload (mode % 4096))

    abbrev pub in_parent :
        Progress
        → Destination
        → Member
        → Files × Result IpkgError (Unit {0})
        → Progress × Result IpkgError (Unit {0})
    in_parent p d member (files, err e) = (record p { files = files }, err e)
    in_parent p d member (files, ok _) =
        with_bytes (record p { files = files }) d member.mode
          (member_bytes member.name member.content)

    -- a member that is a regular file
    unfoldable pub install_regular :
        Progress → Destination → Member → Progress × Result IpkgError (Unit {0})
    unfolding install_file
    install_regular p d member =
        in_parent p d member (make_directories host.faults p.files root d.below)

    abbrev pub at_destination :
        Progress
        → Result IpkgError Destination
        → (Destination → Progress × Result IpkgError (Unit {0}))
        → Progress × Result IpkgError (Unit {0})
    at_destination p (err e) next = (p, err e)
    at_destination p (ok d) next = next d

    abbrev pub install_content :
        Progress → Member → Content → Progress × Result IpkgError (Unit {0})
    install_content p member directory =
        at_destination p (safe_destination p.files member.name)
          (λ d. install_directory p d member.mode)
    install_content p member (link _) = (p, err (symlink_member member.name))
    install_content p member special = (p, err (unsupported_member member.name))
    install_content p member _ =
        at_destination p (safe_destination p.files member.name) (λ d. install_regular p d member)

    -- one round of the loop of `install_ipkg`
    unfoldable pub install_member : Progress → Member → Progress × Result IpkgError (Unit {0})
    unfolding install_directory install_regular safe_destination
    install_member p member = install_content p member member.content

    abbrev pub go_on :
        (Progress → Progress × Result IpkgError (Unit {0}))
        → Progress × Result IpkgError (Unit {0})
        → Progress × Result IpkgError (Unit {0})
    go_on next (p, err e) = (p, err e)
    go_on next (p, ok _) = next p

    unfoldable pub install_members : Progress → List Member → Progress × Result IpkgError (Unit {0})
    unfolding install_member
    install_members p [] = (p, ok tt)
    install_members p (member ∷ members) =
        go_on (λ next. install_members next members) (install_member p member)

    -- the handlers: what was created is removed by its path, the last first
    abbrev pub unlink_path : Files → Place → Files
    unlink_path files at = if host.leads files at then unlink_file files at else files

    unfoldable pub roll_back : Files → List Place → Files
    roll_back files [] = files
    roll_back files (at ∷ created) = roll_back (unlink_path files at) created

    abbrev pub handled : IpkgError → IpkgError
    handled os_error = invalid_data
    handled e = e

    abbrev pub finish :
        Progress × Result IpkgError (Unit {0}) → Files × Result IpkgError (List InstalledFile)
    finish (p, ok _) = (p.files, ok p.records)
    finish (p, err e) = (roll_back p.files p.created, err (handled e))

    abbrev pub start : Files → Progress
    start files = record { files = files; created = []; records = [] }

    abbrev pub install_data :
        Files → Option (List Member) → Files × Result IpkgError (List InstalledFile)
    install_data files none = (files, err invalid_data)
    install_data files (some members) = finish (install_members (start files) members)

  module _ (f : Formats) (source : Text) where
    abbrev pub below_rootfs :
        Fields
        → Bytes
        → Files × Result IpkgError (Unit {0})
        → Files × Result IpkgError (List InstalledFile)
    below_rootfs fields payload (files, err e) = (files, err e)
    below_rootfs fields payload (files, ok _) = install_data fields source files (f.members payload)

    abbrev pub data_bytes : Option Bytes → Result IpkgError Bytes
    data_bytes none = err missing_data
    data_bytes (some payload) = ok payload

    -- what is read before anything is written
    unfoldable pub opened : Bytes → Result IpkgError (Fields × Bytes)
    opened package_bytes = do
      fields ← read_control_fields f package_bytes
      members ← read_ar package_bytes
      payload ← data_bytes (lookup data_member members)
      ok (fields, payload)

    abbrev pub install_opened :
        Files → Result IpkgError (Fields × Bytes) → Files × Result IpkgError (List InstalledFile)
    install_opened files (err e) = (files, err e)
    install_opened files (ok (fields, payload)) =
        below_rootfs fields payload (make_directories host.faults files [] root)

    unfoldable pub install_ipkg : Bytes → Files → Files × Result IpkgError (List InstalledFile)
    unfolding opened install_members
    install_ipkg package_bytes files = install_opened files (opened package_bytes)
