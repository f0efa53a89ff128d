-- ===== src/Ipkg/Sources.antt =====
-- `_package_files_from_manifest`, `_expanded_package_files` and `_prepare_package_output`: the files
-- that a package is made of, and the old package in its place.
pub mod Again
use smart_build.Prelude.{
  ℕ, Bool, true, false, List, [], ◌∷◌, ◌++◌, Option, none, some, ltb, if◌then◌else◌,
}
use smart_build.Prelude.Errors.{Result, ok, err, ◌>>=◌}
use smart_build.Prelude.Codes.{Text, Bytes}
use smart_build.Ipkg.Base.{
  IpkgError, no_install_files, not_mapping, symlink_source, unsupported_source, symlink_output,
  other_output, hardlink_output,
}
use smart_build.Ipkg.Paths.{join_install_path}
use smart_build.Ipkg.Package.{PackageFile}

-- an entry of `sorted(source.rglob("*"))`, with its path, and its path from the source
pub data Child : Type 0 where
  symlink special : (path : Text) → Child
  directory : Child
  file : (path relative : Text) → Child

-- the disk that packages are made from: `str(Path(text))`, the children of a directory, and the
-- bytes of a file
pub record Disk : Type 0 where
  pub str_path : Text → Text
  pub children : Text → Option (List Child)
  pub bytes : Text → Option Bytes

-- an entry of `install_files`
pub data InstallItem : Type 0 where
  other_value : InstallItem
  mapping : (source path : Option Text) (mode : Option ℕ) → InstallItem

-- what stands where a package is written: a file with the number of its links
pub data Output : Type 0 where
  missing symlink_there other_there : Output
  plain : (links : ℕ) → Bytes → Output

abbrev get_or {ℓ} : {A : Type ℓ} → A → Option A → A
get_or default none = default
get_or default (some value) = value

-- the loop over the children of a source
unfoldable pub expand_children :
    (path : Text) (mode : ℕ) → List Child → Result IpkgError (List PackageFile)
expand_children path mode [] = ok []
expand_children path mode (symlink child ∷ children) = err (symlink_source child)
expand_children path mode (directory ∷ children) = expand_children path mode children
expand_children path mode (special child ∷ children) = err (unsupported_source child)
expand_children path mode (file child relative ∷ children) = do
  rest ← expand_children path mode children
  ok (record { source = child; path = join_install_path path relative; mode = mode } ∷ rest)

abbrev pub expanded_source :
    (source path : Text) (mode : ℕ) → Option (List Child) → Result IpkgError (List PackageFile)
expanded_source source path mode none =
    ok (record { source = source; path = path; mode = mode } ∷ [])
expanded_source source path mode (some children) = expand_children path mode children

module _ (disk : Disk) where
  unfoldable pub expanded_package_files : PackageFile → Result IpkgError (List PackageFile)
  unfolding expand_children
  expanded_package_files item =
      let source = disk.str_path item.source in
      expanded_source source item.path item.mode (disk.children source)

  -- the loop of `_make_files_ipkg_executor` over the files of a package
  unfoldable pub expand_files : List PackageFile → Result IpkgError (List PackageFile)
  expand_files [] = ok []
  expand_files (item ∷ items) = do
    files ← expanded_package_files item
    rest ← expand_files items
    ok (files ++ rest)

  -- the defaults of `item.get`
  abbrev pub package_file : Option Text → Option Text → Option ℕ → PackageFile
  package_file source path mode = record {
    source = get_or [] source;
    path = get_or [] path;
    mode = get_or 0o755 mode;
  }

  unfoldable pub expand_items : List InstallItem → Result IpkgError (List PackageFile)
  expand_items [] = ok []
  expand_items (other_value ∷ items) = err not_mapping
  expand_items (mapping source path mode ∷ items) = do
    files ← expanded_package_files (package_file source path mode)
    rest ← expand_items items
    ok (files ++ rest)

  -- the value of `install_files`, if it is a list
  unfoldable pub package_files_from_manifest :
      Option (List InstallItem) → Result IpkgError (List PackageFile)
  package_files_from_manifest none = err no_install_files
  package_files_from_manifest (some []) = err no_install_files
  package_files_from_manifest (some (item ∷ items)) = expand_items (item ∷ items)

unfoldable pub prepare_package_output : Text → Output → Result IpkgError Output
prepare_package_output path symlink_there = err (symlink_output path)
prepare_package_output path missing = ok missing
prepare_package_output path other_there = err (other_output path)
prepare_package_output path (plain links content) =
    if ltb 1 links then err (hardlink_output path) else ok missing
