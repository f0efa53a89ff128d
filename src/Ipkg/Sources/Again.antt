-- ===== src/Ipkg/Sources/Again.antt =====
-- The files of a package that were expanded are expanded again by the task that packs them.
use smart_build.Prelude.{ℕ, List, [], ◌∷◌, Option, none, some, ◌≡◌, refl, All, All-append}
use mathlib.Core.Path.{subst}
use smart_build.Prelude.Errors.{ok, >>=-eq-ok, ok-injective}
use smart_build.Prelude.Codes.{Text}
use smart_build.Ipkg.Package.{PackageFile}
use smart_build.Ipkg.Sources.{
  Child, symlink, special, directory, file, Disk, InstallItem, other_value, mapping,
  expand_children, expanded_source, expanded_package_files, expand_files, package_file,
  expand_items, package_files_from_manifest,
}

-- A child that is a file has a path that `Path` leaves as it is, and it is no directory.
abbrev pub IsLeaf : Disk → Child → Type 0
IsLeaf disk (file path relative) = (disk.str_path path ≡ path) × (disk.children path ≡ none)
IsLeaf disk _ = Unit

-- What holds of a disk and of `str(Path(text))`.
pub record IsDisk (disk : Disk) : Type 0 where
  pub str_path-str_path : (text : Text) → disk.str_path (disk.str_path text) ≡ disk.str_path text
  pub leaves :
      (path : Text) (children : List Child)
      → disk.children path ≡ some children
      → All (IsLeaf disk) children

module _ (disk : Disk) (on_disk : IsDisk disk) where
  -- a file that is expanded to itself
  abbrev IsExpanded : PackageFile → Type 0
  IsExpanded item = expanded_package_files disk item ≡ ok (item ∷ [])

  IsExpanded-leaf :
      (item : PackageFile)
      → disk.str_path item.source ≡ item.source
      → disk.children item.source ≡ none
      → IsExpanded item
  unfolding expanded_package_files
  IsExpanded-leaf item e h = rw (e, h) refl

  expand_children-IsExpanded :
      (path : Text) (mode : ℕ) (children : List Child) (files : List PackageFile)
      → All (IsLeaf disk) children
      → expand_children path mode children ≡ ok files
      → All IsExpanded files
  unfolding expand_children
  expand_children-IsExpanded path mode [] files h e = subst (All IsExpanded) (ok-injective e) tt
  expand_children-IsExpanded path mode (symlink child ∷ children) files h e = cc
  expand_children-IsExpanded path mode (directory ∷ children) files (_, h) e =
      expand_children-IsExpanded path mode children files h e
  expand_children-IsExpanded path mode (special child ∷ children) files h e = cc
  expand_children-IsExpanded path mode (file child relative ∷ children) files ((same, leaf), h) e =
      let (rest, e1, e2) = >>=-eq-ok (expand_children path mode children) _ e in
      subst (All IsExpanded) (ok-injective e2)
        (IsExpanded-leaf _ same leaf, expand_children-IsExpanded path mode children rest h e1)

  expanded_source-IsExpanded :
      (source path : Text) (mode : ℕ) (children : Option (List Child)) (files : List PackageFile)
      → disk.str_path source ≡ source
      → disk.children source ≡ children
      → expanded_source source path mode children ≡ ok files
      → All IsExpanded files
  expanded_source-IsExpanded source path mode none files same found e =
      subst (All IsExpanded) (ok-injective e) (IsExpanded-leaf _ same found, tt)
  expanded_source-IsExpanded source path mode (some children) files same found e =
      expand_children-IsExpanded path mode children files (on_disk.leaves source children found) e

  expanded_package_files-IsExpanded :
      (item : PackageFile) (files : List PackageFile)
      → expanded_package_files disk item ≡ ok files
      → All IsExpanded files
  unfolding expanded_package_files
  expanded_package_files-IsExpanded item files e =
      expanded_source-IsExpanded (disk.str_path item.source) item.path item.mode
        (disk.children (disk.str_path item.source)) files (on_disk.str_path-str_path item.source)
        refl e

  expand_items-IsExpanded :
      (items : List InstallItem) (files : List PackageFile)
      → expand_items disk items ≡ ok files
      → All IsExpanded files
  unfolding expand_items
  expand_items-IsExpanded [] files e = subst (All IsExpanded) (ok-injective e) tt
  expand_items-IsExpanded (other_value ∷ items) files e = cc
  expand_items-IsExpanded (mapping source path mode ∷ items) files e =
      let item = package_file disk source path mode in
      let (first, e1, e2) = >>=-eq-ok (expanded_package_files disk item) _ e in
      let (rest, e3, e4) = >>=-eq-ok (expand_items disk items) _ e2 in
      subst (All IsExpanded) (ok-injective e4) (
        All-append IsExpanded first rest (expanded_package_files-IsExpanded item first e1)
          (expand_items-IsExpanded items rest e3))

  expand_files-IsExpanded :
      (files : List PackageFile) → All IsExpanded files → expand_files disk files ≡ ok files
  unfolding expand_files
  expand_files-IsExpanded [] h = refl
  expand_files-IsExpanded (item ∷ files) (e, h) = rw (e, expand_files-IsExpanded files h) refl

  -- The files that `_package_files_from_manifest` returns are left as they are by the expansion that
  -- the task of the package does over them.
  pub expand_files-package_files_from_manifest :
      (install_files : Option (List InstallItem)) (files : List PackageFile)
      → package_files_from_manifest disk install_files ≡ ok files
      → expand_files disk files ≡ ok files
  unfolding package_files_from_manifest
  expand_files-package_files_from_manifest none files e = cc
  expand_files-package_files_from_manifest (some []) files e = cc
  expand_files-package_files_from_manifest (some (item ∷ items)) files e =
      expand_files-IsExpanded files (expand_items-IsExpanded (item ∷ items) files e)
