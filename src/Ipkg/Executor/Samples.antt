-- ===== src/Ipkg/Executor/Samples.antt =====
-- One file that is packed, as an application and out of a directory.
use smart_build.Prelude.{
  List, [], ◌∷◌, none, some, ◌≡◌, refl, if◌then◌else◌, All, Bool-cases, inl, inr,
}
use mathlib.Core.Path.{subst}
use smart_build.Prelude.Errors.{ok}
use smart_build.Prelude.Codes.{Text, Bytes, codes, same, rstrip}
use smart_build.Ipkg.Toy.{toy}
use smart_build.Ipkg.Paths.{join_install_path}
use smart_build.Ipkg.Sources.{
  Child, file as file_child, directory as directory_child, Disk, InstallItem, mapping, plain,
  expand_children, expanded_package_files, expand_files, expand_items, package_files_from_manifest,
}
use smart_build.Ipkg.Sources.Again.{IsLeaf, IsDisk, expand_files-package_files_from_manifest}
use smart_build.Ipkg.Executor.{
  PackageManifest, Packing, Writing, whole, app_files, ipkg_executor, files_ipkg_executor,
}
use smart_build.Ipkg.Executor.Packed.{Packs, ipkg_executor-Packs}

-- A directory with one file in it.
abbrev out_children : List Child
out_children = directory_child ∷ file_child (codes "out/hello") (codes "hello") ∷ []

abbrev disk : Disk
disk = record {
  str_path = λ text. text;
  children = λ path. if same path (codes "out") then some out_children else none;
  bytes = λ path. if same path (codes "out/hello") then some (codes "ELF") else none;
}

disk-IsDisk : IsDisk disk
unfolding same
disk-IsDisk = record {
  str_path-str_path = λ text. refl;
  leaves = λ path children e. elim (Bool-cases (same path (codes "out"))) [
    | inl there ↦
        let same_children : out_children ≡ children = cc (rw there at e) in
        subst (All (IsLeaf disk)) same_children (tt, ((refl, refl), tt))
    | inr other ↦ absurd (cc (rw other at e))
  ];
}

abbrev items : List InstallItem
items = mapping (some (codes "out")) (some (codes "/bin/")) none ∷ []

expanded :
    package_files_from_manifest disk (some items)
    ≡ ok (record { source = codes "out/hello"; path = codes "/bin/hello"; mode = 0o755 } ∷ [])
unfolding package_files_from_manifest expand_items expanded_package_files expand_children same
    join_install_path rstrip
expanded = refl

expand_files-package_files_from_manifest_example :
    expand_files disk
      (record { source = codes "out/hello"; path = codes "/bin/hello"; mode = 0o755 } ∷ [])
    ≡ ok (record { source = codes "out/hello"; path = codes "/bin/hello"; mode = 0o755 } ∷ [])
expand_files-package_files_from_manifest_example =
    expand_files-package_files_from_manifest disk disk-IsDisk (some items) _ expanded

abbrev hello_manifest : PackageManifest
hello_manifest = record {
  name = codes "hello";
  version = codes "1.0";
  architecture = codes "qemu";
  depends = [];
  provides = codes "hello";
  description = codes "a greeting";
  path = codes "hello.ipk";
  install_path = codes "/bin/hello";
  app_output = codes "out/hello";
}

abbrev old_package : Packing
old_package = record { output = plain 1 (codes "old"); files = []; checksum = none; log = [] }

abbrev itself : Bytes → Text
itself archive = archive

abbrev all_whole : Bytes → Writing
all_whole archive = whole

ipkg_executor-Packs_example :
    Packs toy disk itself all_whole hello_manifest
      (λ _. app_files toy disk itself all_whole hello_manifest)
      old_package
      (ipkg_executor toy disk itself all_whole hello_manifest old_package)
    × Packs toy disk itself all_whole hello_manifest
        (λ files. files)
        old_package
        (files_ipkg_executor toy disk itself all_whole hello_manifest
          (some (some items))
          old_package)
ipkg_executor-Packs_example =
    ipkg_executor-Packs toy disk itself all_whole hello_manifest (some (some items)) old_package
