-- ===== src/Packages/Samples.antt =====
-- A small set of packages, and how it is resolved.
use smart_build.Prelude.{String, Option}
use smart_build.Packages.Dependencies.{package_dependency_closure, package_dependency_task_ids}
use smart_build.Packages.Dependencies.Names.{StandsFor, names_of as names_in}
use smart_build.Packages.Dependencies.Closed.{
  IsDependencyClosure, package_dependency_closure-IsDependencyClosure,
}
use smart_build.Packages.Dependencies.TaskIds.{IsTaskIdOf, package_dependency_task_ids-IsTaskIdOf}
use smart_build.Prelude.{
  true, false, List, [], ◌∷◌, none, some, inr, ◌⊎◌, ◌≡◌, refl, ◌↔◌, All, if◌then◌else◌,
}
use smart_build.Prelude.Texts.{◌==◌, elem, update, Distinct, Distinct-cons, Distinct-nil}
use smart_build.Prelude.Errors.{ok, err}
use smart_build.Packages.Symbols.{Chars, PackageError, package_symbol, conflict}
use smart_build.Packages.Metadata.{PackageMetadata, by_name}
use smart_build.Packages.Resolver.{
  Values, ResolvedPackage, PackageSelection, resolve_packages, resolve_package_selection,
  required_version, resolve_provider, index_packages,
}
use smart_build.Packages.Resolver.Closure.{IsSelection, names_of}
use smart_build.Packages.Resolver.Selection.{resolve_packages-IsSelection}
use smart_build.Packages.Resolver.Conflicts.{resolve_packages-no_conflict}
use smart_build.Packages.Resolver.Versions.{
  resolve_packages-versions, resolve_package_selection-required,
}
use smart_build.Packages.Resolver.Raising.{is_internal}
use smart_build.Packages.Resolver.Total.{resolve_package_selection_total}

abbrev chars : Chars
chars = record { upper = λ s. s; lower = λ s. s; is_alnum = λ _. true; is_space = λ _. false }

abbrev zlib : PackageMetadata
zlib = record {
  name = "zlib";
  versions = "1.2" ∷ "1.3" ∷ [];
  default_version = "1.3";
  native = false;
  options = [];
  depends = [];
  host_depends = [];
  selects = [];
  conflicts = [];
  provides = "zlib" ∷ [];
}

abbrev musl : PackageMetadata
musl = record zlib {
  name = "musl";
  native = true;
  provides = "musl" ∷ "libc" ∷ [];
  conflicts = "glibc" ∷ [];
}

abbrev hello : PackageMetadata
hello = record zlib {
  name = "hello";
  native = true;
  depends = "zlib" ∷ "unknown" ∷ [];
  selects = "libc" ∷ [];
  provides = "hello" ∷ [];
}

abbrev glibc : PackageMetadata
glibc = record zlib { name = "glibc"; provides = "glibc" ∷ [] }

abbrev known : List PackageMetadata
known = zlib ∷ musl ∷ hello ∷ glibc ∷ []

abbrev values : Values
values = λ key. if key == "PACKAGE_zlib_REQUIRE_VERSION" then some "1.2" else none

abbrev resolved : List ResolvedPackage
resolved =
    record { name = "hello"; version = "1.3"; options = λ _. none; metadata = hello }
    ∷ record { name = "zlib"; version = "1.2"; options = λ _. none; metadata = zlib }
    ∷ record { name = "musl"; version = "1.3"; options = λ _. none; metadata = musl }
    ∷ []

resolve-hello : resolve_packages chars values known ("hello" ∷ []) ≡ ok resolved
unfolding resolve_packages update package_symbol
resolve-hello = refl

resolve-clash :
    resolve_packages chars values known ("hello" ∷ "glibc" ∷ []) ≡ err (conflict "musl" "glibc")
unfolding resolve_packages update package_symbol
resolve-clash = refl

resolve_packages-IsSelection_example : IsSelection known ("hello" ∷ []) (names_of resolved)
resolve_packages-IsSelection_example =
    resolve_packages-IsSelection chars values known ("hello" ∷ []) resolved resolve-hello

resolve_packages-no_conflict_example : elem "musl" hello.conflicts ≡ false
unfolding elem update by_name
resolve_packages-no_conflict_example =
    resolve_packages-no_conflict chars values known ("hello" ∷ []) resolved resolve-hello "hello"
      "musl" hello refl refl refl

resolve_packages-versions_example :
    All
      (λ (r : ResolvedPackage).
        (r.metadata.native ≡ true) × (r.version ≡ r.metadata.default_version)
        ⊎ (r.metadata.native ≡ false) × (elem r.version r.metadata.versions ≡ true))
      resolved
resolve_packages-versions_example =
    resolve_packages-versions chars values known ("hello" ∷ []) resolved resolve-hello

abbrev selection : PackageSelection
selection = record { packages = resolved; by_name = index_packages (λ _. none) resolved }

select-hello : resolve_package_selection chars values known ("hello" ∷ []) ≡ ok selection
unfolding resolve_package_selection update package_symbol
select-hello = refl

resolve_package_selection-required_example :
    (r : ResolvedPackage) × (selection.by_name "zlib" ≡ some r)
    × (r.name ≡ "zlib")
    × (r.version ≡ "1.2")
unfolding resolve_provider required_version package_symbol update elem by_name
resolve_package_selection-required_example =
    resolve_package_selection-required chars values known ("hello" ∷ []) selection "zlib" "zlib"
      "1.2" select-hello (inr ("hello", hello, refl, refl, refl)) refl refl (λ e. cc)

distinct : Distinct ("zlib" ∷ "musl" ∷ "hello" ∷ "glibc" ∷ [])
unfolding elem
distinct = Distinct-cons "zlib" ("musl" ∷ "hello" ∷ "glibc" ∷ []) refl (
    Distinct-cons "musl" ("hello" ∷ "glibc" ∷ []) refl
      (Distinct-cons "hello" ("glibc" ∷ []) refl (Distinct-cons "glibc" [] refl Distinct-nil)))

resolve_package_selection_total_example :
    ((s : PackageSelection) × (resolve_package_selection chars values known ("glibc" ∷ []) ≡ ok s))
    ⊎ ((e : PackageError) × (resolve_package_selection chars values known ("glibc" ∷ []) ≡ err e)
        × (is_internal e ≡ false))
resolve_package_selection_total_example =
    resolve_package_selection_total chars values known ("glibc" ∷ []) distinct

abbrev own : ResolvedPackage
own = record { name = "hello"; version = "1.3"; options = λ _. none; metadata = hello }

distinct-resolved : Distinct (names_in resolved)
unfolding elem
distinct-resolved =
    Distinct-cons "hello" ("zlib" ∷ "musl" ∷ []) refl
      (Distinct-cons "zlib" ("musl" ∷ []) refl (Distinct-cons "musl" [] refl Distinct-nil))

package_dependency_closure-IsDependencyClosure_example :
    (names : List String) × (package_dependency_closure own resolved ≡ ok names)
    × IsDependencyClosure own resolved names
package_dependency_closure-IsDependencyClosure_example =
    package_dependency_closure-IsDependencyClosure own resolved distinct-resolved

abbrev libc : String → Option String
libc name = if name == "libc" then some "musl" else none

package_dependency_task_ids-IsTaskIdOf_example :
    Distinct (package_dependency_task_ids own ("hello" ∷ "zlib" ∷ "musl" ∷ []) libc [])
    × ((id : String)
        → (elem id (package_dependency_task_ids own ("hello" ∷ "zlib" ∷ "musl" ∷ []) libc [])
            ≡ true)
          ↔ ((raw : String) × (name : String) × (elem raw ("zlib" ∷ "unknown" ∷ "libc" ∷ []) ≡ true)
              × StandsFor "hello" ("hello" ∷ "zlib" ∷ "musl" ∷ []) libc raw name
              × IsTaskIdOf [] name id))
package_dependency_task_ids-IsTaskIdOf_example =
    package_dependency_task_ids-IsTaskIdOf own ("hello" ∷ "zlib" ∷ "musl" ∷ []) libc []
