-- ===== src/Packages/Dependencies.antt =====
-- `_package_dependency_closure` and `_package_dependency_task_ids` of src/smart_build/tasks.py: the
-- packages behind a package, and the ids of the tasks that it waits for.
pub mod Names
pub mod Closed
pub mod TaskIds
use smart_build.Prelude.{
  suc, String, Bool, List, [], ◌∷◌, ◌++◌, map, length, Option, none, some, if◌then◌else◌,
}
use Prim.Native.String.{◌++◌ as ◌⧺◌}
use smart_build.Prelude.Texts.{◌==◌, elem, update}
use smart_build.Prelude.Errors.{Result, ok, err, ◌>>=◌}
use smart_build.Prelude.Walk.{Walker, walk}
use smart_build.Packages.Symbols.{PackageError, out_of_fuel}
use smart_build.Packages.Metadata.{PackageMetadata}
use smart_build.Packages.Resolver.{ResolvedPackage, index_packages}

-- `{provided: item.name for item in selected_packages for provided in item.metadata.provides}`
unfoldable pub provide : (String → Option String) → String → List String → String → Option String
unfolding update
provide providers name [] = providers
provide providers name (provided ∷ rest) = provide (update providers provided (some name)) name rest

unfoldable pub provided_by :
    (String → Option String) → List ResolvedPackage → String → Option String
unfolding provide
provided_by providers [] = providers
provided_by providers (item ∷ items) =
    provided_by (provide providers item.name item.metadata.provides) items

-- the selected package that a name stands for, unless it is the package itself
unfoldable pub other_than : String → Option String → Option String
other_than own none = none
other_than own (some name) = if name == own then none else some name

module _ (own : ResolvedPackage) (selected_packages : List ResolvedPackage) where
  abbrev pub selected_by_name : String → Option ResolvedPackage
  selected_by_name = index_packages (λ _. none) selected_packages

  unfoldable pub dependency_name : String → Option String
  unfolding index_packages provided_by other_than
  dependency_name raw_name = elim (selected_by_name raw_name) [
    | some _ ↦ other_than own.name (some raw_name)
    | none ↦ other_than own.name (provided_by (λ _. none) selected_packages raw_name)
  ]

  abbrev pub dependency_children : Option ResolvedPackage → List String
  dependency_children none = []
  dependency_children (some item) =
      item.metadata.depends ++ item.metadata.host_depends ++ item.metadata.selects

  -- the nested function `visit`
  unfoldable pub dependency_walker : Walker PackageError (Unit {0}) String
  unfolding dependency_name
  dependency_walker = record {
    target = dependency_name;
    note = λ _ _. ok tt;
    children = λ name. dependency_children (selected_by_name name);
    stop = out_of_fuel;
  }

  unfoldable pub package_dependency_closure : Result PackageError (List String)
  unfolding dependency_walker walk
  package_dependency_closure = do
    w ←
        walk dependency_walker (suc (length selected_packages)) tt
          (own.metadata.host_depends ++ own.metadata.depends ++ own.metadata.selects)
    ok w.met

-- the id of the task that builds or packs a package
abbrev pub dependency_task_id : (host_names : List String) → String → String
unfolding elem
dependency_task_id host_names dependency =
    if elem dependency host_names
    then "package:" ⧺ dependency ⧺ ":build"
    else "ipkg:" ⧺ dependency ⧺ ":package"

abbrev pub append_new : List String → String → List String
unfolding elem
append_new deps task_id = if elem task_id deps then deps else deps ++ task_id ∷ []

-- the loop of `_package_dependency_task_ids`; `name_of` resolves a dependency, or gives nothing
-- where the loop continues
unfoldable pub add_task_ids :
    (name_of : String → Option String)
    → (host_names : List String) → List String
    → List String
    → List String
add_task_ids name_of host_names deps [] = deps
add_task_ids name_of host_names deps (raw_dependency ∷ rest) =
    add_task_ids name_of host_names
      (elim (name_of raw_dependency) [
        | none ↦ deps
        | some dependency ↦ append_new deps (dependency_task_id host_names dependency)
      ])
      rest

unfoldable pub dependency_of :
    (own : String)
    → (package_names : List String) → (String → Option String)
    → String
    → Option String
unfolding elem other_than
dependency_of own package_names providers raw_dependency =
    if elem raw_dependency package_names
    then other_than own (some raw_dependency)
    else other_than own (providers raw_dependency)

unfoldable pub package_dependency_task_ids :
    ResolvedPackage
    → (package_names : List String) → (providers : String → Option String)
    → (host_names : List String) → List String
unfolding add_task_ids dependency_of
package_dependency_task_ids own package_names providers host_names =
    add_task_ids (dependency_of own.name package_names providers) host_names []
      (own.metadata.host_depends ++ own.metadata.depends ++ own.metadata.selects)
