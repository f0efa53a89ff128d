-- ===== src/Packages/Dependencies/Closed.antt =====
-- The closure of a package's dependencies among the selected packages.
use smart_build.Prelude.{
  suc, String, true, false, List, ◌++◌, length, length-map, Option, none, some, Option-cases,
  Bool-cases, inl, inr, ◌≡◌, refl, ap, arith, All, All-map,
}
use mathlib.Core.Path.{subst}
use smart_build.Prelude.Texts.{elem, Distinct, All-of_elem}
use smart_build.Prelude.Errors.{ok, err, Result-cases}
use smart_build.Prelude.Walk.{Walked, walk}
use smart_build.Prelude.Walk.Growth.{Met}
use smart_build.Prelude.Walk.Reach.{Leads}
use smart_build.Prelude.Walk.Whole.{walk-IsClosed, walk-Sound, walk-Ends}
use smart_build.Packages.Symbols.{PackageError}
use smart_build.Packages.Resolver.{ResolvedPackage}
use smart_build.Packages.Dependencies.{
  dependency_walker, package_dependency_closure, selected_by_name, dependency_children,
}
use smart_build.Packages.Dependencies.Names.{
  StandsFor, names_of, provider_in, elem-provider_in, dependency_name-StandsFor,
}

module _ (own : ResolvedPackage) (selected : List ResolvedPackage) where
  abbrev pub Stands : String → String → Type 0
  Stands = StandsFor own.name (names_of selected) (provider_in selected)

  abbrev pub roots : List String
  roots = own.metadata.host_depends ++ own.metadata.depends ++ own.metadata.selects

  -- what a selected package depends on
  abbrev pub dependencies : ResolvedPackage → List String
  dependencies item = item.metadata.depends ++ item.metadata.host_depends ++ item.metadata.selects

  -- What the package depends on is needed, and what a needed package depends on.
  pub data Needed : String → Type 0 where
    direct : {raw name : String} → elem raw roots ≡ true → Stands raw name → Needed name
    indirect :
        {raw name by : String} {item : ResolvedPackage}
        → Needed by
        → selected_by_name own selected by ≡ some item
        → elem raw (dependencies item) ≡ true
        → Stands raw name
        → Needed name

  abbrev pub IsReached : List String → String → Type 0
  IsReached names raw = (name : String) → Stands raw name → elem name names ≡ true

  -- Exactly the needed packages, each once; the package itself is none of them.
  pub record IsDependencyClosure (names : List String) : Type 0 where
    pub distinct : Distinct names
    pub started : All (IsReached names) roots
    pub listed :
        (name : String) (item : ResolvedPackage)
        → elem name names ≡ true
        → selected_by_name own selected name ≡ some item
        → All (IsReached names) (dependencies item)
    pub needed : (name : String) → elem name names ≡ true → Needed name
    pub own_left : elem own.name names ≡ false

  Needed-differs : (name : String) → Needed name → ¬ (name ≡ own.name)
  Needed-differs name (direct m (differ, _)) = differ
  Needed-differs name (indirect n found m (differ, _)) = differ

  Stands-selected : (raw name : String) → Stands raw name → elem name (names_of selected) ≡ true
  Stands-selected raw name (differ, inl (m, same)) = rw same m
  Stands-selected raw name (differ, inr (m, given)) = elem-provider_in selected raw name given

  target-Stands :
      (raw name : String)
      → (dependency_walker own selected).target raw ≡ some name
      → Stands raw name
  unfolding dependency_walker
  target-Stands raw name h = (dependency_name-StandsFor own selected raw name).0 h

  Met-IsReached :
      (names : List String) (raw : String)
      → Met (dependency_walker own selected) names raw
      → IsReached names raw
  unfolding dependency_walker
  Met-IsReached names raw m name stands =
      m.1 name ((dependency_name-StandsFor own selected raw name).1 stands)

  children-of :
      (name : String) (o : Option ResolvedPackage)
      → selected_by_name own selected name ≡ o
      → (dependency_walker own selected).children name ≡ dependency_children own selected o
  unfolding dependency_walker
  children-of name o e = ap (dependency_children own selected) e

  noting :
      (a b : Unit {0}) (raw : String)
      → (dependency_walker own selected).note a raw ≡ ok b
      → Unit {0}
      → Unit {0}
  noting a b raw h q = q

  abbrev LeadsOn : String → Type 0
  LeadsOn = Leads (dependency_walker own selected) Needed (λ _. Unit {0}) noting

  roots-lead : All LeadsOn roots
  roots-lead = All-of_elem LeadsOn roots (λ raw m name e. direct m (target-Stands raw name e))

  children-lead :
      (by : String) → Needed by → All LeadsOn ((dependency_walker own selected).children by)
  children-lead by need = elim (Option-cases (selected_by_name own selected by)) [
    | inl absent ↦ rw (children-of by none absent) tt
    | inr (item, found) ↦ rw (children-of by (some item) found) (
        All-of_elem LeadsOn (dependencies item)
          (λ raw m name e. indirect need found m (target-Stands raw name e)))
  ]

  walk-IsDependencyClosure :
      (w : Walked (Unit {0}))
      → walk (dependency_walker own selected) (suc (length selected)) tt roots ≡ ok w
      → IsDependencyClosure w.met
  walk-IsDependencyClosure w h =
      let k = dependency_walker own selected in
      let fuel = suc (length selected) in
      let closed = walk-IsClosed k fuel tt roots w h in
      let sound =
        walk-Sound k fuel tt roots Needed (λ _. Unit {0}) noting children-lead roots-lead tt w h in
      record {
        distinct = closed.distinct;
        started = All-map (Met-IsReached w.met) roots closed.started;
        listed = λ name item m found.
            All-map (Met-IsReached w.met) (dependencies item) (
              subst (All (Met k w.met)) (children-of name (some item) found)
                (closed.listed name m));
        needed = sound.0;
        own_left = elim (Bool-cases (elem own.name w.met)) [
          | inl m ↦ absurd (Needed-differs own.name (sound.0 own.name m) refl)
          | inr absent ↦ absent
        ];
      }

  note_fine :
      (a : Unit {0}) (raw : String) (e : PackageError)
      → (dependency_walker own selected).note a raw ≡ err e
      → ⊥
  unfolding dependency_walker
  note_fine a raw e h = cc

  -- When the selected packages have distinct names, `_package_dependency_closure` returns, cycles or
  -- not, exactly the selected packages that the package needs: those that its dependencies stand for,
  -- and those that the dependencies of such a package stand for. A name stands for the selected
  -- package of that name, or else for the last one that provides it. Each is named once, and the
  -- package itself is left out.
  pub package_dependency_closure-IsDependencyClosure :
      Distinct (names_of selected)
      → (names : List String) × (package_dependency_closure own selected ≡ ok names)
        × IsDependencyClosure names
  unfolding package_dependency_closure
  package_dependency_closure-IsDependencyClosure distinct =
      let k = dependency_walker own selected in
      let fuel = suc (length selected) in
      elim (Result-cases (walk k fuel tt roots)) [
        | inl (w, walked) ↦ (w.met, rw walked refl, walk-IsDependencyClosure w walked)
        | inr (e, raised) ↦
            let (a, raw, noted) =
              walk-Ends k fuel tt roots (names_of selected) distinct
                (λ raw name h. Stands-selected raw name (target-Stands raw name h))
                (omega (arith, length-map (λ (item : ResolvedPackage). item.name) selected)) e
                raised in
            absurd (note_fine a raw e noted)
      ]
