-- ===== src/Packages/Resolver/Selection.antt =====
-- Which packages a resolution selects.
use smart_build.Prelude.{
  suc, String, Bool, true, false, List, [], ◌++◌, map, length, Option, none, some, Option-cases,
  inl, inr, ◌≡◌, sym, ap, arith, All, All-map, map-All, All-of_map, append-All, All-append,
}
use mathlib.Core.Path.{subst}
use smart_build.Prelude.Texts.{elem, elem-append, All-of_elem}
use smart_build.Prelude.Errors.{ok, >>=-eq-ok}
use smart_build.Prelude.Walk.Growth.{Met}
use smart_build.Prelude.Walk.Reach.{Leads}
use smart_build.Prelude.Walk.Whole.{walk-IsClosed, walk-Sound}
use smart_build.Packages.Symbols.{Chars}
use smart_build.Packages.Metadata.{PackageMetadata}
use smart_build.Packages.Resolver.{
  Values, Requirements, ResolvedPackage, required_version, include_walker, resolve_packages,
}
use smart_build.Packages.Resolver.Providers.{found_in}
use smart_build.Prelude.Walk.{Walked, walk}
use smart_build.Packages.Metadata.{names}
use smart_build.Packages.Resolver.Providers.{resolve_provider-names}
use smart_build.Packages.Resolver.Closure.{
  provider_of, related, IsNeeded, by_user, by_package, IsMet, IsMetIfKnown, IsSelection, names_of,
  walker, parts_of, resolved_packages-IsResolved,
}

in_depends :
    (m : PackageMetadata) (d : String)
    → elem d (m.host_depends ++ m.depends) ≡ true
    → elem d (m.host_depends ++ m.depends ++ m.selects) ≡ true
in_depends m d e = ground (arith, elem-append d (m.host_depends ++ m.depends) m.selects)

in_selects :
    (m : PackageMetadata) (d : String)
    → elem d m.selects ≡ true
    → elem d (m.host_depends ++ m.depends ++ m.selects) ≡ true
in_selects m d e = ground (arith, elem-append d (m.host_depends ++ m.depends) m.selects)

module _ (chars : Chars) (values : Values) (ps : List PackageMetadata) where
  note-required :
      (met : List String) (n : String) → Met (walker chars values ps) met (n, true) → IsMet ps met n
  unfolding include_walker
  note-required met n ((a, b, noted), named) = elim (Option-cases (provider_of ps n)) [
    | inl absent ↦
        let (v, versioned, rest) = >>=-eq-ok (required_version chars values n) _ noted in
        absurd (cc (rw absent at rest))
    | inr (q, present) ↦ (q, present, named q present)
  ]

  Met-known :
      (met : List String) (n : String)
      → Met (walker chars values ps) met (n, false)
      → IsMetIfKnown ps met n
  unfolding include_walker
  Met-known met n (noted, named) q present = named q present

  pub children-eq :
      (name : String) (m : PackageMetadata)
      → found_in ps name ≡ some m
      → (walker chars values ps).children name
        ≡ map (λ d. (d, false)) (m.host_depends ++ m.depends) ++ map (λ d. (d, true)) m.selects
  unfolding include_walker
  children-eq name m present =
      ap
        (λ (o : Option PackageMetadata). elim o as (λ _. List (String × Bool)) [
          | none ↦ []
          | some p ↦
              map (λ d. (d, false)) (p.host_depends ++ p.depends) ++ map (λ d. (d, true)) p.selects
        ])
        present

  children-nil :
      (name : String) → found_in ps name ≡ none → (walker chars values ps).children name ≡ []
  unfolding include_walker
  children-nil name absent =
      ap
        (λ (o : Option PackageMetadata). elim o as (λ _. List (String × Bool)) [
          | none ↦ []
          | some p ↦
              map (λ d. (d, false)) (p.host_depends ++ p.depends) ++ map (λ d. (d, true)) p.selects
        ])
        absent

  children-Met :
      (met : List String) (name : String) (m : PackageMetadata)
      → found_in ps name ≡ some m
      → All (Met (walker chars values ps) met) ((walker chars values ps).children name)
      → All (IsMetIfKnown ps met) (m.host_depends ++ m.depends) × All (IsMet ps met) m.selects
  children-Met met name m present all_met =
      let items =
        subst (All (Met (walker chars values ps) met)) (children-eq name m present) all_met in
      let (weak, strong) =
        append-All (Met (walker chars values ps) met)
          (map (λ d. (d, false)) (m.host_depends ++ m.depends)) (map (λ d. (d, true)) m.selects)
          items in
      (
        All-map (Met-known met) (m.host_depends ++ m.depends) (
            All-of_map (Met (walker chars values ps) met) (λ d. (d, false))
              (m.host_depends ++ m.depends) weak),
        All-map (note-required met) m.selects
            (All-of_map (Met (walker chars values ps) met) (λ d. (d, true)) m.selects strong),
      )

  module _ (asked : List String) where
    abbrev noting :
        (a b : Requirements) (i : String × Bool)
        → (walker chars values ps).note a i ≡ ok b
        → Unit {0}
        → Unit {0}
    noting a b i h q = q

    abbrev LeadsOn : String × Bool → Type 0
    LeadsOn = Leads (walker chars values ps) (IsNeeded ps asked) (λ _. Unit {0}) noting

    asked-lead : All LeadsOn (map (λ n. (n, true)) asked)
    unfolding include_walker
    asked-lead =
        map-All LeadsOn (λ n. (n, true)) asked
          (All-of_elem _ asked (λ n m q present. by_user n m present))

    children-lead :
        (name : String)
        → IsNeeded ps asked name
        → All LeadsOn ((walker chars values ps).children name)
    unfolding include_walker
    children-lead name need = elim (Option-cases (found_in ps name)) [
      | inl absent ↦ subst (All LeadsOn) (sym (children-nil name absent)) tt
      | inr (m, present) ↦
          let each : (ds : List String)
              → ((d : String) → elem d ds ≡ true → elem d (related m) ≡ true)
              → (b : Bool) → All LeadsOn (map (λ d. (d, b)) ds) =
            λ ds sub b.
              map-All LeadsOn (λ d. (d, b)) ds
                (All-of_elem _ ds
                  (λ d e q known. by_package name d m need present (sub d e) known)) in
          subst (All LeadsOn) (sym (children-eq name m present)) (
            All-append LeadsOn (map (λ d. (d, false)) (m.host_depends ++ m.depends))
              (map (λ d. (d, true)) m.selects)
              (each (m.host_depends ++ m.depends) (λ d e. in_depends m d e) false)
              (each m.selects (λ d e. in_selects m d e) true))
    ]

-- What is needed is a package of the list.
pub IsNeeded-names :
    (ps : List PackageMetadata) (asked : List String) (n : String)
    → IsNeeded ps asked n
    → elem n (names ps) ≡ true
IsNeeded-names ps asked n (by_user i m present) = resolve_provider-names ps i n present
IsNeeded-names ps asked n (by_package i d m need found dep present) =
    resolve_provider-names ps d n present

pub walk-IsNeeded :
    (chars : Chars) (values : Values) (ps : List PackageMetadata) (asked : List String)
    (w : Walked Requirements)
    → walk (walker chars values ps) (suc (length ps)) (λ _. none) (map (λ n. (n, true)) asked)
      ≡ ok w
    → (n : String) → elem n w.met ≡ true
    → IsNeeded ps asked n
walk-IsNeeded chars values ps asked w walked =
    (walk-Sound (walker chars values ps) (suc (length ps)) (λ _. none) (map (λ n. (n, true)) asked)
      (IsNeeded ps asked) (λ _. Unit {0}) (noting chars values ps asked)
      (children-lead chars values ps asked) (asked-lead chars values ps asked) tt w walked).0

-- What `resolve_packages` returns holds a package for each name asked for and for each
-- name that a selected package selects, the known ones of those that a selected package depends on,
-- no package twice, and no package that is not needed.
pub resolve_packages-IsSelection :
    (chars : Chars) (values : Values) (ps : List PackageMetadata) (asked : List String)
    (rs : List ResolvedPackage)
    → resolve_packages chars values ps asked ≡ ok rs
    → IsSelection ps asked (names_of rs)
resolve_packages-IsSelection chars values ps asked rs h =
    let p = parts_of chars values ps asked rs h in
    let w = p.walked in
    let k = walker chars values ps in
    let roots = map (λ n. (n, true)) asked in
    let fuel = suc (length ps) in
    let closed = walk-IsClosed k fuel (λ _. none) roots w p.walked_eq in
    let (same, _) = resolved_packages-IsResolved chars values ps w.noted w.met rs p.resolved in
    subst (IsSelection ps asked) (sym same) (record {
      distinct = closed.distinct;
      asked_for =
          All-map (note-required chars values ps w.met) asked
            (All-of_map (Met k w.met) (λ n. (n, true)) asked closed.started);
      depends = λ name m e present.
          (children-Met chars values ps w.met name m present (closed.listed name e)).0;
      selects = λ name m e present.
          (children-Met chars values ps w.met name m present (closed.listed name e)).1;
      needed = walk-IsNeeded chars values ps asked w p.walked_eq;
    })
