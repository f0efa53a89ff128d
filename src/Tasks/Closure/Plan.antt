-- ===== src/Tasks/Closure/Plan.antt =====
-- The plan of a target: what it needs, in an order that its dependencies allow.
use smart_build.Prelude.{
  String, Bool, true, List, [], ◌∷◌, ◌++◌, Bool-cases, some, ◌≡◌, refl, ap, ◌∙◌, arith, All,
  All-filter, filter, inl, inr, if◌then◌else◌,
}
use mathlib.Core.Path.{subst}
use smart_build.Prelude.Texts.{◌==◌, eq_iff, elem, count, elem-count}
use smart_build.Prelude.Remaining.{count-filter}
use smart_build.Prelude.Errors.{ok, >>=-eq-ok, ok-injective}
use smart_build.Tasks.Task.{Task}
use smart_build.Tasks.Graph.{TaskGraph, ids, topological_order}
use smart_build.Tasks.Graph.Build.{IsIndexed, lookup-head}
use smart_build.Tasks.Graph.Degrees.{deps_of, deps_of-absent}
use smart_build.Tasks.Graph.Order.{Before}
use smart_build.Tasks.Graph.Spec.{deps_in, IsOrder, topological_order-IsOrder}
use smart_build.Tasks.Closure.{dependency_closure, plan_for}
use smart_build.Tasks.Closure.Needed.{IsClosure, dependency_closure-IsClosure}

-- The tasks with a selected id, each once, every one behind all of its dependencies.
pub record IsPlan (g : TaskGraph) (targets : List String) (plan : List Task) : Type 0 where
  pub selected : List String
  pub closure : IsClosure g targets selected
  pub looked_up : All (λ t. g.by_id t.id ≡ some t) plan
  pub counts :
      (j : String) → count j (ids plan) ≡ (if elem j selected then count j (ids g.tasks) else 0)
  pub before : Before (deps_in g) [] (ids plan)

module _ (deps : String → List String) (p : String → Bool)
    (closed : (i : String) → p i ≡ true → All (λ d. p d ≡ true) (deps i)) where
  kept-All :
      (seen ds : List String)
      → All (λ d. elem d seen ≡ true) ds
      → All (λ d. p d ≡ true) ds
      → All (λ d. elem d (filter p seen) ≡ true) ds
  kept-All seen [] h q = tt
  kept-All seen (d ∷ ds) h q = (
    ground
        (arith, h.0, q.0, elem-count d (filter p seen), elem-count d seen, count-filter p d seen),
    kept-All seen ds h.1 q.1,
  )

  filter-snoc :
      (seen : List String) (i : String)
      → filter p (seen ++ i ∷ []) ≡ (if p i then filter p seen ++ i ∷ [] else filter p seen)
  filter-snoc [] i = refl
  filter-snoc (x ∷ seen) i = ground (arith, filter-snoc seen i)

  Before-filter :
      (seen xs : List String) → Before deps seen xs → Before deps (filter p seen) (filter p xs)
  Before-filter seen [] b = tt
  Before-filter seen (x ∷ xs) (bx, b) = elim (Bool-cases (p x)) [
    | inl e ↦
        let ih : Before deps (filter p seen ++ x ∷ []) (filter p xs) =
          subst (λ l. Before deps l (filter p xs)) (filter-snoc seen x ∙ rw e)
            (Before-filter (seen ++ x ∷ []) xs b) in
        rw e (kept-All seen (deps x) bx (closed x e), ih)
    | inr e ↦
        let ih : Before deps (filter p seen) (filter p xs) =
          subst (λ l. Before deps l (filter p xs)) (filter-snoc seen x ∙ rw e)
            (Before-filter (seen ++ x ∷ []) xs b) in
        rw e ih
  ]

ids-filter :
    (p : String → Bool) (ts : List Task) → ids (filter (λ t. p t.id) ts) ≡ filter p (ids ts)
ids-filter p [] = refl
ids-filter p (t ∷ ts) = ground (arith, ids-filter p ts)

pub deps_of-by_id :
    (g : TaskGraph) (i : String) (t : Task) (ts : List Task)
    → All (λ u. g.by_id u.id ≡ some u) ts
    → g.by_id i ≡ some t
    → elem i (ids ts) ≡ true
    → deps_of i ts ≡ t.deps
unfolding deps_of elem
deps_of-by_id g i t [] h found m = cc
deps_of-by_id g i t (u ∷ ts) (hu, h) found m = elim (Bool-cases (u.id == i)) [
  | inl e ↦
      let same : u ≡ t = cc (ap g.by_id ((eq_iff u.id i).0 e)) in
      rw e (ap (λ (v : Task). v.deps) same)
  | inr e ↦ rw e (deps_of-by_id g i t ts h found (rw e at m))
]

module _ (g : TaskGraph) (indexed : IsIndexed g) (targets selected : List String)
    (closure : IsClosure g targets selected) where
  deps_in-selected :
      (i : String) → elem i selected ≡ true → All (λ d. elem d selected ≡ true) (deps_in g i)
  deps_in-selected i m = elim (Bool-cases (elem i (ids g.tasks))) [
    | inl here ↦
        let (t, found, named) = lookup-head g i g.tasks indexed.found here in
        rw (deps_of-by_id g i t g.tasks indexed.found found here) (closure.listed i t m found)
    | inr absent ↦ rw (deps_of-absent g i g.tasks absent) tt
  ]

  IsOrder-IsPlan :
      (order : List Task)
      → IsOrder g order
      → IsPlan g targets (filter (λ t. elem t.id selected) order)
  IsOrder-IsPlan order o = record {
    selected = selected;
    closure = closure;
    looked_up = All-filter _ (λ t. elem t.id selected) order o.looked_up;
    counts = λ j.
        rw (ids-filter (λ i. elem i selected) order)
          (ground (arith, count-filter (λ i. elem i selected) j (ids order), o.counts j));
    before =
        rw (ids-filter (λ i. elem i selected) order) (
          Before-filter (deps_in g) (λ i. elem i selected) deps_in-selected [] (ids order)
            o.before);
  }

-- For a graph with distinct ids, the plan of some targets holds each task that they need once and no
-- other task, and each task stands behind all of its dependencies.
pub plan_for-IsPlan :
    (g : TaskGraph) (targets : List String) (plan : List Task)
    → IsIndexed g
    → plan_for g targets ≡ ok plan
    → IsPlan g targets plan
unfolding plan_for
plan_for-IsPlan g targets plan indexed h =
    let (selected, closed, rest) = >>=-eq-ok (dependency_closure g targets) _ h in
    let (order, ordered, done) = >>=-eq-ok (topological_order g) _ rest in
    let closure = dependency_closure-IsClosure g targets selected closed in
    subst (IsPlan g targets) (ok-injective done) (
      IsOrder-IsPlan g indexed targets selected closure order
        (topological_order-IsOrder g order indexed ordered))
