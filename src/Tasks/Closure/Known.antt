-- ===== src/Tasks/Closure/Known.antt =====
-- `plan_for` on a graph that has an order, where each dependency is a task.
use smart_build.Prelude.{
  String, true, List, [], none, some, Option-cases, filter, inl, inr, ◌⊎◌, ◌≡◌, refl, arith,
  List-cases,
}
use smart_build.Prelude.Texts.{elem}
use smart_build.Prelude.Errors.{ok, err}
use smart_build.Tasks.Task.{Task, unknown_target_task}
use smart_build.Tasks.Graph.{TaskGraph, ids, known, topological_order}
use smart_build.Tasks.Graph.Build.{IsIndexed}
use smart_build.Tasks.Graph.Degrees.{dangling, AllKnown-of_dangling}
use smart_build.Tasks.Graph.Spec.{topological_order-dangling}
use smart_build.Tasks.Graph.Cycles.{known-deps_of}
use smart_build.Tasks.Closure.{plan_for}
use smart_build.Tasks.Closure.Needed.{dependency_closure-unknown}
use smart_build.Tasks.Closure.Plan.{deps_of-by_id}
use mathlib.Core.Path.{subst, sym}

module _ (g : TaskGraph) (order : List Task) (indexed : IsIndexed g)
    (ordered : topological_order g ≡ ok order) where
  dangling-ordered : dangling g g.tasks ≡ []
  dangling-ordered = elim (List-cases (dangling g g.tasks)) [
    | inl closed ↦ closed
    | inr (d, ds, some_dangle) ↦ absurd (cc (topological_order-dangling g d ds some_dangle))
  ]

  known-task : (d : String) → known g d ≡ true → (u : Task) × (g.by_id d ≡ some u)
  known-task d k = elim (Option-cases (g.by_id d)) [
    | inl absent ↦ absurd (cc (rw (absent, known) at k))
    | inr found ↦ found
  ]

  -- A dependency of a task of the graph is a task of the graph.
  dep-task :
      (i d : String) (t : Task)
      → g.by_id i ≡ some t
      → elem d t.deps ≡ true
      → (u : Task) × (g.by_id d ≡ some u)
  dep-task i d t found m =
      let listed : elem i (ids g.tasks) ≡ true = ground (arith, indexed.only i) in
      let same = deps_of-by_id g i t g.tasks indexed.found found listed in
      known-task d (
        known-deps_of g g.tasks i d (AllKnown-of_dangling g g.tasks dangling-ordered)
          (subst (λ ds. elem d ds ≡ true) (sym same) m))

  -- The plan is returned, or one of the targets names no task.
  pub plan_for_total :
      (targets : List String)
      → ((plan : List Task) × (plan_for g targets ≡ ok plan))
        ⊎ ((i : String) × (plan_for g targets ≡ err (unknown_target_task i))
            × (elem i targets ≡ true)
            × (g.by_id i ≡ none))
  unfolding plan_for
  plan_for_total targets = elim (dependency_closure-unknown g targets indexed dep-task) [
    | inl (selected, closed) ↦
        inl (filter (λ t. elem t.id selected) order, rw (plan_for, closed, ordered) refl)
    | inr (i, raised, absent, listed) ↦ inr (i, rw (plan_for, raised) refl, listed, absent)
  ]
