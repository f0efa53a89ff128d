-- ===== src/Tasks/Graph/Spec.antt =====
-- What `topological_order` promises: its result against the greedy order, on every branch.
use smart_build.Prelude.{
  String, Bool, true, false, not, List, [], ◌∷◌, some, ◌≡◌, ap, ◌∙◌, sym, arith, filter, null,
  length, length-zero, List-cases, length-map, if◌then◌else◌, ltb, beq, inl, inr, All,
}
use mathlib.Core.Path.{subst}
use smart_build.Prelude.Texts.{elem, count, elem-count}
use smart_build.Prelude.Errors.{Result, ok, err}
use smart_build.Tasks.Task.{Task, TaskError, missing_dependencies, cycle_detected}
use smart_build.Tasks.Graph.{
  TaskGraph, ids, place_all, add_tasks, order_index, no_edges, topological_order,
}
use smart_build.Tasks.Graph.Build.{IsIndexed}
use smart_build.Tasks.Graph.Degrees.{
  deps_of, dangling, deps_of-absent, missing-edges, indegree-edges, count-children-edges,
}
use smart_build.Prelude.Remaining.{remaining-nil, remaining, count-filter, filter_ext}
use smart_build.Tasks.Graph.Greedy.{free, greedy, open_deps-nil, all-open_deps}
use smart_build.Tasks.Graph.Rounds.{Inv, order_index-Ascending}
use smart_build.Tasks.Graph.Order.{Before, Placed, place-Placed}

abbrev pub deps_in : TaskGraph → String → List String
deps_in g j = deps_of j g.tasks

-- The order of the ids, or the error, said without the algorithm.
pub order_spec : TaskGraph → Result TaskError (List String)
order_spec g =
    let done = greedy (deps_in g) (ids g.tasks) (length g.tasks) [] in
    if not (null (dangling g g.tasks))
    then err (missing_dependencies (dangling g g.tasks))
    else if beq (length done) (length g.tasks)
    then ok done
    else err (cycle_detected (remaining done (ids g.tasks)))

abbrev pub ids_of : Result TaskError (List Task) → Result TaskError (List String)
ids_of (ok tasks) = ok (ids tasks)
ids_of (err e) = err e

not_free :
    (p : String → Bool) (xs : List String) (i : String)
    → [] ≡ filter p xs
    → elem i xs ≡ true
    → p i ≡ false
unfolding count
not_free p xs i h m = ground (arith, ap (count i) h, count-filter p i xs, elem-count i xs)

module _ (g : TaskGraph) (indexed : IsIndexed g) (closed : dangling g g.tasks ≡ []) where
  start-Inv :
      Inv
        (ids g.tasks)
        (deps_in g)
        (order_index (λ _. 0) 0 g.tasks)
        (add_tasks g no_edges g.tasks).children
        indexed.distinct
        (order_index-Ascending (λ _. 0) 0 g.tasks indexed.distinct)
        (count-children-edges g g.tasks indexed.distinct closed)
        (λ j. deps_of-absent g j g.tasks)
        (add_tasks g no_edges g.tasks).indegree
        (filter (λ i. beq ((add_tasks g no_edges g.tasks).indegree i) 0) (ids g.tasks))
        []
  unfolding elem
  start-Inv = record {
    counted =
        λ j. indegree-edges g g.tasks indexed.distinct closed j ∙ sym (open_deps-nil (deps_in g j));
    listed = filter_ext _ _ (ids g.tasks) λ i m. ground (
      arith,
      indegree-edges g g.tasks indexed.distinct closed i,
      open_deps-nil (deps_in g i),
      all-open_deps [] (deps_in g i),
    );
    closed = λ j m. cc;
  }

  pub place_all-Placed :
      Placed g (deps_in g) (length g.tasks) [] (place_all g (add_tasks g no_edges g.tasks))
  unfolding place_all
  place_all-Placed =
      place-Placed g indexed (deps_in g) (order_index (λ _. 0) 0 g.tasks)
        (add_tasks g no_edges g.tasks).children
        (order_index-Ascending (λ _. 0) 0 g.tasks indexed.distinct)
        (count-children-edges g g.tasks indexed.distinct closed) (λ j. deps_of-absent g j g.tasks)
        (length g.tasks) _ _ [] start-Inv
        (record {
          counts = λ j. unfold count in omega (arith, ap (count j) (remaining-nil (ids g.tasks)));
          lengths = omega (arith, ap length (remaining-nil (ids g.tasks)));
          before = tt;
        })
        tt
        (omega
          (arith, ap length (remaining-nil (ids g.tasks)), length-map (λ (t : Task). t.id) g.tasks))

  -- What the last lines of `topological_order` make of the loop's result.
  abbrev placed : List Task
  placed = place_all-Placed.result

  blocked-remaining :
      filter (λ i. ltb 0 (place_all-Placed.degrees i)) (ids g.tasks)
      ≡ remaining (ids placed) (ids g.tasks)
  blocked-remaining = filter_ext _ _ (ids g.tasks) λ i m. ground (
    arith,
    place_all-Placed.counted i,
    place_all-Placed.closed i,
    not_free (free (deps_in g) (ids placed)) (ids g.tasks) i place_all-Placed.stuck m,
    all-open_deps (ids placed) (deps_in g i),
  )

  abbrev outcome : Result TaskError (List Task)
  outcome =
      if beq (length placed) (length g.tasks)
      then ok placed
      else err (cycle_detected (remaining (ids placed) (ids g.tasks)))

  pub topological_order-outcome : topological_order g ≡ outcome
  unfolding topological_order
  topological_order-outcome =
      ground (arith, missing-edges g g.tasks, closed, place_all-Placed.returned, blocked-remaining)

  ids_of-outcome : ids_of outcome ≡ order_spec g
  unfolding order_spec
  ids_of-outcome =
      ground (arith, closed, place_all-Placed.chosen, length-map (λ (t : Task). t.id) placed)

pub topological_order-dangling :
    (g : TaskGraph) (d : String × String) (ds : List (String × String))
    → dangling g g.tasks ≡ d ∷ ds
    → topological_order g ≡ err (missing_dependencies (dangling g g.tasks))
unfolding topological_order
topological_order-dangling g d ds h = ground (arith, missing-edges g g.tasks)

-- For a graph with distinct ids, `topological_order` returns the ids that the greedy order places,
-- or raises for the dangling dependencies, or for the ids that the greedy order leaves.
pub topological_order-order_spec :
    (g : TaskGraph) → IsIndexed g → ids_of (topological_order g) ≡ order_spec g
topological_order-order_spec g indexed = elim (List-cases (dangling g g.tasks)) [
  | inl closed ↦
      ap ids_of (topological_order-outcome g indexed closed) ∙ ids_of-outcome g indexed closed
  | inr (d, ds, some_dangle) ↦
      unfold order_spec in
      ground (arith, some_dangle, topological_order-dangling g d ds some_dangle)
]

-- An order of the tasks of a graph: each once, behind its dependencies.
pub record IsOrder (g : TaskGraph) (order : List Task) : Type 0 where
  pub looked_up : All (λ t. g.by_id t.id ≡ some t) order
  pub counts : (j : String) → count j (ids order) ≡ count j (ids g.tasks)
  pub before : Before (deps_in g) [] (ids order)

outcome-IsOrder :
    (g : TaskGraph) (indexed : IsIndexed g) (closed : dangling g g.tasks ≡ []) (order : List Task)
    → outcome g indexed closed ≡ ok order
    → IsOrder g order
outcome-IsOrder g indexed closed order h =
    let r = place_all-Placed g indexed closed in
    let full : length r.result ≡ length g.tasks = ground arith in
    let none_left : remaining (ids r.result) (ids g.tasks) ≡ [] = length-zero _ (
      omega (
        arith,
        r.partial.lengths,
        length-map (λ (t : Task). t.id) r.result,
        length-map (λ (t : Task). t.id) g.tasks,
      )) in
    let same : r.result ≡ order = ground arith in
    subst (IsOrder g) same (record {
      looked_up = r.looked_up;
      counts = λ j. unfold count in omega (arith, r.partial.counts j, ap (count j) none_left);
      before = r.partial.before;
    })

-- For a graph with distinct ids, a list that `topological_order` returns holds each task of the
-- graph once and no other, and each task stands behind all of its dependencies.
pub topological_order-IsOrder :
    (g : TaskGraph) (order : List Task)
    → IsIndexed g
    → topological_order g ≡ ok order
    → IsOrder g order
topological_order-IsOrder g order indexed h = elim (List-cases (dangling g g.tasks)) [
  | inl closed ↦
      outcome-IsOrder g indexed closed order (sym (topological_order-outcome g indexed closed) ∙ h)
  | inr (d, ds, some_dangle) ↦ absurd (cc (topological_order-dangling g d ds some_dangle))
]
