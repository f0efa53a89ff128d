-- ===== src/Scheduler/Batches/Spec.antt =====
-- `plan_batches` on a graph.
use smart_build.Prelude.{
  String, true, List, [], ◌∷◌, ◌++◌, All, All-map, length, length-map, ◌≡◌, ap, arith, inl, inr,
  Bool-cases, some,
}
use mathlib.Core.Path.{subst}
use smart_build.Prelude.Texts.{◌==◌, eq_iff, eq_refl, elem, elem-count, count}
use smart_build.Prelude.Remaining.{IsPart-nil, remaining-nil}
use smart_build.Prelude.Errors.{ok}
use smart_build.Tasks.Task.{Task}
use smart_build.Tasks.Graph.{TaskGraph, ids, topological_order}
use smart_build.Tasks.Graph.Build.{IsIndexed}
use smart_build.Tasks.Graph.Order.{Before}
use smart_build.Tasks.Graph.Spec.{deps_in, topological_order-IsOrder}
use smart_build.Tasks.Closure.Plan.{deps_of-by_id}
use smart_build.Scheduler.Batches.{TaskBatch, plan_batches}
use smart_build.Scheduler.Batches.Progress.{InOrder, IsClassed}
use smart_build.Scheduler.Batches.Plan.{AreBatches, batch_ids, batches_from_total}

-- A task that is looked up is one of the list.
by_id-All {κ} :
    (P : Task → Type κ) (g : TaskGraph) (i : String) (t : Task) (ts : List Task)
    → All P ts
    → All (λ u. g.by_id u.id ≡ some u) ts
    → elem i (ids ts) ≡ true
    → g.by_id i ≡ some t
    → P t
unfolding elem
by_id-All P g i t [] h found m e = cc
by_id-All P g i t (u ∷ ts) h found m e = elim (Bool-cases (u.id == i)) [
  | inl same ↦ let here : u ≡ t = cc (ap g.by_id ((eq_iff u.id i).0 same)) in subst P here h.0
  | inr other ↦ by_id-All P g i t ts h.1 found.1 (rw other at m) e
]

module _ (g : TaskGraph) (indexed : IsIndexed g) where
  Listed : Task → Type 0
  Listed t = (g.by_id t.id ≡ some t) × (elem t.id (ids g.tasks) ≡ true)

  Before-InOrder :
      (seen : List String) (ts : List Task)
      → All Listed ts
      → Before (deps_in g) seen (ids ts)
      → InOrder seen ts
  unfolding Listed
  Before-InOrder seen [] l b = tt
  Before-InOrder seen (t ∷ ts) (lt, l) (bt, b) = (
    subst (All (λ d. elem d seen ≡ true)) (deps_of-by_id g t.id t g.tasks indexed.found lt.0 lt.1)
        bt,
    Before-InOrder (seen ++ t.id ∷ []) ts l b,
  )

  order-Listed :
      (ts : List Task)
      → All (λ t. g.by_id t.id ≡ some t) ts
      → ((i : String) → elem i (ids ts) ≡ true → elem i (ids g.tasks) ≡ true)
      → All Listed ts
  unfolding Listed elem
  order-Listed [] l sub = tt
  order-Listed (t ∷ ts) l sub =
      ((l.0, sub t.id (rw eq_refl)), order-Listed ts l.1 (λ i m. sub i (ground (arith, m))))

  Listed-IsClassed : All IsClassed g.tasks → (t : Task) → Listed t → IsClassed t
  unfolding Listed
  Listed-IsClassed classed t l = by_id-All IsClassed g t.id t g.tasks classed indexed.found l.1 l.0

-- For a graph with distinct ids and valid run classes that has an order, `plan_batches` returns
-- batches: each is one serial task or some fetch and build tasks, waits only for the batches before
-- it, and together they hold each task of the graph once.
pub plan_batches_total :
    (g : TaskGraph) (order : List Task)
    → IsIndexed g
    → All IsClassed g.tasks
    → topological_order g ≡ ok order
    → (bs : List TaskBatch) × (plan_batches g ≡ ok bs)
      × AreBatches [] bs
      × ((j : String) → count j (batch_ids bs) ≡ count j (ids g.tasks))
unfolding plan_batches
plan_batches_total g order indexed classed ordered =
    let o = topological_order-IsOrder g order indexed ordered in
    let listed =
      order-Listed g indexed order o.looked_up
        (λ i m. ground (arith, o.counts i, elem-count i (ids order), elem-count i (ids g.tasks))) in
    let (bs, returned, good, counted) =
      batches_from_total order (λ j. omega (arith, o.counts j, indexed.distinct j))
        (Before-InOrder g indexed [] order listed o.before)
        (All-map (Listed-IsClassed g indexed classed) order listed) (length order) []
        (IsPart-nil (ids order))
        (omega
          (arith, ap length (remaining-nil (ids order)), length-map (λ (t : Task). t.id) order)) in
    (
      bs,
      rw (ordered, returned),
      good,
      λ j. omega (arith, counted j, o.counts j, ap (count j) (remaining-nil (ids order))),
    )
