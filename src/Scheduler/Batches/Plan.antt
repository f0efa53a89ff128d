-- ===== src/Scheduler/Batches/Plan.antt =====
-- What `plan_batches` returns.
use smart_build.Prelude.{
  all→All, filter-All, ℕ, zero, suc, ◌≤◌, ◌<◌, String, Bool, true, false, not, ◌&&◌, List, [], ◌∷◌,
  ◌++◌, all, All, All-map, length, length-map, length-append, length-zero, length-pos, ltb, ◌≡◌,
  ◌≢◌, sym, ap, arith, inl, inr, ◌⊎◌, List-cases,
}
use mathlib.Core.Path.{subst}
use smart_build.Prelude.Texts.{◌==◌, eq_iff, eq_refl, elem, Distinct, count, count-append}
use smart_build.Prelude.Remaining.{remaining, IsPart, IsPart-append}
use smart_build.Prelude.Errors.{ok}
use smart_build.Tasks.Task.{Task}
use smart_build.Tasks.Graph.{ids}
use smart_build.Scheduler.Batches.{TaskBatch, ready_tasks, next_batch, batches_from}
use smart_build.Scheduler.Batches.Progress.{
  count-ids-filter, serial_tasks, parallel_tasks, InOrder, some_ready, next_batch-All,
  next_batch-Distinct, next_batch-ne-nil, next_batch-cases, IsClassed,
}

-- One serial task, or fetch and build tasks, all of whose dependencies are among `seen`.
abbrev pub IsBatch : List String → TaskBatch → Type 0
IsBatch seen b =
    All (λ t. All (λ d. elem d seen ≡ true) t.deps) b.tasks
    × (b.tasks ≢ [])
    × ((b.run_class ≡ "serial") × ((t : Task) × (b.tasks ≡ t ∷ []) × (t.run_class ≡ "serial"))
        ⊎ (b.run_class ≡ "parallel")
          × All (λ t. elem t.run_class ("fetch" ∷ "build" ∷ []) ≡ true) b.tasks)

-- Each batch waits only for the batches before it.
abbrev pub AreBatches : List String → List TaskBatch → Type 0
AreBatches seen [] = Unit
AreBatches seen (b ∷ bs) = IsBatch seen b × AreBatches (seen ++ ids b.tasks) bs

abbrev pub batch_ids : List TaskBatch → List String
batch_ids [] = []
batch_ids (b ∷ bs) = ids b.tasks ++ batch_ids bs

All-ids :
    (p : String → Bool) (v : Bool) (ts : List Task)
    → All (λ t. p t.id ≡ v) ts
    → All (λ i. p i ≡ v) (ids ts)
All-ids p v [] h = tt
All-ids p v (t ∷ ts) h = (h.0, All-ids p v ts h.1)

ids-given :
    (ts all_tasks : List Task)
    → ((i : String) → elem i (ids ts) ≡ true → elem i (ids all_tasks) ≡ true)
    → All (λ t. elem t.id (ids all_tasks) ≡ true) ts
unfolding elem
ids-given [] us h = tt
ids-given (t ∷ ts) us h = (h t.id (rw eq_refl), ids-given ts us (λ i m. h i (ground (arith, m))))

module _ (order : List Task) (dis : Distinct (ids order)) (o : InOrder [] order)
    (classed : All IsClassed order) where
  module _ (completed : List String) where
    abbrev ready : List Task
    ready = ready_tasks order completed

    abbrev batch : TaskBatch
    batch = next_batch ready

    abbrev ReadyTask : Task → Type 0
    ReadyTask t =
        (elem t.id completed ≡ false)
        × All (λ d. elem d completed ≡ true) t.deps
        × (elem t.id (ids order) ≡ true)
        × IsClassed t

    -- what `ready-All` makes of a task that passes the test
    as_ready :
        (t : Task)
        → ((not (elem t.id completed) && all (λ d. elem d completed) t.deps) ≡ true)
          × ((elem t.id (ids order) ≡ true) × IsClassed t)
        → ReadyTask t
    as_ready t (r, (m, c)) =
        (ground arith, all→All (λ d. elem d completed) t.deps (ground arith), m, c)

    both :
        (ts : List Task)
        → All (λ t. elem t.id (ids order) ≡ true) ts
        → All IsClassed ts
        → All (λ t. (elem t.id (ids order) ≡ true) × IsClassed t) ts
    both [] m c = tt
    both (t ∷ ts) m c = ((m.0, c.0), both ts m.1 c.1)

    ready-All : All ReadyTask ready
    ready-All =
        All-map as_ready ready
          (filter-All _ _ order (both order (ids-given order order (λ i m. m)) classed))

    batch-All : All ReadyTask batch.tasks
    batch-All = next_batch-All ReadyTask ready ready-All

    batch_class :
        (batch.run_class ≡ "serial")
          × ((t : Task) × (batch.tasks ≡ t ∷ []) × (t.run_class ≡ "serial"))
        ⊎ (batch.run_class ≡ "parallel")
          × All (λ t. elem t.run_class ("fetch" ∷ "build" ∷ []) ≡ true) batch.tasks
    batch_class = elim (next_batch-cases ready) [
      | inl (e, b) ↦ inr (
        ap (λ (x : TaskBatch). x.run_class) b,
        subst (All _) (sym (ap (λ (x : TaskBatch). x.tasks) b))
            (All-map (λ t h. h.0) (parallel_tasks ready) (filter-All ReadyTask _ ready ready-All)),
      )
      | inr (t, rest, e, b) ↦ inl (
        ap (λ (x : TaskBatch). x.run_class) b,
        (
          t,
          ap (λ (x : TaskBatch). x.tasks) b,
          (eq_iff t.run_class "serial").0
              (subst (All (λ u. (u.run_class == "serial") ≡ true)) e (
                All-map (λ u h. h.0) (serial_tasks ready)
                  (filter-All ReadyTask _ ready ready-All))).0,
        ),
      )
    ]

    batch-IsBatch : ready ≢ [] → IsBatch completed batch
    batch-IsBatch some = (
      All-map (λ t h. h.1) batch.tasks batch-All,
      next_batch-ne-nil ready (All-map (λ t h. h.3) ready ready-All) some,
      batch_class,
    )

    ready-Distinct : Distinct (ids ready)
    ready-Distinct j = omega (
      arith,
      dis j,
      count-ids-filter j (λ t. not (elem t.id completed) && all (λ d. elem d completed) t.deps)
          order,
    )

    batch-IsPart : IsPart (ids order) completed → IsPart (ids order) (completed ++ ids batch.tasks)
    batch-IsPart p =
        IsPart-append (ids order) completed (ids batch.tasks) dis
          (next_batch-Distinct ready ready-Distinct)
          (All-ids (λ i. elem i (ids order)) true batch.tasks
            (All-map (λ t h. h.2) batch.tasks batch-All))
          (All-ids (λ i. elem i completed) false batch.tasks
            (All-map (λ t h. h.0) batch.tasks batch-All))
          p

  test_done :
      (completed : List String)
      → IsPart (ids order) completed
      → remaining completed (ids order) ≡ []
      → ltb (length completed) (length order) ≡ false
  test_done completed p e =
      ground (arith, p.lengths, ap length e, length-map (λ (t : Task). t.id) order)

  test_left :
      (completed : List String)
      → IsPart (ids order) completed
      → 0 < length (remaining completed (ids order))
      → ltb (length completed) (length order) ≡ true
  test_left completed p e = ground (arith, p.lengths, length-map (λ (t : Task). t.id) order)

  room_left :
      (completed : List String) (fuel : ℕ)
      → IsPart (ids order) completed
      → ready completed ≢ []
      → length (remaining completed (ids order)) ≤ suc fuel
      → length (remaining (completed ++ ids (batch completed).tasks) (ids order)) ≤ fuel
  room_left completed fuel p some room = omega (
    arith,
    p.lengths,
    (batch-IsPart completed p).lengths,
    length-append completed (ids (batch completed).tasks),
    length-map (λ (t : Task). t.id) (batch completed).tasks,
    length-pos (batch completed).tasks (batch-IsBatch completed some).1,
  )

  ready_left :
      (completed : List String) (x : String) (xs : List String)
      → remaining completed (ids order) ≡ x ∷ xs
      → ready completed ≢ []
  unfolding elem
  ready_left completed x xs e = some_ready completed [] order o (λ d m. cc) (λ h. cc)

  batches_from-suc :
      (fuel : ℕ) (completed : List String) {bs : List TaskBatch}
      → ltb (length completed) (length order) ≡ true
      → ready completed ≢ []
      → batches_from order fuel (completed ++ ids (batch completed).tasks) ≡ ok bs
      → batches_from order (suc fuel) completed ≡ ok (batch completed ∷ bs)
  unfolding batches_from
  batches_from-suc fuel completed test some returned = ground arith

  -- The loop ends with batches that hold what is not completed.
  pub batches_from_total :
      (fuel : ℕ) (completed : List String)
      → IsPart (ids order) completed
      → length (remaining completed (ids order)) ≤ fuel
      → (bs : List TaskBatch) × (batches_from order fuel completed ≡ ok bs)
        × AreBatches completed bs
        × ((j : String) → count j (batch_ids bs) ≡ count j (remaining completed (ids order)))
  unfolding batches_from
  batches_from_total zero completed p room =
      let e = length-zero (remaining completed (ids order)) (omega arith) in
      ([], rw (test_done completed p e), tt, λ j. rw e)
  batches_from_total (suc fuel) completed p room =
      elim (List-cases (remaining completed (ids order))) [
        | inl e ↦ ([], rw (test_done completed p e), tt, λ j. rw e)
        | inr (x, xs, e) ↦
            let some = ready_left completed x xs e in
            let p' = batch-IsPart completed p in
            let (bs, returned, good, counted) =
              batches_from_total fuel (completed ++ ids (batch completed).tasks) p'
                (room_left completed fuel p some room) in
            (
              batch completed ∷ bs,
              batches_from-suc fuel completed (test_left completed p (omega (arith, ap length e)))
                  some returned,
              (batch-IsBatch completed some, good),
              λ j. omega (
                arith,
                counted j,
                p.counts j,
                p'.counts j,
                count-append j completed (ids (batch completed).tasks),
                count-append j (ids (batch completed).tasks) (batch_ids bs),
              ),
            )
      ]
