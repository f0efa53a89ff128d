-- ===== src/Scheduler/Run/Rerun.antt =====
-- A second run of what a first one has built.
use smart_build.Prelude.{
  ℕ, suc, String, Bool, true, List, [], ◌∷◌, ◌++◌, map, none, ◌≡◌, ◌≢◌, refl, ap, sym, ◌∙◌, inl,
  inr, append_assoc, append-nil, All, All-map, length,
}
use smart_build.Prelude.{Bool-cases, inl, inr, filter}
use smart_build.Prelude.Texts.{◌==◌, eq_iff}
use mathlib.Core.Path.{subst}
use smart_build.Prelude.Errors.{Result, ok, err}
use smart_build.Tasks.Task.{Task}
use smart_build.Tasks.Graph.{TaskGraph, topological_order}
use smart_build.Scheduler.Cache.{Disk, Stamps, stamp_path, is_hit}
use smart_build.Scheduler.Cache.Hits.{is_hit-same, is_hit-write_other}
use smart_build.Scheduler.Display.{task_started, skipped}
use smart_build.Scheduler.Run.{
  Setup, World, TaskResult, RunError, run_one, run_tasks, run, result_of, prepare, write_all,
  header, finish, log_write,
}
use smart_build.Scheduler.Run.Results.{
  IsDone, OneOutcome, run_one-Outcome, IsDone-is_hit, Passes, nothing_left, pass,
}
use smart_build.Scheduler.Run.Failing.{opened, closed, run-opened, run-Passes}
use smart_build.Scheduler.Run.Effects.{write_all-keeps}

module _ (s : Setup) where
  abbrev pub is_current : World → Task → Bool
  is_current w task = is_hit s.hashing w.disk w.stamps task

  -- Working on `task` leaves these paths as they are.
  abbrev pub Spares : Task → List String → Type 0
  Spares task paths =
      (index : ℕ) (w : World) → All (λ p. w.disk p ≡ (run_one s index task w).0.disk p) paths

  -- `later` has another stamp file, and touches neither the inputs nor the outputs of `task`.
  abbrev pub SparesTask : Task → Task → Type 0
  SparesTask task later =
      (stamp_path s.hashing later ≢ stamp_path s.hashing task)
      × Spares later task.inputs
      × Spares later task.outputs

  abbrev pub AreApart : List Task → Type 0
  AreApart [] = Unit
  AreApart (task ∷ tasks) = All (SparesTask task) tasks × AreApart tasks

  stamps-spared :
      (task later : Task) (before : Stamps) (w : World) (r : TaskResult)
      → stamp_path s.hashing later ≢ stamp_path s.hashing task
      → IsDone s later before w r
      → is_hit s.hashing w.disk w.stamps task ≡ is_hit s.hashing w.disk before task
  stamps-spared task later before w r differ (inl (_, same, _)) = rw same refl
  stamps-spared task later before w r differ (inr (_, (stamped, _, _))) = rw stamped (
      is_hit-write_other s.hashing (s.host.stamp_fault later w.disk) w.disk w.disk before later task
        differ)

  one-spared :
      (index : ℕ) (task later : Task) (w w1 : World) (r : TaskResult)
      → SparesTask task later
      → run_one s index later w ≡ (w1, ok r)
      → is_current w task ≡ true
      → is_current w1 task ≡ true
  one-spared index task later w w1 r (differ, ins, outs) e hit =
      let done = subst (OneOutcome s later w.stamps) e (run_one-Outcome s index later w) in
      let disk1 = ap (λ (x : World × _). x.0.disk) e in
      stamps-spared task later w.stamps w1 r differ done
      ∙ sym (
          is_hit-same s.hashing w.disk w1.disk w.stamps task
            (subst (λ d. All (λ p. w.disk p ≡ d p) task.inputs) disk1 (ins index w))
            (subst (λ d. All (λ p. w.disk p ≡ d p) task.outputs) disk1 (outs index w)))
      ∙ hit

  Passes-spared :
      (index : ℕ) (task : Task) (tasks : List Task) (w w2 : World) (rs : List TaskResult)
      → All (SparesTask task) tasks
      → Passes s index tasks w rs w2
      → is_current w task ≡ true
      → is_current w2 task ≡ true
  Passes-spared index task [] w w2 rs spared nothing_left hit = hit
  Passes-spared index task (later ∷ tasks) w w2 rs (spare, spared)
        (pass {w1 = w1} {r = r} {rs = rs1} one rest) hit =
      Passes-spared (suc index) task tasks w1 w2 rs1 spared rest
        (one-spared index task later w w1 r spare one hit)

  Passes-current :
      (index : ℕ) (tasks : List Task) (w w2 : World) (rs : List TaskResult)
      → AreApart tasks
      → Passes s index tasks w rs w2
      → All (λ t. t.cache_policy ≡ "inputs" → is_current w2 t ≡ true) tasks
  Passes-current index [] w w2 rs apart p = tt
  Passes-current index (task ∷ tasks) w w2 rs (spared, apart)
        (pass {w1 = w1} {r = r} {rs = rs1} one rest) =
      let done = subst (OneOutcome s task w.stamps) one (run_one-Outcome s index task w) in
      (
        λ policy.
            Passes-spared (suc index) task tasks w1 w2 rs1 spared rest
              (IsDone-is_hit s task w.stamps w1 r policy done),
        Passes-current (suc index) tasks w1 w2 rs1 apart rest,
      )

  -- Nothing of the host fails or changes the disk when a task is prepared.
  abbrev pub IsReady : Disk → Task → Type 0
  IsReady disk task = prepare s task disk ≡ (disk, none)

  run_one-current :
      (index : ℕ) (task : Task) (w : World)
      → IsReady w.disk task
      → is_current w task ≡ true
      → (w1 : World) × (run_one s index task w ≡ (w1, ok (result_of s task skipped)))
        × (w1.disk ≡ w.disk)
        × (w1.stamps ≡ w.stamps)
  unfolding run_one log_write
  run_one-current index task w ready hit =
      let w0 = record w { display = task_started w.display index task.id } in
      let w1 = write_all s task (header s task) w0 in
      let (d, t) = write_all-keeps s task (header s task) w0 in
      let hit1 : is_hit s.hashing w1.disk w1.stamps task ≡ true = rw (d, t) hit in
      (
        finish s index task skipped (log_write s task "cache hit\n" w1),
        rw (run_one, ready, hit1) refl,
        d,
        t,
      )

  run_tasks-pass :
      (index : ℕ) (task : Task) (tasks : List Task) (w w1 : World) (r : TaskResult)
      (results : List TaskResult)
      → run_one s index task w ≡ (w1, ok r)
      → run_tasks s index (task ∷ tasks) w results
        ≡ run_tasks s (suc index) tasks w1 (results ++ r ∷ [])
  unfolding run_tasks
  run_tasks-pass index task tasks w w1 r results one =
      ap
        (λ (x : World × Result RunError TaskResult).
          elim x.1 as (λ _. World × Result RunError (List TaskResult)) [
            | err e ↦ (x.0, err e)
            | ok result ↦ run_tasks s (suc index) tasks x.0 (results ++ result ∷ [])
          ])
        one

  abbrev skipped_all : List Task → List TaskResult
  skipped_all tasks = map (λ t. result_of s t skipped) tasks

  run_tasks-current :
      (index : ℕ) (tasks : List Task) (w : World) (results : List TaskResult)
      → All (IsReady w.disk) tasks
      → All (λ t. is_current w t ≡ true) tasks
      → (w1 : World) × (run_tasks s index tasks w results ≡ (w1, ok (results ++ skipped_all tasks)))
        × (w1.disk ≡ w.disk)
        × (w1.stamps ≡ w.stamps)
  unfolding run_tasks
  run_tasks-current index [] w results ready hits =
      (w, ap (λ x. (w, ok x)) (sym (append-nil results)), refl, refl)
  run_tasks-current index (t ∷ ts) w results (ready, readies) (hit, hits) =
      let (w1, one, d, m) = run_one-current index t w ready hit in
      let r = result_of s t skipped in
      let (w2, rest, d2, m2) =
        run_tasks-current (suc index) ts w1 (results ++ r ∷ [])
          (subst (λ disk. All (IsReady disk) ts) (sym d) readies)
          (All-map (λ u h. rw (d, m) h) ts hits) in
      (
        w2,
        run_tasks-pass index t ts w w1 r results one
            ∙ rest
            ∙ ap (λ x. (w2, ok x)) (append_assoc results (r ∷ []) (skipped_all ts)),
        d2 ∙ d,
        m2 ∙ m,
      )

abbrev pub is_cacheable : Task → Bool
is_cacheable task = task.cache_policy == "inputs"

cacheable-All :
    (P : Task → Type 0) (ts : List Task)
    → All (λ t. t.cache_policy ≡ "inputs" → P t) ts
    → All P (filter is_cacheable ts)
cacheable-All P [] h = tt
cacheable-All P (t ∷ ts) (ht, h) = elim (Bool-cases (is_cacheable t)) [
  | inl e ↦ rw e (ht ((eq_iff t.cache_policy "inputs").0 e), cacheable-All P ts h)
  | inr e ↦ rw e (cacheable-All P ts h)
]

-- After a run that returns, each task whose policy is `inputs` is a hit, if the tasks have stamp files
-- of their own and no task touches the inputs or outputs of one that was run before it.
pub run-current :
    (s : Setup) (g : TaskGraph) (order : List Task) (w w2 : World) (results : List TaskResult)
    → topological_order g ≡ ok order
    → AreApart s order
    → run s g w ≡ (w2, ok results)
    → All (λ t. is_current s w2 t ≡ true) (filter is_cacheable order)
run-current s g order w w2 results ordered apart e =
    let (w1, passed, same) = run-Passes s g order w w2 results ordered e in
    subst (λ v. All (λ t. is_current s v t ≡ true) (filter is_cacheable order)) same
      (cacheable-All (λ t. is_current s (closed w1) t ≡ true) order
        (Passes-current s 1 order (opened s (length order) w) w1 results apart passed))

-- A run of tasks that are all hits, with nothing to prepare, skips every task and leaves the disk and
-- the stamps as they were.
pub run-skips :
    (s : Setup) (g : TaskGraph) (order : List Task) (w : World)
    → topological_order g ≡ ok order
    → All (IsReady s w.disk) order
    → All (λ t. is_current s w t ≡ true) order
    → (w2 : World) × (run s g w ≡ (w2, ok (map (λ t. result_of s t skipped) order)))
      × (w2.disk ≡ w.disk)
      × (w2.stamps ≡ w.stamps)
run-skips s g order w ordered ready hits =
    let (w1, e, d, m) = run_tasks-current s 1 order (opened s (length order) w) [] ready hits in
    (closed w1, run-opened s g order w ordered ∙ ap (λ x. (closed x.0, x.1)) e, d, m)
