-- ===== src/Scheduler/Run/Results.antt =====
-- What the `for` loop returns.
use smart_build.Prelude.{
  ℕ, suc, ◌+◌, String, true, List, [], ◌∷◌, ◌++◌, Option, none, some, ◌≡◌, refl, ap, sym, ◌∙◌,
  arith, inl, inr, ◌⊎◌, if_both, append_assoc, append-nil, length,
}
use mathlib.Core.Path.{subst}
use smart_build.Prelude.Errors.{Result, ok, err, Result-cases}
use smart_build.Prelude.Texts.{eq_iff, eq_refl}
use smart_build.Tasks.Task.{Task}
use smart_build.Scheduler.Cache.{Stamps, is_hit, signature}
use smart_build.Scheduler.Cache.Hits.{is_hit-write}
use smart_build.Scheduler.Display.{task_started, success, skipped}
use smart_build.Scheduler.Run.{
  Setup, World, Raised, smart, exception, RunError, TaskResult, log_write, write_all, attempt,
  settle, prepare, run_prepared, run_one, run_tasks, result_of, header,
}
use smart_build.Scheduler.Run.Effects.{
  write_all-keeps, Outcome, Stamped, IsUnstamped, attempt-Outcome,
}

module _ (s : Setup) where
  -- The task was a hit and the stamps are as they were, or it ran and its stamp is written.
  abbrev pub IsDone : Task → Stamps → World → TaskResult → Type 0
  IsDone task before w result =
      (result ≡ result_of s task skipped)
        × (w.stamps ≡ before)
        × (is_hit s.hashing w.disk w.stamps task ≡ true)
      ⊎ (result ≡ result_of s task success) × Stamped s task before w

  abbrev pub OneOutcome : Task → Stamps → World × Result RunError TaskResult → Type 0
  OneOutcome task before (w, ok result) = IsDone task before w result
  OneOutcome task before (w, err _) = IsUnstamped s task before w

  settle-Outcome :
      (index : ℕ) (task : Task) (before : Stamps) (done : World × Result Raised (Unit {0}))
      → Outcome s task before done
      → OneOutcome task before (settle s index task done)
  unfolding settle log_write
  settle-Outcome index task before (w, ok _) o = inr (refl, o)
  settle-Outcome index task before (w, err (smart code text)) o = o
  settle-Outcome index task before (w, err (exception text)) o = o

  run_prepared-Outcome :
      (index : ℕ) (task : Task) (w : World) (error : Option String)
      → OneOutcome task w.stamps (run_prepared s index task w error)
  unfolding log_write
  run_prepared-Outcome index task w (some text) = inl refl
  run_prepared-Outcome index task w none =
      let w1 = write_all s task (header s task) w in
      let (_, kept) = write_all-keeps s task (header s task) w in
      if_both (OneOutcome task w.stamps) (is_hit s.hashing w1.disk w1.stamps task)
        (λ hit. inl (refl, kept, hit))
        (λ _.
          settle-Outcome index task w.stamps (attempt s task w1)
            (subst (λ t. Outcome s task t (attempt s task w1)) kept (attempt-Outcome s task w1)))

  pub run_one-Outcome :
      (index : ℕ) (task : Task) (w : World) → OneOutcome task w.stamps (run_one s index task w)
  unfolding run_one
  run_one-Outcome index task w =
      let (disk, error) = prepare s task w.disk in
      run_prepared-Outcome index task
        (record w { disk = disk; display = task_started w.display index task.id }) error

  -- A task that the loop passed, and that the cache may keep, is a hit right after.
  pub IsDone-is_hit :
      (task : Task) (before : Stamps) (w : World) (result : TaskResult)
      → task.cache_policy ≡ "inputs"
      → IsDone task before w result
      → is_hit s.hashing w.disk w.stamps task ≡ true
  IsDone-is_hit task before w result policy (inl (_, _, hit)) = hit
  IsDone-is_hit task before w result policy (inr (_, (stamped, there, fine))) = rw stamped (
      is_hit-write s.hashing (s.host.stamp_fault task w.disk) w.disk w.disk before task fine
      ∙ ground
          (arith, eq_iff task.cache_policy "inputs", eq_refl (signature s.hashing w.disk task)))

-- The tasks of a list were passed one after the other, with these results.
pub data Passes (s : Setup) : ℕ → List Task → World → List TaskResult → World → Type 0 where
  nothing_left : {index : ℕ} {w : World} → Passes s index [] w [] w
  pass :
      {index : ℕ} {task : Task} {tasks : List Task} {w w1 w2 : World} {r : TaskResult}
      {rs : List TaskResult}
      → run_one s index task w ≡ (w1, ok r)
      → Passes s (suc index) tasks w1 rs w2
      → Passes s index (task ∷ tasks) w (r ∷ rs) w2

-- Some tasks were passed, the next one raised, and nothing was done after that.
pub record Failed (s : Setup) (index : ℕ) (tasks : List Task) (w w2 : World) (e : RunError)
    : Type 0 where
  pub done : List Task
  pub task : Task
  pub later : List Task
  pub before : World
  pub results : List TaskResult
  pub split : tasks ≡ done ++ task ∷ later
  pub passed : Passes s index done w results before
  pub raised_here : run_one s (index + length done) task before ≡ (w2, err e)

module _ (s : Setup) where
  abbrev pub LoopOutcome :
      ℕ → List Task → World → List TaskResult → World × Result RunError (List TaskResult) → Type 0
  LoopOutcome index tasks w results (w2, ok rs) =
      (new : List TaskResult) × (rs ≡ results ++ new) × Passes s index tasks w new w2
  LoopOutcome index tasks w results (w2, err e) = Failed s index tasks w w2 e

  LoopOutcome-cons :
      (index : ℕ) (task : Task) (tasks : List Task) (w w1 : World) (r : TaskResult)
      (results : List TaskResult)
      → run_one s index task w ≡ (w1, ok r)
      → (end : World × Result RunError (List TaskResult))
      → LoopOutcome (suc index) tasks w1 (results ++ r ∷ []) end
      → LoopOutcome index (task ∷ tasks) w results end
  LoopOutcome-cons index task tasks w w1 r results one (w2, ok rs) (new, e, p) =
      (r ∷ new, e ∙ append_assoc results (r ∷ []) new, pass one p)
  LoopOutcome-cons index task tasks w w1 r results one (w2, err e) f = record {
    done = task ∷ f.done;
    task = f.task;
    later = f.later;
    before = f.before;
    results = r ∷ f.results;
    split = ap (◌∷◌ task) f.split;
    passed = pass one f.passed;
    raised_here =
        subst (λ n. run_one s n f.task f.before ≡ (w2, err e)) (omega arith) f.raised_here;
  }

  -- The loop passes all tasks, or it passes some and raises at the next.
  pub run_tasks-LoopOutcome :
      (index : ℕ) (tasks : List Task) (w : World) (results : List TaskResult)
      → LoopOutcome index tasks w results (run_tasks s index tasks w results)
  unfolding run_tasks
  run_tasks-LoopOutcome index [] w results = ([], sym (append-nil results), nothing_left)
  run_tasks-LoopOutcome index (task ∷ tasks) w results =
      elim (Result-cases (run_one s index task w).1) [
        | inl (r, e) ↦
            let w1 = (run_one s index task w).0 in
            rw (run_tasks, e)
              (LoopOutcome-cons index task tasks w w1 r results (ap (λ x. (w1, x)) e)
                (run_tasks s (suc index) tasks w1 (results ++ r ∷ []))
                (run_tasks-LoopOutcome (suc index) tasks w1 (results ++ r ∷ [])))
        | inr (x, e) ↦
            let w1 = (run_one s index task w).0 in
            rw (run_tasks, e)
              (record {
                done = [];
                task = task;
                later = tasks;
                before = w;
                results = [];
                split = refl;
                passed = nothing_left;
                raised_here =
                    subst (λ n. run_one s n task w ≡ (w1, err x)) (omega arith)
                      (ap (λ y. (w1, y)) e);
              })
      ]
