-- ===== src/Scheduler/Run/Failing.antt =====
-- How a run ends.
use smart_build.Prelude.{
  ℕ, suc, ◌+◌, String, false, List, [], ◌∷◌, map, ◌≡◌, ◌≢◌, refl, ap, sym, ◌∙◌, arith, inl, inr,
  ◌⊎◌, All, length,
}
use mathlib.Core.Path.{subst}
use smart_build.Prelude.Errors.{Result, ok, err, Result-cases, err-injective}
use smart_build.Prelude.Texts.{update, eq_iff}
use smart_build.Tasks.Task.{Task, TaskError}
use smart_build.Tasks.Graph.{TaskGraph, ids, topological_order}
use smart_build.Scheduler.Cache.{Stamps, stamp_path}
use smart_build.Scheduler.Cache.Hits.{write-elsewhere}
use smart_build.Scheduler.Run.Effects.{IsUnstamped}
use smart_build.Scheduler.Display.{new_display, close, is_failed}
use smart_build.Scheduler.Run.{Setup, World, TaskResult, RunError, graph_error, run_tasks, run}
use smart_build.Scheduler.Run.Results.{
  IsDone, OneOutcome, run_one-Outcome, Passes, nothing_left, pass, Failed, LoopOutcome,
  run_tasks-LoopOutcome,
}

-- the world in which the loop starts, and the one in which the display is closed
abbrev pub opened : Setup → ℕ → World → World
opened s total w = record w {
  display = new_display w.display.stream total s.verbose s.updates s.color;
}

abbrev pub closed : World → World
closed w = record w { display = close w.display }

module _ (s : Setup) where
  abbrev stamp_names : List Task → List String
  stamp_names tasks = map (stamp_path s.hashing) tasks

  IsDone-elsewhere :
      (task : Task) (before : Stamps) (w : World) (r : TaskResult) (name : String)
      → IsDone s task before w r
      → stamp_path s.hashing task ≢ name
      → w.stamps name ≡ before name
  IsDone-elsewhere task before w r name (inl (_, same, _)) differ = ap (λ f. f name) same
  IsDone-elsewhere task before w r name (inr (_, (stamped, _, _))) differ =
      ap (λ f. f name) stamped
      ∙ write-elsewhere s.hashing (s.host.stamp_fault task w.disk) w.disk before task name differ

  IsDone-result :
      (task : Task) (before : Stamps) (w : World) (r : TaskResult)
      → IsDone s task before w r
      → (r.task_id ≡ task.id) × (is_failed r.status ≡ false)
  IsDone-result task before w r (inl (same, _, _)) = rw same (refl, refl)
  IsDone-result task before w r (inr (same, _)) = rw same (refl, refl)

  -- Every task has a result that is no failure, and only stamps of the tasks have changed.
  pub record IsPassed (tasks : List Task) (w : World) (rs : List TaskResult) (w2 : World)
      : Type 0 where
    pub named : map (λ r. r.task_id) rs ≡ ids tasks
    pub none_failed : All (λ r. is_failed r.status ≡ false) rs
    pub elsewhere :
        (name : String)
        → All (λ t. stamp_path s.hashing t ≢ name) tasks
        → w2.stamps name ≡ w.stamps name

  closed-IsPassed :
      (tasks : List Task) (w w1 : World) (rs : List TaskResult)
      → IsPassed tasks (opened s (length tasks) w) rs w1
      → IsPassed tasks w rs (closed w1)
  closed-IsPassed tasks w w1 rs p = record {
    named = p.named;
    none_failed = p.none_failed;
    elsewhere = p.elsewhere;
  }

  pub Passes-IsPassed :
      (index : ℕ) (tasks : List Task) (w w2 : World) (rs : List TaskResult)
      → Passes s index tasks w rs w2
      → IsPassed tasks w rs w2
  Passes-IsPassed index [] w w2 rs nothing_left = record {
    named = refl;
    none_failed = tt;
    elsewhere = λ n a. refl;
  }
  Passes-IsPassed index (task ∷ tasks) w w2 rs (pass {w1 = w1} {r = r} {rs = rs1} one rest) =
      let done = subst (OneOutcome s task w.stamps) one (run_one-Outcome s index task w) in
      let p = Passes-IsPassed (suc index) tasks w1 w2 rs1 rest in
      let (same, fine) = IsDone-result task w.stamps w1 r done in
      record {
        named = rw (same, p.named) refl;
        none_failed = (fine, p.none_failed);
        elsewhere =
            λ n (a, others). p.elsewhere n others ∙ IsDone-elsewhere task w.stamps w1 r n done a;
      }

  pub run-opened :
      (g : TaskGraph) (order : List Task) (w : World)
      → topological_order g ≡ ok order
      → run s g w ≡ (
        closed (run_tasks s 1 order (opened s (length order) w) []).0,
        (run_tasks s 1 order (opened s (length order) w) []).1,
      )
  unfolding run
  run-opened g order w ordered = rw (run, ordered) refl

  -- the end of the loop, with the display closed
  abbrev RunOutcome : List Task → World → World × Result RunError (List TaskResult) → Type 0
  RunOutcome order w (w2, ok rs) =
      (w1 : World) × Passes s 1 order (opened s (length order) w) rs w1 × (closed w1 ≡ w2)
  RunOutcome order w (w2, err e) =
      (w1 : World) × Failed s 1 order (opened s (length order) w) w1 e × (closed w1 ≡ w2)

  closed-Outcome :
      (order : List Task) (w : World) (end : World × Result RunError (List TaskResult))
      → LoopOutcome s 1 order (opened s (length order) w) [] end
      → RunOutcome order w (closed end.0, end.1)
  closed-Outcome order w (w1, ok rs) (new, e, passed) =
      (w1, subst (λ x. Passes s 1 order (opened s (length order) w) x w1) (sym e) passed, refl)
  closed-Outcome order w (w1, err e) f = (w1, f, refl)

  run-Outcome :
      (g : TaskGraph) (order : List Task) (w : World)
      → topological_order g ≡ ok order
      → RunOutcome order w (run s g w)
  run-Outcome g order w ordered =
      let w0 = opened s (length order) w in
      subst (RunOutcome order w) (sym (run-opened g order w ordered))
        (closed-Outcome order w (run_tasks s 1 order w0 []) (run_tasks-LoopOutcome s 1 order w0 []))

  pub run-Passes :
      (g : TaskGraph) (order : List Task) (w w2 : World) (results : List TaskResult)
      → topological_order g ≡ ok order
      → run s g w ≡ (w2, ok results)
      → (w1 : World) × Passes s 1 order (opened s (length order) w) results w1 × (closed w1 ≡ w2)
  run-Passes g order w w2 results ordered e =
      subst (RunOutcome order w) e (run-Outcome g order w ordered)

  IsUnstamped-elsewhere :
      (task : Task) (before : Stamps) (w : World) (name : String)
      → IsUnstamped s task before w
      → stamp_path s.hashing task ≢ name
      → w.stamps name ≡ before name
  unfolding update
  IsUnstamped-elsewhere task before w name (inl same) differ = ap (λ f. f name) same
  IsUnstamped-elsewhere task before w name (inr (inl (text, left, _, new))) differ =
      ap (λ f. f name) new ∙ ground (arith, eq_iff (stamp_path s.hashing task) name)
  IsUnstamped-elsewhere task before w name (inr (inr (text, _, (stamped, _, _)))) differ =
      ap (λ f. f name) stamped
      ∙ write-elsewhere s.hashing (s.host.stamp_fault task w.disk) w.disk before task name differ

  -- What a run that raised at a task did to the stamps.
  pub record IsStopped (order : List Task) (w : World) (e : RunError) (w1 : World)
      (f : Failed s 1 order (opened s (length order) w) w1 e) (w2 : World) : Type 0 where
    pub elsewhere :
        (name : String)
        → All (λ t. stamp_path s.hashing t ≢ name) f.done
        → stamp_path s.hashing f.task ≢ name
        → w2.stamps name ≡ w.stamps name
    pub own : IsUnstamped s f.task f.before.stamps w2

  Failed-IsStopped :
      (order : List Task) (w w1 : World) (e : RunError)
      → (f : Failed s 1 order (opened s (length order) w) w1 e)
      → IsStopped order w e w1 f (closed w1)
  Failed-IsStopped order w w1 e f =
      let own =
        subst (OneOutcome s f.task f.before.stamps) f.raised_here
          (run_one-Outcome s (1 + length f.done) f.task f.before) in
      record {
        elsewhere = λ name apart differ.
            IsUnstamped-elsewhere f.task f.before.stamps w1 name own differ
            ∙ (Passes-IsPassed 1 f.done (opened s (length order) w) f.before f.results
                  f.passed).elsewhere
                name apart;
        own = own;
      }

  run-unordered :
      (g : TaskGraph) (w : World) (e : TaskError)
      → topological_order g ≡ err e
      → run s g w ≡ (w, err (graph_error e))
  unfolding run
  run-unordered g w e raised = rw (run, raised) refl

-- A run that returns has one result for each task, in the topological order, none of them a failure,
-- and has changed no stamp but those of the tasks.
pub run-IsPassed :
    (s : Setup) (g : TaskGraph) (w w2 : World) (results : List TaskResult)
    → run s g w ≡ (w2, ok results)
    → (order : List Task) × (topological_order g ≡ ok order) × IsPassed s order w results w2
run-IsPassed s g w w2 results e = elim (Result-cases (topological_order g)) [
  | inl (order, ordered) ↦
      let (w1, passed, same) = run-Passes s g order w w2 results ordered e in
      (
        order,
        ordered,
        subst (IsPassed s order w results) same (
            closed-IsPassed s order w w1 results
              (Passes-IsPassed s 1 order (opened s (length order) w) w1 results passed)),
      )
  | inr (x, raised) ↦ absurd (cc (sym e ∙ run-unordered s g w x raised))
]

-- A run that raises did so before the first task, because the graph has no order, or at the first
-- task of the order that raised: the tasks before it were passed, and no later one was started. No
-- stamp has changed but those of the tasks that were passed and that of the task: its own has changed
-- only where the write of the stamp raised and left one, or the stamp was written and the write of
-- the status to the log then raised. It is taken that no other write to an open log raises.
pub run-Failed :
    (s : Setup) (g : TaskGraph) (w w2 : World) (e : RunError)
    → run s g w ≡ (w2, err e)
    → ((x : TaskError) × (topological_order g ≡ err x) × (e ≡ graph_error x) × (w2 ≡ w))
      ⊎ ((order : List Task) × (w1 : World) × (topological_order g ≡ ok order)
          × (f : Failed s 1 order (opened s (length order) w) w1 e) × (closed w1 ≡ w2)
          × IsStopped s order w e w1 f w2)
run-Failed s g w w2 e h = elim (Result-cases (topological_order g)) [
  | inl (order, ordered) ↦
      let (w1, f, same) = subst (RunOutcome s order w) h (run-Outcome s g order w ordered) in
      inr (
        order,
        w1,
        ordered,
        f,
        same,
        subst (IsStopped s order w e w1 f) same (Failed-IsStopped s order w w1 e f),
      )
  | inr (x, raised) ↦
      let both = sym h ∙ run-unordered s g w x raised in
      inl (x, raised, err-injective (ap (λ v. v.1) both), ap (λ v. v.0) both)
]
