-- ===== src/Scheduler/Run/Effects.antt =====
-- What one task does to the disk and the stamps.
use smart_build.Prelude.{
  String, Bool, true, false, not, List, [], ◌∷◌, Option, none, some, filter, null, if◌then◌else◌,
  ◌≡◌, refl, ◌∙◌, ap, sym, ◌⊎◌, arith, inl, inr, List-cases, all, if_both,
}
use mathlib.Core.Path.{subst}
use smart_build.Prelude.Errors.{Result, ok, err}
use smart_build.Tasks.Task.{Task}
use smart_build.Prelude.Texts.{update}
use smart_build.Scheduler.Cache.{
  Disk, Stamp, Stamps, raises, exists, outputs_exist, stamp_path, write,
}
use smart_build.Scheduler.Cache.Hits.{write-raises}
use smart_build.Scheduler.Display.{console_message}
use smart_build.Scheduler.Run.{
  Setup, World, Raised, Output, written, said, Code, missing_outputs, is_failure, log_write,
  write_all, put_all, run_command, run_task, verify_outputs, attempt, task_done, run_executor,
  command_done, command_intro, command_log, stamp_done, status_done,
}

-- In a verbose run what an executor says is dropped; it never touches the disk or the stamps.
said-keeps :
    (b : Bool) (w : World) (text : String)
    → ((if b then w else record w { display = console_message w.display text }).disk ≡ w.disk)
      × ((if b then w else record w { display = console_message w.display text }).stamps ≡ w.stamps)
said-keeps true w text = (refl, refl)
said-keeps false w text = (refl, refl)

module _ (s : Setup) where
  pub write_all-keeps :
      (task : Task) (texts : List String) (w : World)
      → ((write_all s task texts w).disk ≡ w.disk) × ((write_all s task texts w).stamps ≡ w.stamps)
  unfolding write_all log_write
  write_all-keeps task [] w = (refl, refl)
  write_all-keeps task (text ∷ texts) w = write_all-keeps task texts (log_write s task text w)

  put_all-keeps :
      (task : Task) (outputs : List Output) (w : World)
      → ((put_all s task outputs w).disk ≡ w.disk) × ((put_all s task outputs w).stamps ≡ w.stamps)
  unfolding put_all log_write
  put_all-keeps task [] w = (refl, refl)
  put_all-keeps task (written text ∷ outputs) w =
      put_all-keeps task outputs (log_write s task text w)
  put_all-keeps task (said text ∷ outputs) w =
      let (d, t) =
        put_all-keeps task outputs
          (if s.verbose then w else record w { display = console_message w.display text }) in
      let (d', t') = said-keeps s.verbose w text in (d ∙ d', t ∙ t')

  command_done-stamps :
      (task : Task) (w : World) (r : Result String (String × Code))
      → (command_done s task w r).0.stamps ≡ w.stamps
  command_done-stamps task w (err text) = refl
  command_done-stamps task w (ok (stdout, code)) =
      let kept = (write_all-keeps task (command_log s stdout code) w).1 in
      if_both (λ (x : World × Result Raised (Option Code)). x.0.stamps ≡ w.stamps)
        (is_failure (some code)) (λ _. kept) (λ _. kept)

  run_command-stamps : (task : Task) (w : World) → (run_command s task w).0.stamps ≡ w.stamps
  unfolding run_command
  run_command-stamps task w =
      let w1 = write_all s task (command_intro s task) w in
      let completed = s.host.spawn task.command task.workdir task.env w1.disk in
      command_done-stamps task (record w1 { disk = completed.disk }) completed.returned
      ∙ (write_all-keeps task (command_intro s task) w).1

  run_executor-stamps :
      (task : Task) (w : World) (o : Option String) → (run_executor s task w o).0.stamps ≡ w.stamps
  run_executor-stamps task w none = refl
  run_executor-stamps task w (some name) = (put_all-keeps task _ _).1

  -- Running a task leaves the stamps alone.
  run_task-stamps : (task : Task) (w : World) → (run_task s task w).0.stamps ≡ w.stamps
  unfolding run_task
  run_task-stamps task w =
      if_both (λ (x : World × Result Raised (Option Code)). x.0.stamps ≡ w.stamps)
        (not (null task.command)) (λ _. run_command-stamps task w)
        (λ _. run_executor-stamps task w task.executor)

  -- The outputs exist and the stamp of the task is written, without an exception.
  abbrev pub Stamped : Task → Stamps → World → Type 0
  Stamped task before w =
      let fault = s.host.stamp_fault task w.disk in
      (w.stamps ≡ (write s.hashing fault w.disk before task).0)
      × (outputs_exist w.disk task.outputs ≡ true)
      × ((write s.hashing fault w.disk before task).1 ≡ none)

  -- The stamps are as they were, or the write of the task's own stamp raised and left one, or the
  -- stamp was written and the write of the status to the log raised.
  abbrev pub IsUnstamped : Task → Stamps → World → Type 0
  IsUnstamped task before w =
      (w.stamps ≡ before)
      ⊎ ((text : String) × (left : Stamp) × (s.host.stamp_fault task w.disk
            ≡ raises text (some left))
          × (w.stamps ≡ update before (stamp_path s.hashing task) (some left)))
      ⊎ ((text : String) × (s.host.status_fault task w.disk ≡ some text) × Stamped task before w)

  abbrev pub Outcome : {A : Type 0} → Task → Stamps → World × Result Raised A → Type 0
  Outcome task before (w, ok _) = Stamped task before w
  Outcome task before (w, err _) = IsUnstamped task before w

  none_missing :
      (disk : Disk) (paths : List String)
      → filter (λ o. not (exists disk o)) paths ≡ []
      → all (exists disk) paths ≡ true
  none_missing disk [] e = refl
  none_missing disk (p ∷ ps) e = ground (arith, none_missing disk ps)

  status_done-Outcome :
      (task : Task) (before : Stamps) (w : World) (fault : Option String)
      → s.host.status_fault task w.disk ≡ fault
      → Stamped task before w
      → Outcome task before (status_done s task w fault)
  unfolding log_write
  status_done-Outcome task before w none e stamped = stamped
  status_done-Outcome task before w (some text) e stamped = inr (inr (text, e, stamped))

  stamp_done-Outcome :
      (task : Task) (w : World) (done : Stamps × Option String)
      → write s.hashing (s.host.stamp_fault task w.disk) w.disk w.stamps task ≡ done
      → outputs_exist w.disk task.outputs ≡ true
      → Outcome task w.stamps (stamp_done s task w done)
  unfolding log_write
  stamp_done-Outcome task w (stamps, none) e there =
      status_done-Outcome task w.stamps (record w { stamps = stamps })
        (s.host.status_fault task w.disk) refl (sym (ap (λ x. x.0) e), there, ap (λ x. x.1) e)
  stamp_done-Outcome task w (stamps, some text) e there =
      elim (write-raises s.hashing (s.host.stamp_fault task w.disk) w.disk w.stamps task text
        (ap (λ x. x.1) e)) [
          | inl same ↦ inl (sym (ap (λ x. x.0) e) ∙ same)
          | inr (left, fault, new) ↦ inr (inl (text, left, fault, sym (ap (λ x. x.0) e) ∙ new))
        ]

  verify_outputs-Outcome :
      (task : Task) (w : World) → Outcome task w.stamps (verify_outputs s task w)
  unfolding verify_outputs outputs_exist
  verify_outputs-Outcome task w = elim (List-cases (missing_outputs w.disk task)) [
    | inl e ↦
        rw (verify_outputs, e)
          (stamp_done-Outcome task w
            (write s.hashing (s.host.stamp_fault task w.disk) w.disk w.stamps task) refl
            (none_missing w.disk task.outputs e))
    | inr (x, xs, e) ↦ rw (verify_outputs, e) (inl refl)
  ]

  task_done-Outcome :
      (task : Task) (before : Stamps) (done : World × Result Raised (Option Code))
      → done.0.stamps ≡ before
      → Outcome task before (task_done s task done)
  task_done-Outcome task before (w, err e) same = inl same
  task_done-Outcome task before (w, ok none) same =
      subst (λ t. Outcome task t (verify_outputs s task w)) same (verify_outputs-Outcome task w)
  task_done-Outcome task before (w, ok (some code)) same =
      if_both (Outcome task before) (is_failure (some code)) (λ _. inl same)
        (λ _.
          subst (λ t. Outcome task t (verify_outputs s task w)) same
            (verify_outputs-Outcome task w))

  pub attempt-Outcome : (task : Task) (w : World) → Outcome task w.stamps (attempt s task w)
  unfolding attempt
  attempt-Outcome task w =
      task_done-Outcome task w.stamps (run_task s task w) (run_task-stamps task w)
