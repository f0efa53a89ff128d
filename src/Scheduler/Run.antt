-- ===== src/Scheduler/Run.antt =====
-- `Scheduler.run` of src/smart_build/scheduler.py and its helpers, as functions that return the world
-- they leave, also where they raise. What the operating system and the executors do is given by
-- `Host`; a log file is the list of what was written to it, and stands beside the disk. Writing to an
-- open log and to the console does not raise here.
pub mod Effects
pub mod Results
pub mod Failing
pub mod Rerun
use smart_build.Prelude.{
  ℕ, zero, suc, ◌+◌, String, Bool, true, false, not, List, [], ◌∷◌, ◌++◌, map, Option, none, some,
  filter, null, length, beq, if◌then◌else◌, ◌&&◌,
}
use Prim.Native.String.{◌++◌ as ◌⧺◌}
use smart_build.Prelude.Texts.{◌==◌}
use smart_build.Prelude.Numerals.{show, join}
use smart_build.Prelude.Errors.{Result, ok, err}
use smart_build.Tasks.Task.{Task, TaskError}
use smart_build.Tasks.Graph.{TaskGraph, topological_order}
use smart_build.Scheduler.Cache.{Disk, Stamps, StampFault, Hashing, exists, is_hit, write}
use smart_build.Scheduler.Display.{
  Display, Status, success, skipped, failed, new_display, task_started, task_finished,
  console_message, close, line_end,
}

-- the status of a process: its exit code, or the signal that ended it
pub data Code : Type 0 where
  exit signal : ℕ → Code

abbrev pub code_text : Code → String
code_text (exit n) = show n
code_text (signal n) = "-" ⧺ show n

-- `SmartBuildError` or another exception, with its text
pub data Raised : Type 0 where
  smart : (code text : String) → Raised
  exception : (text : String) → Raised

-- what an executor writes to its log, or says on the console if the log has `console_message`
pub data Output : Type 0 where
  written said : String → Output

pub record Spawned : Type 0 where
  pub disk : Disk
  pub returned : Result String (String × Code)

pub record Executed : Type 0 where
  pub disk : Disk
  pub outputs : List Output
  pub returned : Result Raised (Option Code)

-- `Path.parent`; `mkdir(parents=True, exist_ok=True)` and `open("w")`, which may raise;
-- `subprocess.run`; the executors; how a path is shown; what becomes of writing a stamp; and whether
-- writing the status to the log raises
pub record Host : Type 0 where
  pub parent : String → String
  pub mkdir : String → Disk → Disk × Option String
  pub open_log : String → Disk → Disk × Option String
  pub spawn :
      (command : List String) (workdir : String) (env : List (String × String)) → Disk → Spawned
  pub execute : (mirrors_console : Bool) → Task → Disk → Executed
  pub display_path : String → String
  pub stamp_fault : Task → Disk → StampFault
  pub status_fault : Task → Disk → Option String

pub record Setup : Type 0 where
  pub host : Host
  pub hashing : Hashing
  pub verbose : Bool
  pub updates : Bool
  pub color : Bool

pub record World : Type 0 where
  pub disk : Disk
  pub stamps : Stamps
  pub logs : List (String × String)
  pub display : Display

pub record TaskResult : Type 0 where
  pub task_id : String
  pub status : Status
  pub log_path : String

pub data RunError : Type 0 where
  graph_error : TaskError → RunError
  raised : (code text : String) → RunError
  os_error : (text : String) → RunError

abbrev pub format_command : List String → String
format_command command = if not (null command) then join " " command else "<executor>"

abbrev pub build_error : Task → Code → Raised
build_error task code = smart "BUILD" (
    "task "
    ⧺ task.id
    ⧺ " command failed: command="
    ⧺ format_command task.command
    ⧺ " workdir="
    ⧺ task.workdir
    ⧺ " exit code "
    ⧺ code_text code
    ⧺ " log="
    ⧺ task.log_path)

abbrev pub missing_outputs : Disk → Task → List String
missing_outputs disk task = filter (λ output. not (exists disk output)) task.outputs

abbrev pub dash_if_empty : String → String
dash_if_empty text = if text == "" then "-" else text

-- `status not in (None, 0)`
abbrev pub is_failure : Option Code → Bool
is_failure none = false
is_failure (some (exit n)) = not (beq n 0)
is_failure (some (signal n)) = not (beq n 0)

module _ (s : Setup) where
  -- `_TaskLog.write`, and `_ConsoleTee.write` in a verbose run
  unfoldable pub log_write : Task → String → World → World
  log_write task text w = record w {
    logs = w.logs ++ (task.log_path, text) ∷ [];
    display =
        if s.verbose then record w.display { stream = w.display.stream ⧺ text } else w.display;
  }

  unfoldable pub write_all : Task → List String → World → World
  unfolding log_write
  write_all task [] w = w
  write_all task (text ∷ texts) w = write_all task texts (log_write task text w)

  -- A tee has no `console_message`, which an executor asks for first.
  unfoldable pub put_all : Task → List Output → World → World
  unfolding log_write
  put_all task [] w = w
  put_all task (written text ∷ outputs) w = put_all task outputs (log_write task text w)
  put_all task (said text ∷ outputs) w =
      put_all task outputs
        (if s.verbose then w else record w { display = console_message w.display text })

  abbrev pub details : Task → List String
  details task =
      let show_paths =
        λ (paths : List String). dash_if_empty (join ", " (map s.host.display_path paths)) in
      ("domain: " ⧺ task.domain ⧺ "\n")
      ∷ ("action: " ⧺ task.action ⧺ "\n")
      ∷ ("workdir: " ⧺ s.host.display_path task.workdir ⧺ "\n")
      ∷ ("deps: " ⧺ dash_if_empty (join ", " task.deps) ⧺ "\n")
      ∷ ("inputs: " ⧺ show_paths task.inputs ⧺ "\n")
      ∷ ("outputs: " ⧺ show_paths task.outputs ⧺ "\n")
      ∷ ("cache_policy: " ⧺ task.cache_policy ⧺ "\n")
      ∷ []

  abbrev pub command_log : String → Code → List String
  command_log stdout code =
      (if stdout == ""
        then []
        else stdout ∷ (if line_end stdout == "" then [] else line_end stdout ∷ []))
      ++ ("summary: command exit=" ⧺ code_text code ⧺ "\n") ∷ []

  abbrev pub command_done :
      Task → World → Result String (String × Code) → World × Result Raised (Option Code)
  command_done task w (err text) = (w, err (exception text))
  command_done task w (ok (stdout, code)) =
      let w1 = write_all task (command_log stdout code) w in
      if is_failure (some code) then (w1, err (build_error task code)) else (w1, ok (some (exit 0)))

  abbrev pub command_intro : Task → List String
  command_intro task =
      ("command: " ⧺ format_command task.command ⧺ "\n")
      ∷ ("workdir: " ⧺ task.workdir ⧺ "\n")
      ∷ "summary: command started\n"
      ∷ []

  unfoldable pub run_command : Task → World → World × Result Raised (Option Code)
  unfolding write_all
  run_command task w =
      let w1 = write_all task (command_intro task) w in
      let completed = s.host.spawn task.command task.workdir task.env w1.disk in
      command_done task (record w1 { disk = completed.disk }) completed.returned

  abbrev pub run_executor : Task → World → Option String → World × Result Raised (Option Code)
  run_executor task w none = (w, err (smart "BUILD" ("task " ⧺ task.id ⧺ " has no executor")))
  run_executor task w (some _) =
      let done = s.host.execute s.verbose task w.disk in
      (put_all task done.outputs (record w { disk = done.disk }), done.returned)

  unfoldable pub run_task : Task → World → World × Result Raised (Option Code)
  unfolding run_command put_all
  run_task task w =
      if not (null task.command) then run_command task w else run_executor task w task.executor

  -- what follows `self.cache.write(task)`
  abbrev pub status_done : Task → World → Option String → World × Result Raised (Unit {0})
  status_done task w none = (log_write task "status: success\n" w, ok tt)
  status_done task w (some text) = (w, err (exception text))

  abbrev pub stamp_done : Task → World → Stamps × Option String → World × Result Raised (Unit {0})
  stamp_done task w (stamps, none) =
      status_done task (record w { stamps = stamps }) (s.host.status_fault task w.disk)
  stamp_done task w (stamps, some text) = (record w { stamps = stamps }, err (exception text))

  -- `_verify_outputs`, then the stamp is written
  unfoldable pub verify_outputs : Task → World → World × Result Raised (Unit {0})
  unfolding log_write
  verify_outputs task w = elim (missing_outputs w.disk task) [
    | [] ↦ stamp_done task w (write s.hashing (s.host.stamp_fault task w.disk) w.disk w.stamps task)
    | missing ∷ rest ↦ (
      w,
      err (
          smart "BUILD" (
            "task " ⧺ task.id ⧺ " did not create expected outputs: " ⧺ join ", " (missing ∷ rest))),
    )
  ]

  abbrev pub task_done :
      Task → World × Result Raised (Option Code) → World × Result Raised (Unit {0})
  task_done task (w, err e) = (w, err e)
  task_done task (w, ok none) = verify_outputs task w
  task_done task (w, ok (some code)) =
      if is_failure (some code) then (w, err (build_error task code)) else verify_outputs task w

  -- the body of the inner `try`
  unfoldable pub attempt : Task → World → World × Result Raised (Unit {0})
  unfolding run_task verify_outputs
  attempt task w = task_done task (run_task task w)

  abbrev pub finish : ℕ → Task → Status → World → World
  finish index task status w = record w {
    display = task_finished w.display index task.id (s.host.display_path task.log_path) status;
  }

  abbrev pub result_of : Task → Status → TaskResult
  result_of task status = record { task_id = task.id; status = status; log_path = task.log_path }

  -- the handlers of the inner `try`
  unfoldable pub settle :
      ℕ → Task → World × Result Raised (Unit {0}) → World × Result RunError TaskResult
  unfolding log_write
  settle index task (w, ok _) = (finish index task success w, ok (result_of task success))
  settle index task (w, err (smart code text)) = (
    finish index task failed (log_write task (code ⧺ ": " ⧺ text ⧺ "\n") w),
    err (raised code text),
  )
  settle index task (w, err (exception text)) =
      let message = "task " ⧺ task.id ⧺ " failed: " ⧺ text in
      (
        finish index task failed (log_write task ("BUILD: " ⧺ message ⧺ "\n") w),
        err (raised "BUILD" message),
      )

  unfoldable pub make_dirs : List String → Disk → Disk × Option String
  make_dirs [] disk = (disk, none)
  make_dirs (path ∷ paths) disk =
      let (disk1, error) = s.host.mkdir path disk in
      let rest = make_dirs paths disk1 in
      elim error [ none ↦ rest | some text ↦ (disk1, some text) ]

  -- the directories of a task, and its log
  unfoldable pub prepare : Task → Disk → Disk × Option String
  unfolding make_dirs
  prepare task disk =
      let (disk1, error) =
        make_dirs (s.host.parent task.log_path ∷ task.workdir ∷ map s.host.parent task.outputs)
          disk in
      elim error [ none ↦ s.host.open_log task.log_path disk1 | some text ↦ (disk1, some text) ]

  abbrev pub header : Task → List String
  header task =
      ("== task " ⧺ task.id ⧺ " ==\n")
      ∷ ("run_class: " ⧺ task.run_class ⧺ "\n")
      ∷ (if s.verbose then details task else [])

  abbrev pub run_prepared : ℕ → Task → World → Option String → World × Result RunError TaskResult
  run_prepared index task w (some text) = (w, err (os_error text))
  run_prepared index task w none =
      let w1 = write_all task (header task) w in
      if is_hit s.hashing w1.disk w1.stamps task
      then (
        finish index task skipped (log_write task "cache hit\n" w1),
        ok (result_of task skipped),
      )
      else settle index task (attempt task w1)

  -- the body of the `for` loop
  unfoldable pub run_one : ℕ → Task → World → World × Result RunError TaskResult
  unfolding prepare write_all attempt settle
  run_one index task w =
      let (disk, error) = prepare task w.disk in
      run_prepared index task
        (record w { disk = disk; display = task_started w.display index task.id }) error

  unfoldable pub run_tasks :
      ℕ → List Task → World → List TaskResult → World × Result RunError (List TaskResult)
  unfolding run_one
  run_tasks index [] w results = (w, ok results)
  run_tasks index (task ∷ tasks) w results =
      let (w1, returned) = run_one index task w in
      elim returned [
        | err e ↦ (w1, err e)
        | ok result ↦ run_tasks (suc index) tasks w1 (results ++ result ∷ [])
      ]

  -- The display is closed also where the loop raises.
  unfoldable pub run : TaskGraph → World → World × Result RunError (List TaskResult)
  unfolding run_tasks
  run g w = elim (topological_order g) [
    | err e ↦ (w, err (graph_error e))
    | ok tasks ↦
        let display = new_display w.display.stream (length tasks) s.verbose s.updates s.color in
        let (w1, returned) = run_tasks 1 tasks (record w { display = display }) [] in
        (record w1 { display = close w1.display }, returned)
  ]
