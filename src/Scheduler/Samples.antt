-- ===== src/Scheduler/Samples.antt =====
-- A small build on a host whose commands are plain functions.
use smart_build.Prelude.{ℕ, String, List, [], ◌∷◌, none, some, ◌≡◌, refl, true, false, All, ◌&&◌}
use smart_build.Prelude.Texts.{◌==◌, update, elem}
use smart_build.Prelude.Sort.{sort_by}
use smart_build.Prelude.Numerals.{show, join, repeat}
use smart_build.Prelude.Errors.{ok, err}
use smart_build.Tasks.Task.{Task}
use smart_build.Tasks.Graph.{TaskGraph, task_graph, topological_order}
use smart_build.Scheduler.Cache.{
  Disk, Node, file, no_fault, Hashing, task_payload, is_hit, write, signature, outputs_exist,
  stamp_path, exists,
}
use smart_build.Scheduler.Cache.Hits.{is_hit-write, is_hit-kept}
use smart_build.Scheduler.Display.{line_end, new_display, success, skipped}
use smart_build.Tasks.Task.{TaskError}
use smart_build.Prelude.{filter}
use smart_build.Tasks.Graph.{ids}
use smart_build.Tasks.Graph.Build.{task_graph-IsIndexed}
use smart_build.Prelude.{◌⊎◌, length}
use smart_build.Prelude.Texts.{count}
use smart_build.Scheduler.Batches.{TaskBatch, plan_batches}
use smart_build.Scheduler.Batches.Plan.{AreBatches, batch_ids}
use smart_build.Scheduler.Batches.Spec.{plan_batches_total}
use smart_build.Scheduler.Run.{
  Host, Setup, World, exit, written, RunError, raised, TaskResult, run_one, log_write, prepare,
  graph_error, run, result_of,
}
use smart_build.Scheduler.Run.Results.{Failed}
use smart_build.Scheduler.Run.Failing.{
  opened, closed, run-IsPassed, IsPassed, run-Failed, IsStopped,
}
use smart_build.Scheduler.Run.Rerun.{AreApart, is_cacheable, run-current, run-skips, is_current}

abbrev load : Task
load = record {
  id = "config:load";
  domain = "config";
  action = "load";
  inputs = "defconfig" ∷ [];
  outputs = "config.json" ∷ [];
  deps = [];
  workdir = "work";
  env = [];
  run_class = "serial";
  cache_policy = "inputs";
  log_path = "load.log";
  executor = some "load";
  command = [];
  cache_extra = [];
  placeholder = false;
}

abbrev build : Task
build = record load {
  id = "kernel:build";
  inputs = "config.json" ∷ [];
  outputs = "rtthread.bin" ∷ [];
  deps = "config:load" ∷ [];
  cache_policy = "never";
  executor = none;
  command = "scons" ∷ [];
}

abbrev graph : TaskGraph
graph = record {
  tasks = build ∷ load ∷ [];
  by_id = update (update (λ _. none) "kernel:build" (some build)) "config:load" (some load);
}

abbrev created : Node
created = file "644" "text"

abbrev hashing : Hashing
hashing = record {
  sha256_text = λ text. text;
  sha256_json = λ p. elim p [ task_payload id _ _ _ _ _ _ _ ↦ id | _ ↦ "digest" ];
  is_alnum = λ _. true;
}

abbrev host : (code : ℕ) → Host
host code = record {
  parent = λ path. "parent";
  mkdir = λ path disk. (disk, none);
  open_log = λ path disk. (disk, none);
  spawn = λ command workdir env disk. record {
    disk = update disk "rtthread.bin" (some created);
    returned = ok ("done", exit code);
  };
  execute = λ mirrors task disk. record {
    disk = update disk "config.json" (some created);
    outputs = written "loading\n" ∷ [];
    returned = ok none;
  };
  display_path = λ path. path;
  stamp_fault = λ task disk. no_fault;
  status_fault = λ task disk. none;
}

abbrev setup : (code : ℕ) → Setup
setup code = record {
  host = host code;
  hashing = hashing;
  verbose = false;
  updates = true;
  color = false;
}

abbrev start : World
start = record {
  disk = update (λ _. none) "defconfig" (some created);
  stamps = λ _. none;
  logs = [];
  display = new_display "" 0 false true false;
}

abbrev order : List Task
order = load ∷ build ∷ []

ordered : topological_order graph ≡ ok order
unfolding topological_order sort_by update
ordered = refl

abbrev both : List TaskResult
both = result_of (setup 0) load success ∷ result_of (setup 0) build success ∷ []

abbrev failure : RunError
failure =
    raised "BUILD"
      "task kernel:build command failed: command=scons workdir=work exit code 1 log=load.log"

returned : run (setup 0) graph start ≡ ((run (setup 0) graph start).0, ok both)
unfolding run topological_order sort_by update is_hit write outputs_exist exists stamp_path line_end
returned = refl

raised_1 : run (setup 1) graph start ≡ ((run (setup 1) graph start).0, err failure)
unfolding run topological_order sort_by update is_hit write outputs_exist exists stamp_path line_end
    show join repeat
raised_1 = refl

run-IsPassed_example :
    (o : List Task) × (topological_order graph ≡ ok o)
    × IsPassed (setup 0) o start both (run (setup 0) graph start).0
run-IsPassed_example =
    run-IsPassed (setup 0) graph start (run (setup 0) graph start).0 both returned

abbrev now : Disk
now = update start.disk "config.json" (some created)

is_hit-write_example : is_hit hashing now (write hashing no_fault now start.stamps load).0 load ≡ (
    load.cache_policy == "inputs"
    && (signature hashing now load == signature hashing now load && outputs_exist now load.outputs))
unfolding write
is_hit-write_example = is_hit-write hashing no_fault now now start.stamps load refl

is_hit-kept_example :
    is_hit hashing now (write hashing no_fault start.disk start.stamps load).0 load ≡ true
unfolding update outputs_exist exists write
is_hit-kept_example =
    is_hit-kept hashing no_fault start.disk now start.stamps load refl refl (refl, tt) refl

apart : AreApart (setup 0) order
unfolding run_one log_write is_hit update exists stamp_path line_end write
apart = (((λ e. cc, λ index w. (refl, tt), λ index w. (refl, tt)), tt), (tt, tt))

run-current_example :
    All
      (λ t. is_current (setup 0) (run (setup 0) graph start).0 t ≡ true)
      (filter is_cacheable order)
run-current_example =
    run-current (setup 0) graph order start (run (setup 0) graph start).0 both ordered apart
      returned

abbrev load_graph : TaskGraph
load_graph = record { tasks = load ∷ []; by_id = update (λ _. none) "config:load" (some load) }

ordered_load : topological_order load_graph ≡ ok (load ∷ [])
unfolding topological_order sort_by update
ordered_load = refl

abbrev built : World
built = record start {
  disk = now;
  stamps = (write hashing no_fault start.disk start.stamps load).0;
}

run-skips_example :
    (w2 : World) × (run (setup 0) load_graph built
      ≡ (w2, ok (result_of (setup 0) load skipped ∷ [])))
    × (w2.disk ≡ now)
    × (w2.stamps ≡ built.stamps)
unfolding prepare
run-skips_example =
    run-skips (setup 0) load_graph (load ∷ []) built ordered_load (refl, tt)
      (is_hit-kept_example, tt)

task_graph-order : task_graph (build ∷ load ∷ []) ≡ ok graph
unfolding task_graph update
task_graph-order = refl

plan_batches_total_example :
    (bs : List TaskBatch) × (plan_batches graph ≡ ok bs)
    × AreBatches [] bs
    × ((j : String) → count j (batch_ids bs) ≡ count j (ids graph.tasks))
unfolding elem
plan_batches_total_example =
    plan_batches_total graph order (task_graph-IsIndexed (build ∷ load ∷ []) task_graph-order).0
      (refl, (refl, tt)) ordered

run-Failed_example :
    ((x : TaskError) × (topological_order graph ≡ err x)
      × (failure ≡ graph_error x)
      × ((run (setup 1) graph start).0 ≡ start))
    ⊎ ((o : List Task) × (w1 : World) × (topological_order graph ≡ ok o)
        × (f : Failed (setup 1) 1 o (opened (setup 1) (length o) start) w1 failure) × (closed w1
            ≡ (run (setup 1) graph start).0)
        × IsStopped (setup 1) o start failure w1 f (run (setup 1) graph start).0)
run-Failed_example = run-Failed (setup 1) graph start (run (setup 1) graph start).0 failure raised_1
