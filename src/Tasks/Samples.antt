-- ===== src/Tasks/Samples.antt =====
-- Small task graphs, and what the program does on them.
use smart_build.Prelude.{
  ℕ, String, List, [], ◌∷◌, none, some, ◌≡◌, ◌≢◌, refl, false, arith, if◌then◌else◌,
}
use smart_build.Prelude.Texts.{◌==◌, update}
use smart_build.Prelude.Sort.{sort_by}
use smart_build.Prelude.Errors.{ok, err, ◌>>=◌}
use smart_build.Prelude.{◌⊎◌}
use smart_build.Tasks.Closure.{dependency_closure, plan_for}
use smart_build.Tasks.Closure.Needed.{
  IsClosure, dependency_closure-IsClosure, dependency_closure_total,
}
use smart_build.Tasks.Closure.Plan.{IsPlan, plan_for-IsPlan}
use smart_build.Tasks.Task.{
  Task, unknown_target_task, cycle_detected, missing_dependencies, duplicate_task_id,
}
use smart_build.Tasks.Graph.{TaskGraph, task_graph, topological_order}
use smart_build.Tasks.Graph.Build.{IsIndexed, task_graph-IsIndexed}
use smart_build.Tasks.Graph.Degrees.{dangling}
use smart_build.Tasks.Graph.Spec.{
  ids_of, order_spec, topological_order-order_spec, IsOrder, topological_order-IsOrder,
}
use smart_build.Tasks.Graph.Cycles.{
  IsBlocked, topological_order-cycle_detected, topological_order_total,
}

abbrev pub task : String → List String → String → Task
task id deps run_class = record {
  id = id;
  domain = "package";
  action = "build";
  inputs = [];
  outputs = [];
  deps = deps;
  workdir = "work";
  env = [];
  run_class = run_class;
  cache_policy = "inputs";
  log_path = "task.log";
  executor = none;
  command = [];
  cache_extra = [];
  placeholder = false;
}

abbrev pub image : Task
image = task "image:assemble" ("kernel:build" ∷ "toolchain:check" ∷ []) "serial"

abbrev pub kernel : Task
kernel = task "kernel:build" ("toolchain:check" ∷ []) "build"

abbrev pub toolchain : Task
toolchain = task "toolchain:check" ("config:load" ∷ []) "serial"

abbrev pub config : Task
config = task "config:load" [] "serial"

abbrev pub given : List Task
given = image ∷ kernel ∷ config ∷ toolchain ∷ []

abbrev given_graph : TaskGraph
given_graph = record {
  tasks = given;
  by_id =
      update
        (update
          (update (update (λ _. none) "image:assemble" (some image)) "kernel:build" (some kernel))
          "config:load" (some config))
        "toolchain:check" (some toolchain);
}

abbrev sorted : List Task
sorted = config ∷ toolchain ∷ kernel ∷ image ∷ []

task_graph-given : task_graph given ≡ ok given_graph
unfolding task_graph update
task_graph-given = refl

order-given : topological_order given_graph ≡ ok sorted
unfolding topological_order sort_by update
order-given = refl

abbrev loop : List Task
loop = config ∷ task "a" ("b" ∷ []) "build" ∷ task "b" ("a" ∷ "config:load" ∷ []) "build" ∷ []

abbrev loop_graph : TaskGraph
loop_graph = record {
  tasks = loop;
  by_id =
      update
        (update (update (λ _. none) "config:load" (some config)) "a"
          (some (task "a" ("b" ∷ []) "build")))
        "b" (some (task "b" ("a" ∷ "config:load" ∷ []) "build"));
}

task_graph-loop : task_graph loop ≡ ok loop_graph
unfolding task_graph update
task_graph-loop = refl

order-loop : topological_order loop_graph ≡ err (cycle_detected ("a" ∷ "b" ∷ []))
unfolding topological_order sort_by update
order-loop = refl

order_dangling :
    (do g ← task_graph (task "a" ("x" ∷ "y" ∷ []) "build" ∷ []); topological_order g)
    ≡ err (missing_dependencies (("a", "x") ∷ ("a", "y") ∷ []))
unfolding topological_order task_graph sort_by update
order_dangling = refl

duplicate : task_graph (config ∷ config ∷ []) ≡ err (duplicate_task_id "config:load")
unfolding task_graph update
duplicate = refl

abbrev level : String → ℕ
level i =
    if i == "image:assemble"
    then 3
    else if i == "kernel:build"
    then 2
    else if i == "toolchain:check"
    then 1
    else 0

task_graph-IsIndexed_example : IsIndexed given_graph × (given ≡ given)
task_graph-IsIndexed_example = task_graph-IsIndexed given task_graph-given

topological_order-order_spec_example :
    ids_of (topological_order given_graph) ≡ order_spec given_graph
topological_order-order_spec_example =
    topological_order-order_spec given_graph (task_graph-IsIndexed given task_graph-given).0

topological_order-IsOrder_example : IsOrder given_graph sorted
topological_order-IsOrder_example =
    topological_order-IsOrder given_graph sorted (task_graph-IsIndexed given task_graph-given).0
      order-given

topological_order-cycle_detected_example :
    (◌≢◌ {A = List String} ("a" ∷ "b" ∷ []) []) × IsBlocked loop_graph ("a" ∷ "b" ∷ [])
topological_order-cycle_detected_example =
    topological_order-cycle_detected loop_graph ("a" ∷ "b" ∷ [])
      (task_graph-IsIndexed loop task_graph-loop).0 order-loop

dangling-given : dangling given_graph given ≡ []
unfolding dangling update
dangling-given = refl

topological_order_total_example : (order : List Task) × (topological_order given_graph ≡ ok order)
topological_order_total_example =
    topological_order_total given_graph level (task_graph-IsIndexed given task_graph-given).0
      dangling-given (omega arith)

closure-given :
    dependency_closure given_graph ("kernel:build" ∷ [])
    ≡ ok ("kernel:build" ∷ "toolchain:check" ∷ "config:load" ∷ [])
unfolding dependency_closure update
closure-given = refl

plan-given : plan_for given_graph ("kernel:build" ∷ []) ≡ ok (config ∷ toolchain ∷ kernel ∷ [])
unfolding plan_for dependency_closure topological_order sort_by update
plan-given = refl

dependency_closure-IsClosure_example :
    IsClosure given_graph
      ("kernel:build" ∷ [])
      ("kernel:build" ∷ "toolchain:check" ∷ "config:load" ∷ [])
dependency_closure-IsClosure_example =
    dependency_closure-IsClosure given_graph ("kernel:build" ∷ [])
      ("kernel:build" ∷ "toolchain:check" ∷ "config:load" ∷ []) closure-given

dependency_closure_total_example :
    ((selected : List String) × (dependency_closure given_graph ("app:x" ∷ []) ≡ ok selected))
    ⊎ ((i : String) × (dependency_closure given_graph ("app:x" ∷ []) ≡ err (unknown_target_task i))
        × (given_graph.by_id i ≡ none))
dependency_closure_total_example =
    dependency_closure_total given_graph ("app:x" ∷ [])
      (task_graph-IsIndexed given task_graph-given).0

plan_for-IsPlan_example :
    IsPlan given_graph ("kernel:build" ∷ []) (config ∷ toolchain ∷ kernel ∷ [])
plan_for-IsPlan_example =
    plan_for-IsPlan given_graph ("kernel:build" ∷ []) (config ∷ toolchain ∷ kernel ∷ [])
      (task_graph-IsIndexed given task_graph-given).0 plan-given
