-- ===== src/Tasks/Closure.antt =====
-- `_dependency_closure` of src/smart_build/tasks.py, and the last lines of `tasks_for_target`, which
-- keep the tasks that a target needs.
pub mod Needed
pub mod Known
pub mod Plan
use smart_build.Prelude.{ℕ, suc, String, Bool, List, [], map, Option, none, some, filter, length}
use smart_build.Prelude.Texts.{elem}
use smart_build.Prelude.Errors.{Result, ok, err, ◌>>=◌}
use smart_build.Prelude.Walk.{Walker, walk}
use smart_build.Tasks.Task.{Task, TaskError, unknown_target_task, out_of_fuel}
use smart_build.Tasks.Graph.{TaskGraph, topological_order}

-- the nested function `visit`: an unknown id raises, a known one is met and its `deps` are visited
unfoldable pub closure_walker : TaskGraph → Walker TaskError (Unit {0}) String
closure_walker g = record {
  target = λ task_id. elim (g.by_id task_id) [ none ↦ none | some _ ↦ some task_id ];
  note = λ _ task_id. elim (g.by_id task_id) [
    | none ↦ err (unknown_target_task task_id)
    | some _ ↦ ok tt
  ];
  children = λ task_id. elim (g.by_id task_id) [ none ↦ [] | some t ↦ t.deps ];
  stop = out_of_fuel;
}

abbrev pub rounds : TaskGraph → ℕ
rounds g = suc (length g.tasks)

unfoldable pub dependency_closure : TaskGraph → List String → Result TaskError (List String)
unfolding closure_walker walk
dependency_closure g target_ids = do w ← walk (closure_walker g) (rounds g) tt target_ids; ok w.met

unfoldable pub plan_for : TaskGraph → List String → Result TaskError (List Task)
unfolding elem
plan_for g target_ids = do
  selected_ids ← dependency_closure g target_ids
  order ← topological_order g
  ok (filter (λ t. elem t.id selected_ids) order)
