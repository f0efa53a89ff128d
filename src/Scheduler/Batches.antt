-- ===== src/Scheduler/Batches.antt =====
-- `Scheduler.plan_batches`. The set of completed ids is a list; the loop runs on fuel, and since a
-- batch is never empty, as many rounds as there are tasks are enough.
pub mod Progress
pub mod Plan
pub mod Spec
use smart_build.Prelude.{
  ℕ, zero, suc, String, Bool, not, ◌&&◌, List, [], ◌∷◌, ◌++◌, all, filter, length, ltb,
  if◌then◌else◌,
}
use smart_build.Prelude.Texts.{◌==◌, elem}
use smart_build.Prelude.Errors.{Result, ok, err, ◌>>=◌}
use smart_build.Tasks.Task.{Task, TaskError, cannot_be_batched, out_of_fuel}
use smart_build.Tasks.Graph.{TaskGraph, ids, topological_order}

pub record TaskBatch : Type 0 where
  pub run_class : String
  pub tasks : List Task

-- neither completed nor waiting for what is not completed
abbrev pub ready_tasks : List Task → List String → List Task
ready_tasks order completed =
    filter (λ t. not (elem t.id completed) && all (λ d. elem d completed) t.deps) order

unfoldable pub next_batch : List Task → TaskBatch
unfolding elem
next_batch ready = elim (filter (λ t. t.run_class == "serial") ready) [
  | [] ↦ record {
    run_class = "parallel";
    tasks = filter (λ t. elem t.run_class ("fetch" ∷ "build" ∷ [])) ready;
  }
  | t ∷ _ ↦ record { run_class = "serial"; tasks = t ∷ [] }
]

-- the `while` loop
unfoldable pub batches_from : List Task → ℕ → List String → Result TaskError (List TaskBatch)
unfolding next_batch
batches_from order zero completed =
    if ltb (length completed) (length order) then err out_of_fuel else ok []
batches_from order (suc fuel) completed =
    let ready = ready_tasks order completed in
    let batch = next_batch ready in
    let rest = batches_from order fuel (completed ++ ids batch.tasks) in
    if ltb (length completed) (length order)
    then elim ready [ [] ↦ err cannot_be_batched | _ ∷ _ ↦ do batches ← rest; ok (batch ∷ batches) ]
    else ok []

unfoldable pub plan_batches : TaskGraph → Result TaskError (List TaskBatch)
unfolding batches_from
plan_batches g = do order ← topological_order g; batches_from order (length order) []
