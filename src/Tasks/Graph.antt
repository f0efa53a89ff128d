-- ===== src/Tasks/Graph.antt =====
-- `TaskGraph` of src/smart_build/tasks.py. A dict with task ids as keys is a function of the id;
-- where the source iterates over one, its keys are the ids of `tasks` in their order.
pub mod Build
pub mod Degrees
mod Ready
pub mod Greedy
mod Rounds
pub mod Order
pub mod Spec
pub mod Cycles
use smart_build.Prelude.{
  ℕ, zero, suc, ◌+◌, ◌-◌, String, Bool, true, false, not, ◌&&◌, List, [], ◌∷◌, ◌++◌, map, Option,
  none, some, beq, ltb, length, filter, all, null, if◌then◌else◌,
}
use smart_build.Prelude.Texts.{update}
use smart_build.Prelude.Sort.{sort_by}
use smart_build.Prelude.Errors.{Result, ok, err, ◌>>=◌}
use smart_build.Tasks.Task.{
  Task, TaskError, duplicate_task_id, missing_dependencies, cycle_detected, key_error, out_of_fuel,
}

abbrev pub ids : List Task → List String
ids tasks = map (λ t. t.id) tasks

pub record TaskGraph : Type 0 where
  pub tasks : List Task
  pub by_id : String → Option Task

-- the loop of `TaskGraph.__init__`
pub index_tasks : (String → Option Task) → List Task → Result TaskError (String → Option Task)
index_tasks by_id [] = ok by_id
index_tasks by_id (t ∷ ts) =
    let rest = index_tasks (update by_id t.id (some t)) ts in
    elim (by_id t.id) [ none ↦ rest | some _ ↦ err (duplicate_task_id t.id) ]

unfoldable pub task_graph : List Task → Result TaskError TaskGraph
unfolding index_tasks
task_graph tasks = do
  by_id ← index_tasks (λ _. none) tasks
  ok (record { tasks = tasks; by_id = by_id })

abbrev pub known : TaskGraph → String → Bool
known g dep = elim (g.by_id dep) [ none ↦ false | some _ ↦ true ]

-- `{task.id: index for index, task in enumerate(self.tasks)}`
pub order_index : (String → ℕ) → ℕ → List Task → String → ℕ
order_index found n [] = found
order_index found n (t ∷ ts) = order_index (update found t.id n) (suc n) ts

pub record Edges : Type 0 where
  pub missing : List (String × String)
  pub indegree : String → ℕ
  pub children : String → List String

abbrev pub no_edges : Edges
no_edges = record { missing = []; indegree = λ _. 0; children = λ _. [] }

-- the body of the inner loop that counts the edges
pub add_dep : TaskGraph → String → Edges → String → Edges
unfolding update
add_dep g task_id e dep =
    if known g dep
    then record e {
      indegree = update e.indegree task_id (e.indegree task_id + 1);
      children = update e.children dep (e.children dep ++ task_id ∷ []);
    }
    else record e { missing = e.missing ++ (task_id, dep) ∷ [] }

pub add_deps : TaskGraph → String → Edges → List String → Edges
add_deps g task_id e [] = e
add_deps g task_id e (dep ∷ deps) = add_deps g task_id (add_dep g task_id e dep) deps

pub add_tasks : TaskGraph → Edges → List Task → Edges
add_tasks g e [] = e
add_tasks g e (t ∷ ts) = add_tasks g (add_deps g t.id e t.deps) ts

pub record Release : Type 0 where
  pub degrees : String → ℕ
  pub ready : List String

-- the loop over the children of a placed task; a degree never falls below zero
pub release : Release → List String → Release
release s [] = s
release s (child ∷ rest) =
    let n = s.degrees child - 1 in
    release
      (record {
        degrees = update s.degrees child n;
        ready = if beq n 0 then s.ready ++ child ∷ [] else s.ready;
      })
      rest

-- The `while` loop on fuel. It returns the degrees too, which the caller reads.
pub place :
    (g : TaskGraph) (key : String → ℕ) (children : String → List String) (fuel : ℕ)
    (degrees : String → ℕ) (ready : List String) (result : List Task)
    → Result TaskError (List Task × (String → ℕ))
place g key children fuel degrees [] result = ok (result, degrees)
place g key children zero degrees (task_id ∷ rest) result = err out_of_fuel
place g key children (suc fuel) degrees (task_id ∷ rest) result = elim (g.by_id task_id) [
  | none ↦ err key_error
  | some t ↦
      let s =
        release (record { degrees = degrees; ready = rest }) (sort_by key (children task_id)) in
      place g key children fuel s.degrees (sort_by key s.ready) (result ++ t ∷ [])
]

-- A round of the loop places one task, so `len(tasks)` rounds are enough.
pub place_all : TaskGraph → Edges → Result TaskError (List Task × (String → ℕ))
unfolding place release order_index
place_all g e =
    place g (order_index (λ _. 0) 0 g.tasks) e.children (length g.tasks) e.indegree
      (filter (λ i. beq (e.indegree i) 0) (ids g.tasks)) []

unfoldable pub topological_order : TaskGraph → Result TaskError (List Task)
unfolding add_tasks add_deps add_dep place_all
topological_order g =
    let e = add_tasks g no_edges g.tasks in
    if not (null e.missing) then err (missing_dependencies e.missing) else do
      (result, degrees) ← place_all g e
      if not (beq (length result) (length g.tasks))
          then err (cycle_detected (filter (λ i. ltb 0 (degrees i)) (ids g.tasks)))
          else ok result

unfoldable pub has_only_placeholders : TaskGraph → Bool
has_only_placeholders g = not (null g.tasks) && all (λ t. t.placeholder) g.tasks
