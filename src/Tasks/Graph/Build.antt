-- ===== src/Tasks/Graph/Build.antt =====
-- `TaskGraph.__init__`: which lists of tasks it accepts, and what the index then holds.
use smart_build.Prelude.{
  true, Bool-cases, ◌≤◌, String, false, List, [], ◌∷◌, Option, Option-cases, none, some, inl, inr,
  ◌≡◌, ◌∙◌, refl, arith, All,
}
use smart_build.Prelude.Texts.{◌==◌, eq_iff, eq_refl, elem, count, update, elem-count, Distinct}
use smart_build.Prelude.Errors.{ok, err, >>=-eq-ok}
use mathlib.Core.Path.{subst}
use smart_build.Tasks.Task.{Task, duplicate_task_id}
use smart_build.Tasks.Graph.{TaskGraph, ids, index_tasks, task_graph}

-- The ids are distinct and the index is theirs.
pub record IsIndexed (g : TaskGraph) : Type 0 where
  pub distinct : Distinct (ids g.tasks)
  pub found : All (λ t. g.by_id t.id ≡ some t) g.tasks
  pub only : (i : String) → elem i (ids g.tasks) ≡ false → g.by_id i ≡ none

-- What `index_tasks` adds to an index that holds none of the ids.
record Indexed (before after : String → Option Task) (ts : List Task) : Type 0 where
  fresh : (i : String) → count i (ids ts) ≤ 1
  kept : (i : String) → elem i (ids ts) ≡ false → after i ≡ before i
  absent : All (λ t. before t.id ≡ none) ts
  found : All (λ t. after t.id ≡ some t) ts

fresh_cons :
    (i t : String) (ts : List String) → count i ts ≤ 1 → elem t ts ≡ false → count i (t ∷ ts) ≤ 1
unfolding count
fresh_cons i t ts h apart = ground (arith, eq_iff t i, elem-count t ts, elem-count i ts)

update_same : (before : String → Option Task) (t : Task) → update before t.id (some t) t.id ≡ some t
unfolding update
update_same before t = rw eq_refl

kept_cons :
    (before after : String → Option Task) (t : Task) (ts : List Task) (i : String)
    → (elem i (ids ts) ≡ false → after i ≡ update before t.id (some t) i)
    → elem i (ids (t ∷ ts)) ≡ false
    → after i ≡ before i
unfolding elem update
kept_cons before after t ts i ih out = ground arith

absent-split :
    (before : String → Option Task) (t : Task) (ts : List Task)
    → All (λ u. update before t.id (some t) u.id ≡ none) ts
    → (elem t.id (ids ts) ≡ false) × All (λ u. before u.id ≡ none) ts
unfolding elem update
absent-split before t [] h = (refl, tt)
absent-split before t (u ∷ ts) h =
    ground (arith, eq_iff t.id u.id, eq_iff u.id t.id, absent-split before t ts h.1)

index_tasks-Indexed :
    (before after : String → Option Task) (ts : List Task)
    → index_tasks before ts ≡ ok after
    → Indexed before after ts
unfolding index_tasks
index_tasks-Indexed before after [] h = record {
  fresh = λ i. unfold count in omega arith;
  kept = λ i _. ground arith;
  absent = tt;
  found = tt;
}
index_tasks-Indexed before after (t ∷ ts) h = elim (Option-cases (before t.id)) [
  | inl new ↦
      let ih =
        index_tasks-Indexed (update before t.id (some t)) after ts (rw (new, index_tasks) at h) in
      let (apart, old) = absent-split before t ts ih.absent in
      record {
        fresh = λ i. fresh_cons i t.id (ids ts) (ih.fresh i) apart;
        kept = λ i out. kept_cons before after t ts i (ih.kept i) out;
        absent = (new, old);
        found = (ih.kept t.id apart ∙ update_same before t, ih.found);
      }
  | inr (u, seen) ↦ absurd (clash (rw (seen, index_tasks) at h))
]
  where
    clash : err (duplicate_task_id t.id) ≡ ok after → ⊥
    clash e = cc

-- A list that `TaskGraph` accepts has distinct ids, and `by_id` finds each of its tasks and nothing
-- else.
pub task_graph-IsIndexed :
    (tasks : List Task) {g : TaskGraph} → task_graph tasks ≡ ok g → IsIndexed g × (g.tasks ≡ tasks)
unfolding task_graph
task_graph-IsIndexed tasks {g} h =
    let (by_id, built, made) =
      >>=-eq-ok (index_tasks (λ _. none) tasks)
        (λ by_id. ok (record { tasks = tasks; by_id = by_id })) h in
    let r = index_tasks-Indexed (λ _. none) by_id tasks built in
    let same : record { tasks = tasks; by_id = by_id } ≡ g = cc in
    subst (λ k. IsIndexed k × (k.tasks ≡ tasks)) same
      (record { distinct = r.fresh; found = r.found; only = r.kept }, refl)

-- An id of the graph is looked up.
pub lookup-head :
    (g : TaskGraph) (x : String) (ts : List Task)
    → All (λ t. g.by_id t.id ≡ some t) ts
    → elem x (ids ts) ≡ true
    → (t : Task) × (g.by_id x ≡ some t) × (t.id ≡ x)
unfolding elem
lookup-head g x [] h m = cc
lookup-head g x (t ∷ ts) h m = elim (Bool-cases (t.id == x)) [
  | inl e ↦ (t, rw (← (eq_iff t.id x).0 e) h.0, (eq_iff t.id x).0 e)
  | inr e ↦ lookup-head g x ts h.1 (ground arith)
]
