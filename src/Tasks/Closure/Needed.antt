-- ===== src/Tasks/Closure/Needed.antt =====
-- The closure holds exactly what the targets need.
use smart_build.Prelude.{
  String, true, List, Option-cases, none, some, ◌≡◌, sym, arith, All, All-map, ◌⊎◌, inl, inr,
  length-map,
}
use smart_build.Prelude.Texts.{elem, Distinct, All-of_elem}
use smart_build.Prelude.Errors.{ok, err, ok-injective, err-injective, >>=-eq-ok, Result-cases}
use smart_build.Prelude.Walk.{Walked, walk}
use smart_build.Prelude.Walk.Growth.{Met}
use smart_build.Prelude.Walk.Reach.{Leads}
use mathlib.Core.Path.{subst}
use smart_build.Prelude.Walk.Whole.{walk-IsClosed, walk-Sound, walk-Ends, walk-Raised}
use smart_build.Tasks.Task.{Task, TaskError, unknown_target_task}
use smart_build.Tasks.Graph.{TaskGraph, ids}
use smart_build.Tasks.Graph.Build.{IsIndexed}
use smart_build.Tasks.Closure.{closure_walker, rounds, dependency_closure}

-- A target is needed, and so is a dependency of what is needed.
pub data Needed (g : TaskGraph) (targets : List String) : String → Type 0 where
  target : {i : String} → elem i targets ≡ true → Needed g targets i
  dep :
      {i d : String} {t : Task}
      → Needed g targets i
      → g.by_id i ≡ some t
      → elem d t.deps ≡ true
      → Needed g targets d

-- The ids hold the targets, and with each id the dependencies of its task.
pub record IsClosure (g : TaskGraph) (targets selected : List String) : Type 0 where
  pub started : All (λ i. elem i selected ≡ true) targets
  pub listed :
      (i : String) (t : Task)
      → elem i selected ≡ true
      → g.by_id i ≡ some t
      → All (λ d. elem d selected ≡ true) t.deps
  pub distinct : Distinct selected
  pub needed : (i : String) → elem i selected ≡ true → Needed g targets i

module _ (g : TaskGraph) (met : List String) where
  Met-selected : (i : String) → Met (closure_walker g) met i → elem i met ≡ true
  unfolding closure_walker
  Met-selected i ((a, b, passed), named) = elim (Option-cases (g.by_id i)) [
    | inl absent ↦ absurd (cc (rw absent at passed))
    | inr (t, found) ↦ named i (rw found)
  ]

target-id :
    (g : TaskGraph) (i n : String)
    → (closure_walker g).target i ≡ some n
    → (i ≡ n) × ((t : Task) × (g.by_id n ≡ some t))
unfolding closure_walker
target-id g i n h = elim (Option-cases (g.by_id i)) [
  | inl absent ↦ absurd (cc (rw absent at h))
  | inr (t, found) ↦ let same : i ≡ n = cc (rw found at h) in (same, (t, rw same at found))
]

children-deps :
    (g : TaskGraph) (i : String) (t : Task)
    → g.by_id i ≡ some t
    → (closure_walker g).children i ≡ t.deps
unfolding closure_walker
children-deps g i t found = rw found

module _ (g : TaskGraph) (targets : List String) where
  abbrev noting :
      (a b : Unit {0}) (i : String) → (closure_walker g).note a i ≡ ok b → Unit {0} → Unit {0}
  noting a b i h q = q

  abbrev LeadsOn : String → Type 0
  LeadsOn = Leads (closure_walker g) (Needed g targets) (λ _. Unit {0}) noting

  Needed-leads :
      (is : List String) → ((i : String) → elem i is ≡ true → Needed g targets i) → All LeadsOn is
  Needed-leads is needed =
      All-of_elem LeadsOn is λ i m n e. subst (Needed g targets) (target-id g i n e).0 (needed i m)

  children-lead : (m : String) → Needed g targets m → All LeadsOn ((closure_walker g).children m)
  children-lead m need = elim (Option-cases (g.by_id m)) [
    | inl absent ↦ unfold closure_walker in rw absent tt
    | inr (t, found) ↦
        rw (children-deps g m t found) (Needed-leads t.deps (λ d dep_of_m. dep need found dep_of_m))
  ]

  walk-IsClosure :
      (w : Walked (Unit {0}))
      → walk (closure_walker g) (rounds g) tt targets ≡ ok w
      → IsClosure g targets w.met
  walk-IsClosure w h =
      let r = walk-IsClosed (closure_walker g) (rounds g) tt targets w h in
      record {
        started = All-map (Met-selected g w.met) targets r.started;
        listed = λ i t m found.
            All-map (Met-selected g w.met) t.deps (
              subst (All (Met (closure_walker g) w.met)) (children-deps g i t found)
                (r.listed i m));
        distinct = r.distinct;
        needed =
            (walk-Sound (closure_walker g) (rounds g) tt targets (Needed g targets) (λ _. Unit {0})
              noting children-lead (Needed-leads targets (λ i m. target m)) tt w h).0;
      }

  -- The ids that `_dependency_closure` returns hold the targets and are closed under dependencies,
  -- hold no id twice, and hold no id that the targets do not need.
  pub dependency_closure-IsClosure :
      (selected : List String)
      → dependency_closure g targets ≡ ok selected
      → IsClosure g targets selected
  unfolding dependency_closure
  dependency_closure-IsClosure selected h =
      let (w, walked, done) = >>=-eq-ok (walk (closure_walker g) (rounds g) tt targets) _ h in
      subst (IsClosure g targets) (ok-injective done) (walk-IsClosure w walked)

  known_id :
      IsIndexed g
      → (i n : String) → (closure_walker g).target i ≡ some n
      → elem n (ids g.tasks) ≡ true
  known_id indexed i n e = let (t, found) = (target-id g i n e).1 in ground (arith, indexed.only n)

  note_unknown :
      (s : Unit {0}) (i : String) (e : TaskError)
      → (closure_walker g).note s i ≡ err e
      → (e ≡ unknown_target_task i) × (g.by_id i ≡ none)
  unfolding closure_walker
  note_unknown s i e h = elim (Option-cases (g.by_id i)) [
    | inl absent ↦ (err-injective (sym (rw absent at h)), absent)
    | inr (t, found) ↦ absurd (cc (rw found at h))
  ]

  -- On a graph with distinct ids, cyclic or not, the closure is returned, or an id that names no
  -- task is raised.
  pub dependency_closure_total :
      IsIndexed g
      → ((selected : List String) × (dependency_closure g targets ≡ ok selected))
        ⊎ ((i : String) × (dependency_closure g targets ≡ err (unknown_target_task i))
            × (g.by_id i ≡ none))
  unfolding dependency_closure
  dependency_closure_total indexed =
      elim (Result-cases (walk (closure_walker g) (rounds g) tt targets)) [
        | inl (w, done) ↦ inl (w.met, rw done)
        | inr (e, raised) ↦
            let (s, i, noted) =
              walk-Ends (closure_walker g) (rounds g) tt targets (ids g.tasks) indexed.distinct
                (known_id indexed) (omega (arith, length-map (λ (t : Task). t.id) g.tasks)) e
                raised in
            let (same, absent) = note_unknown s i e noted in inr (i, rw (raised, same), absent)
      ]

  -- a target, or what names a task
  abbrev IsReached : String → Type 0
  IsReached i = (elem i targets ≡ true) ⊎ ((t : Task) × (g.by_id i ≡ some t))

  is_target : (i : String) → IsReached i → g.by_id i ≡ none → elem i targets ≡ true
  is_target i (inl m) absent = m
  is_target i (inr (t, found)) absent = absurd (cc found)

  children-IsReached :
      ((i d : String) (t : Task)
        → g.by_id i ≡ some t
        → elem d t.deps ≡ true
        → (u : Task) × (g.by_id d ≡ some u))
      → (i n : String) → IsReached i
      → (closure_walker g).target i ≡ some n
      → All IsReached ((closure_walker g).children n)
  children-IsReached closed i n reached e =
      let (t, found) = (target-id g i n e).1 in
      rw (children-deps g n t found)
        (All-of_elem IsReached t.deps (λ d m. inr (closed n d t found m)))

  -- Where each dependency is a task, an id that names no task is a target.
  pub dependency_closure-unknown :
      IsIndexed g
      → ((i d : String) (t : Task)
          → g.by_id i ≡ some t
          → elem d t.deps ≡ true
          → (u : Task) × (g.by_id d ≡ some u))
      → ((selected : List String) × (dependency_closure g targets ≡ ok selected))
        ⊎ ((i : String) × (dependency_closure g targets ≡ err (unknown_target_task i))
            × (g.by_id i ≡ none)
            × (elem i targets ≡ true))
  unfolding dependency_closure
  dependency_closure-unknown indexed closed =
      elim (Result-cases (walk (closure_walker g) (rounds g) tt targets)) [
        | inl (w, done) ↦ inl (w.met, rw done)
        | inr (e, raised) ↦
            let (s, i, reached, noted) =
              walk-Raised (closure_walker g) (rounds g) tt targets IsReached
                (children-IsReached closed) (ids g.tasks) indexed.distinct (known_id indexed)
                (omega (arith, length-map (λ (t : Task). t.id) g.tasks))
                (All-of_elem IsReached targets (λ i m. inl m)) e raised in
            let (same, absent) = note_unknown s i e noted in
            inr (i, rw (raised, same), absent, is_target i reached absent)
      ]
