-- ===== src/Tasks/Default/Targets.antt =====
-- What `tasks_for_target` gives for the fixed targets.
use smart_build.Prelude.{
  String, Bool, true, false, List, [], ◌∷◌, none, append-nil, Bool-cases, inl, inr, ◌⊎◌, ◌≡◌, refl,
  sym, ap, ◌∙◌, arith, if_both, ◌&&◌, ◌||◌,
}
use mathlib.Core.Path.{subst}
use smart_build.Prelude.Texts.{◌==◌, elem, eq_iff}
use smart_build.Prelude.Errors.{Result, ok, err, ◌>>=◌, raise_if, Result-cases}
use smart_build.Tasks.Task.{Task, TaskError, unknown_target_task, disabled_rootfs_target}
use smart_build.Tasks.Graph.{TaskGraph, task_graph, topological_order}
use smart_build.Tasks.Graph.Build.{task_graph-IsIndexed}
use smart_build.Tasks.Closure.{plan_for}
use smart_build.Tasks.Closure.Known.{plan_for_total}
use smart_build.Tasks.Closure.Plan.{IsPlan, plan_for-IsPlan}
use smart_build.Tasks.Default.{
  Paths, Selection, is_disabled, rootfs_targets, target_tasks, target_task_ids, reject_target,
  tasks_for_target,
}
use smart_build.Tasks.Default.Ordered.{has_order, create_default_plan-ordered}

abbrev pub fixed_targets : List String
fixed_targets =
    "all" ∷ "kernel" ∷ "rootfs" ∷ "minirootfs" ∷ "full-rootfs" ∷ "busybox-rootfs" ∷ "qemu-script"
    ∷ []

has_order-graph :
    (tasks : List Task)
    → has_order tasks ≡ true
    → (g : TaskGraph) × (order : List Task) × (task_graph tasks ≡ ok g)
      × (topological_order g ≡ ok order)
unfolding has_order
has_order-graph tasks h = elim (Result-cases (task_graph tasks)) [
  | inr (e, raised) ↦ absurd (cc (rw (has_order, raised) at h))
  | inl (g, made) ↦ elim (Result-cases (topological_order g)) [
    | inr (e, raised) ↦ absurd (cc (rw (has_order, made, raised) at h))
    | inl (order, ordered) ↦ (g, order, made, ordered)
  ]
]

module _ (paths : Paths) (other : String → Result TaskError (List String)) (selection : Selection)
    (target : String) where
  abbrev no_package : String → Bool
  no_package _ = false

  abbrev tasks : List Task
  tasks = target_tasks paths selection [] target

  target_tasks-ordered :
      (elem target rootfs_targets && is_disabled selection) ≡ false → has_order tasks ≡ true
  unfolding target_tasks elem
  target_tasks-ordered h =
      subst (λ ts. has_order ts ≡ true) (sym (append-nil _))
        (create_default_plan-ordered paths _ _ (target == "minirootfs") selection
          (ground (arith, h, eq_iff "minirootfs" target, eq_iff target "minirootfs")))

  HasIds : Result TaskError (List String) → Type 0
  HasIds r = (ids : List String) × (r ≡ ok ids)

  no_target :
      elem target fixed_targets ≡ true
      → (target == "all") ≡ false
      → (target == "kernel") ≡ false
      → (target == "rootfs") ≡ false
      → (target == "minirootfs") ≡ false
      → (target == "full-rootfs") ≡ false
      → (target == "busybox-rootfs") ≡ false
      → (target == "qemu-script") ≡ false
      → ⊥
  unfolding elem
  no_target h a b c d e f g = ground (
    arith,
    h,
    a,
    b,
    c,
    d,
    e,
    f,
    g,
    eq_iff "all" target,
    eq_iff target "all",
    eq_iff "kernel" target,
    eq_iff target "kernel",
    eq_iff "rootfs" target,
    eq_iff target "rootfs",
    eq_iff "minirootfs" target,
    eq_iff target "minirootfs",
    eq_iff "full-rootfs" target,
    eq_iff target "full-rootfs",
    eq_iff "busybox-rootfs" target,
    eq_iff target "busybox-rootfs",
    eq_iff "qemu-script" target,
    eq_iff target "qemu-script",
  )

  fixed-ids :
      elem target fixed_targets ≡ true
      → (ids : List String) × (target_task_ids other selection target ≡ ok ids)
  unfolding target_task_ids elem HasIds
  fixed-ids h =
      if_both HasIds (target == "all") (λ _. (_, refl))
        (λ a.
          if_both HasIds (target == "kernel") (λ _. (_, refl))
            (λ b.
              if_both HasIds (target == "rootfs") (λ _. (_, refl))
                (λ c.
                  if_both HasIds (target == "minirootfs") (λ _. (_, refl))
                    (λ d.
                      if_both HasIds (target == "full-rootfs") (λ _. (_, refl))
                        (λ e.
                          if_both HasIds (target == "busybox-rootfs") (λ _. (_, refl))
                            (λ f.
                              if_both HasIds (target == "qemu-script") (λ _. (_, refl))
                                (λ g. absurd (no_target h a b c d e f g))))))))

  not_rejected :
      (elem target rootfs_targets && is_disabled selection) ≡ false
      → reject_target no_package selection target ≡ ok tt
  unfolding reject_target elem
  not_rejected h =
      let same : ((elem target rootfs_targets || false) && is_disabled selection) ≡ false =
        ground (arith, h) in
      ap (λ b. raise_if b (disabled_rootfs_target target)) same

  rejected :
      (elem target rootfs_targets && is_disabled selection) ≡ true
      → reject_target no_package selection target ≡ err (disabled_rootfs_target target)
  unfolding reject_target elem
  rejected h =
      let same : ((elem target rootfs_targets || false) && is_disabled selection) ≡ true =
        ground (arith, h) in
      ap (λ b. raise_if b (disabled_rootfs_target target)) same

  abbrev result : Result TaskError (List Task)
  result = tasks_for_target paths no_package other selection [] target

  result-rejected :
      (e : TaskError) → reject_target no_package selection target ≡ err e → result ≡ err e
  unfolding tasks_for_target
  result-rejected e refused =
      ap
        (λ m. m >>= λ _. do
          g' ← task_graph tasks
          target_ids ← target_task_ids other selection target
          plan_for g' target_ids)
        refused

  result-passed :
      (g : TaskGraph) (ids : List String)
      → reject_target no_package selection target ≡ ok tt
      → task_graph tasks ≡ ok g
      → target_task_ids other selection target ≡ ok ids
      → result ≡ plan_for g ids
  unfolding tasks_for_target
  result-passed g ids pass made aimed =
      ap
        (λ m. m >>= λ _. do
          g' ← task_graph tasks
          target_ids ← target_task_ids other selection target
          plan_for g' target_ids)
        pass
      ∙ ap
          (λ m. m >>= λ g'. do
            target_ids ← target_task_ids other selection target
            plan_for g' target_ids)
          made
      ∙ ap (λ m. m >>= λ target_ids. plan_for g target_ids) aimed

  -- The graph of the target is accepted and has an order, and these are the ids of the target.
  pub record IsTarget : Type 0 where
    pub graph : TaskGraph
    pub made : task_graph tasks ≡ ok graph
    pub order : List Task
    pub ordered : topological_order graph ≡ ok order
    pub ids : List String
    pub aimed : target_task_ids other selection target ≡ ok ids

-- For each target that is neither an application nor a package and for each selection of a root file
-- system, `tasks_for_target` refuses a target that needs a root file system where there is none; or
-- the default graph is accepted and has an order, and a plan of it is returned: the tasks that the
-- target needs, each once and behind its dependencies; or the graph is accepted and has an order,
-- and the error names an id of the target that is no task of the graph.
pub tasks_for_target_total :
    (paths : Paths) (other : String → Result TaskError (List String)) (selection : Selection)
    (target : String)
    → elem target fixed_targets ≡ true
    → ((plan : List Task) × (tasks_for_target paths (λ _. false) other selection [] target
          ≡ ok plan)
        × (t : IsTarget paths other selection target) × IsPlan t.graph t.ids plan)
      ⊎ ((tasks_for_target paths (λ _. false) other selection [] target
            ≡ err (disabled_rootfs_target target))
          × (elem target rootfs_targets ≡ true)
          × (is_disabled selection ≡ true))
      ⊎ ((i : String) × (tasks_for_target paths (λ _. false) other selection [] target
            ≡ err (unknown_target_task i))
          × (t : IsTarget paths other selection target) × (elem i t.ids ≡ true)
          × (t.graph.by_id i ≡ none))
tasks_for_target_total paths other selection target h =
    elim (Bool-cases (elem target rootfs_targets && is_disabled selection)) [
      | inl refused ↦ inr (
          inl (
            result-rejected paths other selection target (disabled_rootfs_target target)
                (rejected paths other selection target refused),
            ground (arith, refused),
            ground (arith, refused),
          ))
      | inr free ↦
          let (g, order, made, ordered) =
            has_order-graph (tasks paths other selection target)
              (target_tasks-ordered paths other selection target free) in
          let (ids, aimed) = fixed-ids paths other selection target h in
          let pass = not_rejected paths other selection target free in
          let indexed = (task_graph-IsIndexed (tasks paths other selection target) made).0 in
          let same = result-passed paths other selection target g ids pass made aimed in
          let t : IsTarget paths other selection target = record {
            graph = g;
            made = made;
            order = order;
            ordered = ordered;
            ids = ids;
            aimed = aimed;
          } in
          elim (plan_for_total g order indexed ordered ids) [
            | inl (plan, planned) ↦
                inl (plan, same ∙ planned, t, plan_for-IsPlan g ids plan indexed planned)
            | inr (i, raised, listed, absent) ↦ inr (inr (i, same ∙ raised, t, listed, absent))
          ]
    ]
