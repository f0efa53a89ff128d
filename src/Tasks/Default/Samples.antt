-- ===== src/Tasks/Default/Samples.antt =====
-- The default plan of one machine.
use smart_build.Prelude.{String, true, false, List, [], ◌∷◌, none, some, ◌⊎◌, ◌≡◌, refl}
use smart_build.Prelude.Texts.{elem, update}
use smart_build.Prelude.Sort.{sort_by}
use smart_build.Prelude.Errors.{Result, ok, err, ◌>>=◌}
use smart_build.Tasks.Task.{
  Task, TaskError, unknown_target_task, unknown_build_target, disabled_rootfs_target,
}
use smart_build.Tasks.Graph.{ids, task_graph, topological_order}
use smart_build.Tasks.Closure.{dependency_closure, plan_for}
use smart_build.Tasks.Default.{
  Paths, is_disabled, rootfs_targets, tasks_for_target, create_default_plan,
}
use smart_build.Tasks.Default.Ordered.{has_order, create_default_plan-ordered}
use smart_build.Tasks.Closure.Plan.{IsPlan}
use smart_build.Tasks.Default.Targets.{IsTarget, tasks_for_target_total}

abbrev paths : Paths
paths = record {
  machine = "qemu-virt-aarch64";
  machine_dir = "build";
  staging_dir = "build/staging";
  stamps_dir = "build/stamps";
  images_dir = "build/images";
  work_dir = "build/work";
  logs_dir = "build/logs";
}

abbrev other : String → Result TaskError (List String)
other target = err (unknown_build_target target)

abbrev ids_of : Result TaskError (List Task) → Result TaskError (List String)
ids_of r = do tasks ← r; ok (ids tasks)

kernel-plan :
    ids_of (tasks_for_target paths (λ _. false) other (some "none") [] "kernel")
    ≡ ok (
        "config:load" ∷ "toolchain:check" ∷ "source:rt-thread" ∷ "kernel:packages:update"
        ∷ "kernel:build" ∷ [])
unfolding tasks_for_target task_graph plan_for dependency_closure topological_order sort_by update
kernel-plan = refl

no_rootfs :
    ids_of (tasks_for_target paths (λ _. false) other (some "none") [] "all")
    ≡ err (disabled_rootfs_target "all")
unfolding tasks_for_target task_graph plan_for dependency_closure topological_order sort_by update
no_rootfs = refl

no_full :
    ids_of (tasks_for_target paths (λ _. false) other (some "basic") [] "full-rootfs")
    ≡ err (unknown_target_task "rootfs:image")
unfolding tasks_for_target task_graph plan_for dependency_closure topological_order sort_by update
no_full = refl

create_default_plan-ordered_example :
    has_order (create_default_plan paths true false false (some "full")) ≡ true
unfolding is_disabled
create_default_plan-ordered_example =
    create_default_plan-ordered paths true false false (some "full") refl

tasks_for_target_total_example :
    ((plan : List Task) × (tasks_for_target paths (λ _. false) other (some "basic") [] "rootfs"
        ≡ ok plan)
      × (t : IsTarget paths other (some "basic") "rootfs") × IsPlan t.graph t.ids plan)
    ⊎ ((tasks_for_target paths (λ _. false) other (some "basic") [] "rootfs"
          ≡ err (disabled_rootfs_target "rootfs"))
        × (elem "rootfs" rootfs_targets ≡ true)
        × (is_disabled (some "basic") ≡ true))
    ⊎ ((i : String) × (tasks_for_target paths (λ _. false) other (some "basic") [] "rootfs"
          ≡ err (unknown_target_task i))
        × (t : IsTarget paths other (some "basic") "rootfs") × (elem i t.ids ≡ true)
        × (t.graph.by_id i ≡ none))
unfolding elem
tasks_for_target_total_example = tasks_for_target_total paths other (some "basic") "rootfs" refl
