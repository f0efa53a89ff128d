-- ===== src/Tasks/Default.antt =====
-- `create_default_plan` and `tasks_for_target` of src/smart_build/tasks.py, as they run with
-- `resolve_real=False`: every task is a placeholder. Of the root file system selection, which may be
-- missing, the name `rootfs` is what they read; the tasks of an application or a package target are
-- given. A path is joined with a slash.
pub mod Ordered
pub mod Targets
mod Samples
use smart_build.Prelude.{
  String, Bool, true, false, not, null, List, [], ◌∷◌, ◌++◌, Option, none, some, filter, beq,
  if◌then◌else◌, ◌&&◌, ◌||◌,
}
use Prim.Native.String.{◌++◌ as ◌⧺◌}
use Prim.Native.Char.{Char, code}
use smart_build.Prelude.Texts.{◌==◌, elem}
use smart_build.Prelude.Errors.{Result, ok, err, ◌>>=◌, ◌>>◌, raise_if}
use smart_build.Tasks.Task.{Task, TaskError, unknown_build_target, disabled_rootfs_target}
use smart_build.Tasks.Graph.{TaskGraph, task_graph, topological_order}
use smart_build.Tasks.Closure.{dependency_closure, plan_for}

pub record Paths : Type 0 where
  pub machine : String
  pub machine_dir : String
  pub staging_dir : String
  pub stamps_dir : String
  pub images_dir : String
  pub work_dir : String
  pub logs_dir : String

-- `task_id.replace(":", "-")`
dashed : String → String
dashed String.[] = String.[]
dashed (String.◌∷◌ c s) = String.◌∷◌ (if beq (code c) b':' then "-" else c) (dashed s)

abbrev pub Selection : Type 0
Selection = Option String

unfoldable pub rootfs_task_ids : Selection → List String
rootfs_task_ids none = "minirootfs:image" ∷ "busybox-rootfs:image" ∷ []
rootfs_task_ids (some rootfs) =
    if rootfs == "none"
    then []
    else if rootfs == "basic"
    then "busybox-rootfs:image" ∷ []
    else if rootfs == "full"
    then "rootfs:image" ∷ []
    else "minirootfs:image" ∷ []

unfoldable pub package_rootfs_image_task_id : Selection → (force_minirootfs : Bool) → String
package_rootfs_image_task_id none force_minirootfs = "minirootfs:image"
package_rootfs_image_task_id (some rootfs) force_minirootfs =
    if rootfs == "full" && not force_minirootfs then "rootfs:image" else "minirootfs:image"

unfoldable pub is_disabled : Selection → Bool
is_disabled none = false
is_disabled (some rootfs) = rootfs == "none"

unfoldable pub qemu_placeholder_deps : List String → List String
unfolding elem
qemu_placeholder_deps ids =
    "kernel:build"
    ∷ (if elem "busybox-rootfs:image" ids
        then "busybox-rootfs:image" ∷ []
        else if elem "rootfs:image" ids
        then "rootfs:image" ∷ []
        else if elem "minirootfs:image" ids
        then "minirootfs:image" ∷ []
        else [])

abbrev pub busybox_placeholder_deps : Bool → List String
busybox_placeholder_deps include_minirootfs =
    if include_minirootfs then "rootfs:stage" ∷ [] else "toolchain:check" ∷ []

-- `_target_task_ids` for the targets that are neither an application nor a package, whose ids are
-- given by `other`
unfoldable pub target_task_ids :
    (String → Result TaskError (List String)) → Selection → String → Result TaskError (List String)
unfolding rootfs_task_ids
target_task_ids other selection target =
    if target == "all"
    then ok ("image:assemble" ∷ "qemu-script:generate" ∷ [])
    else if target == "kernel"
    then ok ("kernel:build" ∷ [])
    else if target == "rootfs"
    then ok (rootfs_task_ids selection)
    else if target == "minirootfs"
    then ok ("minirootfs:image" ∷ [])
    else if target == "full-rootfs"
    then ok ("rootfs:image" ∷ [])
    else if target == "busybox-rootfs"
    then ok ("busybox-rootfs:image" ∷ [])
    else if target == "qemu-script"
    then ok ("qemu-script:generate" ∷ [])
    else other target

abbrev pub rootfs_targets : List String
rootfs_targets = "all" ∷ "minirootfs" ∷ "rootfs" ∷ "busybox-rootfs" ∷ []

-- whether the ids of the selection hold one of these
abbrev pub selects_any :
    Selection → (targets : List String) (wanted ids : List String) (target : String) → Bool
unfolding elem
selects_any none targets wanted ids target = false
selects_any (some rootfs) targets wanted ids target =
    elem target targets && not (null (filter (λ i. elem i ids) wanted))

-- `_reject_disabled_rootfs_target`, and `_reject_unsupported_package_target` for the targets that
-- `is_package` names
unfoldable pub reject_target :
    (is_package : String → Bool) → Selection → String → Result TaskError (Unit {0})
unfolding is_disabled elem
reject_target is_package selection target =
    raise_if ((elem target rootfs_targets || is_package target) && is_disabled selection)
      (disabled_rootfs_target target)

module _ (paths : Paths) where
  abbrev pub placeholder_task :
      (task_id domain action output : String) (deps : List String) (run_class : String) → Task
  unfolding dashed
  placeholder_task task_id domain action output deps run_class = record {
    id = task_id;
    domain = domain;
    action = action;
    inputs = [];
    outputs = output ∷ [];
    deps = deps;
    workdir = paths.work_dir ⧺ "/" ⧺ dashed task_id;
    env = ("MACHINE", paths.machine) ∷ [];
    run_class = run_class;
    cache_policy = "never";
    log_path = paths.logs_dir ⧺ "/" ⧺ dashed task_id ⧺ ".log";
    executor = some "_placeholder_executor";
    command = [];
    cache_extra = [];
    placeholder = true;
  }

  abbrev pub kernel_plan_tasks : List Task
  kernel_plan_tasks =
      placeholder_task "kernel:packages:update" "kernel" "packages-update"
        (paths.stamps_dir ⧺ "/kernel-packages.ok") ("toolchain:check" ∷ "source:rt-thread" ∷ [])
        "serial"
      ∷ placeholder_task "kernel:build" "kernel" "build" (paths.images_dir ⧺ "/rtthread.bin")
          ("kernel:packages:update" ∷ []) "build"
      ∷ []

  abbrev pub package_rootfs_output : String → String
  package_rootfs_output task_id =
      if task_id == "rootfs:image"
      then paths.images_dir ⧺ "/rootfs.img"
      else paths.images_dir ⧺ "/minirootfs.img"

  abbrev pub config_task : Task
  config_task =
      placeholder_task "config:load" "config" "load" (paths.machine_dir ⧺ "/config.json") []
        "serial"

  abbrev pub toolchain_task : Task
  toolchain_task =
      placeholder_task "toolchain:check" "toolchain" "check"
        (paths.staging_dir ⧺ "/host/toolchain.ok") ("config:load" ∷ []) "serial"

  abbrev pub rt_thread_task : Task
  rt_thread_task =
      placeholder_task "source:rt-thread" "source" "rt-thread"
        (paths.stamps_dir ⧺ "/sources/rt-thread.ok") ("config:load" ∷ []) "fetch"

  abbrev pub rootfs_task : Task
  rootfs_task =
      placeholder_task "rootfs:stage" "rootfs" "stage" (paths.staging_dir ⧺ "/rootfs")
        ("toolchain:check" ∷ []) "serial"

  abbrev pub package_rootfs_task : (image_id : String) → Task
  package_rootfs_task image_id =
      placeholder_task image_id "rootfs" "image" (package_rootfs_output image_id)
        ("rootfs:stage" ∷ []) "serial"

  abbrev pub busybox_plan_tasks : (with_package with_busybox : Bool) → List Task
  busybox_plan_tasks with_package with_busybox =
      if with_busybox
      then placeholder_task "busybox-rootfs:image" "rootfs" "image"
          (paths.images_dir ⧺ "/busybox-rootfs.img") (busybox_placeholder_deps with_package)
          "serial"
        ∷ []
      else []

  abbrev pub qemu_task : (rootfs_ids : List String) → Task
  unfolding qemu_placeholder_deps
  qemu_task rootfs_ids =
      placeholder_task "qemu-script:generate" "deploy" "qemu-script"
        (paths.machine_dir ⧺ "/run_qemu_nographic.sh") (qemu_placeholder_deps rootfs_ids) "serial"

  abbrev pub image_task : (rootfs_ids : List String) → Task
  image_task rootfs_ids =
      placeholder_task "image:assemble" "image" "assemble" (paths.images_dir ⧺ "/system.img")
        ("kernel:build" ∷ rootfs_ids) "serial"

  -- the tasks, by what was decided about the root file system
  unfoldable pub plan_tasks :
      (rootfs_ids : List String) (disabled : Bool) (image_id : String)
      (with_package with_busybox : Bool)
      → List Task
  unfolding dashed qemu_placeholder_deps
  plan_tasks rootfs_ids disabled image_id with_package with_busybox =
      config_task ∷ toolchain_task ∷ rt_thread_task ∷ kernel_plan_tasks
      ++ (if with_package then rootfs_task ∷ package_rootfs_task image_id ∷ [] else [])
      ++ busybox_plan_tasks with_package with_busybox
      ++ (if disabled then [] else image_task rootfs_ids ∷ [])
      ++ qemu_task rootfs_ids ∷ []

  unfoldable pub create_default_plan :
      (real_minirootfs real_busybox_rootfs force_minirootfs_image : Bool) → Selection → List Task
  unfolding plan_tasks rootfs_task_ids package_rootfs_image_task_id is_disabled elem
  create_default_plan real_minirootfs real_busybox_rootfs force_minirootfs_image selection =
      let disabled = is_disabled selection in
      let ids =
        if force_minirootfs_image then "minirootfs:image" ∷ [] else rootfs_task_ids selection in
      plan_tasks ids disabled (package_rootfs_image_task_id selection force_minirootfs_image)
        (not disabled
          && (real_minirootfs || (elem "minirootfs:image" ids || elem "rootfs:image" ids)))
        (not disabled && (real_busybox_rootfs || elem "busybox-rootfs:image" ids))

  -- the graph of a target; the tasks of an application or a package target are `extra`
  unfoldable pub target_tasks : Selection → (extra : List Task) → (target : String) → List Task
  unfolding create_default_plan rootfs_task_ids elem
  target_tasks selection extra target =
      let ids =
        if target == "minirootfs" then "minirootfs:image" ∷ [] else rootfs_task_ids selection in
      let real_minirootfs =
        target == "minirootfs"
        || selects_any selection ("all" ∷ "rootfs" ∷ "full-rootfs" ∷ "qemu-script" ∷ [])
            ("minirootfs:image" ∷ "rootfs:image" ∷ []) ids target in
      let real_busybox_rootfs =
        target == "busybox-rootfs"
        || selects_any selection ("all" ∷ "rootfs" ∷ "qemu-script" ∷ [])
            ("busybox-rootfs:image" ∷ []) ids target in
      create_default_plan real_minirootfs real_busybox_rootfs (target == "minirootfs") selection
      ++ extra

  unfoldable pub tasks_for_target :
      (is_package : String → Bool)
      → (other : String → Result TaskError (List String)) → Selection
      → (extra : List Task) → (target : String) → Result TaskError (List Task)
  unfolding reject_target target_tasks target_task_ids
  tasks_for_target is_package other selection extra target = do
    reject_target is_package selection target
    g ← task_graph (target_tasks selection extra target)
    target_ids ← target_task_ids other selection target
    plan_for g target_ids
