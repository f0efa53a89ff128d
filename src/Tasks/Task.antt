-- ===== src/Tasks/Task.antt =====
-- `Task` of src/smart_build/tasks.py. Paths and command parts are texts, which stand for values
-- that `Path` and `str` leave as they are. An executor is its fingerprint, `module.qualname`.
use smart_build.Prelude.{String, Bool, List, [], ◌∷◌, Option, not}
use smart_build.Prelude.Texts.{◌==◌, elem}
use smart_build.Prelude.Errors.{Result, ok, raise_if, ◌>>◌}

pub data TaskError : Type 0 where
  id_required : TaskError
  missing_domain missing_action : String → TaskError
  unsupported_run_class unsupported_cache_policy : String → String → TaskError
  duplicate_task_id : String → TaskError
  missing_dependencies : List (String × String) → TaskError
  cycle_detected : List String → TaskError
  cannot_be_batched : TaskError
  unknown_target_task : String → TaskError
  unknown_build_target disabled_rootfs_target : (target : String) → TaskError
  -- a missing key of a dict, and the end of the fuel: the theorems exclude both
  key_error out_of_fuel : TaskError

pub record Task : Type 0 where
  pub id : String
  pub domain : String
  pub action : String
  pub inputs : List String
  pub outputs : List String
  pub deps : List String
  pub workdir : String
  pub env : List (String × String)
  pub run_class : String
  pub cache_policy : String
  pub log_path : String
  pub executor : Option String
  pub command : List String
  pub cache_extra : List (String × String)
  pub placeholder : Bool

abbrev pub valid_run_classes : List String
valid_run_classes = "fetch" ∷ "build" ∷ "serial" ∷ []

abbrev pub valid_cache_policies : List String
valid_cache_policies = "inputs" ∷ "never" ∷ []

-- `Task.__post_init__`
unfoldable pub post_init : Task → Result TaskError Task
unfolding elem
post_init task = do
  raise_if (task.id == "") id_required
  raise_if (task.domain == "") (missing_domain task.id)
  raise_if (task.action == "") (missing_action task.id)
  raise_if (not (elem task.run_class valid_run_classes))
      (unsupported_run_class task.id task.run_class)
  raise_if (not (elem task.cache_policy valid_cache_policies))
      (unsupported_cache_policy task.id task.cache_policy)
  ok task
