-- ===== src/Tasks/Default/Ordered.antt =====
-- The default plan has an order, whatever is selected.
use smart_build.Prelude.{
  String, Bool, true, false, not, List, [], ◌∷◌, none, some, ◌≡◌, refl, if◌then◌else◌, ◌&&◌, ◌||◌,
}
use smart_build.Prelude.Texts.{◌==◌, elem, update}
use smart_build.Prelude.Sort.{sort_by}
use smart_build.Prelude.Errors.{Result, ok, err, ◌>>=◌}
use smart_build.Tasks.Task.{Task}
use smart_build.Tasks.Graph.{task_graph, topological_order}
use smart_build.Tasks.Default.{Paths, Selection, plan_tasks, create_default_plan, is_disabled}

abbrev pub is_ok : {E A : Type 0} → Result E A → Bool
is_ok (ok _) = true
is_ok (err _) = false

-- whether a list of tasks makes a graph that has an order
unfoldable pub has_order : List Task → Bool
unfolding task_graph topological_order
has_order tasks = is_ok (do g ← task_graph tasks; topological_order g)

module _ (paths : Paths) where
  -- the plan for a selection, by what its name is
  abbrev plan_by : (is_none is_basic is_full force real_mini real_busybox : Bool) → List Task
  unfolding elem
  plan_by is_none is_basic is_full force real_mini real_busybox =
      let ids : List String =
        if force
        then "minirootfs:image" ∷ []
        else if is_none
        then []
        else if is_basic
        then "busybox-rootfs:image" ∷ []
        else if is_full
        then "rootfs:image" ∷ []
        else "minirootfs:image" ∷ [] in
      plan_tasks paths ids is_none
        (if is_full && not force then "rootfs:image" else "minirootfs:image")
        (not is_none && (real_mini || (elem "minirootfs:image" ids || elem "rootfs:image" ids)))
        (not is_none && (real_busybox || elem "busybox-rootfs:image" ids))

  plan_by-ordered :
      (is_none is_basic is_full force real_mini real_busybox : Bool)
      → (is_none && force) ≡ false
      → has_order (plan_by is_none is_basic is_full force real_mini real_busybox) ≡ true
  unfolding has_order plan_tasks task_graph topological_order sort_by update elem
  plan_by-ordered true bs f false m b h = refl
  plan_by-ordered true bs f true m b h = absurd (cc h)
  plan_by-ordered false bs true true true true h = refl
  plan_by-ordered false bs true true true false h = refl
  plan_by-ordered false bs true true false true h = refl
  plan_by-ordered false bs true true false false h = refl
  plan_by-ordered false bs false true true true h = refl
  plan_by-ordered false bs false true true false h = refl
  plan_by-ordered false bs false true false true h = refl
  plan_by-ordered false bs false true false false h = refl
  plan_by-ordered false true true false true true h = refl
  plan_by-ordered false true true false true false h = refl
  plan_by-ordered false true true false false true h = refl
  plan_by-ordered false true true false false false h = refl
  plan_by-ordered false true false false true true h = refl
  plan_by-ordered false true false false true false h = refl
  plan_by-ordered false true false false false true h = refl
  plan_by-ordered false true false false false false h = refl
  plan_by-ordered false false true false true true h = refl
  plan_by-ordered false false true false true false h = refl
  plan_by-ordered false false true false false true h = refl
  plan_by-ordered false false true false false false h = refl
  plan_by-ordered false false false false true true h = refl
  plan_by-ordered false false false false true false h = refl
  plan_by-ordered false false false false false true h = refl
  plan_by-ordered false false false false false false h = refl

  -- The default plan makes a graph that has an order, for each selection and each set of flags, unless
  -- the image is forced although there is no root file system.
  pub create_default_plan-ordered :
      (real_mini real_busybox force : Bool) (selection : Selection)
      → (is_disabled selection && force) ≡ false
      → has_order (create_default_plan paths real_mini real_busybox force selection) ≡ true
  unfolding create_default_plan is_disabled has_order plan_tasks task_graph topological_order
      sort_by update elem
  create_default_plan-ordered true true true none h = refl
  create_default_plan-ordered true true false none h = refl
  create_default_plan-ordered true false true none h = refl
  create_default_plan-ordered true false false none h = refl
  create_default_plan-ordered false true true none h = refl
  create_default_plan-ordered false true false none h = refl
  create_default_plan-ordered false false true none h = refl
  create_default_plan-ordered false false false none h = refl
  create_default_plan-ordered m b force (some rootfs) h =
      plan_by-ordered (rootfs == "none") (rootfs == "basic") (rootfs == "full") force m b h
