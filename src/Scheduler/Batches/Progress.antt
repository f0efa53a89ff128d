-- ===== src/Scheduler/Batches/Progress.antt =====
-- Each round of `plan_batches` makes progress.
use smart_build.Prelude.{
  All→all, ◌≤◌, String, Bool, true, not, ◌&&◌, List, [], ◌∷◌, ◌++◌, all, All, All-map, All-filter,
  filter, ◌≡◌, ◌≢◌, refl, arith, inl, inr, ◌⊎◌, Bool-cases, List-cases,
}
use mathlib.Core.Path.{subst}
use smart_build.Prelude.Texts.{◌==◌, eq_iff, elem, Distinct, count}
use smart_build.Prelude.Remaining.{remaining, elem-snoc}
use smart_build.Tasks.Task.{Task, valid_run_classes}
use smart_build.Tasks.Graph.{ids}
use smart_build.Scheduler.Batches.{ready_tasks, next_batch}

-- Every task stands behind its dependencies; `seen` stand before the list.
abbrev pub InOrder : List String → List Task → Type 0
InOrder seen [] = Unit
InOrder seen (t ∷ ts) = All (λ d. elem d seen ≡ true) t.deps × InOrder (seen ++ t.id ∷ []) ts

abbrev is_ready : List String → Task → Bool
is_ready completed t = not (elem t.id completed) && all (λ d. elem d completed) t.deps

-- Unless all is completed, the first task of an order that is not is ready.
pub some_ready :
    (completed seen : List String) (order : List Task)
    → InOrder seen order
    → ((d : String) → elem d seen ≡ true → elem d completed ≡ true)
    → remaining completed (ids order) ≢ []
    → ready_tasks order completed ≢ []
some_ready completed seen [] o sub left = absurd (left refl)
some_ready completed seen (t ∷ ts) (ot, o) sub left = elim (Bool-cases (elem t.id completed)) [
  | inl e ↦
      let ih =
        some_ready completed (seen ++ t.id ∷ []) ts o
          (λ d m. ground (arith, elem-snoc d t.id seen, eq_iff t.id d, sub d)) (rw e at left) in
      rw e ih
  | inr e ↦ rw (e, All→all (λ d. elem d completed) t.deps (All-map sub t.deps ot)) (λ h. cc)
]

abbrev pub serial_tasks : List Task → List Task
serial_tasks = filter (λ t. t.run_class == "serial")

abbrev pub parallel_tasks : List Task → List Task
parallel_tasks = filter (λ t. elem t.run_class ("fetch" ∷ "build" ∷ []))

pub next_batch-cases :
    (ready : List Task)
    → (serial_tasks ready ≡ [])
        × (next_batch ready ≡ record { run_class = "parallel"; tasks = parallel_tasks ready })
      ⊎ ((t : Task) × (rest : List Task) × (serial_tasks ready ≡ t ∷ rest)
          × (next_batch ready ≡ record { run_class = "serial"; tasks = t ∷ [] }))
unfolding next_batch
next_batch-cases ready = elim (List-cases (serial_tasks ready)) [
  | inl e ↦ inl (e, rw (e, next_batch))
  | inr (t, rest, e) ↦ inr (t, rest, e, rw (e, next_batch))
]

module _ {κ} (P : Task → Type κ) where
  first-All : (ts : List Task) {t : Task} {rest : List Task} → All P ts → ts ≡ t ∷ rest → P t
  first-All [] h e = cc
  first-All (x ∷ ts) h e = let same : x ≡ _ = cc in subst P same h.0

  -- A batch is part of what is ready.
  pub next_batch-All : (ready : List Task) → All P ready → All P (next_batch ready).tasks
  next_batch-All ready h = elim (next_batch-cases ready) [
    | inl (e, b) ↦ rw b (All-filter P _ ready h)
    | inr (t, rest, e, b) ↦ rw b (first-All _ (All-filter P _ ready h) e, tt)
  ]

pub count-ids-filter :
    (j : String) (p : Task → Bool) (ts : List Task) → count j (ids (filter p ts)) ≤ count j (ids ts)
unfolding count
count-ids-filter j p [] = omega arith
count-ids-filter j p (t ∷ ts) = ground (arith, count-ids-filter j p ts)

pub next_batch-Distinct :
    (ready : List Task) → Distinct (ids ready) → Distinct (ids (next_batch ready).tasks)
unfolding count
next_batch-Distinct ready d j = elim (next_batch-cases ready) [
  | inl (e, b) ↦ rw b (
      omega (arith, d j, count-ids-filter j (λ t. elem t.run_class ("fetch" ∷ "build" ∷ [])) ready))
  | inr (t, rest, e, b) ↦ rw b (ground arith)
]

abbrev pub IsClassed : Task → Type 0
IsClassed t = elem t.run_class valid_run_classes ≡ true

parallel-ne-nil :
    (ready : List Task)
    → All IsClassed ready
    → ready ≢ []
    → filter (λ t. t.run_class == "serial") ready ≡ []
    → filter (λ t. elem t.run_class ("fetch" ∷ "build" ∷ [])) ready ≢ []
unfolding elem
parallel-ne-nil [] c left e = absurd (left refl)
parallel-ne-nil (t ∷ ts) c left e =
    ground (arith, c.0, eq_iff "serial" t.run_class, eq_iff t.run_class "serial")

pub next_batch-ne-nil :
    (ready : List Task) → All IsClassed ready → ready ≢ [] → (next_batch ready).tasks ≢ []
next_batch-ne-nil ready c left = elim (next_batch-cases ready) [
  | inl (e, b) ↦ rw b (parallel-ne-nil ready c left e)
  | inr (t, rest, e, b) ↦ rw b (λ h. cc)
]
