-- ===== src/Scheduler/Cache/Hits.antt =====
-- When a task is a cache hit.
use smart_build.Prelude.{
  String, true, none, some, ◌⊎◌, List, [], ◌∷◌, map, ◌&&◌, ◌≡◌, ◌≢◌, refl, ◌∙◌, arith, All, inl,
  inr, Bool-cases,
}
use smart_build.Prelude.Texts.{◌==◌, eq_iff, eq_refl, update}
use smart_build.Tasks.Task.{Task}
use smart_build.Scheduler.Cache.{
  Disk, Stamp, Stamps, StampFault, no_fault, raises, Hashing, exists, outputs_exist, path_record,
  signature, stamp_path, is_hit, write,
}

module _ (h : Hashing) where
  -- After a task's stamp is written without an exception, the task is a hit exactly as long as its
  -- signature is the one of the writing and its outputs exist; a task whose policy is not `inputs` is
  -- never a hit.
  pub is_hit-write :
      (fault : StampFault) (before now : Disk) (stamps : Stamps) (task : Task)
      → (write h fault before stamps task).1 ≡ none
      → is_hit h now (write h fault before stamps task).0 task ≡ (
          task.cache_policy == "inputs"
          && (signature h before task == signature h now task && outputs_exist now task.outputs))
  unfolding is_hit write update
  is_hit-write no_fault before now stamps task fine =
      elim (Bool-cases (task.cache_policy == "inputs")) [
        | inl e ↦ rw (e, eq_refl (stamp_path h task)) refl
        | inr e ↦ rw e refl
      ]
  is_hit-write (raises text none) before now stamps task fine =
      elim (Bool-cases (task.cache_policy == "inputs")) [
        | inl e ↦ absurd (cc (rw e at fine))
        | inr e ↦ rw e refl
      ]
  is_hit-write (raises text (some left)) before now stamps task fine =
      elim (Bool-cases (task.cache_policy == "inputs")) [
        | inl e ↦ absurd (cc (rw e at fine))
        | inr e ↦ rw e refl
      ]

  -- Writing the stamp of a task leaves every other stamp file alone, also where it raises.
  pub write-elsewhere :
      (fault : StampFault) (disk : Disk) (stamps : Stamps) (task : Task) (name : String)
      → stamp_path h task ≢ name
      → (write h fault disk stamps task).0 name ≡ stamps name
  unfolding write update
  write-elsewhere no_fault disk stamps task name differ =
      ground (arith, eq_iff (stamp_path h task) name)
  write-elsewhere (raises text none) disk stamps task name differ = ground arith
  write-elsewhere (raises text (some left)) disk stamps task name differ =
      ground (arith, eq_iff (stamp_path h task) name)

  -- A write that raises leaves the stamps as they were, or a stamp that it left.
  pub write-raises :
      (fault : StampFault) (disk : Disk) (stamps : Stamps) (task : Task) (text : String)
      → (write h fault disk stamps task).1 ≡ some text
      → ((write h fault disk stamps task).0 ≡ stamps)
        ⊎ ((left : Stamp) × (fault ≡ raises text (some left))
            × ((write h fault disk stamps task).0 ≡ update stamps (stamp_path h task) (some left)))
  unfolding write
  write-raises no_fault disk stamps task text e =
      elim (Bool-cases (task.cache_policy == "inputs")) [
        | inl p ↦ absurd (cc (rw p at e))
        | inr p ↦ inl (rw p refl)
      ]
  write-raises (raises said none) disk stamps task text e =
      elim (Bool-cases (task.cache_policy == "inputs")) [
        | inl p ↦ inl (rw p refl)
        | inr p ↦ inl (rw p refl)
      ]
  write-raises (raises said (some left)) disk stamps task text e =
      elim (Bool-cases (task.cache_policy == "inputs")) [
        | inl p ↦ let same : said ≡ text = cc (rw p at e) in inr (left, rw same refl, rw p refl)
        | inr p ↦ inl (rw p refl)
      ]

  -- Writing the stamp of a task leaves alone whether a task with another stamp file is a hit.
  pub is_hit-write_other :
      (fault : StampFault) (before now : Disk) (stamps : Stamps) (task another : Task)
      → stamp_path h task ≢ stamp_path h another
      → is_hit h now (write h fault before stamps task).0 another ≡ is_hit h now stamps another
  unfolding is_hit
  is_hit-write_other fault before now stamps task another differ =
      rw (write-elsewhere fault before stamps task (stamp_path h another) differ) refl

  path_records :
      (before now : Disk) (paths : List String)
      → All (λ p. before p ≡ now p) paths
      → map (path_record h before) paths ≡ map (path_record h now) paths
  unfolding path_record
  path_records before now [] same = refl
  path_records before now (p ∷ ps) (same, rest) =
      rw (path_record, same, path_records before now ps rest) refl

  pub signature-same :
      (before now : Disk) (task : Task)
      → All (λ p. before p ≡ now p) task.inputs
      → signature h before task ≡ signature h now task
  unfolding signature
  signature-same before now task same =
      rw (signature, path_records before now task.inputs same) refl

  -- A stamp that was written without an exception keeps a task a hit through every change of the disk
  -- that leaves its inputs as they were when the stamp was written and in which its outputs exist.
  pub is_hit-kept :
      (fault : StampFault) (before now : Disk) (stamps : Stamps) (task : Task)
      → task.cache_policy ≡ "inputs"
      → (write h fault before stamps task).1 ≡ none
      → All (λ p. before p ≡ now p) task.inputs
      → outputs_exist now task.outputs ≡ true
      → is_hit h now (write h fault before stamps task).0 task ≡ true
  is_hit-kept fault before now stamps task policy fine same there =
      is_hit-write fault before now stamps task fine
      ∙ ground (
        arith,
        eq_iff task.cache_policy "inputs",
        signature-same before now task same,
        eq_iff (signature h before task) (signature h now task),
      )

  outputs_exist-same :
      (before now : Disk) (paths : List String)
      → All (λ p. before p ≡ now p) paths
      → outputs_exist before paths ≡ outputs_exist now paths
  unfolding outputs_exist exists
  outputs_exist-same before now [] same = refl
  outputs_exist-same before now (p ∷ ps) (same, rest) =
      rw (exists, same, outputs_exist-same before now ps rest) refl

  -- Whether a task is a hit depends on nothing of the disk but its inputs and outputs.
  pub is_hit-same :
      (before now : Disk) (stamps : Stamps) (task : Task)
      → All (λ p. before p ≡ now p) task.inputs
      → All (λ p. before p ≡ now p) task.outputs
      → is_hit h before stamps task ≡ is_hit h now stamps task
  unfolding is_hit
  is_hit-same before now stamps task ins outs =
      ground
        (arith, signature-same before now task ins, outputs_exist-same before now task.outputs outs)
