-- ===== src/Images/Executor.antt =====
-- What the executor of an image task returns.
use smart_build.Prelude.{
  ℕ, ◌<◌, String, Bool, true, none, some, Bool-cases, Option-cases, inl, inr, ◌⊎◌, ◌≡◌, refl, sym,
  ap, ◌∙◌, arith, All, beq,
}
use mathlib.Core.Path.{subst}
use smart_build.Prelude.Texts.{◌==◌, eq_iff}
use smart_build.Prelude.Errors.{Result, ok, err}
use smart_build.Images.{
  file_size, Outputs, ImageError, Runner, create, check_image, run_image, clear, remove_output,
  remove_stale_images, single_image_executor, image_names,
}
use smart_build.Images.Outputs.{
  OnlyPlainRemoved, OnlyPlainRemoved-trans, Removal, remove_output-Removal, Cleared,
  remove_stale_images-Cleared, gone_stays,
}

-- a file that is not empty, or a link that leads to one
abbrev pub IsFile : Outputs → String → Type 0
IsFile outputs path = (size : ℕ) × (file_size (outputs path) ≡ some size) × (0 < size)

check_image-ok :
    (image : String) (outputs : Outputs) (exit_code : ℕ) (after : Outputs) (code : ℕ)
    → check_image image (outputs, exit_code) ≡ (after, ok code)
    → (outputs ≡ after) × (exit_code ≡ 0) × IsFile after image
check_image-ok image outputs exit_code after code h = elim (Bool-cases (beq exit_code 0)) [
  | inr bad ↦ absurd (cc (ap (λ x. x.1) (rw bad at h)))
  | inl fine ↦ elim (Option-cases (file_size (outputs image))) [
    | inl absent ↦ absurd (cc (ap (λ x. x.1) (rw (fine, absent) at h)))
    | inr (z, here) ↦ elim (Bool-cases (beq z 0)) [
      | inl empty ↦ absurd (cc (ap (λ x. x.1) (rw (fine, here, empty) at h)))
      | inr filled ↦
          let same : outputs ≡ after = ap (λ x. x.0) (rw (fine, here, filled) at h) in
          (
            same,
            ground (arith, fine),
            (z, ap (λ f. file_size (f image)) (sym same) ∙ here, ground (arith, filled)),
          )
    ]
  ]
]

pair_eq : {a b : Outputs} {m n : ℕ} → a ≡ b → m ≡ n → ◌≡◌ {A = Outputs × ℕ} (a, m) (b, n)
pair_eq same equal = rw (same, equal) refl

run_image-ok :
    (runner : Runner) (image : String) (size : ℕ) (ready : Outputs × Result ImageError (Unit {0}))
    (after : Outputs) (code : ℕ)
    → run_image runner image size ready ≡ (after, ok code)
    → (ready.1 ≡ ok tt) × (runner (create ready.0 image size) ≡ (after, 0)) × IsFile after image
run_image-ok runner image size (outputs, err e) after code h = absurd (cc (ap (λ x. x.1) h))
run_image-ok runner image size (outputs, ok _) after code h =
    let done = runner (create outputs image size) in
    let (same, success, file) = check_image-ok image done.0 done.1 after code h in
    (refl, pair_eq same success, file)

-- the directory is cleared of all images
abbrev pub IsCleared : Outputs → Outputs → Type 0
IsCleared before cleared =
    OnlyPlainRemoved before cleared × All (λ name. cleared name ≡ none) image_names

clear-IsCleared :
    (before : Outputs) (stale : Outputs × Result ImageError (Unit {0}))
    → Cleared before "rootfs.img" image_names stale
    → (clear "rootfs.img" stale).1 ≡ ok tt
    → IsCleared before (clear "rootfs.img" stale).0
clear-IsCleared before (outputs, err e) cleared h = absurd (cc h)
clear-IsCleared before (outputs, ok _) (first, kept, (mini, (busybox, own))) h =
    let done = remove_output outputs "rootfs.img" in
    let (absent, more, others) =
      subst (λ r. Removal outputs "rootfs.img" (done.0, r)) h
        (remove_output-Removal outputs "rootfs.img") in
    let gone : (name : String)
        → (name ≡ "rootfs.img") ⊎ (outputs name ≡ none)
        → done.0 name ≡ none =
      λ name e. elim e [
        | inl same ↦ ap done.0 same ∙ absent
        | inr before_gone ↦ gone_stays outputs done.0 name more before_gone
      ] in
    (
      OnlyPlainRemoved-trans before outputs done.0 first more,
      (gone "minirootfs.img" mini, (gone "busybox-rootfs.img" busybox, (absent, tt))),
    )

-- If the executor returns, then the root file system was there and its format is ext4; the runner
-- was called on a directory from which all images and nothing but plain files were removed and in
-- which the image is a new file of the given size; it ended with 0; and what it left is a file that
-- is not empty, or a link that leads to one.
pub single_image_executor-ok :
    (runner : Runner) (has_rootfs_dir : Bool) (filesystem : String) (size : ℕ)
    (before after : Outputs) (code : ℕ)
    → single_image_executor runner has_rootfs_dir filesystem size before ≡ (after, ok code)
    → (has_rootfs_dir ≡ true)
      × (filesystem ≡ "ext4")
      × ((cleared : Outputs) × IsCleared before cleared
          × (runner (create cleared "rootfs.img" size) ≡ (after, 0)))
      × IsFile after "rootfs.img"
unfolding single_image_executor
single_image_executor-ok runner has_rootfs_dir filesystem size before after code h =
    elim (Bool-cases has_rootfs_dir) [
      | inr missing ↦ absurd (cc (ap (λ x. x.1) (rw (single_image_executor, missing) at h)))
      | inl there ↦ elim (Bool-cases (filesystem == "ext4")) [
        | inr other ↦ absurd (cc (ap (λ x. x.1) (rw (single_image_executor, there, other) at h)))
        | inl ext4 ↦
            let ready = clear "rootfs.img" (remove_stale_images before "rootfs.img") in
            let (fine, ran, file) =
              run_image-ok runner "rootfs.img" size ready after code
                (rw (single_image_executor, there, ext4) at h) in
            (
              there,
              (eq_iff filesystem "ext4").0 ext4,
              (
                ready.0,
                clear-IsCleared before (remove_stale_images before "rootfs.img")
                    (remove_stale_images-Cleared before "rootfs.img") fine,
                ran,
              ),
              file,
            )
      ]
    ]
