-- ===== src/Images.antt =====
-- src/smart_build/domains/image.py. The images directory is a function from paths to what stands
-- there; what `rglob` lists of the root file system is given with its sizes, and so is the runner of
-- the image command. The fields of the task that the executor reads are its arguments.
pub mod Size
pub mod Outputs
pub mod Executor
mod Samples
use smart_build.Prelude.{
  ℕ, zero, suc, ◌+◌, ◌-◌, ◌*◌, ◌/◌, ◌%◌, ◌^◌, String, Bool, true, false, not, List, [], ◌∷◌, Option,
  none, some, ltb, leb, beq, if◌then◌else◌, ◌&&◌,
}
use smart_build.Prelude.Texts.{◌==◌, update}
use smart_build.Prelude.Errors.{Result, ok, err}

abbrev pub image_block : ℕ
image_block = 1024 * 1024

-- `int.bit_length`, on fuel: a number has fewer bits than its value
unfoldable pub bit_length : (fuel n : ℕ) → ℕ
bit_length zero n = 0
bit_length (suc fuel) n = let rest = bit_length fuel (n / 2) in if beq n 0 then 0 else suc rest

unfoldable pub round_power_of_two : ℕ → ℕ
unfolding bit_length
round_power_of_two value = if leb value 1 then 1 else 2 ^ bit_length value (value - 1)

-- what `rglob` lists: a file with its size, a symbolic link that names no file, with the length of
-- its target, or something else
pub data Content : Type 0 where
  file link : ℕ → Content
  something : Content

unfoldable pub content_size : List Content → ℕ
content_size [] = 0
content_size (file n ∷ rest) = n + content_size rest
content_size (link n ∷ rest) = n + content_size rest
content_size (something ∷ rest) = content_size rest

abbrev pub max : ℕ → ℕ → ℕ
max a b = if ltb a b then b else a

abbrev pub rounded : Bool → ℕ → ℕ
rounded power_of_two size = if power_of_two then round_power_of_two size else size

abbrev pub requested : List Content → ℕ → ℕ
requested contents configured_size =
    max configured_size (content_size contents * 4 + 8 * image_block)

unfoldable pub image_size :
    List Content → (configured_size_mb : ℕ) → (size_mode : String) → (power_of_two : Bool) → ℕ
unfolding round_power_of_two content_size
image_size contents configured_size_mb size_mode power_of_two =
    let configured_size = configured_size_mb * image_block in
    if size_mode == "fixed"
    then rounded power_of_two configured_size
    else rounded power_of_two
        ((requested contents configured_size + image_block - 1) / image_block * image_block)

-- a symbolic link, a file with its inode, its number of links and its size, or something else
pub data Output : Type 0 where
  -- with the size of the file that the link leads to, if it leads to one
  symlink : (target : Option ℕ) → Output
  regular : (inode links size : ℕ) → Output
  special : Output

abbrev pub Outputs : Type 0
Outputs = String → Option Output

pub data ImageError : Type 0 where
  refusing_symlink refusing_non_file refusing_hardlink : (path : String) → ImageError
  rootfs_not_found not_created : (path : String) → ImageError
  not_implemented : (filesystem : String) → ImageError
  creation_failed : (exit_code : ℕ) → ImageError

abbrev pub unlink : Outputs → String → Outputs
unlink outputs path = update outputs path none

-- `_prepare_new_output` and `_remove_stale_image`, whose checks are the same
unfoldable pub remove_output : Outputs → String → Outputs × Result ImageError (Unit {0})
unfolding update
remove_output outputs path = elim (outputs path) [
  | none ↦ (outputs, ok tt)
  | some (symlink _) ↦ (outputs, err (refusing_symlink path))
  | some special ↦ (outputs, err (refusing_non_file path))
  | some (regular _ links _) ↦
      if ltb 1 links then (outputs, err (refusing_hardlink path)) else (unlink outputs path, ok tt)
]

abbrev pub image_names : List String
image_names = "minirootfs.img" ∷ "busybox-rootfs.img" ∷ "rootfs.img" ∷ []

-- the loop of `_remove_stale_images`
unfoldable pub remove_stale :
    Outputs → String → List String → Outputs × Result ImageError (Unit {0})
unfolding remove_output
remove_stale outputs current_name [] = (outputs, ok tt)
remove_stale outputs current_name (name ∷ names) =
    let (after, removed) = remove_output outputs name in
    let kept = remove_stale outputs current_name names in
    let others = remove_stale after current_name names in
    if name == current_name then kept else elim removed [ err e ↦ (after, err e) | ok _ ↦ others ]

unfoldable pub remove_stale_images : Outputs → String → Outputs × Result ImageError (Unit {0})
unfolding remove_stale
remove_stale_images outputs current_name = remove_stale outputs current_name image_names

-- the image command: what it leaves, and its exit code
abbrev pub Runner : Type 0
Runner = Outputs → Outputs × ℕ

-- `handle.truncate(size)` on a new file
abbrev pub create : Outputs → String → ℕ → Outputs
create outputs path size = update outputs path (some (regular 0 1 size))

-- `stat().st_size` where `is_file()` holds; both follow a link
abbrev pub file_size : Option Output → Option ℕ
file_size (some (regular _ _ size)) = some size
file_size (some (symlink target)) = target
file_size _ = none

-- the last checks of the executor
abbrev pub check_image : String → Outputs × ℕ → Outputs × Result ImageError ℕ
check_image image (outputs, exit_code) =
    if not (beq exit_code 0)
    then (outputs, err (creation_failed exit_code))
    else elim (file_size (outputs image)) [
      | some size ↦ if beq size 0 then (outputs, err (not_created image)) else (outputs, ok 0)
      | none ↦ (outputs, err (not_created image))
    ]

-- what the executor does once the directory is cleared
abbrev pub run_image :
    Runner → String → ℕ → Outputs × Result ImageError (Unit {0}) → Outputs × Result ImageError ℕ
run_image runner image size (outputs, err e) = (outputs, err e)
run_image runner image size (outputs, ok _) = check_image image (runner (create outputs image size))

abbrev pub clear :
    String → Outputs × Result ImageError (Unit {0}) → Outputs × Result ImageError (Unit {0})
clear image (outputs, err e) = (outputs, err e)
clear image (outputs, ok _) = remove_output outputs image

-- `_make_single_image_executor`, for the image `rootfs.img`
unfoldable pub single_image_executor :
    Runner
    → (has_rootfs_dir : Bool) → (filesystem : String) → (size : ℕ) → Outputs
    → Outputs × Result ImageError ℕ
unfolding remove_stale_images
single_image_executor runner has_rootfs_dir filesystem size outputs =
    if not has_rootfs_dir
    then (outputs, err (rootfs_not_found "rootfs"))
    else if not (filesystem == "ext4")
    then (outputs, err (not_implemented filesystem))
    else run_image runner "rootfs.img" size
        (clear "rootfs.img" (remove_stale_images outputs "rootfs.img"))
