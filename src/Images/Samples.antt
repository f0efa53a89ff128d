-- ===== src/Images/Samples.antt =====
-- The image of a small root file system.
use smart_build.Prelude.{ℕ, ◌+◌, ◌*◌, ◌^◌, ◌≤◌, String, true, List, [], ◌∷◌, none, some, ◌≡◌, refl}
use smart_build.Prelude.Texts.{update}
use smart_build.Prelude.Errors.{ok}
use smart_build.Images.{
  Content, file, link, content_size, image_size, round_power_of_two, bit_length, Outputs, regular,
  Runner, create, remove_stale_images, image_names, single_image_executor,
}
use smart_build.Images.Size.{round_power_of_two-least, IsRoomy, image_size-IsRoomy}
use smart_build.Images.Outputs.{Cleared, remove_stale_images-Cleared}
use smart_build.Images.Executor.{IsCleared, IsFile, single_image_executor-ok}

rounds_up : round_power_of_two 5000 ≡ 8192
unfolding round_power_of_two bit_length
rounds_up = refl

abbrev contents : List Content
contents = file 3000000 ∷ link 12 ∷ []

round_power_of_two-least_example :
    ((k : ℕ) × (round_power_of_two 5000 ≡ 2 ^ k))
    × (5000 ≤ round_power_of_two 5000)
    × ((j : ℕ) → 5000 ≤ 2 ^ j → round_power_of_two 5000 ≤ 2 ^ j)
round_power_of_two-least_example = round_power_of_two-least 5000

image_size-IsRoomy_example :
    IsRoomy (16 * 1048576) (image_size contents 16 "expandable" true)
    × IsRoomy (content_size contents * 4 + 8 * 1048576) (image_size contents 16 "expandable" true)
image_size-IsRoomy_example = image_size-IsRoomy contents 16 "expandable" true (λ e. cc)

abbrev outputs : Outputs
outputs =
    update (update (λ _. none) "rootfs.img" (some (regular 1 1 10))) "minirootfs.img"
      (some (regular 2 1 10))

remove_stale_images-Cleared_example :
    Cleared outputs "rootfs.img" image_names (remove_stale_images outputs "rootfs.img")
remove_stale_images-Cleared_example = remove_stale_images-Cleared outputs "rootfs.img"

abbrev runner : Runner
runner outputs = (outputs, 0)

abbrev after : Outputs
after = (single_image_executor runner true "ext4" 100 outputs).0

executed : single_image_executor runner true "ext4" 100 outputs ≡ (after, ok 0)
unfolding single_image_executor update
executed = refl

single_image_executor-ok_example :
    (◌≡◌ true true)
    × (◌≡◌ {A = String} "ext4" "ext4")
    × ((cleared : Outputs) × IsCleared outputs cleared
        × (runner (create cleared "rootfs.img" 100) ≡ (after, 0)))
    × IsFile after "rootfs.img"
single_image_executor-ok_example =
    single_image_executor-ok runner true "ext4" 100 outputs after 0 executed
