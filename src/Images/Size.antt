-- ===== src/Images/Size.antt =====
-- How large an image is.
use smart_build.Prelude.{
  ℕ, zero, suc, ◌+◌, ◌-◌, ◌*◌, ◌/◌, ◌^◌, ◌≤◌, ◌<◌, String, Bool, true, false, List, Bool-cases, inl,
  inr, ◌≡◌, ◌≢◌, refl, ap, ◌∙◌, arith, beq, leb, ltb, if_both,
}
use smart_build.Prelude.Texts.{◌==◌, eq_iff}
use native.Mathlib.Nat.{pow-zero, two-pow-succ, one-le-pow, pow-le-pow_right}
use smart_build.Images.{
  image_block, bit_length, round_power_of_two, Content, content_size, requested, rounded,
  image_size,
}

-- A number has no more bits than it needs.
bit_length-lt : (fuel n : ℕ) → n ≤ fuel → n < 2 ^ bit_length fuel n
unfolding bit_length
bit_length-lt zero n h = omega arith
bit_length-lt (suc fuel) n h = elim (Bool-cases (beq n 0)) [
  | inl e ↦ rw e (ground (arith, e))
  | inr e ↦ rw e (
      omega (
        arith,
        bit_length-lt fuel (n / 2) (ground (arith, e)),
        two-pow-succ (bit_length fuel (n / 2)),
      ))
]

bit_length-le : (fuel n j : ℕ) → n < 2 ^ j → bit_length fuel n ≤ j
unfolding bit_length
bit_length-le zero n j h = omega arith
bit_length-le (suc fuel) n zero h = ground (arith, pow-zero 2)
bit_length-le (suc fuel) n (suc j) h =
    if_both (λ x. x ≤ suc j) (beq n 0) (λ _. omega arith)
      (λ e. omega (arith, bit_length-le fuel (n / 2) j (omega (arith, two-pow-succ j))))

-- `_round_power_of_two` gives the least power of two that is not below the value.
pub round_power_of_two-least :
    (value : ℕ)
    → ((k : ℕ) × (round_power_of_two value ≡ 2 ^ k))
      × (value ≤ round_power_of_two value)
      × ((j : ℕ) → value ≤ 2 ^ j → round_power_of_two value ≤ 2 ^ j)
unfolding round_power_of_two
round_power_of_two-least value = elim (Bool-cases (leb value 1)) [
  | inl e ↦ rw e ((0, refl), ground (arith, e), λ j h. one-le-pow j 2 (omega arith))
  | inr e ↦ rw e (
    (bit_length value (value - 1), refl),
    ground (arith, e, bit_length-lt value (value - 1) (omega arith)),
    λ j h.
        pow-le-pow_right {n = 2} (omega arith)
          (bit_length-le value (value - 1) j (ground (arith, e, h))),
  )
]

pow_multiple : (k : ℕ) → 2 ^ (k + 20) ≡ 2 ^ k * 1048576
pow_multiple zero = refl
pow_multiple (suc k) =
    let moved : suc k + 20 ≡ suc (k + 20) = omega arith in
    ap (λ x. 2 ^ x) moved ∙ omega (arith, pow_multiple k, two-pow-succ (k + 20), two-pow-succ k)

power_multiple : (k : ℕ) → 1048576 ≤ 2 ^ k → (m : ℕ) × (2 ^ k ≡ m * 1048576)
power_multiple k h = elim (Bool-cases (ltb k 20)) [
  | inl below ↦ absurd (
      omega
        (arith, h, pow-le-pow_right {n = 2} (omega arith) {i = k} {j = 19} (ground (arith, below))))
  | inr above ↦
      let long : k ≡ k - 20 + 20 = ground (arith, above) in
      (2 ^ (k - 20), ap (λ x. 2 ^ x) long ∙ pow_multiple (k - 20))
]

-- the size has room for the contents and is a whole number of blocks
pub record IsRoomy (needed size : ℕ) : Type 0 where
  pub room : needed ≤ size
  pub blocks : (m : ℕ) × (size ≡ m * 1048576)

rounded-IsRoomy :
    (power_of_two : Bool) (needed : ℕ)
    → 1048576 ≤ needed
    → IsRoomy needed (rounded power_of_two ((needed + 1048576 - 1) / 1048576 * 1048576))
rounded-IsRoomy false needed h = record {
  room = omega arith;
  blocks = ((needed + 1048576 - 1) / 1048576, refl);
}
rounded-IsRoomy true needed h =
    let up = (needed + 1048576 - 1) / 1048576 * 1048576 in
    let ((k, power), above, least) = round_power_of_two-least up in
    record {
      room = omega (arith, above);
      blocks = let (m, e) = power_multiple k (omega (arith, above, power)) in (m, power ∙ e);
    }

-- An image that may expand has at least the configured size, and at least four times the size of the
-- contents and 8 MiB, and is a whole number of 1 MiB blocks, also when it is rounded to a power of two.
pub image_size-IsRoomy :
    (contents : List Content) (configured_size_mb : ℕ) (size_mode : String) (power_of_two : Bool)
    → size_mode ≢ "fixed"
    → IsRoomy
        (configured_size_mb * 1048576)
        (image_size contents configured_size_mb size_mode power_of_two)
      × IsRoomy
          (content_size contents * 4 + 8 * 1048576)
          (image_size contents configured_size_mb size_mode power_of_two)
unfolding image_size
image_size-IsRoomy contents configured_size_mb size_mode power_of_two open_mode =
    elim (Bool-cases (size_mode == "fixed")) [
      | inl fixed ↦ absurd (open_mode ((eq_iff size_mode "fixed").0 fixed))
      | inr expandable ↦
          let needed = requested contents (configured_size_mb * image_block) in
          let r = rounded-IsRoomy power_of_two needed (ground arith) in
          rw expandable (
            record { room = ground (arith, r.room); blocks = r.blocks },
            record { room = ground (arith, r.room); blocks = r.blocks },
          )
    ]
