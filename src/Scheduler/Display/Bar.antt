-- ===== src/Scheduler/Display/Bar.antt =====
-- The progress bar.
use smart_build.Prelude.{ℕ, zero, suc, ◌-◌, ◌*◌, ◌≤◌, String, ◌≡◌, ◌↔◌, refl, arith}
use Prim.Native.String.{len}
use text.Mathlib.TextPositions.{len-append}
use native.Mathlib.Nat.{div-lt_iff_lt-mul, mul-div_cancel}
use smart_build.Prelude.Numerals.{repeat}
use smart_build.Scheduler.Display.{bar, filled}

filled-le : (completed total : ℕ) → completed ≤ total → filled completed total ≤ 24
unfolding filled
filled-le completed zero h = omega arith
filled-le completed (suc n) h = omega (
  arith,
  (div-lt_iff_lt-mul {k = suc n} {x = 24 * completed} {y = 25} (omega arith)).1 (omega arith),
)

filled-eq_iff :
    (completed total : ℕ) → completed ≤ total → (filled completed total ≡ 24) ↔ (completed ≡ total)
unfolding filled
filled-eq_iff completed zero h = (λ e. omega arith, λ e. refl)
filled-eq_iff completed (suc n) h =
    let below = (div-lt_iff_lt-mul {k = suc n} {x = 24 * completed} {y = 24} (omega arith)).1 in
    let full = mul-div_cancel 24 {n = suc n} (omega arith) in
    (λ e. ground (arith, below), λ e. rw e full)

len-repeat : (text : String) (n : ℕ) → len (repeat text n) ≡ len text * n
unfolding repeat
len-repeat text zero = omega arith
len-repeat text (suc n) = grind (arith, len-append text (repeat text n), len-repeat text n)

len-bar : (completed total : ℕ) → completed ≤ total → len (bar completed total) ≡ 24
unfolding bar
len-bar completed total h =
    let f = filled completed total in
    omega (
      arith,
      len-append (repeat "#" f) (repeat "-" (24 - f)),
      len-repeat "#" f,
      len-repeat "-" (24 - f),
      filled-le completed total h,
    )

-- The bar has 24 characters, and all of them are filled exactly when everything is completed.
bar_lem :
    (completed total : ℕ)
    → completed ≤ total
    → (len (bar completed total) ≡ 24) × ((filled completed total ≡ 24) ↔ (completed ≡ total))
bar_lem completed total h = (len-bar completed total h, filled-eq_iff completed total h)
