-- ===== src/Prelude/Remaining.antt =====
-- Lists of names with some of them taken away.
use smart_build.Prelude.Texts.{
  count-append, ◌==◌, eq_iff, eq_refl, elem, count, elem-count, Distinct, Distinct-head,
  Distinct-tail,
}
use smart_build.Prelude.Lists.{All, length-append, filter, length}
use smart_build.Prelude.Tests.{if◌then◌else◌, Bool-cases}
use Prim.Native.Nat.{◌+◌, ◌≤◌}
use Prim.Native.String.{String}
use mathlib.Core.Path.{subst, ◌≡◌, refl, ap}
use mathlib.Core.Logic.{inl, inr}
use mathlib.Core.Bool.{Bool, true, false, not}
use mathlib.Core.List.{append-nil, append_assoc, List, [], ◌∷◌, ◌++◌}
use native.Mathlib.Omega.{arith}

-- What of `given` is not among `done`.
abbrev pub remaining : List String → List String → List String
remaining done given = filter (λ i. not (elem i done)) given

pub elem-snoc :
    (i x : String) (done : List String)
    → elem i (done ++ x ∷ []) ≡ (if x == i then true else elem i done)
unfolding elem
elem-snoc i x [] = ground arith
elem-snoc i x (d ∷ done) = ground (arith, elem-snoc i x done)

pub count-filter :
    (p : String → Bool) (i : String) (xs : List String)
    → count i (filter p xs) ≡ (if p i then count i xs else 0)
unfolding count
count-filter p i [] = ground arith
count-filter p i (x ∷ xs) = elim (Bool-cases (x == i)) [
  | inl e ↦ ground (arith, ap p ((eq_iff x i).0 e), eq_refl i, count-filter p i xs)
  | inr e ↦ ground (arith, count-filter p i xs)
]

pub filter_ext :
    (p q : String → Bool) (xs : List String)
    → ((i : String) → elem i xs ≡ true → p i ≡ q i)
    → filter p xs ≡ filter q xs
unfolding elem
filter_ext p q [] h = refl
filter_ext p q (x ∷ xs) h =
    ground (arith, h x (ground (arith, eq_refl x)), filter_ext p q xs (λ i m. h i (ground arith)))

remaining-snoc_absent :
    (x : String) (done xs : List String)
    → elem x xs ≡ false
    → remaining (done ++ x ∷ []) xs ≡ remaining done xs
remaining-snoc_absent x done xs h =
    filter_ext _ _ xs λ i m. ground (arith, elem-snoc i x done, eq_iff x i)

-- Placing a new task takes it from what remains.
pub count-remaining-snoc :
    (j x : String) (done xs : List String)
    → elem x xs ≡ true
    → elem x done ≡ false
    → Distinct xs
    → count j (remaining (done ++ x ∷ []) xs) + count j (x ∷ []) ≡ count j (remaining done xs)
unfolding count elem
count-remaining-snoc j x done xs m n dis = ground (
  arith,
  count-filter (λ i. not (elem i (done ++ x ∷ []))) j xs,
  count-filter (λ i. not (elem i done)) j xs,
  elem-snoc j x done,
  eq_iff x j,
  elem-count j xs,
  dis j,
)

pub length-remaining-snoc :
    (x : String) (done xs : List String)
    → Distinct xs
    → elem x xs ≡ true
    → elem x done ≡ false
    → length (remaining (done ++ x ∷ []) xs) + 1 ≡ length (remaining done xs)
length-remaining-snoc x done [] dis m n = absurd (unfold elem in cc m)
length-remaining-snoc x done (i ∷ xs) dis m n = elim (Bool-cases (x == i)) [
  | inl here ↦
      let out : elem x xs ≡ false = rw ((eq_iff x i).0 here) (Distinct-head i xs dis) in
      ground (arith, elem-snoc i x done, (eq_iff x i).0 here, remaining-snoc_absent x done xs out)
  | inr other ↦
      let later : elem x xs ≡ true = unfold elem in ground (arith, eq_iff x i, eq_iff i x) in
      ground (
        arith,
        elem-snoc i x done,
        length-remaining-snoc x done xs (Distinct-tail i xs dis) later n,
      )
]

-- The more is taken away, the less remains.
pub remaining-le :
    (xs ys given : List String)
    → ((i : String) → elem i xs ≡ true → elem i ys ≡ true)
    → length (remaining ys given) ≤ length (remaining xs given)
remaining-le xs ys [] h = omega arith
remaining-le xs ys (g ∷ given) h = ground (arith, h g, remaining-le xs ys given h)

pub remaining-nil : (xs : List String) → remaining [] xs ≡ xs
unfolding elem
remaining-nil [] = refl
remaining-nil (x ∷ xs) = ap (◌∷◌ x) (remaining-nil xs)

-- `done` and what remains of `given` make up `given`.
pub record IsPart (given done : List String) : Type 0 where
  pub counts : (j : String) → count j done + count j (remaining done given) ≡ count j given
  pub lengths : length done + length (remaining done given) ≡ length given

pub IsPart-nil : (given : List String) → IsPart given []
unfolding count
IsPart-nil given = record {
  counts = λ j. omega (arith, ap (count j) (remaining-nil given));
  lengths = omega (arith, ap length (remaining-nil given));
}

pub IsPart-snoc :
    (given done : List String) (x : String)
    → Distinct given
    → elem x given ≡ true
    → elem x done ≡ false
    → IsPart given done
    → IsPart given (done ++ x ∷ [])
IsPart-snoc given done x dis m new p = record {
  counts = λ j. omega (
    arith,
    p.counts j,
    count-append j done (x ∷ []),
    count-remaining-snoc j x done given m new dis,
  );
  lengths =
      omega (
        arith,
        p.lengths,
        length-append done (x ∷ []),
        length-remaining-snoc x done given dis m new,
      );
}

still_new :
    (x : String) (done xs : List String)
    → elem x xs ≡ false
    → All (λ y. elem y done ≡ false) xs
    → All (λ y. elem y (done ++ x ∷ []) ≡ false) xs
unfolding elem
still_new x done [] a n = tt
still_new x done (y ∷ xs) a n = (
  ground (arith, elem-snoc y x done, eq_iff x y, eq_iff y x, n.0),
  still_new x done xs (ground (arith)) n.1,
)

pub IsPart-append :
    (given done xs : List String)
    → Distinct given
    → Distinct xs
    → All (λ x. elem x given ≡ true) xs
    → All (λ x. elem x done ≡ false) xs
    → IsPart given done
    → IsPart given (done ++ xs)
IsPart-append given done [] dis dx m n p = rw append-nil p
IsPart-append given done (x ∷ xs) dis dx (mx, m) (nx, n) p =
    subst (IsPart given) (append_assoc done (x ∷ []) xs) (
      IsPart-append given (done ++ x ∷ []) xs dis (Distinct-tail x xs dx) m
        (still_new x done xs (Distinct-head x xs dx) n) (IsPart-snoc given done x dis mx nx p))
