-- ===== src/Prelude/Walk/Noted.antt =====
-- What the notes of a walk leave true of every item that it passed.
use smart_build.Prelude.Lists.{All, All-map}
use smart_build.Prelude.Tests.{Bool-cases, Option-cases}
use smart_build.Prelude.Texts.{eq_iff, elem, ◌==◌}
use smart_build.Prelude.Remaining.{elem-snoc}
use smart_build.Prelude.Errors.{Result, ok, >>=-eq-ok, ok-injective}
use smart_build.Prelude.Walk.{Walker, Walked, visit, visit_all, enter, walk}
use Prim.Native.Nat.{ℕ, zero, suc}
use Prim.Native.String.{String}
use mathlib.Core.Path.{◌≡◌, subst, refl}
use mathlib.Core.Logic.{inl, inr}
use mathlib.Core.Bool.{true, false}
use mathlib.Core.List.{List, [], ◌∷◌, ◌++◌}
use native.Mathlib.Omega.{arith}

-- A note makes `Noted` true of its item, and no later note makes it false again.
module _ {E S I : Type 0} (k : Walker E S I) (Noted : S → I → Type 0)
    (made : (a b : S) (i : I) → k.note a i ≡ ok b → Noted b i)
    (kept : (a b : S) (i j : I) → k.note a j ≡ ok b → Noted a i → Noted b i) where
  record Notes (old new : Walked S) : Type 0 where
    stays : (i : I) → Noted old.noted i → Noted new.noted i
    listed :
        (n : String)
        → elem n new.met ≡ true
        → elem n old.met ≡ false
        → All (Noted new.noted) (k.children n)

  Notes-refl : (w : Walked S) → Notes w w
  Notes-refl w = record { stays = λ i q. q; listed = λ n m o. cc }

  Notes-trans : (a b c : Walked S) → Notes a b → Notes b c → Notes a c
  Notes-trans a b c g h = record {
    stays = λ i q. h.stays i (g.stays i q);
    listed = λ n m o. elim (Bool-cases (elem n b.met)) [
      | inl e ↦ All-map h.stays (k.children n) (g.listed n e o)
      | inr e ↦ h.listed n m e
    ];
  }

  Notes-cons :
      (name : String) (w new : Walked S)
      → Notes (record w { met = w.met ++ name ∷ [] }) new
      → All (Noted new.noted) (k.children name)
      → Notes w new
  Notes-cons name w new h items = record {
    stays = h.stays;
    listed = λ n m o. elim (Bool-cases (name == n)) [
      | inl e ↦ subst (λ x. All (Noted new.noted) (k.children x)) ((eq_iff name n).0 e) items
      | inr e ↦ h.listed n m (ground (arith, elem-snoc n name w.met))
    ];
  }

  abbrev Good : (Walked S → I → Result E (Walked S)) → Type 0
  Good v = (w w' : Walked S) (i : I) → v w i ≡ ok w' → Notes w w' × Noted w'.noted i

  visit_all-Notes :
      (v : Walked S → I → Result E (Walked S))
      → Good v
      → (w w' : Walked S) (is : List I) → visit_all v w is ≡ ok w'
      → Notes w w' × All (Noted w'.noted) is
  unfolding visit_all
  visit_all-Notes v good w w' [] h = (subst (Notes w) (ok-injective h) (Notes-refl w), tt)
  visit_all-Notes v good w w' (i ∷ is) h =
      let (w1, first, rest) = >>=-eq-ok (v w i) (λ x. visit_all v x is) h in
      let (g, q) = good w w1 i first in
      let (g', qs) = visit_all-Notes v good w1 w' is rest in
      (Notes-trans w w1 w' g g', (g'.stays i q, qs))

  enter-Notes :
      (v : Walked S → I → Result E (Walked S))
      → Good v
      → (w w' : Walked S) (name : String) → enter k v w name ≡ ok w'
      → Notes w w'
  unfolding enter
  enter-Notes v good w w' name h = elim (Bool-cases (elem name w.met)) [
    | inl old ↦ subst (Notes w) (ok-injective (rw (old, enter) at h)) (Notes-refl w)
    | inr new ↦
        let longer = record w { met = w.met ++ name ∷ [] } in
        let (g, qs) = visit_all-Notes v good longer w' (k.children name) (rw (new, enter) at h) in
        Notes-cons name w w' g qs
  ]

  visit-Notes : (fuel : ℕ) → Good (visit k fuel)
  unfolding visit
  visit-Notes zero w w' i h = absurd (cc h)
  visit-Notes (suc fuel) w w' i h =
      let (s, noted, rest) = >>=-eq-ok (k.note w.noted i) _ h in
      let here = record w { noted = s } in
      let q = made w.noted s i noted in
      let first : Notes w here = record {
        stays = λ j p. kept w.noted s j i noted p;
        listed = λ n m o. cc;
      } in
      elim (Option-cases (k.target i)) [
        | inl absent ↦
            subst (λ x. Notes w x × Noted x.noted i) (ok-injective (rw absent at rest)) (first, q)
        | inr (name, present) ↦
            let g =
              enter-Notes (visit k fuel) (visit-Notes fuel) here w' name (rw present at rest) in
            (Notes-trans w here w' first g, g.stays i q)
      ]

  -- `Noted` holds of the items from which the walk starts and of all that a met name lists.
  pub walk-Noted :
      (fuel : ℕ) (s : S) (roots : List I) (w : Walked S)
      → walk k fuel s roots ≡ ok w
      → All (Noted w.noted) roots
        × ((n : String) → elem n w.met ≡ true → All (Noted w.noted) (k.children n))
  unfolding walk elem
  walk-Noted fuel s roots w h =
      let (g, qs) =
        visit_all-Notes (visit k fuel) (visit-Notes fuel) (record { noted = s; met = [] }) w roots
          h in
      (qs, λ n m. g.listed n m refl)
