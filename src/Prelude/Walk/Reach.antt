-- ===== src/Prelude/Walk/Reach.antt =====
-- A walk meets only names that its items lead to, and keeps what each note keeps.
use smart_build.Prelude.Lists.{All}
use smart_build.Prelude.Tests.{Bool-cases, Option-cases}
use smart_build.Prelude.Texts.{eq_iff, elem, ◌==◌}
use smart_build.Prelude.Remaining.{elem-snoc}
use smart_build.Prelude.Errors.{Result, ok, >>=-eq-ok, ok-injective}
use smart_build.Prelude.Walk.{Walker, Walked, visit, visit_all, enter}
use Prim.Native.Nat.{ℕ, zero, suc}
use Prim.Native.String.{String}
use mathlib.Core.Path.{◌≡◌, subst}
use mathlib.Core.Logic.{inl, inr}
use mathlib.Core.Bool.{true}
use mathlib.Core.Option.{some}
use mathlib.Core.List.{List, [], ◌∷◌, ◌++◌}
use native.Mathlib.Omega.{arith}

module _ {E S I : Type 0} (k : Walker E S I) (P : String → Type 0) (Q : S → Type 0)
    (noting : (s s' : S) (i : I) → k.note s i ≡ ok s' → Q s → Q s') where
  -- What the item stands for has the property.
  abbrev pub Leads : I → Type 0
  Leads i = (n : String) → k.target i ≡ some n → P n

  abbrev pub Sound : Walked S → Type 0
  Sound w = ((n : String) → elem n w.met ≡ true → P n) × Q w.noted

  module _ (listing : (m : String) → P m → All Leads (k.children m)) where
    abbrev Good : (Walked S → I → Result E (Walked S)) → Type 0
    Good v = (w w' : Walked S) (i : I) → v w i ≡ ok w' → Leads i → Sound w → Sound w'

    pub visit_all-Sound :
        (v : Walked S → I → Result E (Walked S))
        → Good v
        → (w w' : Walked S) (is : List I) → visit_all v w is ≡ ok w'
        → All Leads is
        → Sound w
        → Sound w'
    unfolding visit_all
    visit_all-Sound v good w w' [] h l s = subst Sound (ok-injective h) s
    visit_all-Sound v good w w' (i ∷ is) h (li, l) s =
        let (w1, first, rest) = >>=-eq-ok (v w i) (λ x. visit_all v x is) h in
        visit_all-Sound v good w1 w' is rest l (good w w1 i first li s)

    enter-Sound :
        (v : Walked S → I → Result E (Walked S))
        → Good v
        → (w w' : Walked S) (name : String) → enter k v w name ≡ ok w'
        → P name
        → Sound w
        → Sound w'
    unfolding enter
    enter-Sound v good w w' name h p s = elim (Bool-cases (elem name w.met)) [
      | inl old ↦ subst Sound (ok-injective (rw (old, enter) at h)) s
      | inr new ↦
          visit_all-Sound v good (record w { met = w.met ++ name ∷ [] }) w' (k.children name)
            (rw (new, enter) at h) (listing name p) (all_met, s.1)
    ]
      where
        all_met : (n : String) → elem n (w.met ++ name ∷ []) ≡ true → P n
        all_met n m = elim (Bool-cases (name == n)) [
          | inl e ↦ subst P ((eq_iff name n).0 e) p
          | inr e ↦ s.0 n (ground (arith, elem-snoc n name w.met))
        ]

    pub visit-Sound : (fuel : ℕ) → Good (visit k fuel)
    unfolding visit
    visit-Sound zero w w' i h l s = absurd (cc h)
    visit-Sound (suc fuel) w w' i h l (all_met, q) =
        let (noted, e, rest) = >>=-eq-ok (k.note w.noted i) _ h in
        let here = record w { noted = noted } in
        let q' = noting w.noted noted i e q in
        elim (Option-cases (k.target i)) [
          | inl absent ↦ subst Sound (ok-injective (rw absent at rest)) (all_met, q')
          | inr (name, present) ↦
              enter-Sound (visit k fuel) (visit-Sound fuel) here w' name (rw present at rest)
                (l name present) (all_met, q')
        ]
