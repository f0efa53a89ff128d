-- ===== src/Prelude/Walk/Fuel.antt =====
-- A walk over finitely many names ends, and meets only what its items lead to.
use smart_build.Prelude.Lists.{All, length}
use smart_build.Prelude.Tests.{Bool-cases, Option-cases}
use smart_build.Prelude.Texts.{elem, Distinct}
use smart_build.Prelude.Remaining.{remaining, remaining-le, length-remaining-snoc}
use smart_build.Prelude.Errors.{Result, ok, err, err-injective, Result-cases}
use smart_build.Prelude.Walk.{Walker, Walked, visit, visit_all, enter}
use smart_build.Prelude.Walk.Growth.{Grows, visit-Grows, Met}
use Prim.Native.Nat.{ℕ, zero, suc, ◌<◌}
use Prim.Native.String.{String}
use mathlib.Core.Path.{◌≡◌, ap, ◌∙◌}
use mathlib.Core.Logic.{inl, inr}
use mathlib.Core.Bool.{true}
use mathlib.Core.Option.{some}
use mathlib.Core.List.{List, [], ◌∷◌, ◌++◌}
use native.Mathlib.Omega.{arith}

module _ {E S I : Type 0} (k : Walker E S I) where
  -- An error of a walk is one that `note` raised at an item.
  abbrev pub Raised : (I → Type 0) → E → Type 0
  Raised Good e = (s : S) × (i : I) × Good i × (k.note s i ≡ err e)

  module _ (Good : I → Type 0)
      (kids : (i : I) (n : String) → Good i → k.target i ≡ some n → All Good (k.children n))
      (given : List String) (dis : Distinct given)
      (within : (i : I) (n : String) → k.target i ≡ some n → elem n given ≡ true) where
    abbrev Ends : ℕ → (Walked S → I → Result E (Walked S)) → Type 0
    Ends fuel v =
        (w : Walked S) (i : I) (e : E)
        → length (remaining w.met given) < fuel
        → Good i
        → v w i ≡ err e
        → Raised Good e

    abbrev Keeps : (Walked S → I → Result E (Walked S)) → Type 0
    Keeps v = (w w' : Walked S) (i : I) → v w i ≡ ok w' → Grows k w.met w'.met × Met k w'.met i

    pub visit_all-Ends :
        (fuel : ℕ) (v : Walked S → I → Result E (Walked S))
        → Keeps v
        → Ends fuel v
        → (w : Walked S) (is : List I) (e : E) → length (remaining w.met given) < fuel
        → All Good is
        → visit_all v w is ≡ err e
        → Raised Good e
    unfolding visit_all
    visit_all-Ends fuel v keeps ends w [] e room good h = absurd (cc h)
    visit_all-Ends fuel v keeps ends w (i ∷ is) e room (here, good) h =
        elim (Result-cases (v w i)) [
          | inl (w1, first) ↦
              visit_all-Ends fuel v keeps ends w1 is e
                (omega (arith, remaining-le w.met w1.met given (keeps w w1 i first).0.kept)) good
                (rw (first, visit_all) at h)
          | inr (e', raised) ↦ ends w i e room here (raised ∙ rw (raised, visit_all) at h)
        ]

    enter-Ends :
        (fuel : ℕ) (v : Walked S → I → Result E (Walked S))
        → Keeps v
        → Ends fuel v
        → (w : Walked S) (name : String) (e : E) → elem name given ≡ true
        → length (remaining w.met given) < suc fuel
        → All Good (k.children name)
        → enter k v w name ≡ err e
        → Raised Good e
    unfolding enter
    enter-Ends fuel v keeps ends w name e there room good h = elim (Bool-cases (elem name w.met)) [
      | inl old ↦ absurd (cc (rw (old, enter) at h))
      | inr new ↦
          visit_all-Ends fuel v keeps ends (record w { met = w.met ++ name ∷ [] }) (k.children name)
            e (omega (arith, length-remaining-snoc name w.met given dis there new)) good
            (rw (new, enter) at h)
    ]

    pub visit-Ends : (fuel : ℕ) → Ends fuel (visit k fuel)
    unfolding visit
    visit-Ends zero w i e room good h = absurd (omega arith)
    visit-Ends (suc fuel) w i e room good h = elim (Result-cases (k.note w.noted i)) [
      | inr (e', raised) ↦
          (w.noted, i, good, raised ∙ ap err (err-injective (rw (raised, visit) at h)))
      | inl (s, noted) ↦ elim (Option-cases (k.target i)) [
        | inl none_here ↦ absurd (cc (rw (noted, visit, none_here) at h))
        | inr (name, e_name) ↦
            enter-Ends fuel (visit k fuel) (visit-Grows k fuel) (visit-Ends fuel)
              (record w { noted = s }) name e (within i name e_name) room (kids i name good e_name)
              (rw (noted, visit, e_name) at h)
      ]
    ]
