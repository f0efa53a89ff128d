-- ===== src/Prelude/Walk/Growth.antt =====
-- What a walk that returns has met.
use smart_build.Prelude.Lists.{All, All-map}
use smart_build.Prelude.Tests.{Bool-cases, Option-cases}
use smart_build.Prelude.Texts.{
  eq_iff, eq_refl, elem, Distinct, count, count-append, elem-count, ◌==◌,
}
use smart_build.Prelude.Remaining.{elem-snoc}
use smart_build.Prelude.Errors.{Result, ok, >>=-eq-ok, ok-injective}
use smart_build.Prelude.Walk.{Walker, Walked, visit, visit_all, enter}
use Prim.Native.Nat.{ℕ, zero, suc}
use Prim.Native.String.{String}
use mathlib.Core.Path.{◌≡◌, subst}
use mathlib.Core.Logic.{inl, inr}
use mathlib.Core.Bool.{true, false}
use mathlib.Core.Option.{some}
use mathlib.Core.List.{List, [], ◌∷◌, ◌++◌}
use native.Mathlib.Omega.{arith}

module _ {E S I : Type 0} (k : Walker E S I) where
  -- `note` let the item pass, and the name that it stands for has been met.
  abbrev pub Met : List String → I → Type 0
  Met met i =
      ((a b : S) × (k.note a i ≡ ok b)) × ((n : String) → k.target i ≡ some n → elem n met ≡ true)

  -- From `old` to `new` names were only added, and what they list has been met too.
  pub record Grows (old new : List String) : Type 0 where
    pub kept : (n : String) → elem n old ≡ true → elem n new ≡ true
    pub distinct : Distinct old → Distinct new
    pub listed :
        (n : String) → elem n new ≡ true → elem n old ≡ false → All (Met new) (k.children n)

  Grows-refl : (met : List String) → Grows met met
  Grows-refl met = record { kept = λ n m. m; distinct = λ d. d; listed = λ n m o. cc }

  Met-grows :
      (old new : List String) (g : (n : String) → elem n old ≡ true → elem n new ≡ true) (i : I)
      → Met old i
      → Met new i
  Met-grows old new g i h = (h.0, λ n e. g n (h.1 n e))

  Grows-trans : (a b c : List String) → Grows a b → Grows b c → Grows a c
  Grows-trans a b c g h = record {
    kept = λ n m. h.kept n (g.kept n m);
    distinct = λ d. h.distinct (g.distinct d);
    listed = λ n m o. elim (Bool-cases (elem n b)) [
      | inl e ↦ All-map (Met-grows b c h.kept) (k.children n) (g.listed n e o)
      | inr e ↦ h.listed n m e
    ];
  }

  -- A new name, and then all that it lists.
  Grows-cons :
      (name : String) (old new : List String)
      → elem name old ≡ false
      → Grows (old ++ name ∷ []) new
      → All (Met new) (k.children name)
      → Grows old new
  Grows-cons name old new o g all_met = record {
    kept = λ n m. g.kept n (ground (arith, elem-snoc n name old));
    distinct = λ d. g.distinct (λ j.
        unfold count in
        ground (arith, d j, count-append j old (name ∷ []), elem-count j old, eq_iff name j));
    listed = λ n m absent. elim (Bool-cases (name == n)) [
      | inl e ↦ subst (λ x. All (Met new) (k.children x)) ((eq_iff name n).0 e) all_met
      | inr e ↦ g.listed n m (ground (arith, elem-snoc n name old))
    ];
  }

  abbrev Good : (Walked S → I → Result E (Walked S)) → Type 0
  Good v = (w w' : Walked S) (i : I) → v w i ≡ ok w' → Grows w.met w'.met × Met w'.met i

  pub visit_all-Grows :
      (v : Walked S → I → Result E (Walked S))
      → Good v
      → (w w' : Walked S) (is : List I) → visit_all v w is ≡ ok w'
      → Grows w.met w'.met × All (Met w'.met) is
  unfolding visit_all
  visit_all-Grows v good w w' [] h =
      (subst (λ x. Grows w.met x.met) (ok-injective h) (Grows-refl w.met), tt)
  visit_all-Grows v good w w' (i ∷ is) h =
      let (w1, first, rest) = >>=-eq-ok (v w i) (λ x. visit_all v x is) h in
      let (g, m) = good w w1 i first in
      let (g', ms) = visit_all-Grows v good w1 w' is rest in
      (Grows-trans w.met w1.met w'.met g g', (Met-grows w1.met w'.met g'.kept i m, ms))

  enter-Grows :
      (v : Walked S → I → Result E (Walked S))
      → Good v
      → (w w' : Walked S) (name : String) → enter k v w name ≡ ok w'
      → Grows w.met w'.met × (elem name w'.met ≡ true)
  unfolding enter
  enter-Grows v good w w' name h = elim (Bool-cases (elem name w.met)) [
    | inl e ↦
        subst (λ (x : Walked S). Grows w.met x.met × (elem name x.met ≡ true))
          (ok-injective (rw (e, enter) at h)) (Grows-refl w.met, e)
    | inr e ↦
        let longer = record w { met = w.met ++ name ∷ [] } in
        let (g, ms) = visit_all-Grows v good longer w' (k.children name) (rw (e, enter) at h) in
        (
          Grows-cons name w.met w'.met e g ms,
          g.kept name (ground (arith, elem-snoc name name w.met, eq_refl name)),
        )
  ]

  pub visit-Grows : (fuel : ℕ) → Good (visit k fuel)
  unfolding visit
  visit-Grows zero w w' i h = absurd (cc h)
  visit-Grows (suc fuel) w w' i h =
      let (s, noted, rest) = >>=-eq-ok (k.note w.noted i) _ h in
      elim (Option-cases (k.target i)) [
        | inl e ↦
            let same : record w { noted = s } ≡ w' = ok-injective (rw e at rest) in
            (
              subst (λ (x : Walked S). Grows w.met x.met) same (Grows-refl w.met),
              ((w.noted, s, noted), λ n t. cc),
            )
        | inr (name, e) ↦
            let (g, m) =
              enter-Grows (visit k fuel) (visit-Grows fuel) (record w { noted = s }) w' name
                (rw e at rest) in
            (
              g,
              (
                (w.noted, s, noted),
                λ n t. let same : name ≡ n = cc in subst (λ x. elem x w'.met ≡ true) same m,
              ),
            )
      ]
