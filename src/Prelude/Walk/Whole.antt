-- ===== src/Prelude/Walk/Whole.antt =====
-- The three properties of a walk from its start.
use smart_build.Prelude.Lists.{All, length}
use smart_build.Prelude.Texts.{elem, count, Distinct}
use smart_build.Prelude.Remaining.{remaining-nil}
use smart_build.Prelude.Errors.{ok, err}
use smart_build.Prelude.Walk.{Walker, Walked, visit, walk}
use smart_build.Prelude.Walk.Growth.{Met, visit-Grows, visit_all-Grows}
use smart_build.Prelude.Walk.Fuel.{Raised, visit-Ends, visit_all-Ends}
use smart_build.Prelude.Walk.Reach.{Leads, Sound, visit-Sound, visit_all-Sound}
use Prim.Native.Nat.{ℕ, ◌<◌}
use Prim.Native.String.{String}
use mathlib.Core.Path.{◌≡◌, ap, refl}
use mathlib.Core.Bool.{true}
use mathlib.Core.Option.{some}
use mathlib.Core.List.{List, [], ◌∷◌}
use native.Mathlib.Omega.{arith}

All-Unit : {I : Type 0} → (is : List I) → All (λ _. Unit {0}) is
All-Unit [] = tt
All-Unit (i ∷ is) = (tt, All-Unit is)

module _ {E S I : Type 0} (k : Walker E S I) (fuel : ℕ) (s : S) (roots : List I) where
  -- The items and all that they list have been met, each name once.
  pub record IsClosed (met : List String) : Type 0 where
    pub started : All (Met k met) roots
    pub listed : (n : String) → elem n met ≡ true → All (Met k met) (k.children n)
    pub distinct : Distinct met

  pub walk-IsClosed : (w : Walked S) → walk k fuel s roots ≡ ok w → IsClosed w.met
  unfolding walk elem count
  walk-IsClosed w h =
      let (g, m) =
        visit_all-Grows k (visit k fuel) (visit-Grows k fuel) (record { noted = s; met = [] }) w
          roots h in
      record {
        started = m;
        listed = λ n here. g.listed n here refl;
        distinct = g.distinct (λ j. omega arith);
      }

  pub walk-Sound :
      (P : String → Type 0) (Q : S → Type 0)
      (noting : (a b : S) (i : I) → k.note a i ≡ ok b → Q a → Q b)
      → ((m : String) → P m → All (Leads k P Q noting) (k.children m))
      → All (Leads k P Q noting) roots
      → Q s
      → (w : Walked S) → walk k fuel s roots ≡ ok w
      → Sound k P Q noting w
  unfolding walk elem
  walk-Sound P Q noting listing l q w h =
      visit_all-Sound k P Q noting listing (visit k fuel) (visit-Sound k P Q noting listing fuel)
        (record { noted = s; met = [] }) w roots h l ((λ n m. cc), q)

  -- an error is raised at an item of a kind that the items are of and that goes over to what is
  -- listed
  pub walk-Raised :
      (Good : I → Type 0)
      → ((i : I) (n : String) → Good i → k.target i ≡ some n → All Good (k.children n))
      → (given : List String) → Distinct given
      → ((i : I) (n : String) → k.target i ≡ some n → elem n given ≡ true)
      → length given < fuel
      → All Good roots
      → (e : E) → walk k fuel s roots ≡ err e
      → Raised k Good e
  unfolding walk
  walk-Raised Good kids given dis within room good e h =
      visit_all-Ends k Good kids given dis within fuel (visit k fuel) (visit-Grows k fuel)
        (visit-Ends k Good kids given dis within fuel) (record { noted = s; met = [] }) roots e
        (omega (arith, ap length (remaining-nil given))) good h

  -- an error is raised at some item
  pub walk-Ends :
      (given : List String)
      → Distinct given
      → ((i : I) (n : String) → k.target i ≡ some n → elem n given ≡ true)
      → length given < fuel
      → (e : E) → walk k fuel s roots ≡ err e
      → (a : S) × (i : I) × (k.note a i ≡ err e)
  walk-Ends given dis within room e h =
      let (a, i, _, noted) =
        walk-Raised (λ _. Unit {0}) (λ _ n _ _. All-Unit (k.children n)) given dis within room
          (All-Unit roots) e h in
      (a, i, noted)
