-- ===== src/Prelude/Walk.antt =====
-- A depth-first walk that keeps the list of the names it has met, as three places of the program
-- write it: a nested function `visit` or `include` that returns early on a known name, appends a
-- new one, and calls itself on what the name lists. The caller gives what an item stands for
-- (`target`), what is written down before the early return (`note`, which may raise) and what a
-- name lists (`children`).
pub mod Growth
pub mod Fuel
pub mod Reach
pub mod Whole
pub mod Noted
use Prim.Native.Nat.{ℕ, zero, suc}
use Prim.Native.String.{String}
use mathlib.Core.Bool.{Bool, true, false}
use mathlib.Core.Option.{Option, none, some}
use mathlib.Core.List.{List, [], ◌∷◌, ◌++◌}
use smart_build.Prelude.Texts.{elem}
use smart_build.Prelude.Errors.{Result, ok, err, ◌>>=◌}

-- the state that `note` writes, and the names in the order in which they were met
pub record Walked (S : Type 0) : Type 0 where
  pub noted : S
  pub met : List String

pub record Walker (E S I : Type 0) : Type 0 where
  pub target : I → Option String
  pub note : S → I → Result E S
  pub children : String → List I
  pub stop : E

module _ {E S I : Type 0} where
  -- the loop over the items that a name lists
  unfoldable pub visit_all :
      (Walked S → I → Result E (Walked S)) → Walked S → List I → Result E (Walked S)
  visit_all visit w [] = ok w
  visit_all visit w (i ∷ is) = do w' ← visit w i; visit_all visit w' is

  -- A name already met is left; a new one is appended, and what it lists is visited.
  unfoldable pub enter :
      Walker E S I → (Walked S → I → Result E (Walked S)) → Walked S → String → Result E (Walked S)
  enter k visit w name = elim (elem name w.met) [
    | true ↦ ok w
    | false ↦ visit_all visit (record w { met = w.met ++ name ∷ [] }) (k.children name)
  ]

  -- An item that stands for no name is only noted.
  unfoldable pub visit : Walker E S I → ℕ → Walked S → I → Result E (Walked S)
  unfolding elem visit_all enter
  visit k zero w i = err k.stop
  visit k (suc fuel) w i = do
    s ← k.note w.noted i
    elim (k.target i) [
      | none ↦ ok (record w { noted = s })
      | some name ↦ enter k (visit k fuel) (record w { noted = s }) name
    ]

  -- The walk from a list of items, with nothing met yet.
  unfoldable pub walk : Walker E S I → ℕ → S → List I → Result E (Walked S)
  unfolding visit
  walk k fuel s roots = visit_all (visit k fuel) (record { noted = s; met = [] }) roots
