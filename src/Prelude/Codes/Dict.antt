-- ===== src/Prelude/Codes/Dict.antt =====
-- Dicts with texts as keys, in insertion order.
use mathlib.Core.Path.{◌≡◌, refl}
use mathlib.Core.List.{List, [], ◌∷◌, ◌++◌}
use mathlib.Core.Option.{Option, none, some}
use native.Mathlib.Omega.{arith}
use smart_build.Prelude.Tests.{if◌then◌else◌}
use smart_build.Prelude.Codes.{Text, same, same_iff}

abbrev pub Dict : Type 0 → Type 0
Dict V = List (Text × V)

module _ {V : Type 0} where
  -- `d.get(key)`
  unfoldable pub lookup : Text → Dict V → Option V
  lookup key [] = none
  lookup key ((k, v) ∷ d) = if same k key then some v else lookup key d

  -- `d[key] = value`
  unfoldable pub insert : Text → V → Dict V → Dict V
  insert key value [] = (key, value) ∷ []
  insert key value ((k, v) ∷ d) = if same k key then (k, value) ∷ d else (k, v) ∷ insert key value d

  -- `dict(pairs)`, from what stands in `d`
  unfoldable pub insert_all : Dict V → List (Text × V) → Dict V
  unfolding insert
  insert_all d [] = d
  insert_all d ((k, v) ∷ pairs) = insert_all (insert k v d) pairs

  pub lookup-insert :
      (key other : Text) (value : V) (d : Dict V)
      → lookup other (insert key value d) ≡ (if same key other then some value else lookup other d)
  unfolding lookup insert
  lookup-insert key other value [] = refl
  lookup-insert key other value ((k, v) ∷ d) =
      ground (
        arith,
        same_iff key other,
        same_iff k key,
        same_iff k other,
        lookup-insert key other value d,
      )

  -- A new key goes to the end.
  pub insert-new :
      (key : Text) (value : V) (d : Dict V)
      → lookup key d ≡ none
      → insert key value d ≡ d ++ (key, value) ∷ []
  unfolding lookup insert
  insert-new key value [] h = refl
  insert-new key value ((k, v) ∷ d) h = ground (arith, insert-new key value d)
