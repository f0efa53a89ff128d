-- ===== src/Prelude/Sort.antt =====
-- `sorted(xs, key=key)` on texts: a stable insertion sort.
use smart_build.Prelude.Lists.{filter, All, All-filter}
use smart_build.Prelude.Tests.{Bool-cases, leb, if◌then◌else◌}
use mathlib.Core.Logic.{inl, inr}
use smart_build.Prelude.Texts.{eq_refl, elem-count, Distinct, ◌==◌, eq_iff, elem, count, Distinct}
use Prim.Native.Nat.{ℕ, ◌<◌}
use Prim.Native.String.{String}
use mathlib.Core.Path.{ap, sym, ◌≡◌, refl, ap}
use mathlib.Core.Bool.{Bool, true, false, ◌||◌}
use mathlib.Core.List.{List, [], ◌∷◌}
use native.Mathlib.Omega.{arith}

module _ (key : String → ℕ) where
  insert_by : String → List String → List String
  insert_by x [] = x ∷ []
  insert_by x (y ∷ ys) =
      let rest = insert_by x ys in if leb (key x) (key y) then x ∷ y ∷ ys else y ∷ rest

  unfoldable pub sort_by : List String → List String
  unfolding insert_by
  sort_by [] = []
  sort_by (x ∷ xs) = insert_by x (sort_by xs)

  count-insert_by : (j x : String) (ys : List String) → count j (insert_by x ys) ≡ count j (x ∷ ys)
  unfolding insert_by count
  count-insert_by j x [] = refl
  count-insert_by j x (y ∷ ys) = ground (arith, count-insert_by j x ys)

  -- Sorting keeps every element as often as it occurs.
  pub count-sort_by : (j : String) (xs : List String) → count j (sort_by xs) ≡ count j xs
  unfolding sort_by count
  count-sort_by j [] = refl
  count-sort_by j (x ∷ xs) = ground (arith, count-insert_by j x (sort_by xs), count-sort_by j xs)

  -- The keys strictly grow along the list.
  abbrev pub Ascending : List String → Type 0
  Ascending [] = Unit
  Ascending (x ∷ xs) = All (λ y. key x < key y) xs × Ascending xs

module _ (key : String → ℕ) (x : String) where
  insert_by-below : (ys : List String) → All (λ y. key x < key y) ys → insert_by key x ys ≡ x ∷ ys
  unfolding insert_by
  insert_by-below [] h = refl
  insert_by-below (y ∷ ys) h = ground arith

  filter_same :
      (p : String → Bool) (ids : List String)
      → All (λ i. key x < key i) ids
      → filter (λ i. x == i || p i) ids ≡ filter p ids
  filter_same p [] h = refl
  filter_same p (i ∷ ids) h = ground (arith, eq_iff x i, filter_same p ids h.1)

  elem-above : (ids : List String) → All (λ i. key x < key i) ids → elem x ids ≡ false
  unfolding elem
  elem-above [] h = refl
  elem-above (i ∷ ids) h = ground (arith, eq_iff i x, elem-above ids h.1)

  elem-lt :
      (i : String) (ids : List String)
      → All (λ j. key i < key j) ids
      → elem x ids ≡ true
      → key i < key x
  unfolding elem
  elem-lt i [] h m = cc
  elem-lt i (j ∷ ids) h m = ground (arith, eq_iff j x, elem-lt i ids h.1)

  insert_by-filter :
      (p : String → Bool) (ids : List String)
      → Ascending key ids
      → elem x ids ≡ true
      → p x ≡ false
      → insert_by key x (filter p ids) ≡ filter (λ i. x == i || p i) ids
  unfolding insert_by elem
  insert_by-filter p [] asc m n = cc
  insert_by-filter p (i ∷ ids) (low, asc) m n = elim (Bool-cases (x == i)) [
    | inl here ↦
        let same = sym ((eq_iff x i).0 here) in
        let above : All (λ j. key x < key j) ids = rw same at low in
        ground (
          arith,
          ap p same,
          insert_by-below (filter p ids) (All-filter (λ j. key x < key j) p ids above),
          filter_same p ids above,
        )
    | inr other ↦
        let later : elem x ids ≡ true = ground (arith, eq_iff i x, eq_iff x i) in
        ground (arith, elem-lt i ids low later, insert_by-filter p ids asc later n)
  ]

filter_none : {A : Type 0} (xs : List A) → filter (λ _. false) xs ≡ []
filter_none [] = refl
filter_none (x ∷ xs) = filter_none xs

-- A list of distinct members of `ids`, sorted by a key that grows along `ids`, is the sublist of
-- `ids` that holds them.
pub sort_by-filter :
    (key : String → ℕ) (ids : List String)
    → Ascending key ids
    → (xs : List String) → Distinct xs
    → All (λ x. elem x ids ≡ true) xs
    → sort_by key xs ≡ filter (λ i. elem i xs) ids
unfolding sort_by elem count
sort_by-filter key ids asc [] d m = sym (filter_none ids)
sort_by-filter key ids asc (x ∷ xs) d (mx, m) =
    let ih = sort_by-filter key ids asc xs (λ j. ground (arith, d j)) m in
    rw ih (
      insert_by-filter key x (λ i. elem i xs) ids asc mx
        (ground (arith, eq_refl x, elem-count x xs, d x)))
