-- ===== src/Tasks/Graph/Order.antt =====
-- `topological_order` computes the greedy order.
use smart_build.Prelude.{
  all→All, ℕ, zero, suc, ◌+◌, ◌≤◌, String, true, false, List, [], ◌∷◌, ◌++◌, some, ◌≡◌, refl, ap,
  ◌∙◌, sym, arith, filter, length, length-append, All, All-append, append-nil, append_assoc,
  map-append,
}
use smart_build.Prelude.Texts.{elem, count, count-append, Distinct}
use smart_build.Prelude.Sort.{sort_by, Ascending}
use smart_build.Prelude.Errors.{Result, ok}
use smart_build.Tasks.Task.{Task, TaskError}
use smart_build.Tasks.Graph.{TaskGraph, ids, place}
use smart_build.Tasks.Graph.Build.{IsIndexed, lookup-head}
use smart_build.Prelude.Remaining.{remaining, length-remaining-snoc, count-remaining-snoc}
use smart_build.Tasks.Graph.Greedy.{free, greedy, open_deps, first_of_nil, first_of_cons}
use smart_build.Tasks.Graph.Rounds.{Inv, next, free-head, Inv-next}

-- Every id stands behind its dependencies; `seen` stand before the list.
abbrev pub Before : (String → List String) → List String → List String → Type 0
Before deps seen [] = Unit
Before deps seen (i ∷ is) = All (λ d. elem d seen ≡ true) (deps i) × Before deps (seen ++ i ∷ []) is

Before-snoc :
    (deps : String → List String) (seen xs : List String) (x : String)
    → Before deps seen xs
    → All (λ d. elem d (seen ++ xs) ≡ true) (deps x)
    → Before deps seen (xs ++ x ∷ [])
Before-snoc deps seen [] x b h = (simp append-nil at h, tt)
Before-snoc deps seen (i ∷ is) x b h =
    (b.0, Before-snoc deps (seen ++ i ∷ []) is x b.1 (simp append_assoc h))

-- `xs` are some of the `given` ids, in an order that the dependencies allow.
pub record IsPartial (deps : String → List String) (given done : List String) : Type 0 where
  pub counts : (j : String) → count j done + count j (remaining done given) ≡ count j given
  pub lengths : length done + length (remaining done given) ≡ length given
  pub before : Before deps [] done

-- What the loop returns.
pub record Placed (g : TaskGraph) (deps : String → List String) (fuel : ℕ) (done : List String)
    (out : Result TaskError (List Task × (String → ℕ))) : Type 0 where
  pub result : List Task
  pub degrees : String → ℕ
  pub returned : out ≡ ok (result, degrees)
  pub chosen : ids result ≡ greedy deps (ids g.tasks) fuel done
  pub looked_up : All (λ t. g.by_id t.id ≡ some t) result
  pub counted : (j : String) → degrees j ≡ open_deps (ids result) (deps j)
  pub stuck : [] ≡ filter (free deps (ids result)) (ids g.tasks)
  pub closed : (j : String) → elem j (ids result) ≡ true → open_deps (ids result) (deps j) ≡ 0
  pub partial : IsPartial deps (ids g.tasks) (ids result)

IsPartial-snoc :
    (deps : String → List String) (given done : List String) (x : String)
    → Distinct given
    → elem x given ≡ true
    → free deps done x ≡ true
    → IsPartial deps given done
    → IsPartial deps given (done ++ x ∷ [])
IsPartial-snoc deps given done x dis m f p =
    let new : elem x done ≡ false = ground arith in
    record {
      counts = λ j. omega (
        arith,
        p.counts j,
        count-append j done (x ∷ []),
        count-remaining-snoc j x done given m new dis,
      );
      lengths = omega (
        arith,
        p.lengths,
        length-append done (x ∷ []),
        length-remaining-snoc x done given dis m new,
      );
      before = Before-snoc deps [] done x p.before (all→All _ (deps x) (ground arith));
    }

module _ (g : TaskGraph) (indexed : IsIndexed g) (deps : String → List String) (key : String → ℕ)
    (children : String → List String) (asc : Ascending key (ids g.tasks))
    (edges : (j d : String) → count j (children d) ≡ count d (deps j))
    (outside : (j : String) → elem j (ids g.tasks) ≡ false → deps j ≡ []) where
  abbrev Holds : (String → ℕ) → List String → List String → Type 0
  Holds = Inv (ids g.tasks) deps key children indexed.distinct asc edges outside

  not_done : (x : String) (done : List String) → free deps done x ≡ true → elem x done ≡ false
  not_done x done f = ground arith

  place-nil :
      (fuel : ℕ) (degrees : String → ℕ) (result : List Task)
      → place g key children fuel degrees [] result ≡ ok (result, degrees)
  unfolding place
  place-nil zero degrees result = refl
  place-nil (suc fuel) degrees result = refl

  greedy_of_stuck :
      (fuel : ℕ) (done : List String)
      → [] ≡ filter (free deps done) (ids g.tasks)
      → done ≡ greedy deps (ids g.tasks) fuel done
  unfolding greedy
  greedy_of_stuck zero done h = refl
  greedy_of_stuck (suc fuel) done h =
      rw (first_of_nil (free deps done) (ids g.tasks) (sym h), greedy)

  greedy_of_first :
      (fuel : ℕ) (done : List String) (x : String) (rest : List String)
      → x ∷ rest ≡ filter (free deps done) (ids g.tasks)
      → greedy deps (ids g.tasks) (suc fuel) done ≡ greedy deps (ids g.tasks) fuel (done ++ x ∷ [])
  unfolding greedy
  greedy_of_first fuel done x rest h =
      rw (first_of_cons (free deps done) (ids g.tasks) (sym h), greedy)

  ids-snoc :
      (result : List Task) (t : Task) {x : String}
      → t.id ≡ x
      → ids (result ++ t ∷ []) ≡ ids result ++ x ∷ []
  ids-snoc result t {x} named =
      map-append (λ (u : Task). u.id) result (t ∷ []) ∙ ap (λ i. ids result ++ i ∷ []) named

  -- One round of the loop, given what the rounds after it return.
  Placed-cons :
      (fuel : ℕ) (degrees : String → ℕ) (x : String) (rest : List String) (result : List Task)
      (inv : Holds degrees (x ∷ rest) (ids result)) (t : Task)
      → g.by_id x ≡ some t
      → ids (result ++ t ∷ []) ≡ ids result ++ x ∷ []
      → (let s =
            next
              (ids g.tasks)
              deps
              key
              children
              indexed.distinct
              asc
              edges
              outside
              degrees
              x
              rest
              (ids result)
              inv in
          Placed g deps fuel
            (ids (result ++ t ∷ []))
            (place g key children fuel s.degrees (sort_by key s.ready) (result ++ t ∷ [])))
      → Placed g deps
          (suc fuel)
          (ids result)
          (place g key children (suc fuel) degrees (x ∷ rest) result)
  unfolding place
  Placed-cons fuel degrees x rest result inv t found longer r = record {
    result = r.result;
    degrees = r.degrees;
    returned = rw (found, place) r.returned;
    chosen =
        r.chosen
        ∙ ap (greedy deps (ids g.tasks) fuel) longer
        ∙ sym (greedy_of_first fuel (ids result) x rest inv.listed);
    looked_up = r.looked_up;
    counted = r.counted;
    stuck = r.stuck;
    closed = r.closed;
    partial = r.partial;
  }

  pub place-Placed :
      (fuel : ℕ) (degrees : String → ℕ) (ready : List String) (result : List Task)
      → Holds degrees ready (ids result)
      → IsPartial deps (ids g.tasks) (ids result)
      → All (λ t. g.by_id t.id ≡ some t) result
      → length (remaining (ids result) (ids g.tasks)) ≤ fuel
      → Placed g deps fuel (ids result) (place g key children fuel degrees ready result)
  place-Placed fuel degrees [] result inv p found enough = record {
    result = result;
    degrees = degrees;
    returned = place-nil fuel degrees result;
    chosen = greedy_of_stuck fuel (ids result) inv.listed;
    looked_up = found;
    counted = inv.counted;
    stuck = inv.listed;
    closed = inv.closed;
    partial = p;
  }
  place-Placed zero degrees (x ∷ rest) result inv p found enough =
      let (f, m) =
        free-head (ids g.tasks) deps key children indexed.distinct asc edges outside degrees x rest
          (ids result) inv in
      absurd (
        omega (
          arith,
          length-remaining-snoc x (ids result) (ids g.tasks) indexed.distinct m
              (not_done x (ids result) f),
        ))
  place-Placed (suc fuel) degrees (x ∷ rest) result inv p found enough =
      let (f, m) =
        free-head (ids g.tasks) deps key children indexed.distinct asc edges outside degrees x rest
          (ids result) inv in
      let (t, by_id, named) = lookup-head g x g.tasks indexed.found m in
      let longer = ids-snoc result t named in
      Placed-cons fuel degrees x rest result inv t by_id longer (
        place-Placed fuel _ _ (result ++ t ∷ [])
          (rw longer (
            Inv-next (ids g.tasks) deps key children indexed.distinct asc edges outside degrees x
              rest (ids result) inv))
          (rw longer (IsPartial-snoc deps (ids g.tasks) (ids result) x indexed.distinct m f p))
          (All-append _ result (t ∷ []) found (rw (named, by_id), tt))
          (rw longer (
            omega (
              arith,
              length-remaining-snoc x (ids result) (ids g.tasks) indexed.distinct m
                  (not_done x (ids result) f),
            ))))
