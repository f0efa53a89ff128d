-- ===== src/Tasks/Graph/Cycles.antt =====
-- The cycle error of `topological_order`: raised for graphs with a cycle, and only for them.
use smart_build.Prelude.{
  ℕ, zero, suc, ◌<◌, String, Bool, true, false, not, ◌&&◌, List, [], ◌∷◌, ◌≡◌, ◌≢◌, refl, ap, ◌∙◌,
  sym, arith, filter, all, length, length-map, beq, Bool-cases, inl, inr, All, List-cases,
}
use mathlib.Core.Path.{subst}
use smart_build.Prelude.Texts.{◌==◌, eq_iff, eq_refl, elem, elem-count, All-of_elem}
use smart_build.Prelude.Errors.{ok, err}
use smart_build.Tasks.Task.{Task, cycle_detected}
use smart_build.Tasks.Graph.{TaskGraph, ids, known, topological_order}
use smart_build.Tasks.Graph.Build.{IsIndexed}
use smart_build.Tasks.Graph.Degrees.{deps_of, dangling, AllKnown-of_dangling}
use smart_build.Prelude.Remaining.{remaining, count-filter}
use smart_build.Tasks.Graph.Greedy.{free}
use smart_build.Tasks.Graph.Spec.{
  deps_in, place_all-Placed, topological_order-outcome, topological_order-dangling,
}

-- Every blocked id waits for a blocked id.
abbrev pub IsBlocked : TaskGraph → List String → Type 0
IsBlocked g blocked =
    All (λ i. (d : String) × (elem d (deps_in g i) ≡ true) × (elem d blocked ≡ true)) blocked

elem-nil : (i : String) → elem i [] ≡ false
unfolding elem
elem-nil i = refl

all_fails :
    (p : String → Bool) (xs : List String)
    → all p xs ≡ false
    → (d : String) × (elem d xs ≡ true) × (p d ≡ false)
unfolding elem
all_fails p [] h = cc
all_fails p (x ∷ xs) h = elim (Bool-cases (p x)) [
  | inl e ↦ let (d, m, q) = all_fails p xs (ground arith) in (d, ground (arith, m), q)
  | inr e ↦ (x, rw eq_refl, e)
]

All-elem {κ} :
    (P : String → Type κ) (xs : List String) (d : String) → All P xs → elem d xs ≡ true → P d
unfolding elem
All-elem P [] d h m = cc
All-elem P (x ∷ xs) d h m = elim (Bool-cases (x == d)) [
  | inl e ↦ subst P ((eq_iff x d).0 e) h.0
  | inr e ↦ All-elem P xs d h.1 (ground arith)
]

elem-filter :
    (p : String → Bool) (i : String) (xs : List String) → elem i (filter p xs) ≡ (p i && elem i xs)
elem-filter p i xs =
    ground (arith, elem-count i (filter p xs), elem-count i xs, count-filter p i xs)

pub known-deps_of :
    (g : TaskGraph) (ts : List Task) (j d : String)
    → All (λ t. All (λ e. known g e ≡ true) t.deps) ts
    → elem d (deps_of j ts) ≡ true
    → known g d ≡ true
unfolding deps_of
known-deps_of g [] j d h m = absurd (unfold elem in cc m)
known-deps_of g (t ∷ ts) j d h m = elim (Bool-cases (t.id == j)) [
  | inl e ↦ All-elem _ t.deps d h.0 (rw (e, deps_of) at m)
  | inr e ↦ known-deps_of g ts j d h.1 (rw (e, deps_of) at m)
]

known-elem :
    (g : TaskGraph) (d : String) → IsIndexed g → known g d ≡ true → elem d (ids g.tasks) ≡ true
known-elem g d indexed k = ground (arith, indexed.only d)

module _ (g : TaskGraph) (indexed : IsIndexed g) (closed : dangling g g.tasks ≡ []) where
  abbrev blocked : List String
  blocked = remaining (ids (place_all-Placed g indexed closed).result) (ids g.tasks)

  blocked-waits :
      (i : String)
      → elem i blocked ≡ true
      → (d : String) × (elem d (deps_in g i) ≡ true) × (elem d blocked ≡ true)
  blocked-waits i m =
      let r = place_all-Placed g indexed closed in
      let there = elem-filter (λ k. not (elem k (ids r.result))) i (ids g.tasks) in
      let stuck = elem-filter (free (deps_in g) (ids r.result)) i (ids g.tasks) in
      let not_all : all (λ d. elem d (ids r.result)) (deps_in g i) ≡ false =
        ground (arith, there, stuck, ap (elem i) r.stuck, elem-nil i) in
      let (d, dep, waits) = all_fails _ (deps_in g i) not_all in
      let listed =
        known-elem g d indexed
          (known-deps_of g g.tasks i d (AllKnown-of_dangling g g.tasks closed) dep) in
      (d, dep, ground (arith, elem-filter (λ k. not (elem k (ids r.result))) d (ids g.tasks)))

  blocked-IsBlocked : IsBlocked g blocked
  blocked-IsBlocked = All-of_elem _ blocked blocked-waits

-- For a graph with distinct ids, a cycle error names ids, at least one, each of which waits for one
-- of them, for itself or another.
pub topological_order-cycle_detected :
    (g : TaskGraph) (names : List String)
    → IsIndexed g
    → topological_order g ≡ err (cycle_detected names)
    → (names ≢ []) × IsBlocked g names
topological_order-cycle_detected g names indexed h = elim (List-cases (dangling g g.tasks)) [
  | inl closed ↦
      let r = place_all-Placed g indexed closed in
      let out = sym (topological_order-outcome g indexed closed) ∙ h in
      let same : blocked g indexed closed ≡ names = ground arith in
      let short : beq (length r.result) (length g.tasks) ≡ false = ground arith in
      let left : blocked g indexed closed ≢ [] = λ e. absurd (
        ground (
          arith,
          ap length e,
          r.partial.lengths,
          length-map (λ (t : Task). t.id) r.result,
          length-map (λ (t : Task). t.id) g.tasks,
        )) in
      subst (λ (k : List String). (k ≢ []) × IsBlocked g k) same
        (left, blocked-IsBlocked g indexed closed)
  | inr (d, ds, some_dangle) ↦ absurd (cc (topological_order-dangling g d ds some_dangle))
]

-- `rank` puts each dependency below its task, so no task depends on itself by a detour.
abbrev pub IsRanked : (String → ℕ) → List Task → Type 0
IsRanked rank = All (λ t. All (λ d. rank d < rank t.id) t.deps)

ranked-deps_of :
    (rank : String → ℕ) (ts : List Task) (i d : String)
    → IsRanked rank ts
    → elem d (deps_of i ts) ≡ true
    → rank d < rank i
unfolding deps_of
ranked-deps_of rank [] i d h m = absurd (unfold elem in cc m)
ranked-deps_of rank (t ∷ ts) i d h m = elim (Bool-cases (t.id == i)) [
  | inl e ↦
      subst (λ k. rank d < rank k) ((eq_iff t.id i).0 e)
        (All-elem (λ c. rank c < rank t.id) t.deps d h.0 (rw (e, deps_of) at m))
  | inr e ↦ ranked-deps_of rank ts i d h.1 (rw (e, deps_of) at m)
]

-- Blocked ids descend for ever, so there is none of a rank below any bound.
descent :
    (g : TaskGraph) (rank : String → ℕ) (names : List String)
    → IsRanked rank g.tasks
    → IsBlocked g names
    → (n : ℕ) (i : String) → elem i names ≡ true
    → ¬ (rank i < n)
descent g rank names ranked waits zero i m low = absurd (omega arith)
descent g rank names ranked waits (suc n) i m low =
    let (d, dep, open_dep) = All-elem _ names i waits m in
    descent g rank names ranked waits n d open_dep
      (omega (arith, ranked-deps_of rank g.tasks i d ranked dep))

no_blocked :
    (g : TaskGraph) (rank : String → ℕ) (names : List String)
    → IsRanked rank g.tasks
    → IsBlocked g names
    → ¬ (names ≢ [])
no_blocked g rank [] ranked waits left = left refl
no_blocked g rank (i ∷ is) ranked waits left =
    descent g rank (i ∷ is) ranked waits (suc (rank i)) i (unfold elem in rw eq_refl) (omega arith)

-- A graph with distinct ids, known dependencies and no cycle has an order, and it is returned.
pub topological_order_total :
    (g : TaskGraph) (rank : String → ℕ)
    → IsIndexed g
    → dangling g g.tasks ≡ []
    → IsRanked rank g.tasks
    → (order : List Task) × (topological_order g ≡ ok order)
topological_order_total g rank indexed closed ranked =
    let r = place_all-Placed g indexed closed in
    elim (Bool-cases (beq (length r.result) (length g.tasks))) [
      | inl full ↦ (r.result, topological_order-outcome g indexed closed ∙ rw full)
      | inr short ↦
          let raised : topological_order g ≡ err (cycle_detected (blocked g indexed closed)) =
            topological_order-outcome g indexed closed ∙ rw short in
          let (left, waits) =
            topological_order-cycle_detected g (blocked g indexed closed) indexed raised in
          absurd (no_blocked g rank (blocked g indexed closed) ranked waits left)
    ]
