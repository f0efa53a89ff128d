-- ===== src/Tasks/Graph/Rounds.antt =====
-- The `while` loop of `topological_order`: each round keeps the degrees and the queue in step with
-- the greedy order.
use smart_build.Prelude.{
  ℕ, suc, ◌+◌, ◌≤◌, String, true, false, ◌&&◌, List, [], ◌∷◌, ◌++◌, ◌≡◌, refl, ap, ◌∙◌, arith,
  filter, if◌then◌else◌, ltb, beq, Bool-cases, inl, inr,
}
use smart_build.Prelude.Texts.{
  eq_iff, eq_refl, elem, count, elem-count, update, Distinct, Distinct-head, Distinct-tail,
  All-of_elem,
}
use smart_build.Prelude.Sort.{sort_by, count-sort_by, sort_by-filter, Ascending}
use smart_build.Tasks.Task.{Task}
use smart_build.Tasks.Graph.{ids, order_index, Release, release}
use smart_build.Tasks.Graph.Ready.{degrees-release, count-ready-release, Covers}
use smart_build.Prelude.Remaining.{elem-snoc, count-filter, filter_ext}
use smart_build.Tasks.Graph.Greedy.{free, open_deps, all-open_deps, open_deps-snoc}

order_index-kept :
    (f : String → ℕ) (n : ℕ) (ts : List Task) (i : String)
    → elem i (ids ts) ≡ false
    → order_index f n ts i ≡ f i
unfolding order_index elem update
order_index-kept f n [] i h = refl
order_index-kept f n (t ∷ ts) i h = ground (arith, order_index-kept (update f t.id n) (suc n) ts i)

order_index-ge :
    (f : String → ℕ) (n : ℕ) (ts : List Task) (i : String)
    → elem i (ids ts) ≡ true
    → n ≤ order_index f n ts i
unfolding order_index elem update
order_index-ge f n [] i h = cc
order_index-ge f n (t ∷ ts) i h = elim (Bool-cases (elem i (ids ts))) [
  | inl e ↦ omega (arith, order_index-ge (update f t.id n) (suc n) ts i e)
  | inr e ↦ ground (arith, order_index-kept (update f t.id n) (suc n) ts i e)
]

-- The index grows along the list.
pub order_index-Ascending :
    (f : String → ℕ) (n : ℕ) (ts : List Task)
    → Distinct (ids ts)
    → Ascending (order_index f n ts) (ids ts)
unfolding order_index update
order_index-Ascending f n [] dis = tt
order_index-Ascending f n (t ∷ ts) dis =
    let f' = update f t.id n in
    let first : order_index f' (suc n) ts t.id ≡ n =
      order_index-kept f' (suc n) ts t.id (Distinct-head t.id (ids ts) dis) ∙ rw eq_refl in
    (
      All-of_elem _ (ids ts) λ i m. omega (arith, order_index-ge f' (suc n) ts i m, first),
      order_index-Ascending f' (suc n) ts (Distinct-tail t.id (ids ts) dis),
    )

module _ (given : List String) (deps : String → List String) (key : String → ℕ)
    (children : String → List String) (dis : Distinct given) (asc : Ascending key given)
    (edges : (j d : String) → count j (children d) ≡ count d (deps j))
    (outside : (j : String) → elem j given ≡ false → deps j ≡ []) where
  -- The state of the loop, when `done` are the ids of the placed tasks.
  pub record Inv (degrees : String → ℕ) (ready done : List String) : Type 0 where
    pub counted : (j : String) → degrees j ≡ open_deps done (deps j)
    pub listed : ready ≡ filter (free deps done) given
    pub closed : (j : String) → elem j done ≡ true → open_deps done (deps j) ≡ 0

  module _ (degrees : String → ℕ) (x : String) (rest done : List String)
      (inv : Inv degrees (x ∷ rest) done) where
    abbrev pub next : Release
    next = release (record { degrees = degrees; ready = rest }) (sort_by key (children x))

    abbrev edge_count : String → ℕ
    edge_count j = count x (deps j)

    count-sorted : (j : String) → count j (sort_by key (children x)) ≡ edge_count j
    count-sorted j = count-sort_by key j (children x) ∙ edges j x

    count-rest :
        (j : String)
        → count j rest + count j (x ∷ []) ≡ (if free deps done j then count j given else 0)
    unfolding count
    count-rest j = ground (arith, ap (count j) inv.listed, count-filter (free deps done) j given)

    pub free-head : (free deps done x ≡ true) × (elem x given ≡ true)
    unfolding count
    free-head = ground (arith, count-rest x, eq_refl x, elem-count x given)

    open-next :
        (j : String) → open_deps (done ++ x ∷ []) (deps j) + edge_count j ≡ open_deps done (deps j)
    open-next j = open_deps-snoc x done (deps j) (ground (arith, free-head.0))

    next-Covers : Covers degrees (sort_by key (children x))
    next-Covers j = omega (arith, count-sorted j, inv.counted j, open-next j)

    degrees-next : (j : String) → next.degrees j ≡ open_deps (done ++ x ∷ []) (deps j)
    degrees-next j = omega (
      arith,
      degrees-release (record { degrees = degrees; ready = rest }) (sort_by key (children x)) j,
      count-sorted j,
      inv.counted j,
      open-next j,
    )

    count-next :
        (j : String)
        → count j next.ready
          ≡ count j rest
            + (if ltb 0 (edge_count j) && beq (open_deps done (deps j)) (edge_count j)
                then 1
                else 0)
    count-next j =
        rw (← count-sorted j, ← inv.counted j)
          (count-ready-release (record { degrees = degrees; ready = rest })
            (sort_by key (children x)) j next-Covers)

    elem-next :
        (i : String) → elem i given ≡ true → elem i next.ready ≡ free deps (done ++ x ∷ []) i
    unfolding count
    elem-next i m = ground (
      arith,
      elem-count i next.ready,
      count-next i,
      count-rest i,
      elem-count i given,
      dis i,
      open-next i,
      inv.closed i,
      elem-snoc i x done,
      all-open_deps done (deps i),
      all-open_deps (done ++ x ∷ []) (deps i),
      eq_iff x i,
      free-head.0,
    )

    next-Distinct : Distinct next.ready
    unfolding count
    next-Distinct j =
        ground (arith, count-next j, count-rest j, dis j, open-next j, all-open_deps done (deps j))

    next_given : (i : String) → elem i next.ready ≡ true → elem i given ≡ true
    unfolding count
    next_given i m =
        ground (
          arith,
          elem-count i next.ready,
          count-next i,
          count-rest i,
          elem-count i given,
          outside i,
        )

    -- A round keeps the invariant.
    pub Inv-next : Inv next.degrees (sort_by key next.ready) (done ++ x ∷ [])
    Inv-next = record {
      counted = degrees-next;
      listed =
          sort_by-filter key given asc next.ready next-Distinct
            (All-of_elem _ next.ready next_given)
          ∙ filter_ext _ _ given elem-next;
      closed = λ j m. ground (
        arith,
        elem-snoc j x done,
        inv.closed j,
        open-next j,
        eq_iff x j,
        free-head.0,
        all-open_deps done (deps j),
      );
    }
