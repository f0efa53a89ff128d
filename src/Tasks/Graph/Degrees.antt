-- ===== src/Tasks/Graph/Degrees.antt =====
-- The loops of `topological_order` that count edges: what they leave in each dict.
use smart_build.Prelude.{
  ◌+◌, String, true, false, List, [], ◌∷◌, ◌++◌, map, ◌≡◌, refl, inl, inr, Bool-cases, arith, All,
  length, if◌then◌else◌, filter, not, append_assoc, append-nil,
}
use mathlib.Core.List.{cons≢nil}
use smart_build.Prelude.Texts.{
  Distinct-head, Distinct-tail, ◌==◌, eq_iff, elem, count, update, count-append, Distinct,
}
use smart_build.Tasks.Task.{Task}
use smart_build.Tasks.Graph.{TaskGraph, ids, known, Edges, no_edges, add_dep, add_deps, add_tasks}

-- The dependencies of the task with an id.
unfoldable pub deps_of : String → List Task → List String
deps_of j [] = []
deps_of j (t ∷ ts) = if t.id == j then t.deps else deps_of j ts

-- The dependencies that name no task, each with the task that lists it, in the order of the source.
unfoldable pub dangling : TaskGraph → List Task → List (String × String)
dangling g [] = []
dangling g (t ∷ ts) = map (λ d. (t.id, d)) (filter (λ d. not (known g d)) t.deps) ++ dangling g ts

module _ (g : TaskGraph) where
  missing-add_deps :
      (i : String) (e : Edges) (deps : List String)
      → (add_deps g i e deps).missing
        ≡ e.missing ++ map (λ d. (i, d)) (filter (λ d. not (known g d)) deps)
  unfolding add_deps add_dep
  missing-add_deps i e [] = rw append-nil
  missing-add_deps i e (d ∷ deps) =
      rw (missing-add_deps i (add_dep g i e d) deps)
        (elim (Bool-cases (known g d)) [ inl e ↦ rw e | inr e ↦ rw (e, append_assoc) ])

  missing-add_tasks :
      (e : Edges) (ts : List Task) → (add_tasks g e ts).missing ≡ e.missing ++ dangling g ts
  unfolding add_tasks dangling
  missing-add_tasks e [] = rw append-nil
  missing-add_tasks e (t ∷ ts) = rw (
    missing-add_tasks (add_deps g t.id e t.deps) ts,
    missing-add_deps t.id e t.deps,
    append_assoc,
  )

  -- Where every dependency is known, the loops count them.
  module _ (i : String) where
    indegree-add_deps :
        (e : Edges) (deps : List String) (j : String)
        → All (λ d. known g d ≡ true) deps
        → (add_deps g i e deps).indegree j ≡ e.indegree j + (if i == j then length deps else 0)
    unfolding add_deps add_dep update
    indegree-add_deps e [] j h = ground arith
    indegree-add_deps e (d ∷ deps) j (kd, h) =
        ground (arith, eq_iff i j, indegree-add_deps (add_dep g i e d) deps j h)

    count-children-add_deps :
        (e : Edges) (deps : List String) (j d : String)
        → All (λ d. known g d ≡ true) deps
        → count j ((add_deps g i e deps).children d)
          ≡ count j (e.children d) + (if i == j then count d deps else 0)
    unfolding add_deps add_dep update count
    count-children-add_deps e [] j d h = ground arith
    count-children-add_deps e (c ∷ deps) j d (kd, h) = ground (
      arith,
      eq_iff i j,
      eq_iff c d,
      count-append j (e.children c) (i ∷ []),
      count-children-add_deps (add_dep g i e c) deps j d h,
    )

  -- A list of tasks with no dangling dependency.
  abbrev pub AllKnown : List Task → Type 0
  AllKnown = All (λ t. All (λ d. known g d ≡ true) t.deps)

  pub deps_of-absent : (j : String) (ts : List Task) → elem j (ids ts) ≡ false → deps_of j ts ≡ []
  unfolding deps_of elem
  deps_of-absent j [] h = refl
  deps_of-absent j (t ∷ ts) h = ground (arith, deps_of-absent j ts)

  indegree-add_tasks :
      (e : Edges) (ts : List Task) (j : String)
      → Distinct (ids ts)
      → AllKnown ts
      → (add_tasks g e ts).indegree j ≡ e.indegree j + length (deps_of j ts)
  unfolding add_tasks deps_of
  indegree-add_tasks e [] j dis h = omega arith
  indegree-add_tasks e (t ∷ ts) j dis (ht, h) = ground (
    arith,
    eq_iff t.id j,
    indegree-add_deps t.id e t.deps j ht,
    deps_of-absent j ts,
    Distinct-head t.id (ids ts) dis,
    indegree-add_tasks (add_deps g t.id e t.deps) ts j (Distinct-tail t.id (ids ts) dis) h,
  )

  count-children-add_tasks :
      (e : Edges) (ts : List Task) (j d : String)
      → Distinct (ids ts)
      → AllKnown ts
      → count j ((add_tasks g e ts).children d) ≡ count j (e.children d) + count d (deps_of j ts)
  unfolding add_tasks deps_of count
  count-children-add_tasks e [] j d dis h = omega arith
  count-children-add_tasks e (t ∷ ts) j d dis (ht, h) = ground (
    arith,
    eq_iff t.id j,
    count-children-add_deps t.id e t.deps j d ht,
    deps_of-absent j ts,
    Distinct-head t.id (ids ts) dis,
    count-children-add_tasks (add_deps g t.id e t.deps) ts j d (Distinct-tail t.id (ids ts) dis) h,
  )

  deps-known :
      (i : String) (deps : List String) (rest : List (String × String))
      → map (λ d. (i, d)) (filter (λ d. not (known g d)) deps) ++ rest ≡ []
      → All (λ d. known g d ≡ true) deps × (rest ≡ [])
  deps-known i [] rest h = (tt, h)
  deps-known i (d ∷ deps) rest h = elim (Bool-cases (known g d)) [
    | inl e ↦ let (ih, r) = deps-known i deps rest (rw e at h) in ((e, ih), r)
    | inr e ↦ absurd (cons≢nil (rw e at h))
  ]

  pub AllKnown-of_dangling : (ts : List Task) → dangling g ts ≡ [] → AllKnown ts
  unfolding dangling
  AllKnown-of_dangling [] h = tt
  AllKnown-of_dangling (t ∷ ts) h =
      let (ht, rest) = deps-known t.id t.deps (dangling g ts) h in
      (ht, AllKnown-of_dangling ts rest)

  pub missing-edges : (ts : List Task) → (add_tasks g no_edges ts).missing ≡ dangling g ts
  missing-edges ts = missing-add_tasks no_edges ts

  -- What the loops leave in the dicts of a graph with distinct ids and no dangling dependency.
  module _ (ts : List Task) (dis : Distinct (ids ts)) (h : dangling g ts ≡ []) where
    pub indegree-edges : (j : String) → (add_tasks g no_edges ts).indegree j ≡ length (deps_of j ts)
    indegree-edges j =
        omega (arith, indegree-add_tasks no_edges ts j dis (AllKnown-of_dangling ts h))

    pub count-children-edges :
        (j d : String) → count j ((add_tasks g no_edges ts).children d) ≡ count d (deps_of j ts)
    unfolding count
    count-children-edges j d =
        omega (arith, count-children-add_tasks no_edges ts j d dis (AllKnown-of_dangling ts h))
