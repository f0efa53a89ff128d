-- ===== src/Tasks/Graph/Ready.antt =====
-- The loop of `topological_order` over the children of a placed task.
use smart_build.Prelude.{
  ℕ, ◌+◌, ◌-◌, ◌≤◌, String, List, [], ◌∷◌, ◌++◌, ◌≡◌, arith, if◌then◌else◌, ltb, beq, ◌&&◌,
}
use smart_build.Prelude.Texts.{eq_iff, count, update, count-append}
use smart_build.Tasks.Graph.{Release, release}

abbrev step : Release → String → Release
step s child = record {
  degrees = update s.degrees child (s.degrees child - 1);
  ready = if beq (s.degrees child - 1) 0 then s.ready ++ child ∷ [] else s.ready;
}

pub degrees-release :
    (s : Release) (cs : List String) (j : String)
    → (release s cs).degrees j ≡ s.degrees j - count j cs
unfolding release count update
degrees-release s [] j = omega arith
degrees-release s (c ∷ cs) j = ground (arith, eq_iff c j, degrees-release (step s c) cs j)

-- Each child has an edge for each time that it is listed.
abbrev pub Covers : (String → ℕ) → List String → Type 0
Covers degrees cs = (i : String) → count i cs ≤ degrees i

Covers-step :
    (s : Release) (c : String) (cs : List String)
    → Covers s.degrees (c ∷ cs)
    → Covers (step s c).degrees cs
unfolding count update
Covers-step s c cs h i = ground (arith, eq_iff c i, h i)

-- A child becomes ready once, when its last edge is taken away.
pub count-ready-release :
    (s : Release) (cs : List String) (j : String)
    → Covers s.degrees cs
    → count j (release s cs).ready
      ≡ count j s.ready + (if ltb 0 (count j cs) && beq (s.degrees j) (count j cs) then 1 else 0)
unfolding release count update
count-ready-release s [] j h = omega arith
count-ready-release s (c ∷ cs) j h = ground (
  arith,
  eq_iff c j,
  h j,
  count-append j s.ready (c ∷ []),
  count-ready-release (step s c) cs j (Covers-step s c cs h),
)
