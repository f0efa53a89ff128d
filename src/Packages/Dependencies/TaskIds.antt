-- ===== src/Packages/Dependencies/TaskIds.antt =====
-- The ids of the tasks that a package waits for.
use smart_build.Prelude.{
  String, true, false, List, [], ◌∷◌, ◌++◌, Option, some, Option-cases, Bool-cases, inl, inr, ◌⊎◌,
  ◌≡◌, ◌↔◌, refl, sym, arith, All, if_both,
}
use Prim.Native.String.{◌++◌ as ◌⧺◌}
use mathlib.Core.Path.{subst}
use smart_build.Prelude.Texts.{
  elem, elem-append, elem-All, eq_iff, eq_refl, Distinct, Distinct-nil, count, count-append,
  elem-count,
}
use smart_build.Packages.Resolver.{ResolvedPackage}
use smart_build.Packages.Dependencies.{
  append_new, dependency_task_id, add_task_ids, dependency_of, package_dependency_task_ids,
}
use smart_build.Packages.Dependencies.Names.{StandsFor, dependency_of-StandsFor}

-- The build task of a package for the host, and the packing task of any other.
abbrev pub IsTaskIdOf : (host_names : List String) (name id : String) → Type 0
IsTaskIdOf host_names name id =
    (elem name host_names ≡ true) × (id ≡ "package:" ⧺ name ⧺ ":build")
    ⊎ (elem name host_names ≡ false) × (id ≡ "ipkg:" ⧺ name ⧺ ":package")

dependency_task_id-IsTaskIdOf :
    (host_names : List String) (name id : String)
    → (id ≡ dependency_task_id host_names name) ↔ IsTaskIdOf host_names name id
unfolding dependency_task_id
dependency_task_id-IsTaskIdOf host_names name id = elim (Bool-cases (elem name host_names)) [
  | inl m ↦
      rw m (λ h. inl (refl, h), λ how. elim how [ inl (_, h) ↦ h | inr (k, _) ↦ absurd (cc k) ])
  | inr m ↦
      rw m (λ h. inr (refl, h), λ how. elim how [ inl (k, _) ↦ absurd (cc k) | inr (_, h) ↦ h ])
]

elem-of_append_new :
    (deps : List String) (y x : String)
    → elem x (append_new deps y) ≡ true
    → (elem x deps ≡ true) ⊎ (x ≡ y)
unfolding elem append_new
elem-of_append_new deps y x =
    if_both (λ (l : List String). elem x l ≡ true → (elem x deps ≡ true) ⊎ (x ≡ y)) (elem y deps)
      (λ _ m. inl m)
      (λ _ m. elim (Bool-cases (elem x deps)) [
        | inl old ↦ inl old
        | inr new ↦ inr (ground (arith, m, new, elem-append x deps (y ∷ []), eq_iff y x))
      ])

append_new-elem :
    (deps : List String) (x y : String) → elem x deps ≡ true → elem x (append_new deps y) ≡ true
unfolding append_new
append_new-elem deps x y m =
    if_both (λ l. elem x l ≡ true) (elem y deps) (λ _. m)
      (λ _. ground (arith, m, elem-append x deps (y ∷ [])))

append_new_self : (deps : List String) (y : String) → elem y (append_new deps y) ≡ true
unfolding elem append_new
append_new_self deps y =
    if_both (λ l. elem y l ≡ true) (elem y deps) (λ here. here)
      (λ _. ground (arith, eq_refl y, elem-append y deps (y ∷ [])))

append_new-Distinct :
    (deps : List String) (y : String) → Distinct deps → Distinct (append_new deps y)
unfolding count append_new
append_new-Distinct deps y d =
    if_both Distinct (elem y deps) (λ _. d)
      (λ new j.
        ground (arith, d j, new, count-append j deps (y ∷ []), elem-count y deps, eq_iff y j))

module _ (name_of : String → Option String) (host_names : List String) where
  abbrev pub IsListed : List String → String → Type 0
  IsListed deps raw =
      (dependency : String)
      → name_of raw ≡ some dependency
      → elem (dependency_task_id host_names dependency) deps ≡ true

  add_task_ids-elem :
      (deps raws : List String) (x : String)
      → elem x deps ≡ true
      → elem x (add_task_ids name_of host_names deps raws) ≡ true
  unfolding add_task_ids
  add_task_ids-elem deps [] x m = m
  add_task_ids-elem deps (raw ∷ raws) x m = elim (Option-cases (name_of raw)) [
    | inl absent ↦ rw (add_task_ids, absent) (add_task_ids-elem deps raws x m)
    | inr (d, present) ↦
        let next = append_new deps (dependency_task_id host_names d) in
        rw (add_task_ids, present)
          (add_task_ids-elem next raws x
            (append_new-elem deps x (dependency_task_id host_names d) m))
  ]

  Listing : String → List String → List String → Type 0
  Listing raw raws deps = Distinct deps × (IsListed deps raw × All (IsListed deps) raws)

  add_task_ids-IsListed :
      (deps raws : List String)
      → Distinct deps
      → Distinct (add_task_ids name_of host_names deps raws)
        × All (IsListed (add_task_ids name_of host_names deps raws)) raws
  unfolding add_task_ids Listing
  add_task_ids-IsListed deps [] d = (d, tt)
  add_task_ids-IsListed deps (raw ∷ raws) d = elim (Option-cases (name_of raw)) [
    | inl absent ↦
        let (d', all) = add_task_ids-IsListed deps raws d in
        let step : add_task_ids name_of host_names deps raws
            ≡ add_task_ids name_of host_names deps (raw ∷ raws) =
          rw (add_task_ids, absent) refl in
        subst (Listing raw raws) step (d', (λ x given. absurd cc, all))
    | inr (q, present) ↦
        let id = dependency_task_id host_names q in
        let next = append_new deps id in
        let (d', all) = add_task_ids-IsListed next raws (append_new-Distinct deps id d) in
        let here = add_task_ids-elem next raws id (append_new_self deps id) in
        let step : add_task_ids name_of host_names next raws
            ≡ add_task_ids name_of host_names deps (raw ∷ raws) =
          rw (add_task_ids, present) refl in
        subst (Listing raw raws) step (
          d',
          (
            λ x given.
                let same : q ≡ x = cc in
                subst
                  (λ y.
                    elem (dependency_task_id host_names y)
                      (add_task_ids name_of host_names next raws)
                    ≡ true)
                  same here,
            all,
          ),
        )
  ]

  -- An id of the list was there, or is the one of a dependency.
  add_task_ids-of :
      (deps raws : List String) (x : String)
      → elem x (add_task_ids name_of host_names deps raws) ≡ true
      → (elem x deps ≡ true)
        ⊎ ((raw : String) × (name : String) × (elem raw raws ≡ true)
            × (name_of raw ≡ some name)
            × (x ≡ dependency_task_id host_names name))
  unfolding add_task_ids elem
  add_task_ids-of deps [] x m = inl m
  add_task_ids-of deps (raw ∷ raws) x m = elim (Option-cases (name_of raw)) [
    | inl absent ↦ elim (add_task_ids-of deps raws x (rw (absent, add_task_ids) at m)) [
      | inl old ↦ inl old
      | inr (r, n, there, e, same) ↦ inr (r, n, ground (arith, there), e, same)
    ]
    | inr (q, present) ↦
        elim (add_task_ids-of (append_new deps (dependency_task_id host_names q)) raws x
          (rw (present, add_task_ids) at m)) [
            | inr (r, n, there, e, same) ↦ inr (r, n, ground (arith, there), e, same)
            | inl mine ↦ elim (elem-of_append_new deps (dependency_task_id host_names q) x mine) [
              | inl old ↦ inl old
              | inr same ↦ inr (raw, q, ground (arith, eq_refl raw), present, same)
            ]
          ]
  ]

-- The list that `_package_dependency_task_ids` returns holds exactly the ids of the other packages
-- that the dependencies stand for: the build task of a package for the host, and the packing task of
-- any other. A name stands for itself where it is a package name, and else for its provider. No id is
-- held twice.
pub package_dependency_task_ids-IsTaskIdOf :
    (own : ResolvedPackage) (package_names : List String) (providers : String → Option String)
    (host_names : List String)
    → Distinct (package_dependency_task_ids own package_names providers host_names)
      × ((id : String)
          → (elem id (package_dependency_task_ids own package_names providers host_names) ≡ true)
            ↔ ((raw : String) × (name : String) × (elem raw
                    (own.metadata.host_depends ++ own.metadata.depends ++ own.metadata.selects)
                  ≡ true)
                × StandsFor own.name package_names providers raw name
                × IsTaskIdOf host_names name id))
unfolding package_dependency_task_ids
package_dependency_task_ids-IsTaskIdOf own package_names providers host_names =
    let name_of = dependency_of own.name package_names providers in
    let raws = own.metadata.host_depends ++ own.metadata.depends ++ own.metadata.selects in
    let (distinct, all) = add_task_ids-IsListed name_of host_names [] raws Distinct-nil in
    (
      distinct,
      λ id. (
        λ m. elim (add_task_ids-of name_of host_names [] raws id m) [
          | inl none_yet ↦ absurd (unfold elem in cc none_yet)
          | inr (raw, name, there, e, same) ↦ (
            raw,
            name,
            there,
            (dependency_of-StandsFor own.name package_names providers raw name).0 e,
            (dependency_task_id-IsTaskIdOf host_names name id).0 same,
          )
        ],
        λ (raw, name, there, stands, named).
            subst (λ x. elem x (add_task_ids name_of host_names [] raws) ≡ true)
              (sym ((dependency_task_id-IsTaskIdOf host_names name id).1 named))
              (elem-All (IsListed name_of host_names (add_task_ids name_of host_names [] raws)) raws
                raw all there name
                ((dependency_of-StandsFor own.name package_names providers raw name).1 stands)),
      ),
    )
