-- ===== src/Packages/Dependencies/Names.antt =====
-- What a dependency stands for among the selected packages.
use smart_build.Prelude.{
  String, Bool, true, false, List, [], ◌∷◌, map, Option, none, some, Option-cases, Bool-cases, inl,
  inr, ◌⊎◌, ◌≡◌, ◌≢◌, ◌↔◌, refl, ap, sym, ◌∙◌, arith, ◌||◌, if◌then◌else◌,
}
use smart_build.Prelude.Texts.{◌==◌, elem, eq_iff, update}
use smart_build.Packages.Resolver.{ResolvedPackage, index_packages}
use smart_build.Packages.Dependencies.{
  provide, provided_by, other_than, selected_by_name, dependency_name, dependency_of,
}

-- A dependency stands for the package of its name, or else for its provider, but never for the
-- package that has it.
abbrev pub StandsFor :
    (own : String) (names : List String) (providers : String → Option String) (raw name : String)
    → Type 0
StandsFor own names providers raw name =
    (name ≢ own)
    × ((elem raw names ≡ true) × (name ≡ raw)
        ⊎ (elem raw names ≡ false) × (providers raw ≡ some name))

abbrev pub names_of : List ResolvedPackage → List String
names_of = map (λ item. item.name)

-- the last of some packages that provides a name
unfoldable pub provider_in : List ResolvedPackage → String → Option String
provider_in [] raw = none
provider_in (item ∷ items) raw = elim (provider_in items raw) [
  | some name ↦ some name
  | none ↦ if elem raw item.metadata.provides then some item.name else none
]

abbrev is_some {ℓ} : {A : Type ℓ} → Option A → Bool
is_some none = false
is_some (some _) = true

or_else : Option String → Option String → Option String
or_else none o = o
or_else (some name) o = some name

provide-elem :
    (providers : String → Option String) (name : String) (provides : List String) (raw : String)
    → provide providers name provides raw ≡ (if elem raw provides then some name else providers raw)
unfolding provide update elem
provide-elem providers name [] raw = refl
provide-elem providers name (provided ∷ rest) raw =
    provide-elem (update providers provided (some name)) name rest raw
    ∙ elim (Bool-cases (provided == raw)) [
      | inl e ↦ elim (Bool-cases (elem raw rest)) [
        | inl m ↦ rw (e, m) refl
        | inr m ↦ rw (e, m) refl
      ]
      | inr e ↦ elim (Bool-cases (elem raw rest)) [
        | inl m ↦ rw (e, m) refl
        | inr m ↦ rw (e, m) refl
      ]
    ]

provided_by-provider_in :
    (providers : String → Option String) (items : List ResolvedPackage) (raw : String)
    → provided_by providers items raw ≡ or_else (provider_in items raw) (providers raw)
unfolding provided_by provider_in or_else
provided_by-provider_in providers [] raw = refl
provided_by-provider_in providers (item ∷ items) raw =
    provided_by-provider_in (provide providers item.name item.metadata.provides) items raw
    ∙ elim (Option-cases (provider_in items raw)) [
      | inr (name, e) ↦ rw (e, provider_in) refl
      | inl e ↦
          rw (e, provider_in)
            (provide-elem providers item.name item.metadata.provides raw
              ∙ elim (Bool-cases (elem raw item.metadata.provides)) [
                | inl m ↦ rw m refl
                | inr m ↦ rw m refl
              ])
    ]

pub elem-provider_in :
    (items : List ResolvedPackage) (raw name : String)
    → provider_in items raw ≡ some name
    → elem name (names_of items) ≡ true
unfolding provider_in elem
elem-provider_in [] raw name h = cc
elem-provider_in (item ∷ items) raw name h = elim (Option-cases (provider_in items raw)) [
  | inr (last, e) ↦
      let same : last ≡ name = cc (rw (e, provider_in) at h) in
      ground (arith, elem-provider_in items raw name (e ∙ ap some same))
  | inl e ↦ elim (Bool-cases (elem raw item.metadata.provides)) [
    | inl m ↦
        let same : item.name ≡ name = cc (rw (e, m, provider_in) at h) in
        ground (arith, (eq_iff item.name name).1 same)
    | inr m ↦ absurd (cc (rw (e, m, provider_in) at h))
  ]
]

index_packages-elem :
    (found : String → Option ResolvedPackage) (items : List ResolvedPackage) (raw : String)
    → is_some (index_packages found items raw) ≡ (elem raw (names_of items) || is_some (found raw))
unfolding index_packages elem update
index_packages-elem found [] raw = refl
index_packages-elem found (item ∷ items) raw =
    index_packages-elem (update found item.name (some item)) items raw
    ∙ elim (Bool-cases (item.name == raw)) [ inl e ↦ rw e (ground arith) | inr e ↦ rw e refl ]

other_than-some :
    (own : String) (o : Option String) (name : String)
    → (other_than own o ≡ some name) ↔ ((name ≢ own) × (o ≡ some name))
unfolding other_than
other_than-some own none name = (λ h. cc, λ (_, h). cc)
other_than-some own (some found) name = elim (Bool-cases (found == own)) [
  | inl e ↦
      let same : found ≡ own = (eq_iff found own).0 e in
      rw e (λ h. cc, λ (differ, h). absurd (differ (cc (same, h))))
  | inr e ↦ rw e (
    λ h.
        let same : found ≡ name = cc h in
        (λ k. absurd (cc (e, (eq_iff found own).1 (same ∙ k))), h),
    λ (_, h). h,
  )
]

-- `dependency_of` gives exactly what a dependency stands for.
pub dependency_of-StandsFor :
    (own : String) (names : List String) (providers : String → Option String) (raw name : String)
    → (dependency_of own names providers raw ≡ some name) ↔ StandsFor own names providers raw name
unfolding dependency_of
dependency_of-StandsFor own names providers raw name = elim (Bool-cases (elem raw names)) [
  | inl m ↦ rw m (
    λ h.
        let (differ, e) = (other_than-some own (some raw) name).0 h in
        (differ, inl (refl, sym (cc e))),
    λ (differ, how). elim how [
      | inl (_, e) ↦ (other_than-some own (some raw) name).1 (differ, ap some (sym e))
      | inr (h, _) ↦ absurd (cc h)
    ],
  )
  | inr m ↦ rw m (
    λ h.
        let (differ, e) = (other_than-some own (providers raw) name).0 h in (differ, inr (refl, e)),
    λ (differ, how). elim how [
      | inl (h, _) ↦ absurd (cc h)
      | inr (_, e) ↦ (other_than-some own (providers raw) name).1 (differ, e)
    ],
  )
]

module _ (own : ResolvedPackage) (selected : List ResolvedPackage) where
  same_name :
      (raw : String)
      → dependency_name own selected raw
        ≡ dependency_of own.name (names_of selected) (provider_in selected) raw
  unfolding dependency_name dependency_of or_else
  same_name raw =
      let provider : provided_by (λ _. none) selected raw ≡ provider_in selected raw =
        provided_by-provider_in (λ _. none) selected raw
        ∙ elim (Option-cases (provider_in selected raw)) [
          | inl e ↦ rw e refl
          | inr (name, e) ↦ rw e refl
        ] in
      let there = index_packages-elem (λ _. none) selected raw in
      elim (Option-cases (selected_by_name own selected raw)) [
        | inl e ↦
            let absent : elem raw (names_of selected) ≡ false = ground (arith, rw e at there) in
            rw (dependency_name, e, dependency_of, absent, provider) refl
        | inr (item, e) ↦
            let present : elem raw (names_of selected) ≡ true = ground (arith, rw e at there) in
            rw (dependency_name, e, dependency_of, present) refl
      ]

  -- `dependency_name` gives exactly what a dependency stands for among the selected packages.
  pub dependency_name-StandsFor :
      (raw name : String)
      → (dependency_name own selected raw ≡ some name)
        ↔ StandsFor own.name (names_of selected) (provider_in selected) raw name
  dependency_name-StandsFor raw name =
      rw (same_name raw)
        (dependency_of-StandsFor own.name (names_of selected) (provider_in selected) raw name)
