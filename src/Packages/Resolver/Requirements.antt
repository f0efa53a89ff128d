-- ===== src/Packages/Resolver/Requirements.antt =====
-- The dict of version requirements, and the version that is selected under one.
use smart_build.Prelude.{
  String, Bool, true, false, not, List, Option, none, some, Option-cases, Bool-cases, inl, inr, ◌⊎◌,
  ◌≡◌, ◌≢◌, refl, sym, ap, ◌∙◌, arith,
}
use mathlib.Core.Path.{subst}
use smart_build.Prelude.Texts.{◌==◌, eq_iff, eq_refl, elem, update}
use smart_build.Prelude.Errors.{ok, raise_if-ok, >>=-eq-ok, ok-injective}
use smart_build.Packages.Symbols.{Chars, package_symbol}
use smart_build.Packages.Metadata.{PackageMetadata}
use smart_build.Packages.Resolver.{
  Values, Requirements, record_version_requirement, required_version, selected_version,
  include_walker, or_default, check_version,
}
use smart_build.Packages.Resolver.Closure.{provider_of, walker}

record-cases :
    (a b : Requirements) (q v : String)
    → record_version_requirement a q (some v) ≡ ok b
    → (update a q (some v) ≡ b) × ((a q ≡ none) ⊎ (a q ≡ some v))
unfolding record_version_requirement
record-cases a b q v h = elim (Option-cases (a q)) [
  | inl absent ↦ (ok-injective (rw (record_version_requirement, absent) at h), inl absent)
  | inr (x, present) ↦ elim (Bool-cases (x == v)) [
    | inl same ↦ (
      ok-injective (rw (record_version_requirement, present, same) at h),
      inr (present ∙ ap some ((eq_iff x v).0 same)),
    )
    | inr differ ↦ absurd (cc (rw (record_version_requirement, present, differ) at h))
  ]
]

record-made :
    (a b : Requirements) (q v : String)
    → record_version_requirement a q (some v) ≡ ok b
    → b q ≡ some v
unfolding update
record-made a b q v h =
    let (made, _) = record-cases a b q v h in ap (λ f. f q) (sym made) ∙ rw (eq_refl q) refl

record-kept :
    (a b : Requirements) (q : String) (o : Option String) (p v : String)
    → record_version_requirement a q o ≡ ok b
    → a p ≡ some v
    → b p ≡ some v
unfolding record_version_requirement update
record-kept a b q none p v h e = ap (λ f. f p) (sym (ok-injective h)) ∙ e
record-kept a b q (some x) p v h e =
    let (made, before) = record-cases a b q x h in
    ap (λ f. f p) (sym made) ∙ elim (Bool-cases (q == p)) [
      | inl same ↦
          let here : a q ≡ some v = ap a ((eq_iff q p).0 same) ∙ e in
          elim before [ inl absent ↦ absurd (cc here) | inr present ↦ rw same (sym present ∙ here) ]
      | inr differ ↦ rw differ e
    ]

module _ (chars : Chars) (values : Values) (ps : List PackageMetadata) where
  -- The version that is required of what the item stands for is written down.
  unfoldable pub IsNoted : Requirements → String × Bool → Type 0
  IsNoted reqs item =
      (q v : String)
      → provider_of ps item.0 ≡ some q
      → required_version chars values item.0 ≡ ok (some v)
      → reqs q ≡ some v

  pub note-IsNoted :
      (a b : Requirements) (i : String × Bool)
      → (walker chars values ps).note a i ≡ ok b
      → IsNoted b i
  unfolding include_walker IsNoted
  note-IsNoted a b (n, f) h q v present required =
      let (o, asked, rest) = >>=-eq-ok (required_version chars values n) _ h in
      let same : o ≡ some v = ok-injective (sym asked ∙ required) in
      record-made a b q v
        (subst (λ x. record_version_requirement a q x ≡ ok b) same (rw present at rest))

  pub note-keeps :
      (a b : Requirements) (i j : String × Bool)
      → (walker chars values ps).note a j ≡ ok b
      → IsNoted a i
      → IsNoted b i
  unfolding include_walker IsNoted
  note-keeps a b i (n, f) h noted q v present required =
      let (o, asked, rest) = >>=-eq-ok (required_version chars values n) _ h in
      elim (Option-cases (provider_of ps n)) [
        | inl absent ↦ elim (Bool-cases f) [
          | inl missing ↦ absurd (cc (rw (absent, missing) at rest))
          | inr left ↦
              let same : a ≡ b = ok-injective (rw (absent, left) at rest) in
              subst (λ x. x q ≡ some v) same (noted q v present required)
        ]
        | inr (p, known) ↦ record-kept a b p o q v (rw known at rest) (noted q v present required)
      ]

  check_version-ok :
      (m : PackageMetadata) (o : Option String) (version found : String)
      → check_version m o found ≡ ok version
      → (elem version m.versions ≡ true) × ((v : String) → o ≡ some v → version ≡ v)
  check_version-ok m none version found h =
      let (listed, last) = raise_if-ok (not (elem found m.versions)) _ _ h in
      let same : found ≡ version = ok-injective last in
      (subst (λ x. elem x m.versions ≡ true) same (ground (arith, listed)), λ v e. cc)
  check_version-ok m (some w) version found h =
      let (agrees, rest) = raise_if-ok (not (found == w)) _ _ h in
      let (listed, last) = raise_if-ok (not (elem found m.versions)) _ _ rest in
      let same : found ≡ version = ok-injective last in
      (
        subst (λ x. elem x m.versions ≡ true) same (ground (arith, listed)),
        λ v e. let equal : found ≡ w = (eq_iff found w).0 (ground (arith, agrees)) in cc,
      )

  -- The version is the default one, or one of the listed versions, and is the required one.
  abbrev pub IsVersion : PackageMetadata → Option String → String → Type 0
  IsVersion m o version =
      ((m.native ≡ true) × (version ≡ m.default_version)
        ⊎ (m.native ≡ false) × (elem version m.versions ≡ true))
      × ((v : String) → o ≡ some v → v ≢ "" → version ≡ v)

  or_default-some : (v default : String) → v ≢ "" → or_default (some v) default ≡ v
  or_default-some v default h = ground (arith, eq_iff v "")

  pub selected_version-IsVersion :
      (m : PackageMetadata) (o : Option String) (version : String)
      → selected_version chars values m o ≡ ok version
      → IsVersion m o version
  unfolding selected_version
  selected_version-IsVersion m o version h = elim (Bool-cases m.native) [
    | inl native ↦
        let (usual, last) =
          raise_if-ok (not (or_default o m.default_version == m.default_version)) _ _
            (rw (selected_version, native) at h) in
        let same : or_default o m.default_version ≡ version = ok-injective last in
        (
          inl (native, sym same ∙ (eq_iff _ _).0 (ground (arith, usual))),
          λ v e given.
              sym same
              ∙ ap (λ x. or_default x m.default_version) e
              ∙ or_default-some v m.default_version given,
        )
    | inr generated ↦
        let (symbol, made, rest) =
          >>=-eq-ok (package_symbol chars m.name) _ (rw (selected_version, generated) at h) in
        let (listed, agrees) = check_version-ok m o version _ rest in
        (inr (generated, listed), λ v e given. agrees v e)
  ]
