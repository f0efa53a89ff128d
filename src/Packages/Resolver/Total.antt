-- ===== src/Packages/Resolver/Total.antt =====
-- A resolution ends, and raises nothing but what the program raises itself.
use smart_build.Prelude.{
  suc, String, Bool, true, false, List, [], ◌∷◌, map, length, length-map, none, some, Option-cases,
  Bool-cases, inl, inr, ◌⊎◌, ◌≡◌, refl, arith, if_both,
}
use smart_build.Prelude.Texts.{elem, Distinct}
use smart_build.Prelude.Errors.{ok, err, Result-cases}
use smart_build.Prelude.Walk.{Walked, walk}
use smart_build.Prelude.Walk.Whole.{walk-Ends}
use smart_build.Packages.Symbols.{Chars, PackageError, not_found, conflict, package_symbol}
use smart_build.Packages.Metadata.{PackageMetadata, names}
use smart_build.Packages.Resolver.Providers.{
  found_in, providers_in, found_in-names, resolve_provider-names,
}
use smart_build.Packages.Resolver.Selection.{walk-IsNeeded, IsNeeded-names}
use smart_build.Packages.Resolver.Closure.{walker, provider_of}
use smart_build.Prelude.{All}
use smart_build.Prelude.Texts.{All-of_elem}
use smart_build.Packages.Resolver.{
  Values, Requirements, selected_version, selected_options, reject_each, reject_conflicts,
  include_walker, required_version, resolved_package, resolved_packages, resolve_packages,
  resolve_package_selection, PackageSelection, index_packages,
}
use smart_build.Packages.Resolver.Raising.{
  is_internal, IsOwn, ok-IsOwn, err-IsOwn, >>=-IsOwn, package_symbol-IsOwn,
  record_version_requirement-IsOwn, selected_version-IsOwn, selected_options-IsOwn,
}

module _ (chars : Chars) (values : Values) (ps : List PackageMetadata) where
  reject_each-IsOwn :
      (selected : List String) (name : String) (others : List String)
      → IsOwn (reject_each chars values (found_in ps) selected name others)
  unfolding reject_each
  reject_each-IsOwn selected name [] = ok-IsOwn tt
  reject_each-IsOwn selected name (x ∷ xs) = elim (Option-cases (found_in ps x)) [
    | inl absent ↦ rw (reject_each, absent) (reject_each-IsOwn selected name xs)
    | inr (m, present) ↦ elim (Bool-cases (elem x selected)) [
      | inl clash ↦ rw (reject_each, present, clash) (err-IsOwn (conflict name x) refl)
      | inr fine ↦ rw (reject_each, present, fine) (reject_each-IsOwn selected name xs)
    ]
  ]

  IsGiven : List String → Type 0
  IsGiven selected = All (λ n. elem n (names ps) ≡ true) selected

  reject_conflicts-IsOwn :
      (selected rest : List String)
      → IsGiven rest
      → IsOwn (reject_conflicts chars values (found_in ps) selected rest)
  unfolding reject_conflicts IsGiven
  reject_conflicts-IsOwn selected [] given = ok-IsOwn tt
  reject_conflicts-IsOwn selected (n ∷ ns) (gn, given) =
      let (m, present, _) = found_in-names ps n gn in
      rw (reject_conflicts, present)
        (>>=-IsOwn (reject_each chars values (found_in ps) selected n m.conflicts) _
          (reject_each-IsOwn selected n m.conflicts)
          (λ _ _. reject_conflicts-IsOwn selected ns given))

  resolved_package-IsOwn :
      (reqs : Requirements) (n : String)
      → elem n (names ps) ≡ true
      → IsOwn (resolved_package chars values (found_in ps) (providers_in ps) reqs n)
  unfolding resolved_package
  resolved_package-IsOwn reqs n given =
      let (m, present, _) = found_in-names ps n given in
      rw (resolved_package, present)
        (>>=-IsOwn (selected_version chars values m (reqs n)) _
          (selected_version-IsOwn chars values m (reqs n))
          (λ v _.
            >>=-IsOwn (selected_options chars values m.name (λ _. none) m.options) _
              (selected_options-IsOwn chars values m.name (λ _. none) m.options)
              (λ o _. ok-IsOwn _)))

  resolved_packages-IsOwn :
      (reqs : Requirements) (selected : List String)
      → IsGiven selected
      → IsOwn (resolved_packages chars values (found_in ps) (providers_in ps) reqs selected)
  unfolding resolved_packages IsGiven
  resolved_packages-IsOwn reqs [] given = ok-IsOwn []
  resolved_packages-IsOwn reqs (n ∷ ns) (gn, given) =
      >>=-IsOwn (resolved_package chars values (found_in ps) (providers_in ps) reqs n) _
        (resolved_package-IsOwn reqs n gn)
        (λ r _.
          >>=-IsOwn (resolved_packages chars values (found_in ps) (providers_in ps) reqs ns) _
            (resolved_packages-IsOwn reqs ns given) (λ rs _. ok-IsOwn _))

  required_version-IsOwn : (n : String) → IsOwn (required_version chars values n)
  unfolding required_version
  required_version-IsOwn n =
      >>=-IsOwn (package_symbol chars n) _ (package_symbol-IsOwn chars n) (λ s _. ok-IsOwn _)

  note-IsOwn :
      (reqs : Requirements) (i : String × Bool) → IsOwn ((walker chars values ps).note reqs i)
  unfolding include_walker
  note-IsOwn reqs (n, f) =
      >>=-IsOwn (required_version chars values n) _ (required_version-IsOwn n) (λ o _.
        elim (Option-cases (provider_of ps n)) [
          | inl absent ↦
              rw absent (if_both IsOwn f (λ _. err-IsOwn (not_found n) refl) (λ _. ok-IsOwn reqs))
          | inr (q, present) ↦ rw present (record_version_requirement-IsOwn reqs q o)
        ])

  target-given :
      (i : String × Bool) (n : String)
      → (walker chars values ps).target i ≡ some n
      → elem n (names ps) ≡ true
  unfolding include_walker
  target-given (m, f) n h = resolve_provider-names ps m n h

  walk-IsGiven :
      (asked : List String) (w : Walked Requirements)
      → walk (walker chars values ps) (suc (length ps)) (λ _. none) (map (λ n. (n, true)) asked)
        ≡ ok w
      → IsGiven w.met
  unfolding IsGiven
  walk-IsGiven asked w walked =
      All-of_elem _ w.met
        (λ n m. IsNeeded-names ps asked n (walk-IsNeeded chars values ps asked w walked n m))

  resolve_packages-IsOwn :
      (asked : List String) → Distinct (names ps) → IsOwn (resolve_packages chars values ps asked)
  unfolding resolve_packages
  resolve_packages-IsOwn asked distinct =
      let roots = map (λ n. (n, true)) asked in
      let k = walker chars values ps in
      >>=-IsOwn (walk k (suc (length ps)) (λ _. none) roots) _
        (λ e raised.
          let (s, i, noted) =
            walk-Ends k (suc (length ps)) (λ _. none) roots (names ps) distinct target-given
              (omega (arith, length-map (λ (m : PackageMetadata). m.name) ps)) e raised in
          note-IsOwn s i e noted)
        (λ w walked.
          let given = walk-IsGiven asked w walked in
          >>=-IsOwn (reject_conflicts chars values (found_in ps) w.met w.met) _
            (reject_conflicts-IsOwn w.met w.met given)
            (λ _ _. resolved_packages-IsOwn w.noted w.met given))

-- If no name of a package occurs twice, then `resolve_package_selection` returns, or it raises an
-- error that the program raises itself: the fuel never ends, and no key is missing.
pub resolve_package_selection_total :
    (chars : Chars) (values : Values) (ps : List PackageMetadata) (asked : List String)
    → Distinct (names ps)
    → ((s : PackageSelection) × (resolve_package_selection chars values ps asked ≡ ok s))
      ⊎ ((e : PackageError) × (resolve_package_selection chars values ps asked ≡ err e)
          × (is_internal e ≡ false))
unfolding resolve_package_selection
resolve_package_selection_total chars values ps asked distinct =
    elim (Result-cases (resolve_packages chars values ps asked)) [
      | inl (rs, returned) ↦
          inl (record { packages = rs; by_name = index_packages (λ _. none) rs }, rw returned refl)
      | inr (e, raised) ↦
          inr (e, rw raised refl, resolve_packages-IsOwn chars values ps asked distinct e raised)
    ]
