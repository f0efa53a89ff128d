-- ===== src/Packages/Resolver/Conflicts.antt =====
-- No two selected packages are in conflict.
use smart_build.Prelude.{
  String, true, false, List, [], ◌∷◌, some, Option-cases, Bool-cases, inl, inr, ◌≡◌, sym, ap, ◌∙◌,
}
use smart_build.Prelude.Texts.{◌==◌, eq_iff, elem}
use smart_build.Prelude.Errors.{ok, >>=-eq-ok}
use smart_build.Packages.Symbols.{Chars}
use smart_build.Packages.Metadata.{PackageMetadata}
use smart_build.Packages.Resolver.{
  Values, Found, ResolvedPackage, reject_each, reject_conflicts, resolve_packages,
}
use smart_build.Packages.Resolver.Providers.{found_in, found_in-names}
use smart_build.Packages.Resolver.Closure.{names_of, parts_of, resolved_packages-IsResolved}
use smart_build.Packages.Resolver.Selection.{IsNeeded-names, resolve_packages-IsSelection}

module _ (chars : Chars) (values : Values) (metadata : Found) (selected : List String) where
  reject_each-ok :
      (name : String) (others : List String) (other : String) (m : PackageMetadata)
      → reject_each chars values metadata selected name others ≡ ok tt
      → elem other others ≡ true
      → metadata other ≡ some m
      → elem other selected ≡ false
  unfolding reject_each elem
  reject_each-ok name [] other m h e present = cc
  reject_each-ok name (x ∷ xs) other m h e present = elim (Option-cases (metadata x)) [
    | inl absent ↦ elim (Bool-cases (x == other)) [
      | inl same ↦ cc (ap metadata ((eq_iff x other).0 same))
      | inr differ ↦
          reject_each-ok name xs other m (rw (reject_each, absent) at h) (rw differ at e) present
    ]
    | inr (mx, here) ↦ elim (Bool-cases (elem x selected)) [
      | inl clash ↦ absurd (cc (rw (reject_each, here, clash) at h))
      | inr fine ↦ elim (Bool-cases (x == other)) [
        | inl same ↦ ap (λ n. elem n selected) (sym ((eq_iff x other).0 same)) ∙ fine
        | inr differ ↦
            reject_each-ok name xs other m (rw (reject_each, here, fine) at h) (rw differ at e)
              present
      ]
    ]
  ]

  reject_conflicts-ok :
      (rest : List String) (name other : String) (m mo : PackageMetadata)
      → reject_conflicts chars values metadata selected rest ≡ ok tt
      → elem name rest ≡ true
      → metadata name ≡ some m
      → metadata other ≡ some mo
      → elem other m.conflicts ≡ true
      → elem other selected ≡ false
  unfolding reject_conflicts elem
  reject_conflicts-ok [] name other m mo h e present known c = cc
  reject_conflicts-ok (x ∷ xs) name other m mo h e present known c =
      elim (Option-cases (metadata x)) [
        | inl absent ↦ absurd (cc (rw (reject_conflicts, absent) at h))
        | inr (mx, here) ↦
            let (u, fine, later) =
              >>=-eq-ok (reject_each chars values metadata selected x mx.conflicts) _
                (rw (reject_conflicts, here) at h) in
            elim (Bool-cases (x == name)) [
              | inl same ↦
                  let one : mx ≡ m = cc (ap metadata ((eq_iff x name).0 same)) in
                  reject_each-ok x mx.conflicts other mo fine
                    (ap (λ (p : PackageMetadata). elem other p.conflicts) one ∙ c) known
              | inr differ ↦
                  reject_conflicts-ok xs name other m mo later (rw differ at e) present known c
            ]
      ]

-- No selected package names a selected package among its conflicts.
pub resolve_packages-no_conflict :
    (chars : Chars) (values : Values) (ps : List PackageMetadata) (asked : List String)
    (rs : List ResolvedPackage)
    → resolve_packages chars values ps asked ≡ ok rs
    → (name other : String) (m : PackageMetadata) → elem name (names_of rs) ≡ true
    → elem other (names_of rs) ≡ true
    → found_in ps name ≡ some m
    → elem other m.conflicts ≡ false
resolve_packages-no_conflict chars values ps asked rs h name other m here there present =
    let p = parts_of chars values ps asked rs h in
    let w = p.walked in
    let (same, _) = resolved_packages-IsResolved chars values ps w.noted w.met rs p.resolved in
    let s = resolve_packages-IsSelection chars values ps asked rs h in
    let (mo, known, _) =
      found_in-names ps other (IsNeeded-names ps asked other (s.needed other there)) in
    elim (Bool-cases (elem other m.conflicts)) [
      | inl c ↦
          let out =
            reject_conflicts-ok chars values (found_in ps) w.met w.met name other m mo p.no_conflict
              (ap (elem name) (sym same) ∙ here) present known c in
          absurd (cc (ap (elem other) same))
      | inr fine ↦ fine
    ]
