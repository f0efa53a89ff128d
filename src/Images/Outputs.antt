-- ===== src/Images/Outputs.antt =====
-- What is removed before an image is written, and what is never removed.
use smart_build.Prelude.{
  ℕ, ◌≤◌, String, List, [], ◌∷◌, Option, none, some, Bool-cases, Option-cases, inl, inr, ◌⊎◌, ◌≡◌,
  ◌≢◌, refl, sym, ap, ◌∙◌, arith, All, ltb, if_both,
}
use mathlib.Core.Path.{subst}
use smart_build.Prelude.Texts.{◌==◌, eq_iff, eq_refl, update}
use smart_build.Prelude.Errors.{Result, ok, err}
use smart_build.Images.{
  Output, symlink, regular, special, Outputs, ImageError, unlink, remove_output, remove_stale,
  remove_stale_images, image_names,
}

-- a file that has no other name
abbrev pub IsPlain : Option Output → Type 0
IsPlain o =
    (inode : ℕ) × (links : ℕ) × (size : ℕ) × (o ≡ some (regular inode links size)) × (links ≤ 1)

-- Every path stands as before, or was a plain file and is gone.
abbrev pub OnlyPlainRemoved : Outputs → Outputs → Type 0
OnlyPlainRemoved before after =
    (path : String) → (after path ≡ before path) ⊎ (after path ≡ none) × IsPlain (before path)

pub OnlyPlainRemoved-trans :
    (a b c : Outputs) → OnlyPlainRemoved a b → OnlyPlainRemoved b c → OnlyPlainRemoved a c
OnlyPlainRemoved-trans a b c f g = λ path. elim (g path) [
  | inl same ↦ elim (f path) [
    | inl before ↦ inl (same ∙ before)
    | inr (gone, plain) ↦ inr (same ∙ gone, plain)
  ]
  | inr (gone, (i, l, z, here, few)) ↦ elim (f path) [
    | inl before ↦ inr (gone, (i, l, z, sym before ∙ here, few))
    | inr (absent, plain) ↦ inr (gone, plain)
  ]
]

-- what one removal leaves, by its result
abbrev pub Removal : Outputs → String → Outputs × Result ImageError (Unit {0}) → Type 0
Removal before path (after, ok _) =
    (after path ≡ none)
    × OnlyPlainRemoved before after
    × ((other : String) → path ≢ other → after other ≡ before other)
Removal before path (after, err _) =
    (after ≡ before) × ¬ (before path ≡ none) × ¬ IsPlain (before path)

pub remove_output-Removal :
    (outputs : Outputs) (path : String) → Removal outputs path (remove_output outputs path)
unfolding remove_output update
remove_output-Removal outputs path = elim (Option-cases (outputs path)) [
  | inl absent ↦ rw (remove_output, absent) (absent, λ p. inl refl, λ other differ. refl)
  | inr (symlink _, here) ↦ rw (remove_output, here) (refl, λ e. cc, λ (i, l, z, e, few). cc)
  | inr (special, here) ↦ rw (remove_output, here) (refl, λ e. cc, λ (i, l, z, e, few). cc)
  | inr (regular i l z, here) ↦
      rw (remove_output, here)
        (if_both (Removal outputs path) (ltb 1 l)
          (λ many. (
            refl,
            λ e. cc,
            λ (i', l', z', e, few).
                let same : l ≡ l' = cc in absurd (ground (arith, many, same, few)),
          ))
          (λ few. (
            rw (eq_refl path) refl,
            λ p. removed_or_same i l z here (ground (arith, few)) p,
            λ other differ. ground (arith, eq_iff path other),
          )))
]
  where
    removed_or_same :
        (i l z : ℕ)
        → outputs path ≡ some (regular i l z)
        → l ≤ 1
        → (p : String)
        → (unlink outputs path p ≡ outputs p) ⊎ (unlink outputs path p ≡ none) × IsPlain (outputs p)
    removed_or_same i l z here few p = elim (Bool-cases (path == p)) [
      | inl same ↦
          inr (rw same refl, (i, l, z, sym (ap outputs ((eq_iff path p).0 same)) ∙ here, few))
      | inr differ ↦ inl (rw differ refl)
    ]

-- the images of other kinds are gone, or a path was refused
abbrev pub Cleared :
    Outputs → String → List String → Outputs × Result ImageError (Unit {0}) → Type 0
Cleared before current_name names (after, ok _) =
    OnlyPlainRemoved before after
    × (after current_name ≡ before current_name)
    × All (λ name. (name ≡ current_name) ⊎ (after name ≡ none)) names
Cleared before current_name names (after, err _) =
    OnlyPlainRemoved before after × (after current_name ≡ before current_name)

pub gone_stays :
    (a b : Outputs) (name : String) → OnlyPlainRemoved a b → a name ≡ none → b name ≡ none
gone_stays a b name only absent = elim (only name) [
  | inl same ↦ same ∙ absent
  | inr (gone, _) ↦ gone
]

Cleared-skip :
    (outputs : Outputs) (name : String) (names : List String)
    (end : Outputs × Result ImageError (Unit {0}))
    → Cleared outputs name names end
    → Cleared outputs name (name ∷ names) end
Cleared-skip outputs name names (after, ok _) (only, kept, cleared) =
    (only, kept, (inl refl, cleared))
Cleared-skip outputs name names (after, err e) left = left

Cleared-cons :
    (outputs middle : Outputs) (current_name name : String) (names : List String)
    (end : Outputs × Result ImageError (Unit {0}))
    → name ≢ current_name
    → Removal outputs name (middle, ok tt)
    → Cleared middle current_name names end
    → Cleared outputs current_name (name ∷ names) end
Cleared-cons outputs middle current_name name names (after, ok _) differ (absent, first, others)
      (only, kept, cleared) =
    (
      OnlyPlainRemoved-trans outputs middle after first only,
      kept ∙ others current_name differ,
      (inr (gone_stays middle after name only absent), cleared),
    )
Cleared-cons outputs middle current_name name names (after, err e) differ (absent, first, others)
      (only, kept) =
    (OnlyPlainRemoved-trans outputs middle after first only, kept ∙ others current_name differ)

refused-Cleared :
    (outputs after : Outputs) (name : String)
    → after ≡ outputs
    → OnlyPlainRemoved outputs after × (after name ≡ outputs name)
refused-Cleared outputs after name same = (λ p. inl (ap (λ f. f p) same), ap (λ f. f name) same)

Cleared-next :
    (outputs : Outputs) (current_name name : String) (names : List String)
    (done : Outputs × Result ImageError (Unit {0}))
    → name ≢ current_name
    → Removal outputs name done
    → ((o : Outputs) → Cleared o current_name names (remove_stale o current_name names))
    → Cleared outputs current_name
        (name ∷ names)
        (elim done.1 as (λ _. Outputs × Result ImageError (Unit {0})) [
          | err e ↦ (done.0, err e)
          | ok _ ↦ remove_stale done.0 current_name names
        ])
Cleared-next outputs current_name name names (after, err e) differ (same, _, _) ih =
    refused-Cleared outputs after current_name same
Cleared-next outputs current_name name names (after, ok _) differ removal ih =
    Cleared-cons outputs after current_name name names (remove_stale after current_name names)
      differ removal (ih after)

remove_stale-Cleared :
    (outputs : Outputs) (current_name : String) (names : List String)
    → Cleared outputs current_name names (remove_stale outputs current_name names)
unfolding remove_stale
remove_stale-Cleared outputs current_name [] = (λ p. inl refl, refl, tt)
remove_stale-Cleared outputs current_name (name ∷ names) =
    elim (Bool-cases (name == current_name)) [
      | inl same ↦
          let equal = (eq_iff name current_name).0 same in
          rw same (
            subst
              (λ n.
                Cleared outputs current_name (n ∷ names) (remove_stale outputs current_name names))
              (sym equal)
              (Cleared-skip outputs current_name names (remove_stale outputs current_name names)
                (remove_stale-Cleared outputs current_name names)))
      | inr differ ↦ rw differ (
          Cleared-next outputs current_name name names (remove_output outputs name)
            (λ e. ground (arith, differ, e, eq_iff name current_name))
            (remove_output-Removal outputs name) (λ o. remove_stale-Cleared o current_name names))
    ]

-- Whether it returns or raises, what `_remove_stale_images` removes are plain files, and it leaves
-- the current image alone. If it returns, the images of the other names are gone.
pub remove_stale_images-Cleared :
    (outputs : Outputs) (current_name : String)
    → Cleared outputs current_name image_names (remove_stale_images outputs current_name)
unfolding remove_stale_images
remove_stale_images-Cleared outputs current_name =
    remove_stale-Cleared outputs current_name image_names
