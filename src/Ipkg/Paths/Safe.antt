-- ===== src/Ipkg/Paths/Safe.antt =====
-- What `_safe_relative_path` lets through, and that a member is found again by its name.
use smart_build.Prelude.{
  ℕ, Bool, true, false, not, List, [], ◌∷◌, ◌++◌, ◌≡◌, ◌↔◌, refl, ap, sym, ◌∙◌, all, any, filter,
  null, All, arith, inl, inr, Bool-cases, filter-All,
}
use mathlib.Core.Path.{subst}
use smart_build.Prelude.Errors.{ok, >>=-eq-ok, ok-injective}
use smart_build.Prelude.Codes.{Text, same}
use smart_build.Prelude.Codes.Lines.{join, grow}
use smart_build.Ipkg.Base.{is_slash}
use smart_build.Ipkg.Paths.{
  split_slash, is_absolute, dot, dot_dot, slash, is_part, path_parts, as_posix, is_unsafe,
  check_parts, safe_relative_path, data_member_name, package_file_member_name,
}

abbrev pub NoSlash : Text → Type 0
NoSlash part = all (λ c. not (is_slash c)) part ≡ true

-- A part that names something below a directory.
pub record IsSafePart (part : Text) : Type 0 where
  pub no_slash : all (λ c. not (is_slash c)) part ≡ true
  pub ne_empty : null part ≡ false
  pub ne_dot : same part dot ≡ false
  pub ne_dot_dot : same part dot_dot ≡ false

grow-All :
    (c : ℕ) (parts : List Text)
    → is_slash c ≡ false
    → All NoSlash parts
    → All NoSlash (grow c parts)
grow-All c [] h a = ground arith
grow-All c (part ∷ parts) h a = ground arith

split_slash-All : (s : Text) → All NoSlash (split_slash s)
unfolding split_slash
split_slash-All [] = (refl, tt)
split_slash-All (c ∷ s) = elim (Bool-cases (is_slash c)) [
  | inl e ↦ rw e (refl, split_slash-All s)
  | inr e ↦ rw e (grow-All c (split_slash s) e (split_slash-All s))
]

-- Parts with no slash are what their text splits into.
split_slash-append :
    (part s : Text) → NoSlash part → split_slash (part ++ b'/' ∷ s) ≡ part ∷ split_slash s
unfolding split_slash
split_slash-append [] s h = refl
split_slash-append (c ∷ part) s h = ground (arith, split_slash-append part s)

split_slash_last : (part : Text) → NoSlash part → split_slash part ≡ part ∷ []
unfolding split_slash
split_slash_last [] h = refl
split_slash_last (c ∷ part) h = ground (arith, split_slash_last part)

split_slash-join :
    (part : Text) (parts : List Text)
    → All NoSlash (part ∷ parts)
    → split_slash (join slash (part ∷ parts)) ≡ part ∷ parts
unfolding join
split_slash-join part [] (h, _) = split_slash_last part h
split_slash-join part (next ∷ parts) (h, hs) =
    split_slash-append part (join slash (next ∷ parts)) h
    ∙ ap (◌∷◌ part) (split_slash-join next parts hs)

-- The parts of any path have no slash, and are neither empty nor a dot.
abbrev IsPart : Text → Type 0
IsPart part = (is_part part ≡ true) × NoSlash part

path_parts-All : (raw : Text) → All IsPart (path_parts raw)
unfolding path_parts
path_parts-All raw = filter-All NoSlash is_part (split_slash raw) (split_slash-All raw)

filter-all {ℓ} : {A : Type ℓ} (p : A → Bool) (xs : List A) → all p xs ≡ true → filter p xs ≡ xs
filter-all p [] h = refl
filter-all p (x ∷ xs) h = ground (arith, filter-all p xs)

not-dot : (parts : List Text) → All IsPart parts → all (λ part. not (same part dot)) parts ≡ true
not-dot [] h = refl
not-dot (part ∷ parts) (p, h) = ground (arith, not-dot parts h)

is_part-all : (parts : List Text) → All IsSafePart parts → all is_part parts ≡ true
is_part-all [] h = refl
is_part-all (part ∷ parts) (p, h) = rw (p.ne_empty, p.ne_dot) (is_part-all parts h)

safe_parts :
    (parts : List Text) → All IsPart parts → any is_unsafe parts ≡ false → All IsSafePart parts
safe_parts [] h u = tt
safe_parts (part ∷ parts) ((p, n), h) u = (
  record {
    no_slash = n;
    ne_empty = ground arith;
    ne_dot = ground arith;
    ne_dot_dot = ground arith;
  },
  safe_parts parts h (ground arith),
)

any_unsafe : (parts : List Text) → All IsSafePart parts → any is_unsafe parts ≡ false
any_unsafe [] h = refl
any_unsafe (part ∷ parts) (p, h) = rw (p.ne_empty, p.ne_dot_dot) (any_unsafe parts h)

check_parts-ok :
    (raw : Text) (found parts : List Text)
    → (check_parts raw found ≡ ok parts)
      ↔ ((null found ≡ false) × (any is_unsafe found ≡ false) × (found ≡ parts))
unfolding check_parts
check_parts-ok raw found parts = elim (Bool-cases (null found)) [
  | inl e ↦ rw e (λ h. cc, λ (h, _, _). cc)
  | inr e ↦ rw e (elim (Bool-cases (any is_unsafe found)) [
    | inl u ↦ rw u (λ h. cc, λ (_, h, _). cc)
    | inr u ↦ rw u (λ h. (refl, refl, ok-injective h), λ (_, _, h). ap ok h)
  ])
]

module _ (raw : Text) where
  filter-path_parts : filter (λ part. not (same part dot)) (path_parts raw) ≡ path_parts raw
  filter-path_parts = filter-all _ (path_parts raw) (not-dot (path_parts raw) (path_parts-All raw))

  -- `_safe_relative_path` returns exactly the parts of a path that is relative and has parts, none
  -- of them empty, a dot, two dots or with a slash in it.
  pub safe_relative_path-ok :
      (parts : List Text)
      → (safe_relative_path raw ≡ ok parts) ↔ (
          (is_absolute raw ≡ false)
          × (path_parts raw ≡ parts)
          × (null parts ≡ false)
          × All IsSafePart parts)
  unfolding safe_relative_path
  safe_relative_path-ok parts = rw filter-path_parts (elim (Bool-cases (is_absolute raw)) [
    | inl e ↦ rw e (λ h. cc, λ (h, _, _, _). cc)
    | inr e ↦ rw e (
      λ h.
          let (found, safe, same) = (check_parts-ok raw (path_parts raw) parts).0 h in
          (
            refl,
            same,
            rw (← same) found,
            rw (← same) (safe_parts (path_parts raw) (path_parts-All raw) safe),
          ),
      λ (_, same, found, safe).
          (check_parts-ok raw (path_parts raw) parts).1
            (rw same found, rw same (any_unsafe parts safe), same),
    )
  ])

all_parts : (parts : List Text) → All IsPart parts → all is_part parts ≡ true
all_parts [] h = refl
all_parts (part ∷ parts) (p, h) = ground (arith, all_parts parts h)

no_slashes : (parts : List Text) → All IsPart parts → All NoSlash parts
no_slashes [] h = tt
no_slashes (part ∷ parts) (p, h) = (p.1, no_slashes parts h)

path_parts-as_posix : (parts : List Text) → All IsPart parts → path_parts (as_posix parts) ≡ parts
unfolding path_parts as_posix split_slash same
path_parts-as_posix [] h = refl
path_parts-as_posix (part ∷ parts) h =
    ap (filter is_part) (split_slash-join part parts (no_slashes (part ∷ parts) h))
    ∙ filter-all is_part (part ∷ parts) (all_parts (part ∷ parts) h)

-- The parts that `_safe_relative_path` returns make a path with these parts.
pub path_parts-safe :
    (raw : Text) (parts : List Text)
    → safe_relative_path raw ≡ ok parts
    → path_parts (as_posix parts) ≡ parts
path_parts-safe raw parts h =
    let (_, e, _, _) = (safe_relative_path-ok raw parts).0 h in
    path_parts-as_posix parts (subst (All IsPart) e (path_parts-All raw))

is_absolute-as_posix :
    (parts : List Text) → All IsSafePart parts → is_absolute (as_posix parts) ≡ false
unfolding as_posix join
is_absolute-as_posix [] h = refl
is_absolute-as_posix ([] ∷ parts) (p, h) = cc p.ne_empty
is_absolute-as_posix ((c ∷ s) ∷ []) (p, h) = let slashes = p.no_slash in ground arith
is_absolute-as_posix ((c ∷ s) ∷ next ∷ parts) (p, h) = let slashes = p.no_slash in ground arith

-- The path that the returned parts make is let through, and has these parts.
pub safe_relative_path-as_posix :
    (raw : Text) (parts : List Text)
    → safe_relative_path raw ≡ ok parts
    → safe_relative_path (as_posix parts) ≡ ok parts
safe_relative_path-as_posix raw parts h =
    let (_, _, found, safe) = (safe_relative_path-ok raw parts).0 h in
    (safe_relative_path-ok (as_posix parts) parts).1
      (is_absolute-as_posix parts safe, path_parts-safe raw parts h, found, safe)

path_parts_below : (s : Text) → path_parts (dot ++ (slash ++ s)) ≡ path_parts s
unfolding path_parts split_slash same
path_parts_below s = refl

-- The name that `_data_archive` gives a file of a package is one that `_safe_relative_path` takes
-- for the parts of the file's path, so an installation puts the file where the package says.
pub safe_relative_path-package_file_member_name :
    (raw name : Text)
    → package_file_member_name raw ≡ ok name
    → (safe_relative_path name ≡ ok (path_parts raw)) × All IsSafePart (path_parts raw)
unfolding package_file_member_name data_member_name
safe_relative_path-package_file_member_name raw name h =
    let (relative, e, named) = >>=-eq-ok (safe_relative_path (as_posix (path_parts raw))) _ h in
    let (_, same_parts, found, safe) =
      (safe_relative_path-ok (as_posix (path_parts raw)) relative).0 e in
    let same_raw : relative ≡ path_parts raw =
      sym same_parts ∙ path_parts-as_posix (path_parts raw) (path_parts-All raw) in
    let safe_raw : All IsSafePart (path_parts raw) = subst (All IsSafePart) same_raw safe in
    let found_raw : null (path_parts raw) ≡ false =
      subst (λ parts. null parts ≡ false) same_raw found in
    let again : path_parts (dot ++ (slash ++ as_posix relative)) ≡ path_parts raw =
      path_parts_below (as_posix relative)
      ∙ ap (λ parts. path_parts (as_posix parts)) same_raw
      ∙ path_parts-as_posix (path_parts raw) (path_parts-All raw) in
    (
      subst (λ n. safe_relative_path n ≡ ok (path_parts raw)) (ok-injective named)
          ((safe_relative_path-ok _ (path_parts raw)).1 (refl, again, found_raw, safe_raw)),
      safe_raw,
    )
