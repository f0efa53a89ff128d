-- ===== src/Ipkg/Install/Known.antt =====
-- What is known of one place while a package is installed, and the directories that are made.
use smart_build.Prelude.{
  ℕ, Bool, true, false, ◌||◌, List, [], ◌∷◌, ◌++◌, ◌≡◌, inl, inr, refl, ap, ◌∙◌, sym, Bool-cases,
  append_assoc,
}
use mathlib.Core.Path.{subst}
use smart_build.Prelude.Errors.{Result, ok, err}
use smart_build.Prelude.Codes.{Text, Bytes, same_all, same_all_iff}
use smart_build.Ipkg.Base.{IpkgError}
use smart_build.Ipkg.Files.{
  Place, Node, absent, symlink, other, directory, regular, Files, set, Fault, fine, refused, partly,
  is_file, unlink_file, ◌then_with◌, made, make_directory, make_directories,
}
use smart_build.Ipkg.Install.Kept.{
  Kept, set_at, set_elsewhere, Kept-trans, Kept-of_eq, Kept-file, Kept-absent, IsDirectory,
}

-- A directory stands where one was made.
made_last :
    (files : Files) (at : Place) (node : Node) (fault : Fault)
    → files at ≡ node
    → (made files at node fault).1 ≡ ok tt
    → IsDirectory ((made files at node fault).0 at)
made_last files at absent fine h e = rw (set_at files at at (directory 0o755) refl) tt
made_last files at absent refused h e = cc
made_last files at absent (partly _) h e = cc
made_last files at (directory mode) fault h e = rw h tt
made_last files at symlink fault h e = cc
made_last files at other fault h e = cc
made_last files at (regular _ _) fault h e = cc

-- What holds behind the second of two actions that return.
then_with_last :
    {A B : Type 0} (P : Files → Type 0) (first : Files × Result IpkgError A)
    (next : Files → A → Files × Result IpkgError B) (b : B)
    → ((after : Files) (a : A) → (next after a).1 ≡ ok b → P (next after a).0)
    → (first then_with next).1 ≡ ok b
    → P (first then_with next).0
then_with_last P (after, err e) next b h r = cc
then_with_last P (after, ok a) next b h r = h after a r

then_with_first :
    (P : Files → Type 0) (first : Files × Result IpkgError (Unit {0}))
    → (first.1 ≡ ok tt → P first.0)
    → (first then_with (λ after _. (after, ok tt))).1 ≡ ok tt
    → P (first then_with (λ after _. (after, ok tt))).0
then_with_first P (after, err e) h r = cc
then_with_first P (after, ok a) h r = h refl

pub make_directories_last :
    (faults : Place → Fault) (files : Files) (base rest : Place) (name : Text)
    → (make_directories faults files base (rest ++ name ∷ [])).1 ≡ ok tt
    → IsDirectory
        ((make_directories faults files base (rest ++ name ∷ [])).0 (base ++ (rest ++ name ∷ [])))
unfolding make_directories make_directory
make_directories_last faults files base [] name h =
    then_with_first (λ after. IsDirectory (after (base ++ name ∷ [])))
      (make_directory faults files (base ++ name ∷ []))
      (made_last files (base ++ name ∷ []) (files (base ++ name ∷ [])) (faults (base ++ name ∷ []))
        refl)
      h
make_directories_last faults files base (next ∷ rest) name h =
    then_with_last (λ after. IsDirectory (after (base ++ next ∷ (rest ++ name ∷ []))))
      (make_directory faults files (base ++ next ∷ []))
      (λ after _. make_directories faults after (base ++ next ∷ []) (rest ++ name ∷ [])) tt
      (λ after _ r.
        subst
          (λ at.
            IsDirectory
              ((make_directories faults after (base ++ next ∷ []) (rest ++ name ∷ [])).0 at))
          (append_assoc base (next ∷ []) (rest ++ name ∷ []))
          (make_directories_last faults after (base ++ next ∷ []) rest name r))
      h

IsDirectory-Kept : (n : Node) (mode : ℕ) → IsDirectory n → Kept n (directory mode)
IsDirectory-Kept (directory _) mode h = tt
IsDirectory-Kept absent mode h = elim h [ ]
IsDirectory-Kept symlink mode h = elim h [ ]
IsDirectory-Kept other mode h = elim h [ ]
IsDirectory-Kept (regular _ _) mode h = elim h [ ]

pub set-Kept :
    (files : Files) (at l : Place) (mode : ℕ)
    → IsDirectory (files at)
    → Kept (files l) (set files at (directory mode) l)
set-Kept files at l mode h = elim (Bool-cases (same_all at l)) [
  | inl s ↦
      let here : at ≡ l = (same_all_iff at l).0 s in
      rw (set_at files at l (directory mode) here)
        (IsDirectory-Kept (files l) mode (subst (λ place. IsDirectory (files place)) here h))
  | inr s ↦ Kept-of_eq (files l) _ (set_elsewhere files at l (directory mode) s)
]

abbrev pub elem_place : Place → List Place → Bool
elem_place l [] = false
elem_place l (at ∷ created) = same_all at l || elem_place l created

-- What is known of a place, from what stood there at first: it was created, and a file stands there
-- now, or it was kept.
pub data Known (first : Node) (l : Place) (files : Files) (created : List Place) : Type 0 where
  was_created :
      elem_place l created ≡ true
      → first ≡ absent
      → is_file (files l) ≡ true
      → Known first l files created
  was_kept : elem_place l created ≡ false → Kept first (files l) → Known first l files created

module _ (first : Node) (l : Place) where
  pub Known-Kept :
      (files after : Files) (created : List Place)
      → Known first l files created
      → Kept (files l) (after l)
      → Known first l after created
  Known-Kept files after created (was_created m a f) k =
      was_created m a (rw (Kept-file (files l) (after l) f k) f)
  Known-Kept files after created (was_kept m h) k =
      was_kept m (Kept-trans first (files l) (after l) h k)

  pub Known-same :
      (files after : Files) (created : List Place)
      → Known first l files created
      → after l ≡ files l
      → Known first l after created
  Known-same files after created k e =
      Known-Kept files after created k (Kept-of_eq (files l) (after l) e)

  -- An absent place was absent.
  pub Known-absent :
      (files : Files) (created : List Place)
      → Known first l files created
      → files l ≡ absent
      → (first ≡ absent) × (elem_place l created ≡ false)
  Known-absent files created (was_created m a f) e = absurd (cc (ap is_file e, f))
  Known-absent files created (was_kept m h) e = (Kept-absent first (subst (Kept first) e h), m)

pub Known-cons :
    (first : Node) (l : Place) (files : Files) (created : List Place) (at : Place)
    → same_all at l ≡ false
    → Known first l files created
    → Known first l files (at ∷ created)
Known-cons first l files created at s (was_created m a f) = was_created (rw s m) a f
Known-cons first l files created at s (was_kept m h) = was_kept (rw s m) h

pub unlink_absent : (files : Files) (at : Place) → files at ≡ absent → unlink_file files at ≡ files
unlink_absent files at e = rw e refl

-- A file that was written where nothing stood, and is removed again.
pub unlink_written :
    (files : Files) (at l : Place) (start : Bytes)
    → files at ≡ absent
    → unlink_file (set files at (regular start 0o644)) at l ≡ files l
unlink_written files at l start e =
    rw (set_at files at at (regular start 0o644) refl) (elim (Bool-cases (same_all at l)) [
      | inl s ↦
          let here : at ≡ l = (same_all_iff at l).0 s in
          set_at (set files at (regular start 0o644)) at l absent here
          ∙ sym (ap files (sym here) ∙ e)
      | inr s ↦
          set_elsewhere (set files at (regular start 0o644)) at l absent s
          ∙ set_elsewhere files at l (regular start 0o644) s
    ])
