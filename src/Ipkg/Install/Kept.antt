-- ===== src/Ipkg/Install/Kept.antt =====
-- What an installation does to one place that is no temporary file: a file that stands there is never
-- changed, and nothing new is left there when the installation raises.
use smart_build.Prelude.{
  Bool, true, false, [], ◌∷◌, ◌++◌, ◌-◌, ◌≡◌, inl, inr, refl, arith, length, drop, Bool-cases,
  drop_left, length-append,
}
use mathlib.Core.Path.{subst}
use smart_build.Prelude.Errors.{Result, ok, err}
use smart_build.Prelude.Codes.{Text, same, same_refl, same_all, same_all_iff}
use smart_build.Ipkg.Base.{IpkgError}
use smart_build.Ipkg.Files.{
  Place, Node, absent, symlink, other, directory, regular, Files, set, Fault, fine, refused, partly,
  is_file, ◌then_with◌, made, make_directory, make_directories, parent, base_name, probe_suffix,
  probe_of,
}

-- A file stays as it is, a directory stays one, and nothing or a directory stands where nothing
-- stood.
abbrev pub Kept : Node → Node → Type 0
Kept absent absent = Unit
Kept absent (directory _) = Unit
Kept absent _ = ⊥
Kept (directory _) (directory _) = Unit
Kept (directory _) _ = ⊥
Kept symlink node = node ≡ symlink
Kept other node = node ≡ other
Kept (regular payload mode) node = node ≡ regular payload mode

-- `text.endswith(suffix)`
abbrev pub is_probe : Place → Bool
is_probe at = same (drop (length (base_name at) - length probe_suffix) (base_name at)) probe_suffix

pub base_name-append : (at : Place) (name : Text) → base_name (at ++ name ∷ []) ≡ name
unfolding base_name
base_name-append [] name = refl
base_name-append (x ∷ []) name = refl
base_name-append (x ∷ y ∷ at) name = base_name-append (y ∷ at) name

pub is_probe-probe_of : (at : Place) → is_probe (probe_of at) ≡ true
is_probe-probe_of at = rw (base_name-append (parent at) (base_name at ++ probe_suffix)) (
    let e : length (base_name at ++ probe_suffix) - length probe_suffix ≡ length (base_name at) =
      omega (arith, length-append (base_name at) probe_suffix) in
    rw e (rw (drop_left (base_name at) probe_suffix) (same_refl probe_suffix)))

-- the node at a place behind a change of another place, or of itself
pub set_at : (files : Files) (at l : Place) (node : Node) → at ≡ l → set files at node l ≡ node
unfolding set
set_at files at l node h = rw ((same_all_iff at l).1 h) refl

pub set_elsewhere :
    (files : Files) (at l : Place) (node : Node)
    → same_all at l ≡ false
    → set files at node l ≡ files l
unfolding set
set_elsewhere files at l node h = rw h refl

pub Kept-refl : (n : Node) → Kept n n
Kept-refl absent = tt
Kept-refl symlink = refl
Kept-refl other = refl
Kept-refl (directory mode) = tt
Kept-refl (regular payload mode) = refl

pub Kept-trans : (a b c : Node) → Kept a b → Kept b c → Kept a c
Kept-trans absent absent c h k = k
Kept-trans absent (directory _) (directory _) h k = tt
Kept-trans (directory _) (directory _) (directory _) h k = tt
Kept-trans symlink b c h k = subst (λ n. Kept n c) h k
Kept-trans other b c h k = subst (λ n. Kept n c) h k
Kept-trans (regular payload mode) b c h k = subst (λ n. Kept n c) h k
Kept-trans absent (directory _) absent h k = elim k [ ]
Kept-trans absent (directory _) symlink h k = elim k [ ]
Kept-trans absent (directory _) other h k = elim k [ ]
Kept-trans absent (directory _) (regular _ _) h k = elim k [ ]
Kept-trans absent symlink c h k = elim h [ ]
Kept-trans absent other c h k = elim h [ ]
Kept-trans absent (regular _ _) c h k = elim h [ ]
Kept-trans (directory _) absent c h k = elim h [ ]
Kept-trans (directory _) symlink c h k = elim h [ ]
Kept-trans (directory _) other c h k = elim h [ ]
Kept-trans (directory _) (regular _ _) c h k = elim h [ ]
Kept-trans (directory _) (directory _) absent h k = elim k [ ]
Kept-trans (directory _) (directory _) symlink h k = elim k [ ]
Kept-trans (directory _) (directory _) other h k = elim k [ ]
Kept-trans (directory _) (directory _) (regular _ _) h k = elim k [ ]

pub Kept-of_eq : (a b : Node) → b ≡ a → Kept a b
Kept-of_eq a b h = rw h (Kept-refl a)

-- A file is what it was.
pub Kept-file : (a b : Node) → is_file a ≡ true → Kept a b → b ≡ a
Kept-file symlink b h k = k
Kept-file (regular payload mode) b h k = k
Kept-file absent b h k = cc
Kept-file other b h k = cc
Kept-file (directory mode) b h k = cc

pub Kept-absent : (a : Node) → Kept a absent → a ≡ absent
Kept-absent absent k = refl
Kept-absent symlink k = cc
Kept-absent other k = cc
Kept-absent (directory _) k = elim k [ ]
Kept-absent (regular _ _) k = cc

abbrev pub IsDirectory : Node → Type 0
IsDirectory (directory _) = Unit
IsDirectory _ = ⊥

-- A directory is made only where nothing stands.
made-Kept :
    (files : Files) (at l : Place) (node : Node) (fault : Fault)
    → files at ≡ node
    → Kept (files l) ((made files at node fault).0 l)
made-Kept files at l absent fine h = elim (Bool-cases (same_all at l)) [
  | inl e ↦
      let here : at ≡ l = (same_all_iff at l).0 e in
      rw (set_at files at l (directory 0o755) here) (rw (← here) (rw h tt))
  | inr e ↦ rw (set_elsewhere files at l (directory 0o755) e) (Kept-refl (files l))
]
made-Kept files at l absent refused h = Kept-refl (files l)
made-Kept files at l absent (partly _) h = Kept-refl (files l)
made-Kept files at l (directory _) fault h = Kept-refl (files l)
made-Kept files at l symlink fault h = Kept-refl (files l)
made-Kept files at l other fault h = Kept-refl (files l)
made-Kept files at l (regular _ _) fault h = Kept-refl (files l)

module _ (faults : Place → Fault) where
  make_directory-Kept :
      (files : Files) (at l : Place) → Kept (files l) ((make_directory faults files at).0 l)
  unfolding make_directory
  make_directory-Kept files at l = made-Kept files at l (files at) (faults at) refl

  -- what holds behind the first of two actions, and is kept by the second, holds behind both
  then_with-Kept :
      {A B : Type 0} (files : Files) (l : Place) (first : Files × Result IpkgError A)
      (next : Files → A → Files × Result IpkgError B)
      → Kept (files l) (first.0 l)
      → ((after : Files) (a : A) → Kept (after l) ((next after a).0 l))
      → Kept (files l) ((first then_with next).0 l)
  then_with-Kept files l (after, err e) next h k = h
  then_with-Kept files l (after, ok a) next h k = Kept-trans (files l) (after l) _ h (k after a)

  pub make_directories-Kept :
      (files : Files) (base rest l : Place)
      → Kept (files l) ((make_directories faults files base rest).0 l)
  unfolding make_directories
  make_directories-Kept files base [] l = Kept-refl (files l)
  make_directories-Kept files base (name ∷ rest) l =
      then_with-Kept files l (make_directory faults files (base ++ name ∷ [])) _
        (make_directory-Kept files (base ++ name ∷ []) l)
        (λ after _. make_directories-Kept after (base ++ name ∷ []) rest l)
