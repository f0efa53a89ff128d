-- ===== src/Ipkg/Files.antt =====
-- The file system that a package is installed into: what stands at each place, a place being the
-- names on the way to it. What the operating system refuses is given by `Fault`.
use smart_build.Prelude.{
  ℕ, Bool, true, false, List, [], ◌∷◌, ◌++◌, Option, none, some, if◌then◌else◌,
}
use smart_build.Prelude.Errors.{Result, ok, err}
use smart_build.Prelude.Codes.{Text, Bytes, codes, same, same_all}
use smart_build.Ipkg.Base.{IpkgError, os_error}

abbrev pub Place : Type 0
Place = List Text

pub data Node : Type 0 where
  absent symlink other : Node
  directory : (mode : ℕ) → Node
  regular : Bytes → (mode : ℕ) → Node

abbrev pub Files : Type 0
Files = Place → Node

unfoldable pub set : Files → Place → Node → Files
set files at node place = if same_all at place then node else files place

-- what becomes of a write: it is done, it is refused, or it raises with part of the bytes written
pub data Fault : Type 0 where
  fine refused : Fault
  partly : Bytes → Fault

abbrev pub is_absent : Node → Bool
is_absent absent = true
is_absent _ = false

abbrev pub is_symlink : Node → Bool
is_symlink symlink = true
is_symlink _ = false

-- `path.is_file() or path.is_symlink()`
abbrev pub is_file : Node → Bool
is_file symlink = true
is_file (regular _ _) = true
is_file _ = false

abbrev pub unlink_file : Files → Place → Files
unlink_file files at = if is_file (files at) then set files at absent else files

-- what follows an action on the files
infixl 5 ◌then_with◌
abbrev pub ◌then_with◌ :
    {A B : Type 0}
    → Files × Result IpkgError A
    → (Files → A → Files × Result IpkgError B)
    → Files × Result IpkgError B
(files, err e) then_with next = (files, err e)
(files, ok a) then_with next = next files a

-- `path.write_bytes(payload)` on a new file, and `path.chmod(mode)`
abbrev pub written : Files → Place → Bytes → ℕ → Fault → Files × Result IpkgError (Unit {0})
written files at payload mode fine = (set files at (regular payload mode), ok tt)
written files at payload mode refused = (files, err os_error)
written files at payload mode (partly start) = (set files at (regular start 0o644), err os_error)

unfoldable pub write_bytes :
    (Place → Fault) → Files → Place → Bytes → ℕ → Files × Result IpkgError (Unit {0})
write_bytes faults files at payload mode = written files at payload mode (faults at)

-- one directory of `path.mkdir(parents=True, exist_ok=True)`
abbrev pub made : Files → Place → Node → Fault → Files × Result IpkgError (Unit {0})
made files at absent fine = (set files at (directory 0o755), ok tt)
made files at absent refused = (files, err os_error)
made files at absent (partly _) = (files, err os_error)
made files at (directory _) fault = (files, ok tt)
made files at symlink fault = (files, err os_error)
made files at other fault = (files, err os_error)
made files at (regular _ _) fault = (files, err os_error)

unfoldable pub make_directory :
    (Place → Fault) → Files → Place → Files × Result IpkgError (Unit {0})
make_directory faults files at = made files at (files at) (faults at)

-- The directories below `base`, from the first.
unfoldable pub make_directories :
    (Place → Fault) → Files → (base rest : Place) → Files × Result IpkgError (Unit {0})
make_directories faults files base [] = (files, ok tt)
make_directories faults files base (name ∷ rest) =
    make_directory faults files (base ++ name ∷ [])
    then_with (λ next _. make_directories faults next (base ++ name ∷ []) rest)

-- the parent and the name of a path
unfoldable pub parent : Place → Place
parent [] = []
parent (name ∷ []) = []
parent (name ∷ next ∷ names) = name ∷ parent (next ∷ names)

unfoldable pub base_name : Place → Text
base_name [] = []
base_name (name ∷ []) = name
base_name (name ∷ next ∷ names) = base_name (next ∷ names)

-- `path.relative_to(root)`; `none` is a ValueError
unfoldable pub relative_to : (root place : Place) → Option Place
relative_to [] place = some place
relative_to (name ∷ root) [] = none
relative_to (name ∷ root) (next ∷ place) = if same name next then relative_to root place else none

abbrev pub probe_suffix : Text
probe_suffix = codes ".ipkg-new"

-- the temporary file of `_incoming_file_checksum`
abbrev pub probe_of : Place → Place
probe_of at = parent at ++ (base_name at ++ probe_suffix) ∷ []
