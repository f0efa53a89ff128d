-- ===== src/Ipkg/Paths.antt =====
-- The paths inside a package: `_safe_relative_path`, `_data_member_name`, `_package_file_member_name`
-- and `_join_install_path`. A path is its text until it is split at its slashes.
pub mod Safe
use smart_build.Prelude.{
  ℕ, Bool, true, false, not, ◌&&◌, ◌||◌, List, [], ◌∷◌, ◌++◌, beq, all, any, filter, null,
  if◌then◌else◌,
}
use smart_build.Prelude.Errors.{Result, ok, err, raise_if, ◌>>=◌, ◌>>◌}
use smart_build.Prelude.Codes.{Text, codes, same, rstrip}
use smart_build.Prelude.Codes.Lines.{join, grow}
use smart_build.Ipkg.Base.{IpkgError, absolute_path, empty_path, unsafe_path, is_slash}

-- `text.split("/")`
unfoldable pub split_slash : Text → List Text
split_slash [] = [] ∷ []
split_slash (c ∷ s) = let rest = split_slash s in if is_slash c then [] ∷ rest else grow c rest

abbrev pub is_absolute : Text → Bool
is_absolute [] = false
is_absolute (c ∷ s) = is_slash c

abbrev pub dot : Text
dot = b'.' ∷ []

abbrev pub dot_dot : Text
dot_dot = b'.' ∷ b'.' ∷ []

abbrev pub slash : Text
slash = b'/' ∷ []

abbrev pub is_part : Text → Bool
is_part part = not (null part) && not (same part dot)

-- the parts of a `PurePosixPath`, less its root: empty ones and dots are left out
unfoldable pub path_parts : Text → List Text
path_parts path = filter is_part (split_slash path)

-- `path.as_posix()` of a relative path
unfoldable pub as_posix : List Text → Text
as_posix [] = dot
as_posix (part ∷ parts) = join slash (part ∷ parts)

abbrev pub is_unsafe : Text → Bool
is_unsafe part = null part || same part dot_dot

-- the checks of `_safe_relative_path` on the parts
unfoldable pub check_parts : Text → List Text → Result IpkgError (List Text)
check_parts raw_path parts = do
  raise_if (null parts) (empty_path raw_path)
  raise_if (any is_unsafe parts) (unsafe_path raw_path)
  ok parts

unfoldable pub safe_relative_path : Text → Result IpkgError (List Text)
safe_relative_path raw_path = do
  raise_if (is_absolute raw_path) (absolute_path raw_path)
  check_parts raw_path (filter (λ part. not (same part dot)) (path_parts raw_path))

unfoldable pub data_member_name : Text → Result IpkgError Text
data_member_name raw_path = do
  relative ← safe_relative_path raw_path
  ok (dot ++ (slash ++ as_posix relative))

-- The parts of an absolute path without its root make a relative one.
unfoldable pub package_file_member_name : Text → Result IpkgError Text
package_file_member_name raw_path = data_member_name (as_posix (path_parts raw_path))

unfoldable pub join_install_path : Text → Text → Text
join_install_path root relative = rstrip is_slash root ++ (slash ++ relative)
