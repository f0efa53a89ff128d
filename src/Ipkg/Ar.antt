-- ===== src/Ipkg/Ar.antt =====
-- `_write_ar` and `_read_ar`: the `ar` container of a package, over its bytes.
pub mod RoundTrip
pub mod Total
use smart_build.Prelude.{
  ℕ, zero, suc, ◌+◌, ◌%◌, Bool, true, false, not, List, [], ◌∷◌, ◌++◌, Option, none, some, ltb, beq,
  all, length, take, drop, null, if◌then◌else◌,
}
use smart_build.Prelude.Errors.{Result, ok, err, raise_if, ◌>>=◌, ◌>>◌}
use smart_build.Prelude.Codes.{Text, Bytes, codes, same, is_space, ljust, rstrip}
use smart_build.Prelude.Codes.Decimal.{numeral, parse_int, ℤ, negsuc, pos}
use smart_build.Prelude.Codes.Dict.{Dict, insert}
use smart_build.Ipkg.Base.{
  IpkgError, name_too_long, invalid_archive, truncated_header, invalid_header, truncated_member,
  not_ascii, out_of_fuel, is_slash,
}

abbrev pub ar_magic : Bytes
ar_magic = codes "!<arch>\n"

abbrev pub header_end : Bytes
header_end = b'`' ∷ b'\n' ∷ []

abbrev pub is_ascii : Text → Bool
is_ascii = all (λ c. ltb c 128)

-- `f"{name}/".encode("ascii")`
abbrev pub encoded : Text → Bytes
encoded name = name ++ b'/' ∷ []

-- the fields between the name and the size
abbrev pub middle : Bytes
middle =
    ljust 12 (codes "0") ++ ljust 6 (codes "0") ++ ljust 6 (codes "0") ++ ljust 8 (codes "100644")

abbrev pub header : Text → (size : ℕ) → Bytes
header name size = ljust 16 (encoded name) ++ (middle ++ (ljust 10 (numeral size) ++ header_end))

abbrev pub padding : ℕ → Bytes
padding size = if beq (size % 2) 0 then [] else b'\n' ∷ []

-- the loop of `_write_ar`
unfoldable pub write_members : List (Text × Bytes) → Result IpkgError Bytes
write_members [] = ok []
write_members ((name, payload) ∷ members) = do
  raise_if (not (is_ascii name)) (not_ascii name)
  raise_if (ltb 16 (length (encoded name))) (name_too_long name)
  rest ← write_members members
  ok (header name (length payload) ++ (payload ++ (padding (length payload) ++ rest)))

unfoldable pub write_ar : List (Text × Bytes) → Result IpkgError Bytes
unfolding write_members
write_ar members = do rest ← write_members members; ok (ar_magic ++ rest)

-- the size of a member: a negsuc one is never the length of what was read
abbrev member_size : Option ℤ → Result IpkgError ℕ
member_size none = err invalid_header
member_size (some (negsuc _)) = err truncated_member
member_size (some (pos size)) = ok size

unfoldable pub read_payload : Text → ℕ → Bytes → Result IpkgError (Text × Bytes × Bytes)
read_payload name size rest = do
  raise_if (not (beq (length (take size rest)) size)) truncated_member
  ok (name, take size rest, drop (size + size % 2) rest)

-- one round of the loop of `_read_ar`: the name and the payload of a member, and what follows it
unfoldable pub read_member : Bytes → Result IpkgError (Text × Bytes × Bytes)
read_member input = do
  raise_if (ltb (length input) 60) truncated_header
  let head = take 60 input
  raise_if (not (same (drop 58 head) header_end)) invalid_header
  raise_if (not (is_ascii (take 16 head))) invalid_header
  raise_if (not (is_ascii (take 10 (drop 48 head)))) invalid_header
  size ← member_size (parse_int (take 10 (drop 48 head)))
  read_payload (rstrip is_slash (rstrip is_space (take 16 head))) size (drop 60 input)

-- the `while` loop, on fuel for the members: each is longer than its header
unfoldable pub read_members : (fuel : ℕ) → Bytes → Dict Bytes → Result IpkgError (Dict Bytes)
read_members zero input members = err out_of_fuel
read_members (suc fuel) input members = elim (null input) [
  | true ↦ ok members
  | false ↦ do
    (name, payload, rest) ← read_member input
    read_members fuel rest (insert name payload members)
]

unfoldable pub read_ar : Bytes → Result IpkgError (Dict Bytes)
unfolding read_members
read_ar input = do
  raise_if (not (same (take 8 input) ar_magic)) invalid_archive
  read_members (suc (length input)) (drop 8 input) []
