-- ===== src/Ipkg/Ar/Total.antt =====
-- `_read_ar` ends on every input.
use smart_build.Prelude.{
  ℕ, zero, suc, ◌+◌, ◌%◌, ◌<◌, ◌≤◌, not, [], Option, none, some, length, take, drop, null, arith,
  inl, inr, Bool-cases, length-drop, ltb, beq,
}
use smart_build.Prelude.Errors.{ok, Outcome, Outcome-raise_if, returns, raises, Outcome->>=}
use smart_build.Prelude.Codes.{Text, Bytes, same}
use smart_build.Prelude.Codes.Decimal.{parse_int, ℤ, negsuc, pos}
use smart_build.Prelude.Codes.Dict.{Dict, insert}
use smart_build.Ipkg.Base.{
  IpkgError, invalid_archive, truncated_header, invalid_header, truncated_member,
}
use smart_build.Ipkg.Ar.{
  ar_magic, header_end, is_ascii, member_size, read_payload, read_member, read_members, read_ar,
}

-- what `_read_ar` raises
abbrev pub IsArchiveError : IpkgError → Type 0
IsArchiveError invalid_archive = Unit
IsArchiveError truncated_header = Unit
IsArchiveError invalid_header = Unit
IsArchiveError truncated_member = Unit
IsArchiveError _ = ⊥

member_size-Outcome : (size : Option ℤ) → Outcome IsArchiveError (λ _. Unit {0}) (member_size size)
member_size-Outcome none = raises tt
member_size-Outcome (some (negsuc _)) = raises tt
member_size-Outcome (some (pos size)) = returns tt

-- A member takes the bytes of its header at least.
abbrev IsShorter : Bytes → Text × Bytes × Bytes → Type 0
IsShorter input (name, payload, rest) = length rest < length input

read_payload-Outcome :
    (input : Bytes) (name : Text) (size : ℕ)
    → 60 ≤ length input
    → Outcome IsArchiveError (IsShorter input) (read_payload name size (drop 60 input))
unfolding read_payload
read_payload-Outcome input name size h =
    Outcome-raise_if (not (beq (length (take size (drop 60 input))) size)) truncated_member
      (ok (name, take size (drop 60 input), drop (size + size % 2) (drop 60 input))) tt
      (λ _. returns (
        let shorter : length (drop (size + size % 2) (drop 60 input)) < length input =
          omega (arith, length-drop (size + size % 2) (drop 60 input), length-drop 60 input) in
        shorter))

read_member-Outcome : (input : Bytes) → Outcome IsArchiveError (IsShorter input) (read_member input)
unfolding read_member
read_member-Outcome input = Outcome-raise_if (ltb (length input) 60) truncated_header _ tt λ long.
    Outcome-raise_if (not (same (drop 58 (take 60 input)) header_end)) invalid_header _ tt λ _.
      Outcome-raise_if (not (is_ascii (take 16 (take 60 input)))) invalid_header _ tt λ _.
        Outcome-raise_if (not (is_ascii (take 10 (drop 48 (take 60 input))))) invalid_header _ tt
          λ _.
            Outcome->>= (member_size (parse_int (take 10 (drop 48 (take 60 input))))) _
              (member_size-Outcome _)
              λ size _. read_payload-Outcome input _ size (ground (arith, long))

read_members-Outcome :
    (fuel : ℕ) (input : Bytes) (d : Dict Bytes)
    → length input < fuel
    → Outcome IsArchiveError (λ _. Unit {0}) (read_members fuel input d)
unfolding read_members
read_members-Outcome zero input d h = absurd (omega arith)
read_members-Outcome (suc fuel) input d h = elim (Bool-cases (null input)) [
  | inl e ↦ rw (e, read_members) (returns tt)
  | inr e ↦
      rw (e, read_members)
        (Outcome->>= (read_member input) _ (read_member-Outcome input)
          λ (name, payload, rest) shorter.
            read_members-Outcome fuel rest (insert name payload d) (omega arith))
]

-- On any bytes at all `_read_ar` returns members or raises one of its four errors: its loop ends.
pub read_ar_total : (input : Bytes) → Outcome IsArchiveError (λ _. Unit {0}) (read_ar input)
unfolding read_ar
read_ar_total input =
    Outcome-raise_if (not (same (take 8 input) ar_magic)) invalid_archive _ tt λ _.
      read_members-Outcome (suc (length input)) (drop 8 input) []
        (omega (arith, length-drop 8 input))
