-- ===== src/Ipkg/Toy.antt =====
-- Archives in which each entry is written behind its mode and its lengths, for the tests.
use smart_build.Prelude.{
  ℕ, zero, suc, ◌<◌, ◌≡◌, refl, List, [], ◌∷◌, ◌++◌, Option, none, some, map, length, take, drop,
  take_left, drop_left, arith, length-append,
}
use smart_build.Prelude.Codes.{Text, Bytes}
use smart_build.Ipkg.Package.{Formats, IsFaithful, Entry, Member, member_of}

unfoldable pub pack : List Entry → Bytes
pack [] = []
pack (entry ∷ entries) =
    entry.mode
    ∷ length entry.name
    ∷ length entry.payload
    ∷ (entry.name ++ (entry.payload ++ pack entries))

abbrev add_member : ℕ → Text → Bytes → Option (List Member) → Option (List Member)
add_member mode name payload none = none
add_member mode name payload (some members) =
    some (member_of (record { name = name; payload = payload; mode = mode }) ∷ members)

unfoldable pub unpack : (fuel : ℕ) → Bytes → Option (List Member)
unpack zero bytes = none
unpack (suc fuel) [] = some []
unpack (suc fuel) (mode ∷ n ∷ m ∷ bytes) =
    add_member mode (take n bytes) (take m (drop n bytes)) (unpack fuel (drop m (drop n bytes)))
unpack (suc fuel) (a ∷ []) = none
unpack (suc fuel) (a ∷ b ∷ []) = none

unpack-pack :
    (fuel : ℕ) (entries : List Entry)
    → length (pack entries) < fuel
    → unpack fuel (pack entries) ≡ some (map member_of entries)
unfolding unpack pack
unpack-pack zero entries h = absurd (omega arith)
unpack-pack (suc fuel) [] h = refl
unpack-pack (suc fuel) (entry ∷ entries) h =
    let rest = entry.payload ++ pack entries in
    rw (take_left entry.name rest, drop_left entry.name rest)
      (rw (take_left entry.payload (pack entries), drop_left entry.payload (pack entries))
        (rw
          (unpack-pack fuel entries (
            omega
              (arith, length-append entry.name rest, length-append entry.payload (pack entries))))
          refl))

unfoldable pub toy : Formats
unfolding pack unpack
toy = record {
  encode = λ text. text;
  decode = λ bytes. some bytes;
  tar_gz = pack;
  members = λ bytes. unpack (suc (length bytes)) bytes;
}

pub toy-IsFaithful : IsFaithful toy
unfolding toy
toy-IsFaithful = record {
  decode-encode = λ text. refl;
  members-tar_gz = λ entries. unpack-pack (suc (length (pack entries))) entries (omega arith);
}
