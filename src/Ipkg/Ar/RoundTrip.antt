-- ===== src/Ipkg/Ar/RoundTrip.antt =====
-- What `_write_ar` writes is read back by `_read_ar`, and the loop of `_read_ar` ends.
use smart_build.Prelude.{
  ℕ, zero, suc, ◌+◌, ◌-◌, ◌%◌, ◌^◌, ◌<◌, ◌≤◌, ◌≡◌, refl, ap, ◌∙◌, true, false, List, [], ◌∷◌, ◌++◌,
  some, ltb, all, All, length, take, drop, replicate, null, arith, append_assoc, beq_iff,
  length-append, take_left, sym,
}
use smart_build.Prelude.Errors.{ok}
use smart_build.Prelude.Codes.{Text, Bytes, same, same_refl, is_space, ljust, rstrip}
use smart_build.Prelude.Codes.Trim.{
  take_at, drop_at, length-ljust, rstrip-append_pad, rstrip-append_kept, rstrip-append_dropped,
}
use smart_build.Prelude.Codes.Decimal.{
  numeral, parse_int, pos, parse_int-numeral, length-numeral, all-numeral, is_digit,
}
use smart_build.Prelude.Codes.Dict.{Dict, insert, insert_all}
use smart_build.Ipkg.Base.{is_slash}
use smart_build.Ipkg.Ar.{
  ar_magic, header_end, is_ascii, encoded, middle, header, padding, write_members, write_ar,
  read_payload, read_member, read_members, read_ar,
}

suc_add : (m n : ℕ) → suc m + n ≡ suc (m + n)
suc_add m n = omega arith

drop_nil {ℓ} : {A : Type ℓ} (n : ℕ) → [] ≡ drop {A = A} n []
drop_nil zero = refl
drop_nil (suc n) = refl

drop-drop {ℓ} : {A : Type ℓ} (m n : ℕ) (xs : List A) → drop (m + n) xs ≡ drop n (drop m xs)
drop-drop zero n xs = ap (λ (k : ℕ). drop k xs) (let e : 0 + n ≡ n = omega arith in e)
drop-drop (suc m) n [] = ap (λ (k : ℕ). drop k []) (suc_add m n) ∙ drop_nil n
drop-drop (suc m) n (x ∷ xs) = ap (λ (k : ℕ). drop k (x ∷ xs)) (suc_add m n) ∙ drop-drop m n xs

module _ (name : Text) (size : ℕ) (fits : length (encoded name) ≤ 16) (small : size < 10 ^ 10) where
  length-header : length (header name size) ≡ 60
  length-header = omega (
    arith,
    length-ljust 16 (encoded name) fits,
    length-append (ljust 16 (encoded name)) (middle ++ (ljust 10 (numeral size) ++ header_end)),
    length-append (ljust 10 (numeral size)) header_end,
    length-ljust 10 (numeral size) (length-numeral size small),
  )

  take-header : take 16 (header name size) ≡ ljust 16 (encoded name)
  take-header = take_at 16 (ljust 16 (encoded name)) _ (length-ljust 16 (encoded name) fits)

  drop-header : drop 48 (header name size) ≡ ljust 10 (numeral size) ++ header_end
  drop-header =
      drop-drop 16 32 (header name size)
      ∙ ap (drop 32) (drop_at 16 (ljust 16 (encoded name)) _ (length-ljust 16 (encoded name) fits))

  size-header : take 10 (drop 48 (header name size)) ≡ ljust 10 (numeral size)
  size-header =
      ap (take 10) drop-header
      ∙ take_at 10 (ljust 10 (numeral size)) header_end
          (length-ljust 10 (numeral size) (length-numeral size small))

  end-header : drop 58 (header name size) ≡ header_end
  end-header =
      drop-drop 48 10 (header name size)
      ∙ ap (drop 10) drop-header
      ∙ drop_at 10 (ljust 10 (numeral size)) header_end
          (length-ljust 10 (numeral size) (length-numeral size small))

ascii-append : (s t : Text) → is_ascii s ≡ true → is_ascii t ≡ true → is_ascii (s ++ t) ≡ true
ascii-append [] t h k = k
ascii-append (c ∷ s) t h k = ground (arith, ascii-append s t)

ascii-replicate : (n : ℕ) → is_ascii (replicate n b' ') ≡ true
ascii-replicate zero = refl
ascii-replicate (suc n) = ascii-replicate n

ascii-ljust : (n : ℕ) (s : Text) → is_ascii s ≡ true → is_ascii (ljust n s) ≡ true
ascii-ljust n s h =
    ascii-append s (replicate (n - length s) b' ') h (ascii-replicate (n - length s))

ascii-digits : (s : Text) → all is_digit s ≡ true → is_ascii s ≡ true
ascii-digits [] h = refl
ascii-digits (c ∷ s) h = ground (arith, ascii-digits s)

name-field :
    (name : Text) (n : ℕ)
    → rstrip is_slash name ≡ name
    → rstrip is_slash (rstrip is_space (encoded name ++ replicate n b' ')) ≡ name
name-field name n h =
    ap (rstrip is_slash) (
      rstrip-append_pad is_space (encoded name) n b' ' refl
      ∙ rstrip-append_kept is_space name b'/' refl)
    ∙ rstrip-append_dropped is_slash name b'/' refl
    ∙ h

-- One round on input whose parts are known.
read_member_lem :
    (input head after payload rest : Bytes) (size : ℕ)
    → ltb (length input) 60 ≡ false
    → take 60 input ≡ head
    → drop 60 input ≡ after
    → drop 58 head ≡ header_end
    → is_ascii (take 16 head) ≡ true
    → is_ascii (take 10 (drop 48 head)) ≡ true
    → parse_int (take 10 (drop 48 head)) ≡ some (pos size)
    → take size after ≡ payload
    → length payload ≡ size
    → drop (size + size % 2) after ≡ rest
    → read_member input ≡ ok (rstrip is_slash (rstrip is_space (take 16 head)), payload, rest)
unfolding read_member read_payload
read_member_lem input head after payload rest size h1 h2 h3 h4 h5 h6 h7 h8 h9 h10 = rw h1 (
    rw h2
      (rw h3 (rw (h4, same_refl, h5, h6, h7) (rw (h8, h9, h10, (beq_iff size size).1 refl) refl))))

null_of_length {ℓ} : {A : Type ℓ} (xs : List A) → 0 < length xs → null xs ≡ false
null_of_length [] h = absurd (omega arith)
null_of_length (x ∷ xs) h = refl

module _ (name : Text) (payload rest : Bytes) (fits : length (encoded name) ≤ 16)
    (small : length payload < 10 ^ 10) where
  abbrev body : Bytes
  body = payload ++ (padding (length payload) ++ rest)

  drop-body : drop (length payload + length payload % 2) body ≡ rest
  drop-body =
      ap (drop _) (sym (append_assoc payload (padding (length payload)) rest))
      ∙ drop_at _ (payload ++ padding (length payload)) rest
          (length-append payload (padding (length payload)) ∙ ground arith)

  null-header : null (header name (length payload) ++ body) ≡ false
  null-header = null_of_length (header name (length payload) ++ body) (
      ground (
        arith,
        length-header name (length payload) fits small,
        length-append (header name (length payload)) body,
      ))

  read_member-header :
      is_ascii name ≡ true
      → rstrip is_slash name ≡ name
      → read_member (header name (length payload) ++ body) ≡ ok (name, payload, rest)
  read_member-header ascii bare =
      read_member_lem _ (header name (length payload)) body payload rest (length payload)
        (ground (
          arith,
          length-header name (length payload) fits small,
          length-append (header name (length payload)) body,
        ))
        (take_at 60 (header name (length payload)) body
          (length-header name (length payload) fits small))
        (drop_at 60 (header name (length payload)) body
          (length-header name (length payload) fits small))
        (end-header name (length payload) fits small)
        (rw (take-header name (length payload) fits small)
          (ascii-ljust 16 (encoded name) (ascii-append name (b'/' ∷ []) ascii refl)))
        (rw (size-header name (length payload) fits small) (
          ascii-ljust 10 (numeral (length payload))
            (ascii-digits (numeral (length payload)) (all-numeral (length payload)))))
        (ap parse_int (size-header name (length payload) fits small)
          ∙ parse_int-numeral (length payload) _)
        (take_left payload _) refl drop-body
      ∙ ap (λ (field : Text). ok (rstrip is_slash (rstrip is_space field), payload, rest))
          (take-header name (length payload) fits small)
      ∙ ap (λ (field : Text). ok (field, payload, rest)) (name-field name _ bare)

-- A member that the format can hold: an ASCII name of at most 15 characters with no slash at its
-- end, and a size of at most ten digits.
pub record IsMember (member : Text × Bytes) : Type 0 where
  pub ascii : is_ascii member.0 ≡ true
  pub fits : length (encoded member.0) ≤ 16
  pub bare : rstrip is_slash member.0 ≡ member.0
  pub small : length member.1 < 10 ^ 10

-- What the loop of `_write_ar` writes.
abbrev image : List (Text × Bytes) → Bytes
image [] = []
image ((name, payload) ∷ members) =
    header name (length payload) ++ (payload ++ (padding (length payload) ++ image members))

write_members-ok :
    (members : List (Text × Bytes))
    → All IsMember members
    → write_members members ≡ ok (image members)
unfolding write_members
write_members-ok [] h = refl
write_members-ok ((name, payload) ∷ members) (m, h) =
    rw
      (
        m.ascii,
        (let e : ltb 16 (length (encoded name)) ≡ false = ground (arith, m.fits) in e),
        write_members-ok members h,
      )
      refl

read_members_step :
    (fuel : ℕ) (input : Bytes) (d : Dict Bytes) (name : Text) (payload rest : Bytes)
    → null input ≡ false
    → read_member input ≡ ok (name, payload, rest)
    → read_members (suc fuel) input d ≡ read_members fuel rest (insert name payload d)
unfolding read_members
read_members_step fuel input d name payload rest more e = rw (more, read_members) (rw e refl)

-- Enough fuel reads every member.
read_members-image :
    (fuel : ℕ) (members : List (Text × Bytes)) (d : Dict Bytes)
    → All IsMember members
    → length members < fuel
    → read_members fuel (image members) d ≡ ok (insert_all d members)
unfolding read_members insert_all
read_members-image zero members d h enough = absurd (omega arith)
read_members-image (suc fuel) [] d h enough = refl
read_members-image (suc fuel) ((name, payload) ∷ members) d (m, h) enough =
    read_members_step fuel (image ((name, payload) ∷ members)) d name payload (image members)
      (null-header name payload (image members) m.fits m.small)
      (read_member-header name payload (image members) m.fits m.small m.ascii m.bare)
    ∙ read_members-image fuel members (insert name payload d) h (omega arith)

length-image :
    (members : List (Text × Bytes)) → All IsMember members → length members ≤ length (image members)
length-image [] h = omega arith
length-image ((name, payload) ∷ members) (m, h) = omega (
  arith,
  length-image members h,
  length-header name (length payload) m.fits m.small,
  length-append (header name (length payload))
      (payload ++ (padding (length payload) ++ image members)),
  length-append payload (padding (length payload) ++ image members),
  length-append (padding (length payload)) (image members),
)

-- `_write_ar` writes members whose names are ASCII, end in no slash and have at most 15 characters,
-- and whose sizes have at most ten digits, and `_read_ar` then returns the dict of these members.
pub read_ar-write_ar :
    (members : List (Text × Bytes))
    → All IsMember members
    → (archive : Bytes) × (write_ar members ≡ ok archive)
      × (read_ar archive ≡ ok (insert_all [] members))
unfolding write_ar read_ar same
read_ar-write_ar members h = (
  ar_magic ++ image members,
  rw (write_members-ok members h) refl,
  read_members-image (suc (length (ar_magic ++ image members))) members [] h
      (omega (arith, length-image members h)),
)
