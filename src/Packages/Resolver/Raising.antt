-- ===== src/Packages/Resolver/Raising.antt =====
-- What the parts of a resolution raise.
use smart_build.Prelude.{
  String, Bool, true, false, not, List, [], ◌∷◌, Option, none, some, Option-cases, Bool-cases, inl,
  inr, ◌≡◌, refl, if_both,
}
use mathlib.Core.Path.{subst}
use smart_build.Prelude.Texts.{◌==◌, elem}
use smart_build.Prelude.Errors.{Result, ok, err, ◌>>=◌, ◌>>◌, raise_if, err-injective}
use smart_build.Packages.Symbols.{
  Chars, PackageError, key_error, out_of_fuel, no_symbol, requirement_conflict, version_conflict,
  unsupported_version, unsupported_value, strip, is_underscore, token_chars, symbol_token,
  package_symbol, package_option_symbol,
}
use smart_build.Packages.Metadata.{
  PackageMetadata, PackageOption, OptionValue, OptionType, bool, choice, string,
}
use smart_build.Prelude.Texts.{update}
use smart_build.Packages.Resolver.{
  or_default, Values, Requirements, record_version_requirement, check_version, selected_version,
  option_value, selected_options,
}

abbrev pub is_internal : PackageError → Bool
is_internal key_error = true
is_internal out_of_fuel = true
is_internal _ = false

-- No error of the model's own comes out.
abbrev pub IsOwn : {A : Type 0} → Result PackageError A → Type 0
IsOwn r = (e : PackageError) → r ≡ err e → is_internal e ≡ false

pub ok-IsOwn : {A : Type 0} (a : A) → IsOwn (ok a)
ok-IsOwn a e h = absurd (cc h)

pub err-IsOwn : {A : Type 0} (x : PackageError) → is_internal x ≡ false → IsOwn {A = A} (err x)
err-IsOwn x own e h = subst (λ y. is_internal y ≡ false) (err-injective h) own

pub >>=-IsOwn :
    {A B : Type 0} (m : Result PackageError A) (f : A → Result PackageError B)
    → IsOwn m
    → ((a : A) → m ≡ ok a → IsOwn (f a))
    → IsOwn (m >>= f)
>>=-IsOwn (ok a) f first next = next a refl
>>=-IsOwn (err x) f first next = err-IsOwn x (first x refl)

pub raise_if-IsOwn :
    {A : Type 0} (b : Bool) (x : PackageError) (next : Result PackageError A)
    → is_internal x ≡ false
    → IsOwn next
    → IsOwn (raise_if b x >> next)
raise_if-IsOwn true x next own rest = err-IsOwn x own
raise_if-IsOwn false x next own rest = rest

module _ (chars : Chars) where
  symbol_token-IsOwn : (value : String) → IsOwn (symbol_token chars value)
  unfolding symbol_token
  symbol_token-IsOwn value =
      if_both IsOwn (strip is_underscore (token_chars chars false (chars.upper value)) == "")
        (λ _. err-IsOwn (no_symbol value) refl) (λ _. ok-IsOwn _)

  pub package_symbol-IsOwn : (name : String) → IsOwn (package_symbol chars name)
  unfolding package_symbol
  package_symbol-IsOwn name =
      >>=-IsOwn (symbol_token chars name) _ (symbol_token-IsOwn name) (λ t _. ok-IsOwn _)

  package_option_symbol-IsOwn :
      (name option : String) → IsOwn (package_option_symbol chars name option)
  unfolding package_option_symbol
  package_option_symbol-IsOwn name option =
      >>=-IsOwn (package_symbol chars name) _ (package_symbol-IsOwn name) (λ s _.
        >>=-IsOwn (symbol_token chars option) _ (symbol_token-IsOwn option) (λ t _. ok-IsOwn _))

pub record_version_requirement-IsOwn :
    (reqs : Requirements) (q : String) (o : Option String)
    → IsOwn (record_version_requirement reqs q o)
unfolding record_version_requirement
record_version_requirement-IsOwn reqs q none = ok-IsOwn reqs
record_version_requirement-IsOwn reqs q (some v) = elim (Option-cases (reqs q)) [
  | inl absent ↦ rw (record_version_requirement, absent) (ok-IsOwn _)
  | inr (x, present) ↦
      rw (record_version_requirement, present)
        (if_both IsOwn (not (x == v)) (λ _. err-IsOwn (requirement_conflict q x v) refl)
          (λ _. ok-IsOwn _))
]

check_version-IsOwn :
    (m : PackageMetadata) (o : Option String) (v : String) → IsOwn (check_version m o v)
check_version-IsOwn m none v =
    raise_if-IsOwn (not (elem v m.versions)) (unsupported_version m.name v) (ok v) refl (ok-IsOwn v)
check_version-IsOwn m (some w) v =
    raise_if-IsOwn (not (v == w)) (version_conflict m.name v w) (check_version m none v) refl (
      raise_if-IsOwn (not (elem v m.versions)) (unsupported_version m.name v) (ok v) refl
        (ok-IsOwn v))

module _ (chars : Chars) (values : Values) where
  pub selected_version-IsOwn :
      (m : PackageMetadata) (o : Option String) → IsOwn (selected_version chars values m o)
  unfolding selected_version
  selected_version-IsOwn m o = elim (Bool-cases m.native) [
    | inl native ↦
        let usual = or_default o m.default_version in
        rw (selected_version, native)
          (raise_if-IsOwn (not (usual == m.default_version)) (unsupported_version m.name usual)
            (ok usual) refl (ok-IsOwn usual))
    | inr generated ↦
        rw (selected_version, generated)
          (>>=-IsOwn (package_symbol chars m.name) _ (package_symbol-IsOwn chars m.name)
            (λ s _. check_version-IsOwn m o _))
  ]

  option_value-IsOwn :
      (type : OptionType) (name : String) (option : PackageOption) (raw : Option String)
      → IsOwn (option_value chars values type name option raw)
  unfolding option_value
  option_value-IsOwn bool name option raw = ok-IsOwn _
  option_value-IsOwn choice name option raw =
      raise_if-IsOwn _ (unsupported_value name option.name) _ refl (ok-IsOwn _)
  option_value-IsOwn string name option raw = ok-IsOwn _

  pub selected_options-IsOwn :
      (name : String) (result : String → Option OptionValue) (options : List PackageOption)
      → IsOwn (selected_options chars values name result options)
  unfolding selected_options
  selected_options-IsOwn name result [] = ok-IsOwn result
  selected_options-IsOwn name result (o ∷ os) =
      >>=-IsOwn (package_option_symbol chars name o.name) _
        (package_option_symbol-IsOwn chars name o.name)
        (λ symbol _.
          >>=-IsOwn (option_value chars values o.type name o (values symbol)) _
            (option_value-IsOwn o.type name o (values symbol))
            (λ v _. selected_options-IsOwn name (update result o.name (some v)) os))
