-- ===== src/Packages/Symbols.antt =====
-- The Kconfig symbols of src/smart_build/package_metadata.py. What `str.upper`, `str.lower`,
-- `str.isalnum` and `str.isspace` do is given by `Chars`.
use smart_build.Prelude.{String, Bool, true, false, beq, if◌then◌else◌}
use Prim.Native.String.{◌++◌ as ◌⧺◌}
use Prim.Native.Char.{Char, code}
use smart_build.Prelude.Texts.{◌==◌}
use smart_build.Prelude.Errors.{Result, ok, err, ◌>>=◌}

pub record Chars : Type 0 where
  pub upper : String → String
  pub lower : String → String
  pub is_alnum : Char → Bool
  pub is_space : Char → Bool

pub data PackageError : Type 0 where
  no_symbol : (text : String) → PackageError
  not_found : (name : String) → PackageError
  requirement_conflict : (name existing required : String) → PackageError
  version_conflict : (name selected required : String) → PackageError
  unsupported_version : (name version : String) → PackageError
  unsupported_value : (name option : String) → PackageError
  conflict : (name other : String) → PackageError
  -- a missing key of a dict, and the end of the fuel: the theorems exclude both
  key_error out_of_fuel : PackageError

abbrev pub is_underscore : Char → Bool
is_underscore c = beq (code c) b'_'

-- `text.strip()` and `text.strip("_")`, by the characters that are stripped
unfoldable pub strip_left : (Char → Bool) → String → String
strip_left drops String.[] = String.[]
strip_left drops (String.◌∷◌ c s) = elim (drops c) [
  | true ↦ strip_left drops s
  | false ↦ String.◌∷◌ c s
]

abbrev pub cons_unless : (Char → Bool) → Char → String → String
cons_unless drops c String.[] = if drops c then String.[] else String.◌∷◌ c String.[]
cons_unless drops c (String.◌∷◌ d s) = String.◌∷◌ c (String.◌∷◌ d s)

unfoldable pub strip_right : (Char → Bool) → String → String
strip_right drops String.[] = String.[]
strip_right drops (String.◌∷◌ c s) = cons_unless drops c (strip_right drops s)

unfoldable pub strip : (Char → Bool) → String → String
unfolding strip_left strip_right
strip drops text = strip_right drops (strip_left drops text)

module _ (chars : Chars) where
  -- the loop of `symbol_token`
  unfoldable pub token_chars : (previous_underscore : Bool) → String → String
  token_chars previous_underscore String.[] = String.[]
  token_chars previous_underscore (String.◌∷◌ c text) = elim (chars.is_alnum c) [
    | true ↦ String.◌∷◌ c (token_chars false text)
    | false ↦ elim previous_underscore [
      | true ↦ token_chars true text
      | false ↦ String.◌∷◌ "_" (token_chars true text)
    ]
  ]

  unfoldable pub symbol_token : String → Result PackageError String
  unfolding token_chars strip
  symbol_token value =
      let result = strip is_underscore (token_chars false (chars.upper value)) in
      if result == "" then err (no_symbol value) else ok result

  unfoldable pub package_symbol : String → Result PackageError String
  unfolding symbol_token
  package_symbol name = do token ← symbol_token name; ok ("PACKAGE_" ⧺ token)

  unfoldable pub package_option_symbol :
      (package_name option_name : String) → Result PackageError String
  unfolding package_symbol
  package_option_symbol package_name option_name = do
    symbol ← package_symbol package_name
    token ← symbol_token option_name
    ok (symbol ⧺ "_OPTION_" ⧺ token)
