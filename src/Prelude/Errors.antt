-- ===== src/Prelude/Errors.antt =====
-- What a function that may raise returns: its value, or the exception with what its text names.
use mathlib.Core.Path.{◌≡◌, refl}
use mathlib.Core.Logic.{◌⊎◌, inl, inr}
use mathlib.Core.Bool.{Bool, true, false}

pub data Result (E A : Type 0) : Type 0 where
  err : E → Result E A
  ok : A → Result E A

-- `if bad: raise e`
abbrev pub raise_if : {E : Type 0} → Bool → E → Result E (Unit {0})
raise_if false _ = ok tt
raise_if true raised = err raised

module _ {E : Type 0} where
  infixl 5 ◌>>=◌ ◌>>◌
  -- what follows a call, unless the call raises
  abbrev pub ◌>>=◌ : {A B : Type 0} → Result E A → (A → Result E B) → Result E B
  err raised >>= next = err raised
  ok value >>= next = next value

  abbrev pub ◌>>◌ : {B : Type 0} → Result E (Unit {0}) → Result E B → Result E B
  before >> next = before >>= (λ _. next)

  pub >>=-eq-ok :
      {A B : Type 0} (call : Result E A) (next : A → Result E B) {last : B}
      → (call >>= next) ≡ ok last
      → (value : A) × (call ≡ ok value) × (next value ≡ ok last)
  >>=-eq-ok (err raised) next same = cc
  >>=-eq-ok (ok value) next same = (value, refl, same)

  -- What stands behind a check that returns.
  pub raise_if-ok :
      {B : Type 0} (bad : Bool) (raised : E) (next : Result E B) {last : B}
      → (raise_if bad raised >> next) ≡ ok last
      → (bad ≡ false) × (next ≡ ok last)
  raise_if-ok false raised next same = (refl, same)
  raise_if-ok true raised next same = absurd (cc same)

pub ok-injective : {E A : Type 0} {a b : A} → ◌≡◌ {A = Result E A} (ok a) (ok b) → a ≡ b
ok-injective h = cc

pub err-injective : {E A : Type 0} {a b : E} → ◌≡◌ {A = Result E A} (err a) (err b) → a ≡ b
err-injective h = cc

pub Result-cases :
    {E A : Type 0} (r : Result E A) → ((a : A) × (r ≡ ok a)) ⊎ ((e : E) × (r ≡ err e))
Result-cases (ok a) = inl (a, refl)
Result-cases (err e) = inr (e, refl)

-- A call raises an exception as `P` says, or returns a value as `Q` says.
pub data Outcome {E A : Type 0} (P : E → Type 0) (Q : A → Type 0) : Result E A → Type 0 where
  raises : {e : E} → P e → Outcome P Q (err e)
  returns : {a : A} → Q a → Outcome P Q (ok a)

module _ {E : Type 0} {P : E → Type 0} where
  pub Outcome-raise_if :
      {B : Type 0} {Q : B → Type 0} (bad : Bool) (e : E) (next : Result E B)
      → P e
      → (bad ≡ false → Outcome P Q next)
      → Outcome P Q (raise_if bad e >> next)
  Outcome-raise_if false e next p n = n refl
  Outcome-raise_if true e next p n = raises p

  pub Outcome->>= :
      {A B : Type 0} {R : A → Type 0} {Q : B → Type 0} (call : Result E A) (next : A → Result E B)
      → Outcome P R call
      → ((a : A) → R a → Outcome P Q (next a))
      → Outcome P Q (call >>= next)
  Outcome->>= (err e) next (raises p) n = raises p
  Outcome->>= (ok a) next (returns r) n = n a r
