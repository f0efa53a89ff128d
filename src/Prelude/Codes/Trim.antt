-- ===== src/Prelude/Codes/Trim.antt =====
-- What stripping leaves, and fields at fixed places.
use smart_build.Prelude.{
  ℕ, zero, suc, ◌-◌, ◌≤◌, ◌≡◌, refl, ap, Bool, true, false, not, List, [], ◌∷◌, ◌++◌, arith, length,
  take, drop, replicate, all, take_left, drop_left, length-append, length-replicate,
}
use smart_build.Prelude.Codes.{Text, lstrip, rstrip, keep_unless, ljust}

module _ {ℓ} {A : Type ℓ} (n : ℕ) (xs ys : List A) (h : length xs ≡ n) where
  pub take_at : take n (xs ++ ys) ≡ xs
  take_at = rw (← h) (take_left xs ys)

  pub drop_at : drop n (xs ++ ys) ≡ ys
  drop_at = rw (← h) (drop_left xs ys)

module _ (drops : ℕ → Bool) where
  pub rstrip-replicate : (n c : ℕ) → drops c ≡ true → rstrip drops (replicate n c) ≡ []
  unfolding rstrip
  rstrip-replicate zero c h = refl
  rstrip-replicate (suc n) c h = rw (rstrip-replicate n c h) (rw h)

  pub rstrip-append_pad :
      (s : Text) (n c : ℕ) → drops c ≡ true → rstrip drops (s ++ replicate n c) ≡ rstrip drops s
  unfolding rstrip
  rstrip-append_pad [] n c h = rstrip-replicate n c h
  rstrip-append_pad (d ∷ s) n c h = ap (keep_unless drops d) (rstrip-append_pad s n c h)

  -- The last character stays when it is not dropped.
  pub rstrip-append_kept :
      (s : Text) (c : ℕ) → drops c ≡ false → rstrip drops (s ++ c ∷ []) ≡ s ++ c ∷ []
  unfolding rstrip
  rstrip-append_kept [] c h = rw h
  rstrip-append_kept (d ∷ []) c h = rw h
  rstrip-append_kept (d ∷ e ∷ s) c h = rw (rstrip-append_kept (e ∷ s) c h)

  pub rstrip-append_dropped :
      (s : Text) (c : ℕ) → drops c ≡ true → rstrip drops (s ++ c ∷ []) ≡ rstrip drops s
  rstrip-append_dropped s c h = rstrip-append_pad s 1 c h

  pub lstrip-cons : (c : ℕ) (s : Text) → drops c ≡ false → lstrip drops (c ∷ s) ≡ c ∷ s
  unfolding lstrip
  lstrip-cons c s h = rw (lstrip, h)

  -- Nothing goes where no character is dropped.
  pub rstrip_none : (s : Text) → all (λ c. not (drops c)) s ≡ true → rstrip drops s ≡ s
  unfolding rstrip
  rstrip_none [] h = refl
  rstrip_none (c ∷ []) h = ground arith
  rstrip_none (c ∷ d ∷ s) h = rw (rstrip_none (d ∷ s) (ground arith))

pub length-ljust : (n : ℕ) (s : Text) → length s ≤ n → length (ljust n s) ≡ n
length-ljust n s h = omega (
  arith,
  length-append s (replicate (n - length s) b' '),
  length-replicate {A = ℕ} (n - length s) b' ',
)
