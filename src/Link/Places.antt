-- ===== src/Link/Places.antt =====
-- Lookups in a list behind a write or an appended element.
use b1cc.Common.{
  ℕ, zero, suc, ◌<◌, ◌≡◌, ◌≢◌, refl, sym, ap, some, List, [], ◌∷◌, ◌++◌, arith, length, get_elem?,
  set, some_injective,
}

module _ {ℓ} {A : Type ℓ} where
  pub get-append_old :
      (xs : List A) (x y : A) (i : ℕ)
      → get_elem? xs i ≡ some y
      → get_elem? (xs ++ x ∷ []) i ≡ some y
  get-append_old [] x y i h = absurd cc
  get-append_old (z ∷ xs) x y zero h = h
  get-append_old (z ∷ xs) x y (suc i) h = get-append_old xs x y i h

  pub get-append_new : (xs : List A) (x : A) → get_elem? (xs ++ x ∷ []) (length xs) ≡ some x
  get-append_new [] x = refl
  get-append_new (z ∷ xs) x = get-append_new xs x

  pub get-length : (xs : List A) (y : A) (i : ℕ) → get_elem? xs i ≡ some y → i < length xs
  get-length [] y i h = absurd cc
  get-length (z ∷ xs) y zero h = omega arith
  get-length (z ∷ xs) y (suc i) h = let lt = get-length xs y i h in omega arith

  pub get-set_same :
      (xs : List A) (x y : A) (i : ℕ) → get_elem? xs i ≡ some y → get_elem? (set xs i x) i ≡ some x
  get-set_same [] x y i h = absurd cc
  get-set_same (z ∷ xs) x y zero h = refl
  get-set_same (z ∷ xs) x y (suc i) h = get-set_same xs x y i h

  pub get-set_other :
      (xs : List A) (x : A) (i j : ℕ) → i ≢ j → get_elem? (set xs i x) j ≡ get_elem? xs j
  get-set_other [] x i j ne = refl
  get-set_other (z ∷ xs) x zero zero ne = absurd (ne refl)
  get-set_other (z ∷ xs) x zero (suc j) ne = refl
  get-set_other (z ∷ xs) x (suc i) zero ne = refl
  get-set_other (z ∷ xs) x (suc i) (suc j) ne = get-set_other xs x i j (λ e. ne (ap suc e))

  pub set-same : (xs : List A) (x : A) (i : ℕ) → get_elem? xs i ≡ some x → set xs i x ≡ xs
  set-same [] x i h = refl
  set-same (z ∷ xs) x zero h = ap (λ v. v ∷ xs) (sym (some_injective h))
  set-same (z ∷ xs) x (suc i) h = ap (λ v. z ∷ v) (set-same xs x i h)
