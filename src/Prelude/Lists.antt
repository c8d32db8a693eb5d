-- ===== src/Prelude/Lists.antt =====
-- Lists measured and indexed by native numbers, under the library's names.
use Prim.Native.Nat.{ℕ, zero, suc, ◌+◌, ◌<◌, min}
use mathlib.Core.Path.{◌≡◌, refl, ap}
use mathlib.Core.Logic.{◌≢◌, ◌⊎◌, inl, inr}
use mathlib.Core.List.{List, [], ◌∷◌, ◌++◌}
use mathlib.Core.Option.{Option, none, some}
use native.Mathlib.Omega.{arith}
use native.Mathlib.Decide.{ℕ_discrete}

module _ {ℓ} {A : Type ℓ} where
  abbrev pub length : List A → ℕ
  length [] = 0
  length (x ∷ xs) = suc (length xs)

  abbrev pub get_elem? : List A → ℕ → Option A
  get_elem? [] i = none
  get_elem? (x ∷ xs) zero = some x
  get_elem? (x ∷ xs) (suc i) = get_elem? xs i

  -- A write out of bounds changes nothing.
  abbrev pub set : List A → ℕ → A → List A
  set [] i v = []
  set (x ∷ xs) zero v = v ∷ xs
  set (x ∷ xs) (suc i) v = x ∷ set xs i v

  abbrev pub take : ℕ → List A → List A
  take zero xs = []
  take (suc n) [] = []
  take (suc n) (x ∷ xs) = x ∷ take n xs

  abbrev pub drop : ℕ → List A → List A
  drop zero xs = xs
  drop (suc n) [] = []
  drop (suc n) (x ∷ xs) = drop n xs

module _ {ℓ} {A : Type ℓ} where
  pub length-append : (xs ys : List A) → length (xs ++ ys) ≡ length xs + length ys
  length-append [] ys = omega arith
  length-append (x ∷ xs) ys = omega (arith, length-append xs ys)

  pub length-set : (xs : List A) (i : ℕ) (v : A) → length (set xs i v) ≡ length xs
  length-set [] i v = refl
  length-set (x ∷ xs) zero v = refl
  length-set (x ∷ xs) (suc i) v = ap suc (length-set xs i v)

  pub length-take : (n : ℕ) (xs : List A) → length (take n xs) ≡ min n (length xs)
  length-take zero xs = omega arith
  length-take (suc n) [] = omega arith
  length-take (suc n) (x ∷ xs) = omega (arith, length-take n xs)

  pub take-append : (xs ys : List A) → take (length xs) (xs ++ ys) ≡ xs
  take-append [] ys = refl
  take-append (x ∷ xs) ys = ap (◌∷◌ x) (take-append xs ys)

  pub drop-append : (xs ys : List A) → drop (length xs) (xs ++ ys) ≡ ys
  drop-append [] ys = refl
  drop-append (x ∷ xs) ys = drop-append xs ys

  pub get_elem?-set_self :
      (xs : List A) (i : ℕ) (v : A) → i < length xs → get_elem? (set xs i v) i ≡ some v
  get_elem?-set_self [] i v h = elim h [ ]
  get_elem?-set_self (x ∷ xs) zero v h = refl
  get_elem?-set_self (x ∷ xs) (suc i) v h = get_elem?-set_self xs i v (omega arith)

  pub get_elem?-set_ne :
      (xs : List A) (i j : ℕ) (v : A) → i ≢ j → get_elem? (set xs i v) j ≡ get_elem? xs j
  get_elem?-set_ne [] i j v h = refl
  get_elem?-set_ne (x ∷ xs) zero zero v h = absurd (h refl)
  get_elem?-set_ne (x ∷ xs) zero (suc j) v h = refl
  get_elem?-set_ne (x ∷ xs) (suc i) zero v h = refl
  get_elem?-set_ne (x ∷ xs) (suc i) (suc j) v h = get_elem?-set_ne xs i j v (λ e. h (ap suc e))

  -- What is read lies in range, and what lies in range is read.
  pub get_elem?-lt : (xs : List A) (i : ℕ) (a : A) → get_elem? xs i ≡ some a → i < length xs
  get_elem?-lt [] i a h = cc
  get_elem?-lt (x ∷ xs) zero a h = omega arith
  get_elem?-lt (x ∷ xs) (suc i) a h = omega (arith, get_elem?-lt xs i a h)

  pub get_elem?-in_range :
      (xs : List A) (i : ℕ) → i < length xs → (a : A) × (get_elem? xs i ≡ some a)
  get_elem?-in_range [] i h = elim h [ ]
  get_elem?-in_range (x ∷ xs) zero h = (x, refl)
  get_elem?-in_range (x ∷ xs) (suc i) h = get_elem?-in_range xs i (omega arith)

  pub get_elem?-take_lt :
      (n : ℕ) (xs : List A) (j : ℕ) → j < n → get_elem? (take n xs) j ≡ get_elem? xs j
  get_elem?-take_lt zero xs j h = elim h [ ]
  get_elem?-take_lt (suc n) [] j h = refl
  get_elem?-take_lt (suc n) (x ∷ xs) zero h = refl
  get_elem?-take_lt (suc n) (x ∷ xs) (suc j) h = get_elem?-take_lt n xs j (omega arith)

  pub get_elem?-append_lt :
      (xs ys : List A) (i : ℕ) → i < length xs → get_elem? (xs ++ ys) i ≡ get_elem? xs i
  get_elem?-append_lt [] ys i h = elim h [ ]
  get_elem?-append_lt (x ∷ xs) ys zero h = refl
  get_elem?-append_lt (x ∷ xs) ys (suc i) h = get_elem?-append_lt xs ys i (omega arith)

  pub get_elem?-append_last : (xs : List A) (a : A) → get_elem? (xs ++ a ∷ []) (length xs) ≡ some a
  get_elem?-append_last [] a = refl
  get_elem?-append_last (x ∷ xs) a = get_elem?-append_last xs a

  -- What is read after a write: the value written, or what stood there.
  pub get_elem?-set_cases :
      (xs : List A) (i j : ℕ) (v y : A)
      → i < length xs
      → get_elem? (set xs i v) j ≡ some y
      → ((i ≡ j) × (y ≡ v)) ⊎ ((i ≢ j) × (get_elem? xs j ≡ some y))
  get_elem?-set_cases xs i j v y h e = elim (ℕ_discrete i j) [
    | yes same ↦ inl (same, cc (rw same at (get_elem?-set_self xs i v h), e))
    | no other ↦ inr (other, rw (← get_elem?-set_ne xs i j v other) e)
  ]

  pub get_elem?-append_cases :
      (xs : List A) (v y : A) (j : ℕ)
      → get_elem? (xs ++ v ∷ []) j ≡ some y
      → ((j < length xs) × (get_elem? xs j ≡ some y)) ⊎ ((j ≡ length xs) × (y ≡ v))
  get_elem?-append_cases [] v y zero e = inr (refl, cc)
  get_elem?-append_cases [] v y (suc j) e = absurd (cc)
  get_elem?-append_cases (x ∷ xs) v y zero e = inl (omega arith, e)
  get_elem?-append_cases (x ∷ xs) v y (suc j) e = elim (get_elem?-append_cases xs v y j e) [
    | inl (h, f) ↦ inl (omega arith, f)
    | inr (h, f) ↦ inr (ap suc h, f)
  ]
