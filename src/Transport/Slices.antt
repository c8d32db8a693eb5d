-- ===== src/Transport/Slices.antt =====
-- Slices of buffers: the lemmas on `take` and `drop` that the transports share.
use scaproust.Prelude.{
  ℕ, zero, suc, ◌+◌, ◌-◌, ◌≡◌, ◌≤◌, refl, sym, ap, ◌∙◌, List, [], ◌∷◌, ◌++◌, length, take, drop,
  arith, length-append, length-take, take-append,
}

module _ {ℓ} {A : Type ℓ} where
  pub append_assoc : (xs ys zs : List A) → (xs ++ ys) ++ zs ≡ xs ++ (ys ++ zs)
  append_assoc [] ys zs = refl
  append_assoc (x ∷ xs) ys zs = ap (◌∷◌ x) (append_assoc xs ys zs)

  pub append_nil : (xs : List A) → xs ++ [] ≡ xs
  append_nil [] = refl
  append_nil (x ∷ xs) = ap (◌∷◌ x) (append_nil xs)

  pub take-drop : (n : ℕ) (xs : List A) → take n xs ++ drop n xs ≡ xs
  take-drop zero xs = refl
  take-drop (suc n) [] = refl
  take-drop (suc n) (x ∷ xs) = ap (◌∷◌ x) (take-drop n xs)

  pub length-drop : (n : ℕ) (xs : List A) → length (drop n xs) ≡ length xs - n
  length-drop zero xs = omega arith
  length-drop (suc n) [] = omega arith
  length-drop (suc n) (x ∷ xs) = omega (arith, length-drop n xs)

  pub drop-drop : (m n : ℕ) (xs : List A) → drop n (drop m xs) ≡ drop (m + n) xs
  drop-drop zero n xs = rw zero_add refl
    where
      zero_add : 0 + n ≡ n
      zero_add = omega arith
  drop-drop (suc m) n (x ∷ xs) = rw shift (drop-drop m n xs)
    where
      shift : suc m + n ≡ suc (m + n)
      shift = omega arith
  drop-drop (suc m) n [] = rw shift (nothing n)
    where
      shift : suc m + n ≡ suc (m + n)
      shift = omega arith

      nothing : (n : ℕ) → drop {A = A} n [] ≡ []
      nothing zero = refl
      nothing (suc n) = refl

  pub take-split : (m n : ℕ) (xs : List A) → take m xs ++ take n (drop m xs) ≡ take (m + n) xs
  take-split zero n xs = rw zero_add refl
    where
      zero_add : 0 + n ≡ n
      zero_add = omega arith
  take-split (suc m) n [] = nothing n ∙ sym (nothing (suc m + n))
    where
      nothing : (n : ℕ) → take {A = A} n [] ≡ []
      nothing zero = refl
      nothing (suc n) = refl
  take-split (suc m) n (x ∷ xs) = ap (◌∷◌ x) (take-split m n xs) ∙ rw shift refl
    where
      shift : suc m + n ≡ suc (m + n)
      shift = omega arith

  pub drop-all : (n : ℕ) (xs : List A) → length xs ≤ n → drop n xs ≡ []
  drop-all zero [] h = refl
  drop-all zero (x ∷ xs) h = absurd (omega arith)
  drop-all (suc n) [] h = refl
  drop-all (suc n) (x ∷ xs) h = drop-all n xs (omega arith)

  -- A slice that starts in the first of two buffers, and one that starts past it.
  pub drop-append_in :
      (n : ℕ) (xs ys : List A) → n ≤ length xs → drop n (xs ++ ys) ≡ drop n xs ++ ys
  drop-append_in zero xs ys h = refl
  drop-append_in (suc n) [] ys h = absurd (omega arith)
  drop-append_in (suc n) (x ∷ xs) ys h = drop-append_in n xs ys (omega arith)

  pub drop-append_past :
      (n : ℕ) (xs ys : List A) → length xs ≤ n → drop n (xs ++ ys) ≡ drop (n - length xs) ys
  drop-append_past n [] ys h = rw same refl
    where
      same : n - 0 ≡ n
      same = omega arith
  drop-append_past zero (x ∷ xs) ys h = absurd (omega arith)
  drop-append_past (suc n) (x ∷ xs) ys h = rw shift (drop-append_past n xs ys (omega arith))
    where
      shift : suc n - suc (length xs) ≡ n - length xs
      shift = omega arith

  -- Two ways to cut a list at one place are one.
  pub cut_once :
      (xs ys us vs : List A) → length xs ≡ length us → xs ++ ys ≡ us ++ vs → (xs ≡ us) × (ys ≡ vs)
  cut_once [] ys [] vs h e = (refl, e)
  cut_once [] ys (u ∷ us) vs h e = absurd (omega arith)
  cut_once (x ∷ xs) ys [] vs h e = absurd (omega arith)
  cut_once (x ∷ xs) ys (u ∷ us) vs h e =
      let (same, rest) = cut_once xs ys us vs (omega arith) (cc) in (cc, rest)

  -- A buffer into which bytes are put at a place.
  abbrev pub fill : List A → ℕ → List A → List A
  fill buffer read bytes = take read buffer ++ (bytes ++ drop (read + length bytes) buffer)

  pub take-fill :
      (buffer : List A) (read : ℕ) (bytes : List A)
      → read ≤ length buffer
      → take (read + length bytes) (fill buffer read bytes) ≡ take read buffer ++ bytes
  take-fill buffer read bytes h =
      let front = take read buffer ++ bytes in
      let size : length front ≡ read + length bytes =
        omega (arith, length-append (take read buffer) bytes, length-take read buffer) in
      rw (← append_assoc (take read buffer) bytes (drop (read + length bytes) buffer), ← size)
        (take-append front (drop (length front) buffer))

  pub length-fill :
      (buffer : List A) (read : ℕ) (bytes : List A)
      → read + length bytes ≤ length buffer
      → length (fill buffer read bytes) ≡ length buffer
  length-fill buffer read bytes h = omega (
    arith,
    length-append (take read buffer) (bytes ++ drop (read + length bytes) buffer),
    length-append bytes (drop (read + length bytes) buffer),
    length-take read buffer,
    length-drop (read + length bytes) buffer,
  )

  pub fill-whole :
      (buffer : List A) (read : ℕ) (bytes : List A)
      → read + length bytes ≡ length buffer
      → fill buffer read bytes ≡ take read buffer ++ bytes
  fill-whole buffer read bytes h =
      rw (drop-all (read + length bytes) buffer (omega arith), append_nil bytes) refl
