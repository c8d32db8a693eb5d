-- ===== src/Core/Bytes.antt =====
-- The crate byteorder, which the code calls and does not contain: what it does to two, four and
-- eight bytes is a parameter, and its documented behaviour is a record of laws.
use scaproust.Prelude.{
  ℕ, ◌/◌, ◌%◌, ◌^◌, ◌≡◌, ◌<◌, ◌↔◌, refl, ap, Bool, true, false, ◌&&◌, List, [], ◌∷◌, length, drop,
  arith, ◌==◌, ==_iff,
}

pub record ByteOrder : Type 0 where
  pub write_u16 : ℕ → List ℕ
  pub read_u16 : List ℕ → ℕ
  pub write_u32 : ℕ → List ℕ
  pub read_u32 : List ℕ → ℕ
  pub write_u64 : ℕ → List ℕ
  pub read_u64 : List ℕ → ℕ

-- A number is written on two, four or eight bytes, and is read back from them. The code names the order of
-- the bytes, the most significant first.
pub record IsByteOrder (be : ByteOrder) : Type 0 where
  pub length-write_u16 : (n : ℕ) → length (be.write_u16 n) ≡ 2
  pub read_u16-write_u16 : (n : ℕ) → n < 2 ^ 16 → be.read_u16 (be.write_u16 n) ≡ n
  pub length-write_u32 : (n : ℕ) → length (be.write_u32 n) ≡ 4
  pub read_u32-write_u32 : (n : ℕ) → n < 2 ^ 32 → be.read_u32 (be.write_u32 n) ≡ n
  pub bytes-write_u32 :
      (n : ℕ)
      → n < 2 ^ 32
      → be.write_u32 n ≡ n / 2 ^ 24 ∷ n / 2 ^ 16 % 256 ∷ n / 2 ^ 8 % 256 ∷ n % 256 ∷ []
  pub length-write_u64 : (n : ℕ) → length (be.write_u64 n) ≡ 8
  pub read_u64-write_u64 : (n : ℕ) → n < 2 ^ 64 → be.read_u64 (be.write_u64 n) ≡ n

-- Equality of byte strings, as `==` of vectors and arrays decides it.
abbrev pub same_bytes : List ℕ → List ℕ → Bool
same_bytes [] [] = true
same_bytes (x ∷ xs) (y ∷ ys) = x == y && same_bytes xs ys
same_bytes _ _ = false

pub same_bytes_iff : (xs ys : List ℕ) → same_bytes xs ys ≡ true ↔ xs ≡ ys
same_bytes_iff [] [] = (λ _. refl, λ _. refl)
same_bytes_iff [] (y ∷ ys) = (λ e. absurd (cc e), λ e. absurd (cc e))
same_bytes_iff (x ∷ xs) [] = (λ e. absurd (cc e), λ e. absurd (cc e))
same_bytes_iff (x ∷ xs) (y ∷ ys) = (
  λ e.
      (let h : (x ≡ y) × (same_bytes xs ys ≡ true) = ground (arith, ==_iff x y, e) in
        both x y xs ys h.0 ((same_bytes_iff xs ys).0 h.1)),
  λ e.
      (let rest : same_bytes xs ys ≡ true = (same_bytes_iff xs ys).1 (ap (drop 1) e) in
        let first : x ≡ y = cc e in ground (arith, ==_iff x y, rest, first)),
)
  where
    both : (x y : ℕ) (xs ys : List ℕ) → x ≡ y → xs ≡ ys → x ∷ xs ≡ y ∷ ys
    both x y xs ys e f = cc
