-- ===== src/Core/Bits.antt =====
-- The bits that src/proto/req.rs and src/proto/rep.rs set and test: the top bit of a u32 marks the
-- identifier of a request.
use Prim.Native.Nat.{bit_or, bit_and, bit_or-bitwise, digits, max}
use scaproust.Prelude.{
  ℕ, zero, suc, ◌+◌, ◌*◌, ◌/◌, ◌%◌, ◌^◌, ◌≡◌, ◌≤◌, ◌<◌, refl, Bool, true, not, ◌&&◌, ◌||◌, arith,
  ltb, ◌==◌,
}

or_digits : ℕ → ℕ → ℕ → ℕ
or_digits n a b = digits (λ b. b) max n a b

or_digits_fuel : (n m a b : ℕ) → a ≤ n → a ≤ m → or_digits n a b ≡ or_digits m a b
unfolding or_digits
or_digits_fuel zero zero a b p q = refl
or_digits_fuel zero (suc m) zero b p q = refl
or_digits_fuel zero (suc m) (suc a) b p q = absurd (omega arith)
or_digits_fuel (suc n) zero zero b p q = refl
or_digits_fuel (suc n) zero (suc a) b p q = absurd (omega arith)
or_digits_fuel (suc n) (suc m) zero b p q = refl
or_digits_fuel (suc n) (suc m) (suc a) b p q =
    omega (arith, or_digits_fuel n m (suc a / 2) (b / 2) (omega arith) (omega arith))

zero-bit_or : (b : ℕ) → bit_or 0 b ≡ b
zero-bit_or b = bit_or-bitwise 0 b

bit_or_step : (a b : ℕ) → bit_or a b ≡ bit_or (a / 2) (b / 2) * 2 + max (a % 2) (b % 2)
unfolding or_digits
bit_or_step zero b = omega (arith, zero-bit_or b, zero-bit_or (b / 2))
bit_or_step (suc a) b = omega (
  arith,
  bit_or-bitwise (suc a) b,
  bit_or-bitwise (suc a / 2) (b / 2),
  or_digits_fuel a (suc a / 2) (suc a / 2) (b / 2) (omega arith) (omega arith),
)

-- Setting the bit above a number's lower bits.
pub bit_or-top :
    (k a : ℕ) → a < 2 ^ suc k → (2 ^ k ≤ bit_or a (2 ^ k)) × (bit_or a (2 ^ k) < 2 ^ suc k)
bit_or-top zero zero h = (omega arith, omega arith)
bit_or-top zero (suc zero) h = (omega arith, omega arith)
bit_or-top zero (suc (suc a)) h = absurd (omega arith)
bit_or-top (suc k) a h =
    let p : 2 ^ suc k ≡ 2 * 2 ^ k = omega arith in
    let q : 2 ^ suc (suc k) ≡ 2 * 2 ^ suc k = omega arith in
    let half : 2 ^ suc k / 2 ≡ 2 ^ k = omega arith in
    let (lo, hi) = bit_or-top k (a / 2) (omega arith) in
    let e : bit_or a (2 ^ suc k) ≡ bit_or (a / 2) (2 ^ k) * 2 + max (a % 2) (2 ^ suc k % 2) =
      rw half at (bit_or_step a (2 ^ suc k)) in
    (omega arith, omega arith)

-- The Boolean test `p` on each number below a bound.
abbrev holds_below : (ℕ → Bool) → ℕ → Bool
holds_below p zero = true
holds_below p (suc n) = p n && holds_below p n

holds_below-at : (p : ℕ → Bool) (n x : ℕ) → holds_below p n ≡ true → x < n → p x ≡ true
holds_below-at p zero x h lt = absurd (omega arith)
holds_below-at p (suc n) x h lt = ground (arith, holds_below-at p n x)

marked : ℕ → Bool
marked x = ltb x 128 || not (bit_and x 0x80 == 0)

-- Of a byte the top bit is set just if the byte is 128 or more.
pub top_bit_set : (x : ℕ) → 128 ≤ x → x < 256 → not (bit_and x 0x80 == 0) ≡ true
unfolding marked
top_bit_set x lo hi = let at : marked x ≡ true = holds_below-at marked 256 x refl hi in ground arith
