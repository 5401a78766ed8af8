-- ===== src/Prelude/Bits.antt =====
-- Masks, shifts and `|` of disjoint fields, as arithmetic. The native `&` and `|` compute at
-- numerals only; the laws come from the recursion on binary digits that they stand for.
use Prim.Native.Nat.{
  ℕ, zero, suc, ◌+◌, ◌*◌, ◌/◌, ◌%◌, ◌^◌, ◌≤◌, ◌<◌, min, max, bit_and, bit_or, digits, bitwise,
  bit_and-bitwise, bit_or-bitwise,
}
use mathlib.Core.Path.{◌≡◌, refl, ap, sym}
use mathlib.Core.Bool.{Bool, true, ◌&&◌}
use native.Mathlib.Nat.{
  pow-suc, mod-eq-sub-div-mul, div-mul-le_self, mul_comm, mul-one, div-one, div-div-eq-div-mul,
}
use native.Mathlib.Omega.{arith}

module _ (z : ℕ → ℕ) (f : ℕ → ℕ → ℕ) where
  -- The count of digits to go is of no account once it reaches the first number.
  digits_enough : (n m a b : ℕ) → a ≤ n → a ≤ m → digits z f n a b ≡ digits z f m a b
  digits_enough zero zero a b p q = refl
  digits_enough zero (suc m) zero b p q = refl
  digits_enough zero (suc m) (suc a) b p q = absurd (omega arith)
  digits_enough (suc n) zero zero b p q = refl
  digits_enough (suc n) zero (suc a) b p q = absurd (omega arith)
  digits_enough (suc n) (suc m) zero b p q = refl
  digits_enough (suc n) (suc m) (suc a) b p q =
      ap (λ (t : ℕ). t * 2 + f (suc a % 2) (b % 2))
        (digits_enough n m (suc a / 2) (b / 2) (omega arith) (omega arith))

  bitwise_step :
      ((b : ℕ) → z b ≡ z (b / 2) * 2 + f 0 (b % 2))
      → (a b : ℕ) → bitwise z f a b ≡ bitwise z f (a / 2) (b / 2) * 2 + f (a % 2) (b % 2)
  bitwise_step low zero b = low b
  bitwise_step low (suc a) b =
      ap (λ (t : ℕ). t * 2 + f (suc a % 2) (b % 2))
        (digits_enough a (suc a / 2) (suc a / 2) (b / 2) (omega arith) (omega arith))

bit_and_step : (a b : ℕ) → bit_and a b ≡ bit_and (a / 2) (b / 2) * 2 + min (a % 2) (b % 2)
bit_and_step a b = omega (
  arith,
  bit_and-bitwise a b,
  bit_and-bitwise (a / 2) (b / 2),
  bitwise_step (λ _. zero) min (λ n. omega arith) a b,
)

pub bit_or_step : (a b : ℕ) → bit_or a b ≡ bit_or (a / 2) (b / 2) * 2 + max (a % 2) (b % 2)
bit_or_step a b = omega (
  arith,
  bit_or-bitwise a b,
  bit_or-bitwise (a / 2) (b / 2),
  bitwise_step (λ n. n) max (λ n. omega arith) a b,
)

bit_and-zero_below : (n a : ℕ) → a ≤ n → bit_and a 0 ≡ 0
bit_and-zero_below zero zero h = refl
bit_and-zero_below zero (suc a) h = absurd (omega arith)
bit_and-zero_below (suc n) a h =
    omega (arith, bit_and_step a 0, bit_and-zero_below n (a / 2) (omega arith))

pub bit_or-zero_below : (n a : ℕ) → a ≤ n → bit_or a 0 ≡ a
bit_or-zero_below zero zero h = refl
bit_or-zero_below zero (suc a) h = absurd (omega arith)
bit_or-zero_below (suc n) a h =
    omega (arith, bit_or_step a 0, bit_or-zero_below n (a / 2) (omega arith))

-- The mask of `k` ones.
abbrev pub ones : ℕ → ℕ
ones zero = 0
ones (suc k) = ones k * 2 + 1

two-pow-suc : (q k : ℕ) → q * 2 ^ suc k ≡ 2 * (q * 2 ^ k)
two-pow-suc q k = omega (arith, ap (λ (t : ℕ). q * t) (pow-suc 2 k))

pub div-two_pow-suc : (a k : ℕ) → a / 2 ^ suc k ≡ a / 2 / 2 ^ k
div-two_pow-suc a k = rw (pow-suc, mul_comm (2 ^ k) 2) (sym (div-div-eq-div-mul a 2 (2 ^ k)))

mod-two_pow-suc : (a k : ℕ) → a % 2 ^ suc k ≡ a / 2 % 2 ^ k * 2 + a % 2
mod-two_pow-suc a k =
    let x = a / 2 / 2 ^ k in
    omega (
      arith,
      mod-eq-sub-div-mul a (2 ^ suc k),
      ap (λ (t : ℕ). t * 2 ^ suc k) (div-two_pow-suc a k),
      mod-eq-sub-div-mul (a / 2) (2 ^ k),
      two-pow-suc x k,
      div-mul-le_self (a / 2) (2 ^ k),
    )

bit_and-double : (a m : ℕ) → bit_and a (m * 2) ≡ bit_and (a / 2) m * 2
bit_and-double a m =
    let e : m * 2 / 2 ≡ m = omega arith in
    omega (arith, bit_and_step a (m * 2), ap (λ t. bit_and (a / 2) t) e)

bit_and-double_suc : (a m : ℕ) → bit_and a (m * 2 + 1) ≡ bit_and (a / 2) m * 2 + a % 2
bit_and-double_suc a m =
    let e : (m * 2 + 1) / 2 ≡ m = omega arith in
    omega (arith, bit_and_step a (m * 2 + 1), ap (λ t. bit_and (a / 2) t) e)

-- `a & 0b1…1` is the remainder by a power of two.
pub bit_and-ones : (k a : ℕ) → bit_and a (ones k) ≡ a % 2 ^ k
bit_and-ones zero a = omega (arith, bit_and-zero_below a a (omega arith))
bit_and-ones (suc k) a = omega (
  arith,
  bit_and-double_suc a (ones k),
  bit_and-ones k (a / 2),
  div-two_pow-suc a k,
  mod-two_pow-suc a k,
)

-- `(a & (m << k)) >> k` reads the field of mask `m` that stands `k` digits up.
pub bit_and_field : (k a m : ℕ) → bit_and a (m * 2 ^ k) / 2 ^ k ≡ bit_and (a / 2 ^ k) m
bit_and_field zero a m = rw (mul-one, div-one, div-one)
bit_and_field (suc k) a m = rw (div-two_pow-suc, div-two_pow-suc, half) (bit_and_field k (a / 2) m)
  where
    half : bit_and a (m * 2 ^ suc k) / 2 ≡ bit_and (a / 2) (m * 2 ^ k)
    half =
        let e : m * 2 ^ suc k ≡ m * 2 ^ k * 2 = omega (arith, two-pow-suc m k) in
        rw e (omega (arith, bit_and-double a (m * 2 ^ k)))

-- `(q << k) | r` is a sum when `r` fits into `k` digits.
pub bit_or_fields : (k q r : ℕ) → r < 2 ^ k → bit_or (q * 2 ^ k) r ≡ q * 2 ^ k + r
bit_or_fields zero q r h = ground (arith, bit_or-zero_below q q)
bit_or_fields (suc k) q r h =
    ground (
      arith,
      bit_or_step (q * 2 ^ suc k) r,
      two-pow-suc q k,
      pow-suc 2 k,
      bit_or_fields k q (r / 2),
    )

-- A finite check by evaluation: the test passes at every number under the limit.
unfoldable pub passes_below : (ℕ → Bool) → ℕ → Bool
passes_below test zero = true
passes_below test (suc limit) = passes_below test limit && test limit

pub passes_below-passes :
    (test : ℕ → Bool) (v limit : ℕ) → v < limit → passes_below test limit ≡ true → test v ≡ true
unfolding passes_below
passes_below-passes test v zero less all = absurd (omega arith)
passes_below-passes test v (suc limit) less all = ground (arith, passes_below-passes test v limit)

bit_or-le_below : (n a b : ℕ) → a ≤ n → a ≤ bit_or a b
bit_or-le_below zero zero b h = omega arith
bit_or-le_below zero (suc a) b h = absurd (omega arith)
bit_or-le_below (suc n) a b h =
    omega (arith, bit_or_step a b, bit_or-le_below n (a / 2) (b / 2) (omega arith))

pub bit_or-le : (a b : ℕ) → a ≤ bit_or a b
bit_or-le a b = bit_or-le_below a a b (omega arith)
