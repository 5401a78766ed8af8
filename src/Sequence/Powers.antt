-- ===== src/Sequence/Powers.antt =====
-- ruwren-sys/src/wren_utils.c, `wrenPowerOf2Ceil`: how its shifts fill the digits with ones.
use ruwren.Prelude.{
  ℕ, zero, suc, ◌+◌, ◌-◌, ◌*◌, ◌/◌, ◌^◌, ◌≤◌, ◌<◌, ◌≡◌, refl, sym, ap, ◌∙◌, bit_or, arith, leb→le,
  Bool-cases, inl, inr, leb,
}
use ruwren.Prelude.Bits.{bit_or_step, bit_or-zero_below, div-two_pow-suc, ones}
use ruwren.Sequence.{power_of_2_ceil}
use native.Mathlib.Nat.{pow-suc, div-eq_of_lt-le, div-one}

-- A number without its `i` lowest digits.
unfoldable shr : ℕ → ℕ → ℕ
shr zero x = x
shr (suc i) x = shr i (x / 2)

shr-div : (i x : ℕ) → x / 2 ^ i ≡ shr i x
unfolding shr
shr-div zero x = div-one x
shr-div (suc i) x = div-two_pow-suc x i ∙ shr-div i (x / 2)

shr-same : (i j x : ℕ) → i ≡ j → shr i x ≡ shr j x
shr-same i j x e = ap (λ n. shr n x) e

shr_add : (i j x : ℕ) → shr i (shr j x) ≡ shr (j + i) x
unfolding shr
shr_add i zero x = shr-same i (0 + i) x (omega arith)
shr_add i (suc j) x = shr_add i j (x / 2) ∙ shr-same (suc (j + i)) (suc j + i) x (omega arith)

shr-bit_or : (i a b : ℕ) → shr i (bit_or a b) ≡ bit_or (shr i a) (shr i b)
unfolding shr
shr-bit_or zero a b = refl
shr-bit_or (suc i) a b =
    let half : bit_or a b / 2 ≡ bit_or (a / 2) (b / 2) = omega (arith, bit_or_step a b) in
    rw half (shr-bit_or i (a / 2) (b / 2))

ones-same : (i j : ℕ) → i ≡ j → ones i ≡ ones j
ones-same i j e = ap ones e

shr-ones : (i j : ℕ) → shr i (ones (i + j)) ≡ ones j
unfolding shr
shr-ones zero j = ones-same (0 + j) j (omega arith)
shr-ones (suc i) j =
    let more : ones (suc i + j) ≡ ones (i + j) * 2 + 1 =
      ones-same (suc i + j) (suc (i + j)) (omega arith) in
    let half : ones (suc i + j) / 2 ≡ ones (i + j) = omega (arith, more) in rw half (shr-ones i j)

-- More digits than there are.
shr-ones_all : (i k : ℕ) → k ≤ i → shr i (ones k) ≡ 0
unfolding shr
shr-ones_all zero zero h = refl
shr-ones_all zero (suc k) h = absurd (omega arith)
shr-ones_all (suc i) zero h = shr-ones_all i zero (omega arith)
shr-ones_all (suc i) (suc k) h =
    let half : (ones k * 2 + 1) / 2 ≡ ones k = omega arith in
    rw half (shr-ones_all i k (omega arith))

-- Ones below ones.
fill : (i j x : ℕ) → shr i x ≡ ones j → bit_or x (ones i) ≡ ones (i + j)
unfolding shr
fill zero j x e = bit_or-zero_below x x (omega arith) ∙ e ∙ ones-same j (0 + j) (omega arith)
fill (suc i) j x e =
    let half : (ones i * 2 + 1) / 2 ≡ ones i = omega arith in
    let inner : bit_or (x / 2) ((ones i * 2 + 1) / 2) ≡ ones (i + j) =
      rw half (fill i j (x / 2) e) in
    omega (
      arith,
      bit_or_step x (ones i * 2 + 1),
      inner,
      ones-same (suc i + j) (suc (i + j)) (omega arith),
    )

-- The highest `s` of `k` digits are ones, or all of them are.
unfoldable Filled : ℕ → ℕ → ℕ → Type 0
Filled k s x = (s ≤ k → shr (k - s) x ≡ ones s) × (k ≤ s → x ≡ ones k)

-- The step that fills the last digits.
fill_all : (k s x : ℕ) → s ≤ k → k ≤ 2 * s → shr (k - s) x ≡ ones s → bit_or x (x / 2 ^ s) ≡ ones k
fill_all k s x less most e =
    let i = k - s in
    let right : shr s x ≡ ones i =
      shr-same s (i + (s - i)) x (omega (arith, most))
      ∙ sym (shr_add (s - i) i x)
      ∙ ap (shr (s - i)) (e ∙ ones-same s (s - i + i) (omega (arith, less, most)))
      ∙ shr-ones (s - i) i in
    rw (shr-div s x, right) (fill i s x e ∙ ones-same (i + s) k (omega (arith, less)))

none_left : (k s x : ℕ) → k ≤ s → x ≡ ones k → bit_or x (x / 2 ^ s) ≡ ones k
none_left k s x h e =
    rw (shr-div s x, e, shr-ones_all s k h) (bit_or-zero_below (ones k) (ones k) (omega arith))

smear : (k s x : ℕ) → Filled k s x → Filled k (2 * s) (bit_or x (x / 2 ^ s))
unfolding Filled
smear k s x (some_ones, all_ones) = (
  λ h.
      let i = k - 2 * s in
      let e = some_ones (omega (arith, h)) in
      let left : shr s (shr i x) ≡ ones s =
        shr_add s i x ∙ shr-same (i + s) (k - s) x (omega (arith, h)) ∙ e in
      let right : shr i (shr s x) ≡ ones s =
        shr_add i s x ∙ shr-same (s + i) (k - s) x (omega (arith, h)) ∙ e in
      rw (shr-div s x) (
        shr-bit_or i x (shr s x)
        ∙ ap (bit_or (shr i x)) right
        ∙ fill s s (shr i x) left
        ∙ ones-same (s + s) (2 * s) (omega arith)),
  λ h. elim (Bool-cases (leb s k)) [
    | inl e ↦ let less : s ≤ k = leb→le s k e in fill_all k s x less h (some_ones less)
    | inr e ↦ let less : k ≤ s = ground (arith, e) in none_left k s x less (all_ones less)
  ],
)

ones-pow : (k : ℕ) → ones k + 1 ≡ 2 ^ k
ones-pow zero = refl
ones-pow (suc k) = omega (arith, ones-pow k, pow-suc 2 k)

-- The highest digit of a number with `k + 1` digits.
shr-highest : (k x : ℕ) → 2 ^ k ≤ x → x < 2 ^ suc k → shr k x ≡ ones 1
shr-highest k x low high =
    let p = pow-suc 2 k in
    sym (shr-div k x) ∙ div-eq_of_lt-le (2 ^ k) (omega (arith, low)) (omega (arith, high, p))

first_digit : (k x : ℕ) → 2 ^ k ≤ x → x < 2 ^ suc k → Filled (suc k) 1 x
unfolding Filled
first_digit zero x low high = (λ h. shr-highest zero x low high, λ h. omega (arith, low, high))
first_digit (suc k) x low high =
    let same : suc (suc k) - 1 ≡ suc k = omega arith in
    (λ h. rw same (shr-highest (suc k) x low high), λ h. absurd (omega (arith, h)))

-- For a number above 2 ^ i and at most 2 ^ (i + 1), with i below 30, `wrenPowerOf2Ceil` gives 2 ^
-- (i + 1), so the least power of two that is not below the number.
pub power_of_2_ceil-least :
    (i n : ℕ) → i < 30 → 2 ^ i < n → n ≤ 2 ^ suc i → power_of_2_ceil n ≡ 2 ^ suc i
unfolding power_of_2_ceil Filled
power_of_2_ceil-least i n digits low high =
    let k = suc i in
    let n₀ = n - 1 in
    let n₁ = bit_or n₀ (n₀ / 2) in
    let n₂ = bit_or n₁ (n₁ / 2 ^ 2) in
    let n₃ = bit_or n₂ (n₂ / 2 ^ 4) in
    let n₄ = bit_or n₃ (n₃ / 2 ^ 8) in
    let f₁ = smear k 1 n₀ (first_digit i n₀ (omega (arith, low)) (omega (arith, low, high))) in
    let f₅ = smear k 16 n₄ (smear k 8 n₃ (smear k 4 n₂ (smear k 2 n₁ f₁))) in
    ap (λ x. x + 1) (f₅.1 (omega (arith, digits))) ∙ ones-pow k
