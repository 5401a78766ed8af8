-- ===== src/Utf8/Decoding.antt =====
-- The decoder's tests on a byte and its steps, as arithmetic.
use ruwren.Prelude.{
  ℕ, suc, ◌+◌, ◌*◌, ◌/◌, ◌%◌, ◌^◌, ◌≤◌, ◌<◌, ◌≡◌, refl, ap, bit_and, bit_or, some, List, ◌∷◌, arith,
  ◌==◌, ==_iff,
}
use ruwren.Prelude.Bits.{bit_and-ones, bit_or_fields, passes_below, passes_below-passes}
use ruwren.Utf8.{decode_remaining, decode_sequence, utf8_decode, utf8_decode_num_bytes}

-- The highest two, three, four and five digits of a byte.
module _ (b : ℕ) (byte : b < 256) where
  top_two : bit_and b 0xc0 ≡ b / 64 * 64
  unfolding passes_below
  top_two =
      (==_iff _ _).0 (passes_below-passes (λ n. bit_and n 0xc0 == n / 64 * 64) b 256 byte refl)

  top_three : bit_and b 0xe0 ≡ b / 32 * 32
  unfolding passes_below
  top_three =
      (==_iff _ _).0 (passes_below-passes (λ n. bit_and n 0xe0 == n / 32 * 32) b 256 byte refl)

  top_four : bit_and b 0xf0 ≡ b / 16 * 16
  unfolding passes_below
  top_four =
      (==_iff _ _).0 (passes_below-passes (λ n. bit_and n 0xf0 == n / 16 * 16) b 256 byte refl)

  top_five : bit_and b 0xf8 ≡ b / 8 * 8
  unfolding passes_below
  top_five = (==_iff _ _).0 (passes_below-passes (λ n. bit_and n 0xf8 == n / 8 * 8) b 256 byte refl)

shift_in : (value x : ℕ) → bit_or (value * 2 ^ 6) (bit_and x 0x3f) ≡ value * 64 + x % 64
shift_in value x = rw (bit_and-ones 6 x) (bit_or_fields 6 value (x % 64) (omega arith))

marker : (b : ℕ) → b < 256 → 128 ≤ b → b < 192 → bit_and b 0xc0 ≡ 0x80
marker b h lo hi = omega (arith, top_two b h)

-- A continuation byte brings in six digits.
pub decode_remaining-next :
    (n value x : ℕ) (bytes : List ℕ)
    → x < 64
    → decode_remaining (suc n) ((128 + x) ∷ bytes) value ≡ decode_remaining n bytes (value * 64 + x)
unfolding decode_remaining
decode_remaining-next n value x bytes h =
    let split : (128 + x) % 64 ≡ x = omega arith in
    rw (
      shift_in value (128 + x),
      split,
      ap (λ t. t == 0x80) (marker (128 + x) (omega arith) (omega arith) (omega arith)),
    )

module _ (x len : ℕ) (bytes : List ℕ) where
  pub decode_one : x < 128 → utf8_decode (x ∷ bytes) len ≡ some x
  unfolding utf8_decode decode_sequence
  decode_one h = ground arith

  pub decode_two :
      x < 32
      → 2 ≤ len
      → len < 2 ^ 32
      → utf8_decode ((192 + x) ∷ bytes) len ≡ decode_remaining 1 bytes x
  unfolding utf8_decode decode_sequence
  decode_two h lo hi = ground (arith, top_three (192 + x) (omega arith), bit_and-ones 5 (192 + x))

  pub decode_three :
      x < 16
      → 3 ≤ len
      → len < 2 ^ 32
      → utf8_decode ((224 + x) ∷ bytes) len ≡ decode_remaining 2 bytes x
  unfolding utf8_decode decode_sequence
  decode_three h lo hi = ground (
    arith,
    top_three (224 + x) (omega arith),
    top_four (224 + x) (omega arith),
    bit_and-ones 4 (224 + x),
  )

  pub decode_four :
      x < 8
      → 4 ≤ len
      → len < 2 ^ 32
      → utf8_decode ((240 + x) ∷ bytes) len ≡ decode_remaining 3 bytes x
  unfolding utf8_decode decode_sequence
  decode_four h lo hi = ground (
    arith,
    top_three (240 + x) (omega arith),
    top_four (240 + x) (omega arith),
    top_five (240 + x) (omega arith),
    bit_and-ones 3 (240 + x),
  )

module _ (b : ℕ) where
  pub num_bytes_one : b < 128 → utf8_decode_num_bytes b ≡ 1
  unfolding utf8_decode_num_bytes
  num_bytes_one h = ground (
    arith,
    top_two b (omega arith),
    top_three b (omega arith),
    top_four b (omega arith),
    top_five b (omega arith),
  )

  pub num_bytes_zero : 128 ≤ b → b < 192 → utf8_decode_num_bytes b ≡ 0
  unfolding utf8_decode_num_bytes
  num_bytes_zero lo hi = ground (arith, top_two b (omega arith))

  pub num_bytes_two : 192 ≤ b → b < 224 → utf8_decode_num_bytes b ≡ 2
  unfolding utf8_decode_num_bytes
  num_bytes_two lo hi = ground (
    arith,
    top_two b (omega arith),
    top_three b (omega arith),
    top_four b (omega arith),
    top_five b (omega arith),
  )

  pub num_bytes_three : 224 ≤ b → b < 240 → utf8_decode_num_bytes b ≡ 3
  unfolding utf8_decode_num_bytes
  num_bytes_three lo hi =
      ground (arith, top_two b (omega arith), top_four b (omega arith), top_five b (omega arith))

  pub num_bytes_four : 240 ≤ b → b < 248 → utf8_decode_num_bytes b ≡ 4
  unfolding utf8_decode_num_bytes
  num_bytes_four lo hi = ground (arith, top_two b (omega arith), top_five b (omega arith))
