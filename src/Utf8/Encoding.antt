-- ===== src/Utf8/Encoding.antt =====
-- What the encoder writes, as arithmetic on the code point.
use ruwren.Prelude.{ℕ, ◌+◌, ◌/◌, ◌%◌, ◌^◌, ◌≤◌, ◌<◌, ◌≡◌, ap, ◌∙◌, bit_and, bit_or, [], ◌∷◌, arith}
use ruwren.Prelude.Bits.{bit_and-ones, bit_and_field, bit_or_fields}
use ruwren.Utf8.{utf8_encode}

or_low : (v : ℕ) → bit_or 0x80 (bit_and v 0x3f) ≡ 128 + v % 64
or_low v = ap (λ t. bit_or 0x80 t) (bit_and-ones 6 v) ∙ bit_or_fields 6 2 (v % 64) (omega arith)

or_middle : (v : ℕ) → bit_or 0x80 (bit_and v 0xfc0 / 2 ^ 6) ≡ 128 + v / 64 % 64
or_middle v =
    ap (λ t. bit_or 0x80 t) (bit_and_field 6 v 63 ∙ bit_and-ones 6 (v / 64))
    ∙ bit_or_fields 6 2 (v / 64 % 64) (omega arith)

or_upper : (v : ℕ) → bit_or 0x80 (bit_and v 0x3f000 / 2 ^ 12) ≡ 128 + v / 4096 % 64
or_upper v =
    ap (λ t. bit_or 0x80 t) (bit_and_field 12 v 63 ∙ bit_and-ones 6 (v / 4096))
    ∙ bit_or_fields 6 2 (v / 4096 % 64) (omega arith)

or_two : (v : ℕ) → bit_or 0xc0 (bit_and v 0x7c0 / 2 ^ 6) ≡ 192 + v / 64 % 32
or_two v =
    ap (λ t. bit_or 0xc0 t) (bit_and_field 6 v 31 ∙ bit_and-ones 5 (v / 64))
    ∙ bit_or_fields 5 6 (v / 64 % 32) (omega arith)

or_three : (v : ℕ) → bit_or 0xe0 (bit_and v 0xf000 / 2 ^ 12) ≡ 224 + v / 4096 % 16
or_three v =
    ap (λ t. bit_or 0xe0 t) (bit_and_field 12 v 15 ∙ bit_and-ones 4 (v / 4096))
    ∙ bit_or_fields 4 14 (v / 4096 % 16) (omega arith)

or_four : (v : ℕ) → bit_or 0xf0 (bit_and v 0x1c0000 / 2 ^ 18) ≡ 240 + v / 262144 % 8
or_four v =
    ap (λ t. bit_or 0xf0 t) (bit_and_field 18 v 7 ∙ bit_and-ones 3 (v / 262144))
    ∙ bit_or_fields 3 30 (v / 262144 % 8) (omega arith)

module _ (v : ℕ) where
  pub encode_one : v ≤ 0x7f → utf8_encode v ≡ v ∷ []
  unfolding utf8_encode
  encode_one h = ground (arith, bit_and-ones 7 v)

  pub encode_two : 0x7f < v → v ≤ 0x7ff → utf8_encode v ≡ (192 + v / 64) ∷ (128 + v % 64) ∷ []
  unfolding utf8_encode
  encode_two lo hi = ground (arith, or_two v, or_low v)

  pub encode_three :
      0x7ff < v
      → v ≤ 0xffff
      → utf8_encode v ≡ (224 + v / 4096) ∷ (128 + v / 64 % 64) ∷ (128 + v % 64) ∷ []
  unfolding utf8_encode
  encode_three lo hi = ground (arith, or_three v, or_middle v, or_low v)

  pub encode_four :
      0xffff < v
      → v ≤ 0x10ffff
      → utf8_encode v
        ≡ (240 + v / 262144) ∷ (128 + v / 4096 % 64) ∷ (128 + v / 64 % 64) ∷ (128 + v % 64) ∷ []
  unfolding utf8_encode
  encode_four lo hi = ground (arith, or_four v, or_upper v, or_middle v, or_low v)
