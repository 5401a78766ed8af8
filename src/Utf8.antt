-- ===== src/Utf8.antt =====
-- ruwren-sys/src/wren_utils.c: the UTF-8 encoder and decoder. A buffer of bytes is a list of
-- numbers below 256; an encoder that writes through a pointer returns the bytes that it wrote.
pub mod Encoding
pub mod Decoding
pub mod RoundTrip
use ruwren.Prelude.{
  ℕ, zero, suc, ◌+◌, ◌-◌, ◌*◌, ◌/◌, ◌%◌, ◌^◌, bit_and, bit_or, Option, none, some, List, [], ◌∷◌,
  ltb, leb, ◌==◌, if◌then◌else◌,
}

-- The number of bytes that `value` takes, and 0 if it is too large to encode.
pub utf8_encode_num_bytes : ℕ → ℕ
utf8_encode_num_bytes value =
    if leb value 0x7f
    then 1
    else if leb value 0x7ff
    then 2
    else if leb value 0xffff
    then 3
    else if leb value 0x10ffff
    then 4
    else 0

-- The bytes written; past the last Unicode value the source is at `UNREACHABLE`.
unfoldable pub utf8_encode : ℕ → List ℕ
utf8_encode value =
    if leb value 0x7f
    then bit_and value 0x7f ∷ []
    else if leb value 0x7ff
    then bit_or 0xc0 (bit_and value 0x7c0 / 2 ^ 6) ∷ bit_or 0x80 (bit_and value 0x3f) ∷ []
    else if leb value 0xffff
    then bit_or 0xe0 (bit_and value 0xf000 / 2 ^ 12)
      ∷ bit_or 0x80 (bit_and value 0xfc0 / 2 ^ 6)
      ∷ bit_or 0x80 (bit_and value 0x3f)
      ∷ []
    else if leb value 0x10ffff
    then bit_or 0xf0 (bit_and value 0x1c0000 / 2 ^ 18)
      ∷ bit_or 0x80 (bit_and value 0x3f000 / 2 ^ 12)
      ∷ bit_or 0x80 (bit_and value 0xfc0 / 2 ^ 6)
      ∷ bit_or 0x80 (bit_and value 0x3f)
      ∷ []
    else []

-- The `while (remainingBytes > 0)` loop. A list that ends stands for a terminating zero byte,
-- which is no continuation byte.
pub decode_remaining : ℕ → List ℕ → ℕ → Option ℕ
decode_remaining zero bytes value = some value
decode_remaining (suc remaining) [] value = none
decode_remaining (suc remaining) (byte ∷ bytes) value =
    let rest = decode_remaining remaining bytes (bit_or (value * 2 ^ 6) (bit_and byte 0x3f)) in
    if bit_and byte 0xc0 == 0x80 then rest else none

-- The check against the end of the buffer, `remainingBytes > length - 1` on `uint32_t`.
pub decode_sequence : ℕ → ℕ → ℕ → List ℕ → Option ℕ
decode_sequence length value remaining bytes =
    if ltb ((length + 2 ^ 32 - 1) % 2 ^ 32) remaining
    then none
    else decode_remaining remaining bytes value

-- The code point at the start of `bytes`, of which `length` may be read; `none` is the source's -1.
pub utf8_decode : List ℕ → ℕ → Option ℕ
utf8_decode [] length = some 0
utf8_decode (byte ∷ bytes) length =
    if leb byte 0x7f
    then some byte
    else if bit_and byte 0xe0 == 0xc0
    then decode_sequence length (bit_and byte 0x1f) 1 bytes
    else if bit_and byte 0xf0 == 0xe0
    then decode_sequence length (bit_and byte 0x0f) 2 bytes
    else if bit_and byte 0xf8 == 0xf0
    then decode_sequence length (bit_and byte 0x07) 3 bytes
    else none

-- The length of the sequence that `byte` begins, and 0 in the middle of one.
pub utf8_decode_num_bytes : ℕ → ℕ
utf8_decode_num_bytes byte =
    if bit_and byte 0xc0 == 0x80
    then 0
    else if bit_and byte 0xf8 == 0xf0
    then 4
    else if bit_and byte 0xf0 == 0xe0
    then 3
    else if bit_and byte 0xe0 == 0xc0
    then 2
    else 1
