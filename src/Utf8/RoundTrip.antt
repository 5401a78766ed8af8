-- ===== src/Utf8/RoundTrip.antt =====
-- The UTF-8 encoder and decoder against each other.
use ruwren.Prelude.{
  ℕ, zero, suc, ◌+◌, ◌*◌, ◌/◌, ◌%◌, ◌^◌, ◌≤◌, ◌<◌, ◌≡◌, refl, some, List, [], ◌∷◌, ◌++◌, arith, ◌∙◌,
  ap, length, take, drop, get_or, All, bit_and, bit_or,
}
use native.Mathlib.Decide.{dec_le}
use ruwren.Utf8.{
  utf8_encode, utf8_encode_num_bytes, utf8_decode, decode_remaining, decode_sequence,
  utf8_decode_num_bytes,
}
use ruwren.Utf8.Encoding.{encode_one, encode_two, encode_three, encode_four}
use ruwren.Utf8.Decoding.{
  num_bytes_zero, num_bytes_one, num_bytes_two, num_bytes_three, num_bytes_four, decode_one,
  decode_two, decode_three, decode_four, decode_remaining-next,
}

data Width (v : ℕ) : Type 0 where
  one : v ≤ 0x7f → Width v
  two : 0x7f < v → v ≤ 0x7ff → Width v
  three : 0x7ff < v → v ≤ 0xffff → Width v
  four : 0xffff < v → Width v

width : (v : ℕ) → Width v
width v = elim (dec_le v 0x7f) [
  | yes p ↦ one p
  | no p ↦ elim (dec_le v 0x7ff) [
    | yes q ↦ two (omega arith) q
    | no q ↦ elim (dec_le v 0xffff) [ yes r ↦ three (omega arith) r | no r ↦ four (omega arith) ]
  ]
]

-- Decoding the bytes that the encoder wrote for a Unicode value gives the value back, whatever
-- follows them, if the length that may be read covers those bytes and is below 2 ^ 32.
pub decode-encode :
    (v : ℕ) (rest : List ℕ) (len : ℕ)
    → v ≤ 0x10ffff
    → length (utf8_encode v) ≤ len
    → len < 2 ^ 32
    → utf8_decode (utf8_encode v ++ rest) len ≡ some v
unfolding decode_remaining
decode-encode v rest len h fits room = elim (width v) [
  | one p ↦ rw (encode_one v p) (decode_one v len rest (omega arith))
  | two p q ↦
      let e = encode_two v p q in
      let fits' : 2 ≤ len = rw e at fits in
      rw e (
        decode_two (v / 64) len ((128 + v % 64) ∷ rest) (omega arith) fits' room
        ∙ decode_remaining-next 0 (v / 64) (v % 64) rest (omega arith)
        ∙ ap some (omega arith))
  | three p q ↦
      let e = encode_three v p q in
      let fits' : 3 ≤ len = rw e at fits in
      let low = 128 + v % 64 in
      let middle = 128 + v / 64 % 64 in
      rw e (
        decode_three (v / 4096) len (middle ∷ low ∷ rest) (omega arith) fits' room
        ∙ decode_remaining-next 1 (v / 4096) (v / 64 % 64) (low ∷ rest) (omega arith)
        ∙ decode_remaining-next 0 (v / 4096 * 64 + v / 64 % 64) (v % 64) rest (omega arith)
        ∙ ap some (omega arith))
  | four p ↦
      let e = encode_four v p h in
      let fits' : 4 ≤ len = rw e at fits in
      let low = 128 + v % 64 in
      let middle = 128 + v / 64 % 64 in
      let a = v / 262144 * 64 + v / 4096 % 64 in
      rw e (
        decode_four (v / 262144) len ((128 + v / 4096 % 64) ∷ middle ∷ low ∷ rest) (omega arith)
          fits' room
        ∙ decode_remaining-next 2 (v / 262144) (v / 4096 % 64) (middle ∷ low ∷ rest) (omega arith)
        ∙ decode_remaining-next 1 a (v / 64 % 64) (low ∷ rest) (omega arith)
        ∙ decode_remaining-next 0 (a * 64 + v / 64 % 64) (v % 64) rest (omega arith)
        ∙ ap some (omega arith))
]

-- The encoder writes as many bytes as `wrenUtf8EncodeNumBytes` announces, for every value, also
-- one that is too large to encode, for which both are 0.
pub length-encode : (v : ℕ) → length (utf8_encode v) ≡ utf8_encode_num_bytes v
unfolding utf8_encode utf8_encode_num_bytes
length-encode v = ground arith

in_middle : (x : ℕ) → utf8_decode_num_bytes (128 + x % 64) ≡ 0
in_middle x = num_bytes_zero (128 + x % 64) (omega arith) (omega arith)

-- For a Unicode value, the first byte that the encoder writes tells `wrenUtf8DecodeNumBytes` how
-- many bytes were announced for the value, and each further byte is told to be in the middle of a
-- sequence.
pub decode_num_bytes-encode :
    (v : ℕ)
    → v ≤ 0x10ffff
    → (utf8_decode_num_bytes (get_or (utf8_encode v) 0 0) ≡ utf8_encode_num_bytes v)
      × All (λ b. utf8_decode_num_bytes b ≡ 0) (drop 1 (utf8_encode v))
unfolding utf8_encode_num_bytes
decode_num_bytes-encode v h = elim (width v) [
  | one p ↦ rw (encode_one v p) (num_bytes_one v (omega arith) ∙ ground arith, tt)
  | two p q ↦
      rw (encode_two v p q)
        (num_bytes_two (192 + v / 64) (omega arith) (omega arith) ∙ ground arith, (in_middle v, tt))
  | three p q ↦ rw (encode_three v p q) (
    num_bytes_three (224 + v / 4096) (omega arith) (omega arith) ∙ ground arith,
    (in_middle (v / 64), (in_middle v, tt)),
  )
  | four p ↦ rw (encode_four v p h) (
    num_bytes_four (240 + v / 262144) (omega arith) (omega arith) ∙ ground arith,
    (in_middle (v / 4096), (in_middle (v / 64), (in_middle v, tt))),
  )
]

decode_remaining-take :
    (r m value : ℕ) (bytes : List ℕ)
    → r ≤ m
    → decode_remaining r (take m bytes) value ≡ decode_remaining r bytes value
unfolding decode_remaining
decode_remaining-take zero m value bytes h = refl
decode_remaining-take (suc r) zero value bytes h = absurd (omega arith)
decode_remaining-take (suc r) (suc m) value [] h = refl
decode_remaining-take (suc r) (suc m) value (b ∷ bytes) h =
    rw (decode_remaining-take r m (bit_or (value * 2 ^ 6) (bit_and b 0x3f)) bytes (omega arith))

decode_sequence-take :
    (r m value : ℕ) (bytes : List ℕ)
    → suc m < 2 ^ 32
    → decode_sequence (suc m) value r (take m bytes) ≡ decode_sequence (suc m) value r bytes
unfolding decode_sequence
decode_sequence-take r m value bytes h = ground (arith, decode_remaining-take r m value bytes)

-- For a length that is not 0 and below 2 ^ 32, decoding reads no byte at or past it: cut off
-- there, the buffer decodes alike.
pub decode-take :
    (bytes : List ℕ) (n : ℕ)
    → 0 < n
    → n < 2 ^ 32
    → utf8_decode (take n bytes) n ≡ utf8_decode bytes n
unfolding utf8_decode
decode-take bytes zero h room = absurd (omega arith)
decode-take [] (suc m) h room = refl
decode-take (b ∷ bytes) (suc m) h room = rw (
  decode_sequence-take 1 m (bit_and b 0x1f) bytes room,
  decode_sequence-take 2 m (bit_and b 0x0f) bytes room,
  decode_sequence-take 3 m (bit_and b 0x07) bytes room,
)

-- A well formed sequence of four bytes for a number past the last Unicode value, with a lead byte
-- from 0xf5 to 0xf7, in a length of at least 4 and below 2 ^ 32, is decoded to a number above
-- 0x10ffff, for which the encoder announces no bytes.
pub decode_past_unicode :
    (a b c d : ℕ) (rest : List ℕ) (len : ℕ)
    → 5 ≤ a
    → a < 8
    → b < 64
    → c < 64
    → d < 64
    → 4 ≤ len
    → len < 2 ^ 32
    → (v : ℕ) × (utf8_decode ((0xf0 + a) ∷ (0x80 + b) ∷ (0x80 + c) ∷ (0x80 + d) ∷ rest) len
        ≡ some v)
      × (0x10ffff < v)
      × (utf8_encode_num_bytes v ≡ 0)
unfolding decode_remaining utf8_encode_num_bytes
decode_past_unicode a b c d rest len lo hi hb hc hd fits room = (
  ((a * 64 + b) * 64 + c) * 64 + d,
  decode_four a len ((128 + b) ∷ (128 + c) ∷ (128 + d) ∷ rest) hi fits room
      ∙ decode_remaining-next 2 a b ((128 + c) ∷ (128 + d) ∷ rest) hb
      ∙ decode_remaining-next 1 (a * 64 + b) c ((128 + d) ∷ rest) hc
      ∙ decode_remaining-next 0 ((a * 64 + b) * 64 + c) d rest hd,
  omega arith,
  ground arith,
)
