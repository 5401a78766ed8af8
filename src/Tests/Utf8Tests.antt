-- ===== src/Tests/Utf8Tests.antt =====
-- The UTF-8 theorems at "é", "€" and the bytes F5 80 80 80.
use ruwren.Prelude.{ℕ, ◌<◌, ◌≡◌, some, [], ◌∷◌, ◌++◌, arith, take, refl}
use ruwren.Utf8.{utf8_encode, utf8_encode_num_bytes, utf8_decode}
use ruwren.Utf8.RoundTrip.{decode-encode, decode-take, decode_past_unicode}

euro_bytes : utf8_encode 0x20ac ≡ 0xe2 ∷ 0x82 ∷ 0xac ∷ []
unfolding utf8_encode
euro_bytes = refl

decode-encode_example : utf8_decode (utf8_encode 0x20ac ++ b'!' ∷ []) 4 ≡ some 0x20ac
unfolding utf8_encode
decode-encode_example = decode-encode 0x20ac (b'!' ∷ []) 4 (omega arith) (omega arith) (omega arith)

decode-take_example :
    utf8_decode (take 2 (0xe2 ∷ 0x82 ∷ 0xac ∷ [])) 2 ≡ utf8_decode (0xe2 ∷ 0x82 ∷ 0xac ∷ []) 2
decode-take_example = decode-take (0xe2 ∷ 0x82 ∷ 0xac ∷ []) 2 (omega arith) (omega arith)

decode_past_unicode_example :
    (v : ℕ) × (utf8_decode (0xf5 ∷ 0x80 ∷ 0x80 ∷ 0x80 ∷ []) 4 ≡ some v)
    × (0x10ffff < v)
    × (utf8_encode_num_bytes v ≡ 0)
decode_past_unicode_example =
    decode_past_unicode 5 0 0 0 [] 4 (omega arith) (omega arith) (omega arith) (omega arith)
      (omega arith) (omega arith) (omega arith)
