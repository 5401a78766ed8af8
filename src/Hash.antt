-- ===== src/Hash.antt =====
-- The hash functions of ruwren-sys/src/wren_value.c, on 64-bit and 32-bit words.
use ruwren.Prelude.{ℕ, ◌+◌, ◌-◌, ◌*◌, ◌/◌, ◌%◌, ◌^◌, bit_and, bit_xor, List, [], ◌∷◌}

-- `hashBits` on a `uint64_t`; `~hash` is the complement below 2 ^ 64.
unfoldable pub hash_bits : ℕ → ℕ
hash_bits bits =
    let a = (2 ^ 64 - 1 - bits + bits * 2 ^ 18 % 2 ^ 64) % 2 ^ 64 in
    let b = bit_xor a (a / 2 ^ 31) in
    let c = b * 21 % 2 ^ 64 in
    let d = bit_xor c (c / 2 ^ 11) in
    let e = (d + d * 2 ^ 6 % 2 ^ 64) % 2 ^ 64 in bit_and (bit_xor e (e / 2 ^ 22)) 0x3fffffff

-- The loop of `hashString`, FNV-1a. `widen` is the conversion of a `char` to `uint32_t`, which the
-- platform decides for bytes from 128.
unfoldable pub hash_bytes : (ℕ → ℕ) → List ℕ → ℕ → ℕ
hash_bytes widen [] hash = hash
hash_bytes widen (c ∷ cs) hash = hash_bytes widen cs (bit_xor hash (widen c) * 16777619 % 2 ^ 32)

unfoldable pub hash_string : (ℕ → ℕ) → List ℕ → ℕ
unfolding hash_bytes
hash_string widen bytes = hash_bytes widen bytes 2166136261
