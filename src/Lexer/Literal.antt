-- ===== src/Lexer/Literal.antt =====
-- String literals: escapes, strings with interpolation, and raw strings. The `ByteBuffer` is the
-- list of the bytes written so far.
pub mod Raw
use ruwren.Prelude.{
  ℕ, zero, suc, ◌+◌, ◌*◌, ◌%◌, ◌^◌, bit_and, bit_or, Bool, true, false, ◌||◌, Option, none, some,
  List, [], ◌∷◌, ◌++◌, ltb, ◌==◌, if◌then◌else◌, length,
}
use ruwren.Utf8.{utf8_encode}
use ruwren.Lexer.State.{
  TokenType, string, interpolation, str, incomplete_escape, invalid_escape, unterminated_string,
  expect_paren, interpolation_too_deep, invalid_escape_character, Parser,
}
use ruwren.Lexer.Scan.{
  peek_char, is_behind, overrun, next_char, step_back, lex_error, make_token, remaining,
}
use ruwren.Lexer.Number.{read_hex_digit}

abbrev pub max_interpolation_nesting : ℕ
max_interpolation_nesting = 8

-- The value of up to `digits` hex digits, as the bit pattern of a 32-bit `int`.
unfoldable pub read_hex_escape : ℕ → ℕ → Parser → ℕ × Parser
unfolding lex_error step_back read_hex_digit
read_hex_escape zero value p = (value, p)
read_hex_escape (suc digits) value p =
    let (digit, p') = read_hex_digit p in
    let next = λ (d : ℕ). read_hex_escape digits (bit_or (value * 16 % 2 ^ 32) d) p' in
    if peek_char p == b'"' || peek_char p == 0
    then (value, step_back (lex_error incomplete_escape p))
    else elim digit [ none ↦ (value, lex_error invalid_escape p') | some d ↦ next d ]

-- What `wrenUtf8Encode` writes for the `int` with this bit pattern: a negative one passes its test
-- for ASCII.
unfoldable pub encode_int : ℕ → List ℕ
encode_int value = if ltb value (2 ^ 31) then utf8_encode value else bit_and value 0x7f ∷ []

unfoldable pub read_unicode_escape : List ℕ → ℕ → Parser → List ℕ × Parser
unfolding read_hex_escape encode_int
read_unicode_escape bytes digits p =
    let (value, p') = read_hex_escape digits 0 p in (bytes ++ encode_int value, p')

-- The byte that a plain escape such as `\n` stands for.
unfoldable pub plain_escape : ℕ → Option ℕ
plain_escape c =
    if c == b'"'
    then some b'"'
    else if c == b'\\'
    then some b'\\'
    else if c == b'%'
    then some b'%'
    else if c == b'0'
    then some 0
    else if c == b'a'
    then some 7
    else if c == b'b'
    then some 8
    else if c == b'e'
    then some 27
    else if c == b'f'
    then some 12
    else if c == b'n'
    then some 10
    else if c == b'r'
    then some 13
    else if c == b't'
    then some 9
    else if c == b'v'
    then some 11
    else none

-- The `switch` behind a backslash.
unfoldable pub read_escape : List ℕ → Parser → List ℕ × Parser
unfolding next_char plain_escape read_unicode_escape read_hex_escape lex_error
read_escape bytes p =
    let c = peek_char p in
    let p₁ = next_char p in
    let (byte, p₂) = read_hex_escape 2 0 p₁ in
    let other : List ℕ × Parser =
      if c == b'u'
      then read_unicode_escape bytes 4 p₁
      else if c == b'U'
      then read_unicode_escape bytes 8 p₁
      else if c == b'x'
      then (bytes ++ byte % 256 ∷ [], p₂)
      else (bytes, lex_error invalid_escape_character p₁) in
    elim (plain_escape c) [ some b ↦ (bytes ++ b ∷ [], p₁) | none ↦ other ]

-- One round of the loop of `readString` ends the literal or goes on.
pub data Round : Type 0 where
  done : TokenType → List ℕ → Parser → Round
  more : List ℕ → Parser → Round

-- Behind a `%` that opens an interpolation.
unfoldable pub open_interpolation : List ℕ → Parser → Round
unfolding next_char lex_error
open_interpolation bytes p =
    let p₁ = next_char p in
    let p₂ = if peek_char p == b'(' then p₁ else lex_error expect_paren p₁ in
    done interpolation bytes (record p₂ { parens = 1 ∷ p₂.parens })

unfoldable pub string_round : List ℕ → Parser → Round
unfolding next_char step_back lex_error read_escape open_interpolation
string_round bytes p =
    let c = peek_char p in
    let p₁ = next_char p in
    let escaped = read_escape bytes p₁ in
    if c == b'"'
    then done string bytes p₁
    else if c == 0
    then done string bytes (step_back (lex_error unterminated_string p₁))
    else if c == b'%'
    then (if ltb (length p.parens) max_interpolation_nesting
        then open_interpolation bytes p₁
        else more (bytes ++ c ∷ []) (lex_error interpolation_too_deep p₁))
    else if c == b'\\'
    then more escaped.0 escaped.1
    else more (bytes ++ c ∷ []) p₁

-- `none` means that the fuel ran out.
unfoldable pub string_loop : ℕ → List ℕ → Parser → Option (TokenType × List ℕ × Parser)
unfolding overrun
string_loop zero bytes p = none
string_loop (suc fuel) bytes p =
    let next = string_loop fuel in
    if is_behind p then some (string, bytes, overrun p) else elim (string_round bytes p) [
      | done type text p' ↦ some (type, text, p')
      | more text p' ↦ next text p'
    ]

unfoldable pub finish_string : TokenType × List ℕ × Parser → Parser
unfolding make_token
finish_string (type, text, p) =
    make_token type (record p { next = record (p.next) { value = str text } })

unfoldable pub read_string : Parser → Option Parser
unfolding string_loop finish_string
read_string p = elim (string_loop (suc (remaining p)) [] p) [
  | none ↦ none
  | some r ↦ some (finish_string r)
]
