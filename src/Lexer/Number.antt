-- ===== src/Lexer/Number.antt =====
-- Number literals. What the digits are worth is the C library's answer, `strtoll` to base 16 and
-- `strtod`, on the text from the start of the token.
use ruwren.Prelude.{
  ℕ, zero, suc, ◌+◌, ◌-◌, Bool, true, false, ◌&&◌, Option, none, some, List, leb, ◌==◌,
  if◌then◌else◌, drop,
}
use ruwren.Lexer.State.{number, num, number_too_large, unterminated_scientific, Parser}
use ruwren.Lexer.Scan.{
  is_digit, peek_char, peek_next_char, next_char, step_back, match_char, lex_error, make_token,
  remaining, skip_while,
}

-- The double's bits, and whether `errno` became `ERANGE`.
pub record Libc : Type 0 where
  pub strtoll_hex : List ℕ → ℕ × Bool
  pub strtod : List ℕ → ℕ × Bool

-- The digit's value; `none` is the source's -1.
unfoldable pub hex_value : ℕ → Option ℕ
hex_value c =
    if leb b'0' c && leb c b'9'
    then some (c - b'0')
    else if leb b'a' c && leb c b'f'
    then some (c - b'a' + 10)
    else if leb b'A' c && leb c b'F'
    then some (c - b'A' + 10)
    else none

unfoldable pub read_hex_digit : Parser → Option ℕ × Parser
unfolding hex_value next_char step_back
read_hex_digit p = elim (hex_value (peek_char p)) [
  | some d ↦ (some d, next_char p)
  | none ↦ (none, step_back (next_char p))
]

-- `while (readHexDigit(parser) != -1) continue;`
unfoldable pub skip_hex_digits : ℕ → Parser → Parser
skip_hex_digits zero p = p
skip_hex_digits (suc fuel) p =
    let rest = skip_hex_digits fuel (read_hex_digit p).1 in
    elim (read_hex_digit p).0 [ none ↦ (read_hex_digit p).1 | some _ ↦ rest ]

-- The fraction, if a digit follows the dot.
unfoldable pub skip_fraction : Parser → Parser
unfolding peek_next_char is_digit next_char skip_while
skip_fraction p =
    if peek_char p == b'.' && is_digit (peek_next_char p)
    then skip_while is_digit (remaining (next_char p)) (next_char p)
    else p

-- The sign and the digits of an exponent, behind its letter.
unfoldable pub skip_exponent : Parser → Parser
unfolding match_char is_digit lex_error skip_while
skip_exponent p =
    let (plus, p₁) = match_char p b'+' in
    let (_, p₂) = match_char p₁ b'-' in
    let signed = if plus then p₁ else p₂ in
    let checked =
      if is_digit (peek_char signed) then signed else lex_error unterminated_scientific signed in
    skip_while is_digit (remaining checked) checked

unfoldable pub skip_scientific : Parser → Parser
unfolding match_char skip_exponent
skip_scientific p =
    let (small, p₁) = match_char p b'e' in
    let (capital, p₂) = match_char p b'E' in
    if small then skip_exponent p₁ else if capital then skip_exponent p₂ else p

abbrev pub set_value : ℕ → Parser → Parser
set_value bits p = record p { next = record (p.next) { value = num bits } }

module _ (libc : Libc) where
  unfoldable pub make_number : Bool → Parser → Parser
  unfolding lex_error make_token
  make_number is_hex p =
      let text = drop p.token_start p.source in
      let (bits, range) = if is_hex then libc.strtoll_hex text else libc.strtod text in
      make_token number (
        if range
        then set_value 0 (lex_error number_too_large (set_value bits p))
        else set_value bits p)

  unfoldable pub read_hex_number : Parser → Parser
  unfolding next_char skip_hex_digits make_number
  read_hex_number p =
      make_number true (skip_hex_digits (suc (remaining (next_char p))) (next_char p))

  unfoldable pub read_number : Parser → Parser
  unfolding is_digit skip_while skip_fraction skip_scientific make_number
  read_number p =
      make_number false (skip_scientific (skip_fraction (skip_while is_digit (remaining p) p)))
