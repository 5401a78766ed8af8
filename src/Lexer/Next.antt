-- ===== src/Lexer/Next.antt =====
-- `nextToken`.
use ruwren.Prelude.{
  ℕ, zero, suc, ◌+◌, ◌-◌, Bool, true, false, ◌&&◌, ◌||◌, Option, none, some, List, [], ◌∷◌, leb,
  ◌==◌, if◌then◌else◌,
}
use ruwren.Lexer.State
use ruwren.Lexer.State.{TokenType, Parser, Token}
use ruwren.Lexer.Scan.{
  is_name, is_digit, peek_char, peek_next_char, is_behind, overrun, next_char, match_char,
  lex_error, make_token, two_char_token, remaining, skip_while, skip_line_comment,
  skip_block_comment,
}
use ruwren.Lexer.Number.{Libc, read_hex_number, read_number}
use ruwren.Lexer.Name.{read_name}
use ruwren.Lexer.Literal.{read_string}
use ruwren.Lexer.Literal.Raw.{read_raw_string}

-- One round of the loop makes a token, or skips a comment or white space. `stuck` means that the
-- fuel of a loop inside ran out.
pub data Step : Type 0 where
  token : Parser → Step
  skip : Parser → Step
  stuck : Step

abbrev pub token_or_stuck : Option Parser → Step
token_or_stuck none = stuck
token_or_stuck (some p) = token p

-- The tokens of one character.
unfoldable pub single_char : ℕ → Option TokenType
single_char c =
    if c == b'['
    then some TokenType.left_bracket
    else if c == b']'
    then some TokenType.right_bracket
    else if c == b'{'
    then some TokenType.left_brace
    else if c == b'}'
    then some TokenType.right_brace
    else if c == b':'
    then some TokenType.colon
    else if c == b','
    then some TokenType.comma
    else if c == b'*'
    then some TokenType.star
    else if c == b'%'
    then some TokenType.percent
    else if c == b'^'
    then some TokenType.caret
    else if c == b'+'
    then some TokenType.plus
    else if c == b'-'
    then some TokenType.minus
    else if c == b'~'
    then some TokenType.tilde
    else if c == b'?'
    then some TokenType.question
    else if c == b'\n'
    then some TokenType.line
    else none

-- The tokens of one or two characters: the second character, and the two types.
unfoldable pub pair_char : ℕ → Option (ℕ × TokenType × TokenType)
pair_char c =
    if c == b'|'
    then some (b'|', TokenType.pipe_pipe, TokenType.pipe)
    else if c == b'&'
    then some (b'&', TokenType.amp_amp, TokenType.amp)
    else if c == b'='
    then some (b'=', TokenType.eq_eq, TokenType.eq)
    else if c == b'!'
    then some (b'=', TokenType.bang_eq, TokenType.bang)
    else none

abbrev pub bump_paren : List ℕ → List ℕ
bump_paren [] = []
bump_paren (n ∷ ns) = (n + 1) ∷ ns

-- `(`: inside an interpolation the unmatched ones are counted.
unfoldable pub open_paren : Parser → Step
unfolding make_token
open_paren p = token (make_token TokenType.left_paren (record p { parens = bump_paren p.parens }))

-- `)`: the last one of an interpolation goes on with the string.
unfoldable pub close_paren : List ℕ → Parser → Step
unfolding make_token read_string
close_paren [] p = token (make_token TokenType.right_paren p)
close_paren (n ∷ ns) p =
    let resumed = token_or_stuck (read_string (record p { parens = ns })) in
    if n - 1 == 0
    then resumed
    else token (make_token TokenType.right_paren (record p { parens = (n - 1) ∷ ns }))

unfoldable pub hash_round : Parser → Step
unfolding peek_next_char skip_line_comment make_token
hash_round p =
    if p.current_line == 1 && peek_char p == b'!' && peek_next_char p == b'/'
    then skip (skip_line_comment p)
    else token (make_token TokenType.hash p)

unfoldable pub dot_round : Parser → Step
unfolding match_char two_char_token make_token
dot_round p =
    let (second, p') = match_char p b'.' in
    if second
    then token (two_char_token p' b'.' TokenType.dot_dot_dot TokenType.dot_dot)
    else token (make_token TokenType.dot p)

unfoldable pub slash_round : Parser → Step
unfolding match_char skip_line_comment skip_block_comment make_token
slash_round p =
    let (slash, p₁) = match_char p b'/' in
    let (star, p₂) = match_char p b'*' in
    if slash
    then skip (skip_line_comment p₁)
    else if star
    then skip (skip_block_comment p₂)
    else token (make_token TokenType.slash p)

-- `<` and `>`: doubled, with `=`, or alone.
unfoldable pub angle_round : ℕ → TokenType → TokenType → TokenType → Parser → Step
unfolding match_char two_char_token make_token
angle_round c twice with_eq alone p =
    let (second, p') = match_char p c in
    if second then token (make_token twice p') else token (two_char_token p b'=' with_eq alone)

unfoldable pub is_blank : ℕ → Bool
is_blank c = c == b' ' || c == b'\r' || c == b'\t'

unfoldable pub quote_round : Parser → Step
unfolding peek_next_char read_string read_raw_string
quote_round p =
    if peek_char p == b'"' && peek_next_char p == b'"'
    then token_or_stuck (read_raw_string p)
    else token_or_stuck (read_string p)

abbrev pub is_eof : TokenType → Bool
is_eof TokenType.eof = true
is_eof _ = false

-- A character that begins no token.
unfoldable pub bad_char : ℕ → Parser → Parser
unfolding lex_error
bad_char c p =
    let reported =
      if leb 32 c && leb c 126
      then lex_error State.LexError.invalid_character p
      else lex_error State.LexError.invalid_byte p in
    record reported { next = record (reported.next) { type = TokenType.error; length = 0 } }

module _ (libc : Libc) where
  unfoldable pub word_round : ℕ → Parser → Step
  unfolding is_name is_digit read_name read_number read_hex_number bad_char
  word_round c p =
      if c == b'_'
      then token
          (read_name (if peek_char p == b'_' then TokenType.static_field else TokenType.field) c p)
      else if c == b'0'
      then token (if peek_char p == b'x' then read_hex_number libc p else read_number libc p)
      else if is_name c
      then token (read_name TokenType.name c p)
      else if is_digit c
      then token (read_number libc p)
      else token (bad_char c p)

  -- The `switch` on the character `c`, which has just been read.
  unfoldable pub switch : ℕ → Parser → Step
  unfolding single_char pair_char open_paren close_paren hash_round dot_round slash_round
      angle_round is_blank skip_while quote_round word_round make_token two_char_token
  switch c p =
      let other =
        if c == b'('
        then open_paren p
        else if c == b')'
        then close_paren p.parens p
        else if c == b'#'
        then hash_round p
        else if c == b'.'
        then dot_round p
        else if c == b'/'
        then slash_round p
        else if c == b'<'
        then angle_round b'<' TokenType.lt_lt TokenType.lt_eq TokenType.lt p
        else if c == b'>'
        then angle_round b'>' TokenType.gt_gt TokenType.gt_eq TokenType.gt p
        else if is_blank c
        then skip (skip_while is_blank (remaining p) p)
        else if c == b'"'
        then quote_round p
        else word_round c p in
      elim (single_char c) [
        | some t ↦ token (make_token t p)
        | none ↦ elim (pair_char c) [
          | some (second, two, one) ↦ token (two_char_token p second two one)
          | none ↦ other
        ]
      ]

  -- The loop; `none` means that some fuel ran out.
  unfoldable pub scan_loop : ℕ → Parser → Option Parser
  unfolding make_token next_char switch overrun
  scan_loop zero p = none
  scan_loop (suc fuel) p =
      let begun = record p { token_start = p.current_char } in
      let again = scan_loop fuel in
      if is_behind p
      then some (overrun begun)
      else if peek_char p == 0
      then some (make_token TokenType.eof begun)
      else elim (switch (peek_char p) (next_char begun)) [
        | token p' ↦ some p'
        | skip p' ↦ again p'
        | stuck ↦ none
      ]

  unfoldable pub next_token : Parser → Option Parser
  unfolding scan_loop
  next_token p =
      let shifted = record p { previous = p.current; current = p.next } in
      let scanned = scan_loop (suc (remaining shifted)) shifted in
      if p.is_overrun then some p else if is_eof p.next.type then some shifted else scanned
