-- ===== src/Lexer/Scan.antt =====
-- Reading characters, making tokens, and skipping comments.
use ruwren.Prelude.{
  ℕ, zero, suc, ◌+◌, ◌-◌, Bool, true, false, ◌&&◌, ◌||◌, not, ◌∷◌, ltb, leb, ◌==◌, if◌then◌else◌,
  length, get_or,
}
use ruwren.Lexer.State.{TokenType, line, LexError, unterminated_block_comment, Parser}

unfoldable pub is_name : ℕ → Bool
is_name c = leb b'a' c && leb c b'z' || leb b'A' c && leb c b'Z' || c == b'_'

unfoldable pub is_digit : ℕ → Bool
is_digit c = leb b'0' c && leb c b'9'

-- Up to the terminating zero; the loops test with `is_behind` before they read further.
abbrev pub peek_char : Parser → ℕ
peek_char p = get_or p.source p.current_char 0

unfoldable pub peek_next_char : Parser → ℕ
peek_next_char p = if peek_char p == 0 then 0 else get_or p.source (p.current_char + 1) 0

-- The state after `nextChar`, which returns what `peekChar` saw before it.
unfoldable pub next_char : Parser → Parser
next_char p = record p {
  current_char = p.current_char + 1;
  current_line = if peek_char p == b'\n' then p.current_line + 1 else p.current_line;
}

-- Behind the terminating zero, where `peekChar` must not read.
abbrev pub is_behind : Parser → Bool
is_behind p = ltb (length p.source) p.current_char

unfoldable pub overrun : Parser → Parser
overrun p = record p { is_overrun = true }

-- `parser->currentChar--`.
unfoldable pub step_back : Parser → Parser
step_back p = record p { current_char = p.current_char - 1 }

unfoldable pub match_char : Parser → ℕ → Bool × Parser
unfolding next_char
match_char p c = if peek_char p == c then (true, next_char p) else (false, p)

unfoldable pub lex_error : LexError → Parser → Parser
lex_error e p = record p { errors = (p.current_line, e) ∷ p.errors }

abbrev pub is_line : TokenType → Bool
is_line line = true
is_line _ = false

unfoldable pub make_token : TokenType → Parser → Parser
make_token t p = record p {
  next = record {
    type = t;
    start = p.token_start;
    length = p.current_char - p.token_start;
    line = if is_line t then p.current_line - 1 else p.current_line;
    value = p.next.value;
  };
}

unfoldable pub two_char_token : Parser → ℕ → TokenType → TokenType → Parser
two_char_token p c two one =
    let (matched, p') = match_char p c in make_token (if matched then two else one) p'

-- The characters that are left before the terminating zero.
abbrev pub remaining : Parser → ℕ
remaining p = length p.source - p.current_char

-- `while (test(peekChar(parser))) nextChar(parser);`
unfoldable pub skip_while : (ℕ → Bool) → ℕ → Parser → Parser
skip_while test zero p = p
skip_while test (suc fuel) p =
    let rest = skip_while test fuel (next_char p) in if test (peek_char p) then rest else p

unfoldable pub in_line : ℕ → Bool
in_line c = not (c == b'\n') && not (c == 0)

unfoldable pub skip_line_comment : Parser → Parser
unfolding skip_while in_line
skip_line_comment p = skip_while in_line (remaining p) p

-- The loop of `skipBlockComment`, at `nesting` open comments.
unfoldable pub skip_block : ℕ → ℕ → Parser → Parser
skip_block fuel zero p = p
skip_block zero (suc nesting) p = p
skip_block (suc fuel) (suc nesting) p =
    let opened = skip_block fuel (suc (suc nesting)) (next_char (next_char p)) in
    let closed = skip_block fuel nesting (next_char (next_char p)) in
    let inside = skip_block fuel (suc nesting) (next_char p) in
    if peek_char p == 0
    then lex_error unterminated_block_comment p
    else if peek_char p == b'/' && peek_next_char p == b'*'
    then opened
    else if peek_char p == b'*' && peek_next_char p == b'/'
    then closed
    else inside

-- One unit of fuel for each character, and one to find the end.
unfoldable pub skip_block_comment : Parser → Parser
unfolding skip_block
skip_block_comment p = skip_block (suc (remaining p)) 1 p
