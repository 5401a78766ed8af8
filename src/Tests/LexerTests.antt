-- ===== src/Tests/LexerTests.antt =====
-- The lexer on short sources.
use ruwren.Prelude.{◌⊎◌, ◌≤◌, ℕ, ◌≡◌, refl, true, false, some, List, [], arith, length}
use ruwren.Prelude.Text.{codes, bytes_equal}
use ruwren.Lexer.State.{TokenType, undefined, Token, Parser}
use ruwren.Lexer.Number.{Libc}
use ruwren.Lexer.Next.{is_eof}
use ruwren.Lexer.Name.{keywords, keyword_type}
use ruwren.Lexer.Progress.Source.{next_tokens, next_tokens-end}

abbrev blank : Token
blank = record { type = TokenType.error; start = 0; length = 0; line = 0; value = undefined }

-- The parser that `wrenCompile` begins with, at the start of `source`.
abbrev start : List ℕ → Parser
start source = record {
  source = source;
  token_start = 0;
  current_char = 0;
  current_line = 1;
  next = blank;
  current = blank;
  previous = blank;
  parens = [];
  errors = [];
  is_overrun = false;
}

abbrev libc : Libc
libc = record { strtoll_hex = λ s. (length s, false); strtod = λ s. (length s, false) }

abbrev assignment : Parser
assignment = start (codes "var a = 0x1f")

next_tokens-end_example :
    (p' : Parser) × (next_tokens libc 13 assignment ≡ some p')
    × (p'.source ≡ assignment.source)
    × ((is_eof p'.next.type ≡ true)
        ⊎ (p'.is_overrun ≡ true) × (length assignment.source ≤ p'.current_char))
next_tokens-end_example = next_tokens-end libc 13 assignment refl (omega arith)

-- Behind the opening quote of a string with an escape.
abbrev quoted : Parser
quoted = record (start (codes "\"a\\n\" + 1")) { current_char = 1 }

abbrev raw_quoted : Parser
raw_quoted = record (start (codes "\"\"\"raw\"\"\"")) { current_char = 1 }

abbrev at_end : Parser
at_end = record (start (codes "a")) {
  current_char = 1;
  next = record blank { type = TokenType.eof };
}

foreign_is_keyword : keyword_type (codes "foreign") keywords TokenType.name ≡ TokenType.foreign_kw
unfolding keyword_type bytes_equal
foreign_is_keyword = refl
