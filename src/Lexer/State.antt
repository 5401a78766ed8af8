-- ===== src/Lexer/State.antt =====
-- The lexer's data: tokens, the errors that it reports, and the part of the `Parser` that it uses.
-- A `const char*` into the source is an index, and the terminating zero is what a read at or past
-- the end of the list gives.
use ruwren.Prelude.{Bool, ℕ, List}

-- `TokenType`, without the prefix.
pub data TokenType : Type 0 where
  left_paren right_paren left_bracket right_bracket left_brace right_brace : TokenType
  colon dot dot_dot dot_dot_dot comma star slash percent hash plus minus : TokenType
  lt_lt gt_gt pipe pipe_pipe caret amp amp_amp bang tilde question : TokenType
  eq lt gt lt_eq gt_eq eq_eq bang_eq : TokenType
  break_kw continue_kw class_kw construct_kw else_kw false_kw for_kw foreign_kw if_kw : TokenType
  import_kw as_kw in_kw is_kw null_kw return_kw static_kw super_kw this_kw true_kw : TokenType
  var_kw while_kw : TokenType
  field static_field name number string interpolation line error eof : TokenType

-- The value of a literal: a number by the 64 bits of its double, or the bytes of a string.
pub data TokenValue : Type 0 where
  undefined : TokenValue
  num : ℕ → TokenValue
  str : List ℕ → TokenValue

pub record Token : Type 0 where
  pub type : TokenType
  pub start : ℕ
  pub length : ℕ
  pub line : ℕ
  pub value : TokenValue

-- The messages of `lexError`.
pub data LexError : Type 0 where
  unterminated_block_comment number_too_large unterminated_scientific : LexError
  incomplete_escape invalid_escape unterminated_raw_string unterminated_string : LexError
  expect_paren interpolation_too_deep invalid_escape_character : LexError
  invalid_character invalid_byte : LexError

-- `is_overrun` says that a read behind the terminating zero has come about, which the source does
-- not prevent; a parser stays as it is from then on.
-- `parens` is the stack of unmatched parentheses, innermost first; its length is `numParens`.
-- `errors` holds the reported errors with their lines, the last one first.
pub record Parser : Type 0 where
  pub source : List ℕ
  pub token_start : ℕ
  pub current_char : ℕ
  pub current_line : ℕ
  pub next : Token
  pub current : Token
  pub previous : Token
  pub parens : List ℕ
  pub errors : List (ℕ × LexError)
  pub is_overrun : Bool
