-- ===== src/Lexer/Name.antt =====
-- Identifiers and the table of reserved words.
use ruwren.Prelude.{ℕ, zero, suc, ◌-◌, ◌||◌, List, [], ◌∷◌, ◌++◌, if◌then◌else◌, take, drop}
use ruwren.Prelude.Text.{codes, bytes_equal}
use ruwren.Lexer.State.{
  TokenType, break_kw, continue_kw, class_kw, construct_kw, else_kw, false_kw, for_kw, foreign_kw,
  if_kw, import_kw, as_kw, in_kw, is_kw, null_kw, return_kw, static_kw, super_kw, this_kw, true_kw,
  var_kw, while_kw, str, Parser,
}
use ruwren.Lexer.Scan.{is_name, is_digit, peek_char, next_char, make_token, remaining}

abbrev pub keywords : List (List ℕ × TokenType)
keywords =
    (codes "break", break_kw)
    ∷ (codes "continue", continue_kw)
    ∷ (codes "class", class_kw)
    ∷ (codes "construct", construct_kw)
    ∷ (codes "else", else_kw)
    ∷ (codes "false", false_kw)
    ∷ (codes "for", for_kw)
    ∷ (codes "foreign", foreign_kw)
    ∷ (codes "if", if_kw)
    ∷ (codes "import", import_kw)
    ∷ (codes "as", as_kw)
    ∷ (codes "in", in_kw)
    ∷ (codes "is", is_kw)
    ∷ (codes "null", null_kw)
    ∷ (codes "return", return_kw)
    ∷ (codes "static", static_kw)
    ∷ (codes "super", super_kw)
    ∷ (codes "this", this_kw)
    ∷ (codes "true", true_kw)
    ∷ (codes "var", var_kw)
    ∷ (codes "while", while_kw)
    ∷ []

-- The loop over the table: the first word that the token spells gives its type.
unfoldable pub keyword_type : List ℕ → List (List ℕ × TokenType) → TokenType → TokenType
keyword_type text [] type = type
keyword_type text ((word, kind) ∷ table) type =
    if bytes_equal text word then kind else keyword_type text table type

-- The rest of an identifier, appended to the bytes so far.
unfoldable pub name_chars : ℕ → List ℕ → Parser → List ℕ × Parser
name_chars zero text p = (text, p)
name_chars (suc fuel) text p =
    let rest = name_chars fuel (text ++ peek_char p ∷ []) (next_char p) in
    if is_name (peek_char p) || is_digit (peek_char p) then rest else (text, p)

-- The text of the current token.
abbrev pub token_text : Parser → List ℕ
token_text p = take (p.current_char - p.token_start) (drop p.token_start p.source)

unfoldable pub read_name : TokenType → ℕ → Parser → Parser
unfolding name_chars keyword_type make_token
read_name type first_char p =
    let (text, p₁) = name_chars (remaining p) (first_char ∷ []) p in
    make_token (keyword_type (token_text p₁) keywords type)
      (record p₁ { next = record (p₁.next) { value = str text } })
