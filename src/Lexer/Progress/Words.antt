-- ===== src/Lexer/Progress/Words.antt =====
-- Numbers and names move forward.
use ruwren.Prelude.{
  ℕ, suc, Bool, true, false, ◌∷◌, [], if_both, if◌then◌else◌, arith, refl, ◌==◌, ◌&&◌, drop,
}
use ruwren.Lexer.State.{TokenType, Parser, number, number_too_large, unterminated_scientific}
use ruwren.Lexer.Scan.{
  is_digit, peek_char, peek_next_char, next_char, match_char, make_token, remaining,
}
use ruwren.Lexer.Number.{
  Libc, make_number, read_hex_number, skip_fraction, skip_exponent, skip_scientific, read_number,
  set_value,
}
use ruwren.Lexer.Name.{read_name}
use ruwren.Lexer.Progress.{
  Ahead, Ahead-refl, Ahead-trans, next_char-Ahead, lex_error-Ahead, make_token-Ahead,
  match_char-Ahead, skip_while-Ahead, skip_hex_digits-Ahead, name_chars-Ahead,
}

set_value-Ahead : (bits : ℕ) (p : Parser) → Ahead p (set_value bits p)
set_value-Ahead bits p = record {
  same = refl;
  ahead = omega arith;
  fair = λ f e. omega (arith, f e);
}

skip_fraction-Ahead : (p : Parser) → Ahead p (skip_fraction p)
unfolding skip_fraction
skip_fraction-Ahead p =
    if_both (Ahead p) (peek_char p == b'.' && is_digit (peek_next_char p))
      (Ahead-trans (next_char-Ahead p)
        (skip_while-Ahead is_digit (remaining (next_char p)) (next_char p)))
      (Ahead-refl p)

skip_exponent-Ahead : (p : Parser) → Ahead p (skip_exponent p)
unfolding skip_exponent
skip_exponent-Ahead p =
    let p₁ = (match_char p b'+').1 in
    let p₂ = (match_char p₁ b'-').1 in
    let one = match_char-Ahead p b'+' in
    let signed = if (match_char p b'+').0 then p₁ else p₂ in
    let past =
      if_both (Ahead p) (match_char p b'+').0 one (Ahead-trans one (match_char-Ahead p₁ b'-')) in
    let checked =
      if_both (Ahead p) (is_digit (peek_char signed)) past
        (Ahead-trans past (lex_error-Ahead unterminated_scientific signed)) in
    Ahead-trans checked (skip_while-Ahead is_digit _ _)

skip_scientific-Ahead : (p : Parser) → Ahead p (skip_scientific p)
unfolding skip_scientific
skip_scientific-Ahead p =
    if_both (Ahead p) (match_char p b'e').0
      (Ahead-trans (match_char-Ahead p b'e') (skip_exponent-Ahead _))
      (if_both (Ahead p) (match_char p b'E').0
        (Ahead-trans (match_char-Ahead p b'E') (skip_exponent-Ahead _)) (Ahead-refl p))

module _ (libc : Libc) where
  make_number-Ahead : (is_hex : Bool) (p : Parser) → Ahead p (make_number libc is_hex p)
  unfolding make_number
  make_number-Ahead is_hex p =
      let text = drop p.token_start p.source in
      let r = if is_hex then libc.strtoll_hex text else libc.strtod text in
      let set = set_value-Ahead r.0 p in
      let reported = Ahead-trans set (lex_error-Ahead number_too_large (set_value r.0 p)) in
      Ahead-trans (if_both (Ahead p) r.1 (Ahead-trans reported (set_value-Ahead 0 _)) set)
        (make_token-Ahead number _)

  pub read_hex_number-Ahead : (p : Parser) → Ahead p (read_hex_number libc p)
  unfolding read_hex_number
  read_hex_number-Ahead p =
      Ahead-trans
        (Ahead-trans (next_char-Ahead p)
          (skip_hex_digits-Ahead (suc (remaining (next_char p))) (next_char p)))
        (make_number-Ahead true _)

  pub read_number-Ahead : (p : Parser) → Ahead p (read_number libc p)
  unfolding read_number
  read_number-Ahead p =
      Ahead-trans
        (Ahead-trans
          (Ahead-trans (skip_while-Ahead is_digit (remaining p) p) (skip_fraction-Ahead _))
          (skip_scientific-Ahead _))
        (make_number-Ahead false _)

pub read_name-Ahead : (t : TokenType) (c : ℕ) (p : Parser) → Ahead p (read_name t c p)
unfolding read_name make_token
read_name-Ahead t c p =
    let word = name_chars-Ahead (remaining p) (c ∷ []) p in
    record { same = word.same; ahead = word.ahead; fair = word.fair }
