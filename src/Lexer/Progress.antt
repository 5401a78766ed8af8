-- ===== src/Lexer/Progress.antt =====
-- How far each part of the lexer may go in the source.
pub mod Words
pub mod Strings
pub mod Tokens
pub mod Source
use native.Mathlib.Decide.{dec_lt}
use ruwren.Prelude.{
  ℕ, zero, suc, ◌+◌, ◌-◌, ◌≤◌, ◌<◌, ◌≡◌, ◌≢◌, refl, ap, ◌∙◌, Bool, true, false, Option, none, some,
  List, ◌∷◌, arith, ◌==◌, length, get_or, get_or-beyond, Bool-cases, Option-cases, option_both,
  if_both, ◌||◌, ◌++◌, [], ◌⊎◌, inl, inr,
}
use ruwren.Lexer.State.{TokenType, LexError, Parser}
use ruwren.Lexer.Scan.{
  is_name, is_digit, peek_char, peek_next_char, next_char, step_back, match_char, lex_error,
  make_token, two_char_token, remaining, skip_while, skip_line_comment, skip_block,
  skip_block_comment,
}
use ruwren.Lexer.Number.{
  Libc, hex_value, read_hex_digit, skip_hex_digits, make_number, read_hex_number, skip_fraction,
  skip_exponent, skip_scientific, read_number,
}
use ruwren.Lexer.Name.{name_chars, read_name}

-- Nothing behind the source is read before its end.
abbrev pub IsFair : Parser → Type 0
IsFair p = p.is_overrun ≡ true → length p.source ≤ p.current_char

-- `p'` is at or behind `p` in the same source.
pub record Ahead (p p' : Parser) : Type 0 where
  pub same : p'.source ≡ p.source
  pub ahead : p.current_char ≤ p'.current_char
  pub fair : IsFair p → IsFair p'

pub Ahead-refl : (p : Parser) → Ahead p p
Ahead-refl p = record { same = refl; ahead = omega arith; fair = λ f e. omega (arith, f e) }

pub Ahead-trans : {p q r : Parser} → Ahead p q → Ahead q r → Ahead p r
Ahead-trans a b = record {
  same = b.same ∙ a.same;
  ahead = omega arith;
  fair = λ f. b.fair (a.fair f);
}

-- A character other than the terminating zero stands in the source.
pub inside_source : (p : Parser) → peek_char p ≢ 0 → p.current_char < length p.source
inside_source p h = elim (dec_lt p.current_char (length p.source)) [
  | yes lt ↦ lt
  | no out ↦ absurd (h (get_or-beyond p.source p.current_char 0 (omega arith)))
]

pub next_char-Ahead : (p : Parser) → Ahead p (next_char p)
unfolding next_char
next_char-Ahead p = record { same = refl; ahead = omega arith; fair = λ f e. omega (arith, f e) }

pub lex_error-Ahead : (e : LexError) (p : Parser) → Ahead p (lex_error e p)
unfolding lex_error
lex_error-Ahead e p = record { same = refl; ahead = omega arith; fair = λ f e. omega (arith, f e) }

pub make_token-Ahead : (t : TokenType) (p : Parser) → Ahead p (make_token t p)
unfolding make_token
make_token-Ahead t p = record { same = refl; ahead = omega arith; fair = λ f e. omega (arith, f e) }

pub match_char-Ahead : (p : Parser) (c : ℕ) → Ahead p (match_char p c).1
unfolding match_char
match_char-Ahead p c =
    if_both {B = Bool × Parser} (λ r. Ahead p r.1) (peek_char p == c) (next_char-Ahead p)
      (Ahead-refl p)

pub two_char_token-Ahead :
    (p : Parser) (c : ℕ) (two one : TokenType) → Ahead p (two_char_token p c two one)
unfolding two_char_token
two_char_token-Ahead p c two one = Ahead-trans (match_char-Ahead p c) (make_token-Ahead _ _)

pub skip_while-Ahead : (test : ℕ → Bool) (fuel : ℕ) (p : Parser) → Ahead p (skip_while test fuel p)
unfolding skip_while
skip_while-Ahead test zero p = Ahead-refl p
skip_while-Ahead test (suc fuel) p = elim (Bool-cases (test (peek_char p))) [
  | inl go ↦ rw go (Ahead-trans (next_char-Ahead p) (skip_while-Ahead test fuel (next_char p)))
  | inr stop ↦ rw stop (Ahead-refl p)
]

pub skip_block-Ahead : (fuel nesting : ℕ) (p : Parser) → Ahead p (skip_block fuel nesting p)
unfolding skip_block
skip_block-Ahead zero zero p = Ahead-refl p
skip_block-Ahead (suc fuel) zero p = Ahead-refl p
skip_block-Ahead zero (suc n) p = Ahead-refl p
skip_block-Ahead (suc fuel) (suc n) p =
    let one = next_char-Ahead p in
    let two = Ahead-trans one (next_char-Ahead (next_char p)) in
    if_both (Ahead p) _ (lex_error-Ahead _ p) (
      if_both (Ahead p) _
        (Ahead-trans two (skip_block-Ahead fuel (suc (suc n)) (next_char (next_char p))))
        (if_both (Ahead p) _ (Ahead-trans two (skip_block-Ahead fuel n (next_char (next_char p))))
          (Ahead-trans one (skip_block-Ahead fuel (suc n) (next_char p)))))

pub read_hex_digit-Ahead : (p : Parser) → Ahead p (read_hex_digit p).1
unfolding read_hex_digit next_char step_back
read_hex_digit-Ahead p =
    let back : Ahead p (step_back (next_char p)) = record {
      same = refl;
      ahead = omega arith;
      fair = λ f e. omega (arith, f e);
    } in
    option_both {A = ℕ} {B = Option ℕ × Parser} (λ r. Ahead p r.1) (hex_value (peek_char p)) _ _
      back (λ d. next_char-Ahead p)

pub read_hex_digit-calm : (p : Parser) → (read_hex_digit p).1.is_overrun ≡ p.is_overrun
unfolding read_hex_digit next_char step_back
read_hex_digit-calm p =
    option_both {A = ℕ} {B = Option ℕ × Parser} (λ r. r.1.is_overrun ≡ p.is_overrun)
      (hex_value (peek_char p)) _ _ refl (λ d. refl)

pub skip_hex_digits-Ahead : (fuel : ℕ) (p : Parser) → Ahead p (skip_hex_digits fuel p)
unfolding skip_hex_digits
skip_hex_digits-Ahead zero p = Ahead-refl p
skip_hex_digits-Ahead (suc fuel) p = elim (Option-cases (read_hex_digit p).0) [
  | inl e ↦ rw (e, skip_hex_digits) (read_hex_digit-Ahead p)
  | inr (d, e) ↦
      rw (e, skip_hex_digits)
        (Ahead-trans (read_hex_digit-Ahead p) (skip_hex_digits-Ahead fuel (read_hex_digit p).1))
]

pub name_chars-Ahead : (fuel : ℕ) (text : List ℕ) (p : Parser) → Ahead p (name_chars fuel text p).1
unfolding name_chars
name_chars-Ahead zero text p = Ahead-refl p
name_chars-Ahead (suc fuel) text p =
    if_both {B = List ℕ × Parser} (λ r. Ahead p r.1)
      (is_name (peek_char p) || is_digit (peek_char p))
      (Ahead-trans (next_char-Ahead p)
        (name_chars-Ahead fuel (text ++ peek_char p ∷ []) (next_char p)))
      (Ahead-refl p)

-- Behind a character that was consumed there is less left.
pub fewer :
    (p : Parser) {p' : Parser}
    → Ahead (next_char p) p'
    → p.current_char < length p.source
    → remaining p' < remaining p
unfolding next_char
fewer p {p'} a lt = omega (arith, ap length a.same, a.ahead)
