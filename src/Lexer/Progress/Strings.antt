-- ===== src/Lexer/Progress/Strings.antt =====
-- Where the loops of string literals go.
use ruwren.Prelude.{
  ℕ, zero, suc, ◌+◌, ◌*◌, ◌%◌, ◌^◌, ◌≤◌, ◌<◌, ◌≡◌, refl, ap, sym, ◌∙◌, ◌&&◌, ◌||◌, Option, some,
  List, [], ◌∷◌, ◌++◌, arith, ◌==◌, ltb, leb, if_both, if_split, option_both, length, bit_or,
}
use ruwren.Lexer.State.{
  TokenType, Parser, unterminated_raw_string, unterminated_string, invalid_escape,
  interpolation_too_deep, invalid_escape_character, expect_paren,
}
use ruwren.Lexer.Scan.{
  is_behind, overrun, peek_char, peek_next_char, next_char, step_back, lex_error, remaining,
}
use ruwren.Lexer.Number.{read_hex_digit}
use ruwren.Lexer.Literal.{
  read_hex_escape, plain_escape, read_escape, Round, done, more, open_interpolation, string_round,
  string_loop, finish_string, read_string, max_interpolation_nesting,
}
use ruwren.Lexer.Literal.Raw.{
  RawState, note_newline, note_space, start_raw, raw_loop, finish_raw, read_raw_string,
}
use ruwren.Lexer.Progress.{
  fewer, Ahead, Ahead-refl, Ahead-trans, inside_source, next_char-Ahead, lex_error-Ahead,
  read_hex_digit-Ahead, read_hex_digit-calm,
}

-- At most one character back.
record Near (p p' : Parser) : Type 0 where
  same : p'.source ≡ p.source
  near : p.current_char ≤ p'.current_char + 1
  calm : p'.is_overrun ≡ p.is_overrun

Ahead-Near : {p p' : Parser} → Ahead p p' → p'.is_overrun ≡ p.is_overrun → Near p p'
Ahead-Near a calm = record { same = a.same; near = omega arith; calm = calm }

Near-after : {p q r : Parser} → Ahead p q → q.is_overrun ≡ p.is_overrun → Near q r → Near p r
Near-after a calm b = record { same = b.same ∙ a.same; near = omega arith; calm = b.calm ∙ calm }

read_hex_escape-Near : (digits value : ℕ) (p : Parser) → Near p (read_hex_escape digits value p).1
unfolding read_hex_escape lex_error step_back
read_hex_escape-Near zero value p = Ahead-Near (Ahead-refl p) refl
read_hex_escape-Near (suc digits) value p =
    let p' = (read_hex_digit p).1 in
    let on = λ (d : ℕ). read_hex_escape digits (bit_or (value * 16 % 2 ^ 32) d) p' in
    if_both {B = ℕ × Parser} (λ r. Near p r.1) (peek_char p == b'"' || peek_char p == 0)
      (record { same = refl; near = omega arith; calm = refl })
      (option_both {A = ℕ} {B = ℕ × Parser} (λ r. Near p r.1) (read_hex_digit p).0
        (value, lex_error invalid_escape p') on
        (Ahead-Near (Ahead-trans (read_hex_digit-Ahead p) (lex_error-Ahead invalid_escape p'))
          (read_hex_digit-calm p))
        (λ d.
          Near-after (read_hex_digit-Ahead p) (read_hex_digit-calm p)
            (read_hex_escape-Near digits (bit_or (value * 16 % 2 ^ 32) d) p')))

-- Behind the character that names the escape, at most that character is given back.
after_letter : {p q : Parser} → Near (next_char p) q → Ahead p q
unfolding next_char
after_letter n = record {
  same = n.same;
  ahead = omega (arith, n.near);
  fair = λ f e. let at = f (sym n.calm ∙ e) in omega (arith, at, ap length n.same, n.near);
}

read_escape-Ahead : (bytes : List ℕ) (p : Parser) → Ahead p (read_escape bytes p).1
unfolding read_escape
read_escape-Ahead bytes p =
    let p₁ = next_char p in
    let c = peek_char p in
    let hex = λ (digits : ℕ). after_letter (read_hex_escape-Near digits 0 p₁) in
    let bad = Ahead-trans (next_char-Ahead p) (lex_error-Ahead invalid_escape_character p₁) in
    option_both {A = ℕ} {B = List ℕ × Parser} (λ r. Ahead p r.1) (plain_escape c) _ _
      (if_both {B = List ℕ × Parser} (λ r. Ahead p r.1) (c == b'u') (hex 4)
        (if_both {B = List ℕ × Parser} (λ r. Ahead p r.1) (c == b'U') (hex 8)
          (if_both {B = List ℕ × Parser} (λ r. Ahead p r.1) (c == b'x') (hex 2) bad)))
      (λ b. next_char-Ahead p)

overrun-Ahead : (p : Parser) → length p.source ≤ p.current_char → Ahead p (overrun p)
unfolding overrun
overrun-Ahead p at = record { same = refl; ahead = omega arith; fair = λ _ _. at }

-- A round that goes on has consumed a character of the source.
abbrev Proceeds : Parser → Round → Type 0
Proceeds p (done t text p') = Ahead p p'
Proceeds p (more text p') = Ahead (next_char p) p' × (p.current_char < length p.source)

open_interpolation-Proceeds :
    (bytes : List ℕ) {q : Parser} (p : Parser) → Ahead q p → Proceeds q (open_interpolation bytes p)
unfolding open_interpolation
open_interpolation-Proceeds bytes {q} p from =
    let p₁ = next_char p in
    let step = Ahead-trans from (next_char-Ahead p) in
    let a =
      if_both (Ahead q) (peek_char p == b'(') step
        (Ahead-trans step (lex_error-Ahead expect_paren p₁)) in
    record { same = a.same; ahead = a.ahead; fair = a.fair }

given_back : (p : Parser) → Ahead p (step_back (lex_error unterminated_string (next_char p)))
unfolding step_back lex_error next_char
given_back p = record { same = refl; ahead = omega arith; fair = λ f e. omega (arith, f e) }

string_round-Proceeds : (bytes : List ℕ) (p : Parser) → Proceeds p (string_round bytes p)
unfolding string_round
string_round-Proceeds bytes p =
    let c = peek_char p in
    let p₁ = next_char p in
    let step = next_char-Ahead p in
    if_both (Proceeds p) (c == b'"') step (
      if_split (Proceeds p) (c == 0) (λ _. given_back p)
        λ nz.
          let inside : p.current_char < length p.source = inside_source p (λ e. ground arith) in
          if_both (Proceeds p) (c == b'%')
            (if_both (Proceeds p) (ltb (length p.parens) max_interpolation_nesting)
              (open_interpolation-Proceeds bytes p₁ step)
              (lex_error-Ahead interpolation_too_deep p₁, inside))
            (if_both (Proceeds p) (c == b'\\') (read_escape-Ahead bytes p₁, inside)
              (Ahead-refl p₁, inside)))

abbrev Ended : Parser → Option (TokenType × List ℕ × Parser) → Type 0
Ended p o = (r : TokenType × List ℕ × Parser) × (o ≡ some r) × Ahead p r.2

-- The loop of `readString` ends within one round for each character left, and one more.
string_loop-Ended :
    (fuel : ℕ) (bytes : List ℕ) (p : Parser)
    → remaining p < fuel
    → Ended p (string_loop fuel bytes p)
unfolding string_loop
string_loop-Ended zero bytes p h = absurd (omega arith)
string_loop-Ended (suc fuel) bytes p h =
    if_split (Ended p) (is_behind p)
      (λ b. ((TokenType.string, bytes, overrun p), refl, overrun-Ahead p (ground (arith, b))))
      (λ _. go (string_loop-Ended fuel) (string_round bytes p) (string_round-Proceeds bytes p))
  where
    go :
        ((text : List ℕ) (p' : Parser) → remaining p' < fuel → Ended p' (string_loop fuel text p'))
        → (r : Round) → Proceeds p r
        → Ended p (elim r [
          | done type text p' ↦ some (type, text, p')
          | more text p' ↦ string_loop fuel text p'
        ])
    go ih (done t text p') a = ((t, text, p'), refl, a)
    go ih (more text p') (a, lt) =
        let shrunk = fewer p a lt in
        let (r, run, b) = ih text p' (omega arith) in
        (r, run, Ahead-trans (Ahead-trans (next_char-Ahead p) a) b)

-- Whatever the source holds, `readString` returns, with the same source, at or behind the place
-- where it began.
pub read_string-total : (p : Parser) → (p' : Parser) × (read_string p ≡ some p') × Ahead p p'
unfolding read_string finish_string
read_string-total p =
    let ((t, text, q), run, a) = string_loop-Ended (suc (remaining p)) [] p (omega arith) in
    (
      finish_string (t, text, q),
      rw (run, read_string),
      record { same = a.same; ahead = a.ahead; fair = a.fair },
    )

abbrev EndedRaw : Parser → Option (RawState × Parser) → Type 0
EndedRaw p o = (r : RawState × Parser) × (o ≡ some r) × Ahead p r.1

raw_back : (p : Parser) → Ahead p (step_back (lex_error unterminated_raw_string (next_char p)))
unfolding step_back lex_error next_char
raw_back p = record { same = refl; ahead = omega arith; fair = λ f e. omega (arith, f e) }

raw_loop-Ended :
    (fuel : ℕ) (s : RawState) (p : Parser) → remaining p < fuel → EndedRaw p (raw_loop fuel s p)
unfolding raw_loop
raw_loop-Ended zero s p h = absurd (omega arith)
raw_loop-Ended (suc fuel) s p h =
    let c = peek_char p in
    let p₁ = next_char p in
    let c₁ = peek_char p₁ in
    let c₂ = peek_next_char p₁ in
    let s₁ = note_newline c s in
    let s₂ = note_space c s₁ in
    let step = next_char-Ahead p in
    if_split (EndedRaw p) (leb (length p.source) p.current_char)
      (λ b. ((s, overrun p), refl, overrun-Ahead p (ground (arith, b))))
      (λ _.
        if_both (EndedRaw p) (c == b'"' && c₁ == b'"' && c₂ == b'"') ((s₁, p₁), refl, step)
          (if_split (EndedRaw p) (c == 0 || c₁ == 0 || c₂ == 0)
            (λ _. ((s₂, step_back (lex_error unterminated_raw_string p₁)), refl, raw_back p))
            λ nz.
              let inside : p.current_char < length p.source = inside_source p (λ e. ground arith) in
              let shrunk = fewer p (Ahead-refl p₁) inside in
              let (r, run, b) =
                raw_loop-Ended fuel (record s₂ { bytes = s₂.bytes ++ c ∷ [] }) p₁ (omega arith) in
              (r, run, Ahead-trans step b)))

-- Whatever the source holds, `readRawString` returns, with the same source, at or behind the place
-- where it began.
pub read_raw_string-total :
    (p : Parser) → (p' : Parser) × (read_raw_string p ≡ some p') × Ahead p p'
unfolding read_raw_string finish_raw
read_raw_string-total p =
    let two = Ahead-trans (next_char-Ahead p) (next_char-Ahead (next_char p)) in
    let inside = next_char (next_char p) in
    let ((s, q), run, a) = raw_loop-Ended (suc (remaining inside)) start_raw inside (omega arith) in
    let quotes = Ahead-trans (next_char-Ahead q) (next_char-Ahead (next_char q)) in
    let b = Ahead-trans (Ahead-trans two a) quotes in
    (
      finish_raw s q,
      rw (run, read_raw_string),
      record { same = b.same; ahead = b.ahead; fair = b.fair },
    )
