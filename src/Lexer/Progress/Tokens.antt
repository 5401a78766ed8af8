-- ===== src/Lexer/Progress/Tokens.antt =====
-- One call of `nextToken`: where each round of its loop goes, and where the loop ends.
use ruwren.Prelude.{
  ℕ, zero, suc, ◌-◌, ◌≤◌, ◌<◌, ◌≡◌, refl, ap, ◌∙◌, Bool, if◌then◌else◌, true, false, ◌&&◌, Option,
  none, some, List, [], ◌∷◌, arith, ◌==◌, leb, if_both, if_split, option_both, length, ◌⊎◌, inl,
  inr,
}
use ruwren.Lexer.State.{TokenType, Parser, LexError}
use ruwren.Lexer.Scan.{
  in_line, is_name, is_digit, peek_char, peek_next_char, is_behind, overrun, next_char, match_char,
  make_token, remaining, skip_line_comment, skip_block_comment,
}
use ruwren.Lexer.Number.{Libc}
use ruwren.Lexer.Next.{
  Step, token, skip, stuck, token_or_stuck, single_char, pair_char, open_paren, close_paren,
  hash_round, dot_round, slash_round, angle_round, is_blank, quote_round, bad_char, word_round,
  switch, scan_loop, is_eof, next_token,
}
use ruwren.Lexer.Progress.{
  IsFair, Ahead, Ahead-refl, Ahead-trans, inside_source, lex_error-Ahead, make_token-Ahead,
  match_char-Ahead, two_char_token-Ahead, skip_while-Ahead, skip_block-Ahead,
}
use ruwren.Lexer.Progress.Words.{read_hex_number-Ahead, read_number-Ahead, read_name-Ahead}
use ruwren.Lexer.Progress.Strings.{read_string-total, read_raw_string-total}

-- Where a round of the loop may go; it is never stuck.
abbrev Goes : Parser → Step → Type 0
Goes p (token p') = Ahead p p'
Goes p (skip p') = Ahead p p'
Goes p stuck = ⊥

skip_line_comment-Ahead : (p : Parser) → Ahead p (skip_line_comment p)
unfolding skip_line_comment
skip_line_comment-Ahead p = skip_while-Ahead in_line (remaining p) p

skip_block_comment-Ahead : (p : Parser) → Ahead p (skip_block_comment p)
unfolding skip_block_comment
skip_block_comment-Ahead p = skip_block-Ahead (suc (remaining p)) 1 p

total_string :
    {p q : Parser} {o : Option Parser}
    → Ahead p q
    → (p' : Parser) × (o ≡ some p') × Ahead q p'
    → Goes p (token_or_stuck o)
total_string {p} a (p', run, b) = rw run (Ahead-trans a b)

close_paren-Goes : (ps : List ℕ) (p : Parser) → Goes p (close_paren ps p)
unfolding close_paren make_token
close_paren-Goes [] p = record {
  same = refl;
  ahead = omega arith;
  fair = λ f e. omega (arith, f e);
}
close_paren-Goes (n ∷ ns) p =
    let popped : Ahead p (record p { parens = ns }) = record {
      same = refl;
      ahead = omega arith;
      fair = λ f e. omega (arith, f e);
    } in
    if_both (Goes p) (n - 1 == 0)
      (total_string popped (read_string-total (record p { parens = ns })))
      (record { same = refl; ahead = omega arith; fair = λ f e. omega (arith, f e) })

open_paren-Goes : (p : Parser) → Goes p (open_paren p)
unfolding open_paren make_token
open_paren-Goes p = record { same = refl; ahead = omega arith; fair = λ f e. omega (arith, f e) }

hash_round-Goes : (p : Parser) → Goes p (hash_round p)
unfolding hash_round
hash_round-Goes p =
    if_both (Goes p) (p.current_line == 1 && peek_char p == b'!' && peek_next_char p == b'/')
      (skip_line_comment-Ahead p) (make_token-Ahead TokenType.hash p)

dot_round-Goes : (p : Parser) → Goes p (dot_round p)
unfolding dot_round
dot_round-Goes p =
    if_both (Goes p) (match_char p b'.').0
      (Ahead-trans (match_char-Ahead p b'.') (two_char_token-Ahead _ _ _ _))
      (make_token-Ahead TokenType.dot p)

slash_round-Goes : (p : Parser) → Goes p (slash_round p)
unfolding slash_round
slash_round-Goes p =
    if_both (Goes p) (match_char p b'/').0
      (Ahead-trans (match_char-Ahead p b'/') (skip_line_comment-Ahead _))
      (if_both (Goes p) (match_char p b'*').0
        (Ahead-trans (match_char-Ahead p b'*') (skip_block_comment-Ahead _))
        (make_token-Ahead TokenType.slash p))

angle_round-Goes :
    (c : ℕ) (twice with_eq alone : TokenType) (p : Parser)
    → Goes p (angle_round c twice with_eq alone p)
unfolding angle_round
angle_round-Goes c twice with_eq alone p =
    if_both (Goes p) (match_char p c).0
      (Ahead-trans (match_char-Ahead p c) (make_token-Ahead twice _))
      (two_char_token-Ahead p b'=' with_eq alone)

quote_round-Goes : (p : Parser) → Goes p (quote_round p)
unfolding quote_round
quote_round-Goes p =
    if_both (Goes p) (peek_char p == b'"' && peek_next_char p == b'"')
      (total_string (Ahead-refl p) (read_raw_string-total p))
      (total_string (Ahead-refl p) (read_string-total p))

bad_char-Ahead : (c : ℕ) (p : Parser) → Ahead p (bad_char c p)
unfolding bad_char
bad_char-Ahead c p =
    let a =
      if_both (Ahead p) (leb 32 c && leb c 126) (lex_error-Ahead LexError.invalid_character p)
        (lex_error-Ahead LexError.invalid_byte p) in
    record { same = a.same; ahead = a.ahead; fair = a.fair }

when_false : {A : Type 0} (b : Bool) (x y : A) → b ≡ false → (if b then x else y) ≡ y
when_false true x y h = cc
when_false false x y h = refl

module _ (libc : Libc) where
  word_round-Goes : (c : ℕ) (p : Parser) → Goes p (word_round libc c p)
  unfolding word_round
  word_round-Goes c p = if_both (Goes p) (c == b'_') (read_name-Ahead _ c p) (
      if_both (Goes p) (c == b'0')
        (if_both (Ahead p) (peek_char p == b'x') (read_hex_number-Ahead libc p)
          (read_number-Ahead libc p))
        (if_both (Goes p) (is_name c) (read_name-Ahead TokenType.name c p)
          (if_both (Goes p) (is_digit c) (read_number-Ahead libc p) (bad_char-Ahead c p))))

  -- Whatever the character, the round makes a token or skips, and is at or behind where it was.
  switch-Goes : (c : ℕ) (p : Parser) → Goes p (switch libc c p)
  unfolding switch
  switch-Goes c p =
      option_both {A = TokenType} (Goes p) (single_char c) _ _
        (option_both {A = ℕ × TokenType × TokenType} (Goes p) (pair_char c) _ _
          (if_both (Goes p) (c == b'(') (open_paren-Goes p) (
            if_both (Goes p) (c == b')') (close_paren-Goes p.parens p) (
              if_both (Goes p) (c == b'#') (hash_round-Goes p) (
                if_both (Goes p) (c == b'.') (dot_round-Goes p) (
                  if_both (Goes p) (c == b'/') (slash_round-Goes p) (
                    if_both (Goes p) (c == b'<') (angle_round-Goes b'<' _ _ _ p) (
                      if_both (Goes p) (c == b'>') (angle_round-Goes b'>' _ _ _ p) (
                        if_both (Goes p) (is_blank c) (skip_while-Ahead is_blank (remaining p) p) (
                          if_both (Goes p) (c == b'"') (quote_round-Goes p)
                            (word_round-Goes c p))))))))))
          (λ r. two_char_token-Ahead p r.0 r.1 r.2))
        (λ t. make_token-Ahead t p)

  -- The next token is the end of the source, or something behind the source has been read.
  abbrev pub Stops : Parser → Type 0
  Stops p = (is_eof p.next.type ≡ true) ⊎ (p.is_overrun ≡ true)

  -- There is nothing more to come, or some of the source was consumed for the next token.
  abbrev Lexed : Parser → Option Parser → Type 0
  Lexed p o =
      (p' : Parser) × (o ≡ some p')
      × Ahead p p'
      × (Stops p' ⊎ (p.current_char < length p.source) × (p.current_char < p'.current_char))

  Lexed-after :
      {p q : Parser} {o : Option Parser}
      → Ahead p q
      → p.current_char < q.current_char
      → p.current_char < length p.source
      → Lexed q o
      → Lexed p o
  Lexed-after a lt inside (p', run, b, inl e) = (p', run, Ahead-trans a b, inl e)
  Lexed-after a lt inside (p', run, b, inr (_, lt')) =
      (p', run, Ahead-trans a b, inr (inside, omega arith))

  behind :
      (p : Parser) {p' : Parser}
      → Ahead (next_char (record p { token_start = p.current_char })) p'
      → Ahead p p' × (p.current_char < p'.current_char)
  unfolding next_char
  behind p a = (
    record {
      same = a.same;
      ahead = omega (arith, a.ahead);
      fair = λ f. a.fair (λ e. omega (arith, f e));
    },
    omega (arith, a.ahead),
  )

  scan_loop-Lexed : (fuel : ℕ) (p : Parser) → remaining p < fuel → Lexed p (scan_loop libc fuel p)
  unfolding scan_loop overrun
  scan_loop-Lexed zero p h = absurd (omega arith)
  scan_loop-Lexed (suc fuel) p h =
      let begun = record p { token_start = p.current_char } in
      if_split (Lexed p) (is_behind p)
        (λ b. (
          overrun begun,
          refl,
          record { same = refl; ahead = omega arith; fair = λ _ _. ground (arith, b) },
          inl (inr refl),
        ))
        (λ _.
          if_split (Lexed p) (peek_char p == 0) (λ _. ended p)
            λ nz.
              go (scan_loop-Lexed fuel) (inside_source p (λ e. ground arith))
                (switch libc (peek_char p) (next_char begun))
                (switch-Goes (peek_char p) (next_char begun)))
    where
      ended :
          (p : Parser)
          → Lexed p (some (make_token TokenType.eof (record p { token_start = p.current_char })))
      ended p = (
        make_token TokenType.eof (record p { token_start = p.current_char }),
        refl,
        record { same = refl; ahead = omega arith; fair = λ f e. omega (arith, f e) },
        inl (inl refl),
      )

      go :
          ((p' : Parser) → remaining p' < fuel → Lexed p' (scan_loop libc fuel p'))
          → p.current_char < length p.source
          → (s : Step) → Goes (next_char (record p { token_start = p.current_char })) s
          → Lexed p
              (elim s [ token p' ↦ some p' | skip p' ↦ scan_loop libc fuel p' | stuck ↦ none ])
      go ih inside (token p') a = let (b, lt) = behind p a in (p', refl, b, inr (inside, lt))
      go ih inside (skip p') a =
          let (b, lt) = behind p a in
          Lexed-after b lt inside (ih p' (omega (arith, ap length b.same)))
      go ih inside stuck a = absurd a

  -- If the next token is not the end of the source, and nothing behind the source has been read,
  -- `nextToken` returns, with the same source and no step back; then the new next token is the end
  -- of the source, or something behind it was read, or there was source left and at least one
  -- character was consumed.
  pub next_token-total :
      (p : Parser)
      → p.is_overrun ≡ false
      → is_eof p.next.type ≡ false
      → (p' : Parser) × (next_token libc p ≡ some p')
        × (p'.source ≡ p.source)
        × (p.current_char ≤ p'.current_char)
        × (IsFair p → IsFair p')
        × (Stops p' ⊎ (p.current_char < length p.source) × (p.current_char < p'.current_char))
  unfolding next_token
  next_token-total p fine h =
      let shifted = record p { previous = p.current; current = p.next } in
      let (p', run, a, end) = scan_loop-Lexed (suc (remaining shifted)) shifted (omega arith) in
      (p', when_false p.is_overrun _ _ fine ∙ rw h run, a.same, a.ahead, a.fair, end)

  -- If the next token is the end of the source, `nextToken` moves it and the current token on by
  -- one, and changes nothing else.
  pub next_token-eof :
      (p : Parser)
      → p.is_overrun ≡ false
      → is_eof p.next.type ≡ true
      → next_token libc p ≡ some (record p { previous = p.current; current = p.next })
  unfolding next_token
  next_token-eof p fine h = rw (next_token, fine, h) refl

  pub next_token-overrun : (p : Parser) → p.is_overrun ≡ true → next_token libc p ≡ some p
  unfolding next_token
  next_token-overrun p h = rw (next_token, h) refl
