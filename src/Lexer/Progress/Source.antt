-- ===== src/Lexer/Progress/Source.antt =====
-- Calling `nextToken` again and again.
use ruwren.Prelude.{
  ℕ, zero, suc, ◌-◌, ◌<◌, ◌≡◌, refl, ap, subst, ◌≤◌, List, true, false, ◌⊎◌, Option, none, some,
  arith, length, Bool-cases, inl, inr,
}
use ruwren.Lexer.State.{Parser}
use ruwren.Lexer.Number.{Libc}
use ruwren.Lexer.Next.{is_eof, next_token}
use ruwren.Lexer.Progress.{IsFair}
use ruwren.Lexer.Progress.Tokens.{Stops, next_token-total, next_token-eof, next_token-overrun}

module _ (libc : Libc) where
  -- The state after `n` calls.
  pub next_tokens : ℕ → Parser → Option Parser
  next_tokens zero p = some p
  next_tokens (suc n) p = elim (next_token libc p) [ none ↦ none | some p' ↦ next_tokens n p' ]

  -- After calls: the end, or a read behind the source, which can only be at its end.
  abbrev Finished : List ℕ → Option Parser → Type 0
  Finished source o =
      (p' : Parser) × (o ≡ some p')
      × (p'.source ≡ source)
      × ((is_eof p'.next.type ≡ true) ⊎ (p'.is_overrun ≡ true) × (length source ≤ p'.current_char))

  -- What `Finished` says of the parser, from what is known of it.
  finished :
      {o : Option Parser} (source : List ℕ) (p : Parser)
      → o ≡ some p
      → p.source ≡ source
      → IsFair p
      → Stops libc p
      → Finished source o
  finished source p run same fair (inl e) = (p, run, same, inl e)
  finished source p run same fair (inr e) =
      let at = fair e in (p, run, same, inr (e, omega (arith, at, ap length same)))

  at_end : (p : Parser) → Stops libc p → p.is_overrun ≡ false → is_eof p.next.type ≡ true
  at_end p (inl e) fine = e
  at_end p (inr over) fine = cc

  stays-Finished :
      (n : ℕ) (p : Parser) → IsFair p → Stops libc p → Finished p.source (next_tokens n p)
  unfolding next_tokens
  stays-Finished zero p fair e = finished p.source p refl refl fair e
  stays-Finished (suc n) p fair e = elim (Bool-cases p.is_overrun) [
    | inl over ↦ rw (next_tokens, next_token-overrun libc p over) (stays-Finished n p fair e)
    | inr fine ↦
        let after = record p { previous = p.current; current = p.next } in
        rw (next_tokens, next_token-eof libc p fine (at_end p e fine))
          (stays-Finished n after fair e)
  ]

  goes-Finished :
      (n : ℕ) (p : Parser)
      → IsFair p
      → length p.source - p.current_char < n
      → Finished p.source (next_tokens n p)
  unfolding next_tokens
  goes-Finished zero p fair h = absurd (omega arith)
  goes-Finished (suc n) p fair h = elim (Bool-cases p.is_overrun) [
    | inl over ↦ stays-Finished (suc n) p fair (inr over)
    | inr fine ↦ elim (Bool-cases (is_eof p.next.type)) [
      | inl e ↦ stays-Finished (suc n) p fair (inl e)
      | inr ne ↦
          let (p₁, run, same, _, fairly, end) = next_token-total libc p fine ne in
          let back = λ (d : Finished p₁.source (next_tokens n p₁)).
            subst (λ s. Finished s (next_tokens n p₁)) same d in
          elim end [
            | inl e ↦ rw (next_tokens, run) (back (stays-Finished n p₁ (fairly fair) e))
            | inr (inside, lt) ↦
                rw (next_tokens, run)
                  (back (goes-Finished n p₁ (fairly fair) (omega (arith, ap length same))))
          ]
    ]
  ]

  -- If nothing behind the source has been read before, calls of `nextToken` come to an end: after
  -- any number of calls that is larger than the number of characters left, each call has returned,
  -- the source is the same, and the next token is the end of the source, or one of the calls has
  -- read behind the terminating zero, with the lexer at the end of the source.
  pub next_tokens-end :
      (n : ℕ) (p : Parser)
      → p.is_overrun ≡ false
      → length p.source - p.current_char < n
      → (p' : Parser) × (next_tokens n p ≡ some p')
        × (p'.source ≡ p.source)
        × ((is_eof p'.next.type ≡ true)
            ⊎ (p'.is_overrun ≡ true) × (length p.source ≤ p'.current_char))
  next_tokens-end n p fine h = goes-Finished n p (λ over. cc) h
