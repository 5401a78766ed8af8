-- ===== src/Lexer/Literal/Raw.antt =====
-- `readRawString`: a string between triple quotes, without its first and last line if those are
-- blank. An `int` that starts at -1 is an option.
use ruwren.Prelude.{
  ℕ, zero, suc, ◌+◌, ◌-◌, Bool, true, false, ◌&&◌, ◌||◌, not, Option, none, some, List, [], ◌∷◌,
  ◌++◌, ltb, leb, ◌==◌, if◌then◌else◌, length, take, drop,
}
use ruwren.Lexer.State.{string, str, unterminated_raw_string, Parser}
use ruwren.Lexer.Scan.{
  peek_char, peek_next_char, overrun, next_char, step_back, lex_error, make_token, remaining,
}

pub record RawState : Type 0 where
  pub bytes : List ℕ
  pub skip_start : Option ℕ
  pub first_newline : Option ℕ
  pub skip_end : Option ℕ
  pub last_newline : Option ℕ

abbrev pub start_raw : RawState
start_raw = record {
  bytes = [];
  skip_start = some 0;
  first_newline = none;
  skip_end = none;
  last_newline = none;
}

abbrev pub is_some {ℓ} : {A : Type ℓ} → Option A → Bool
is_some none = false
is_some (some _) = true

abbrev pub same_place : Option ℕ → Option ℕ → Bool
same_place (some a) (some b) = a == b
same_place _ _ = false

-- The bookkeeping at a newline.
unfoldable pub note_newline : ℕ → RawState → RawState
note_newline c s =
    let count = length s.bytes in
    let first : Option ℕ = elim (s.first_newline) [ none ↦ some count | some n ↦ some n ] in
    if c == b'\n'
    then record s { last_newline = some count; skip_end = some count; first_newline = first }
    else s

-- The bookkeeping of leading and trailing white space.
unfoldable pub note_space : ℕ → RawState → RawState
note_space c s =
    let blank = c == b' ' || c == b'\t' in
    let skippable = is_some s.skip_start && blank && not (is_some s.first_newline) in
    let start = if skippable then some (length s.bytes + 1) else s.skip_start in
    record s {
      skip_end = if c == b'\n' || blank then s.skip_end else none;
      skip_start =
          if not (is_some s.first_newline) && not blank && not (c == b'\n') then none else start;
    }

-- At the terminating zero, `c1` is read behind it.
-- The loop, up to the closing quotes or the end of the source; `none` means that the fuel ran out.
unfoldable pub raw_loop : ℕ → RawState → Parser → Option (RawState × Parser)
unfolding overrun
raw_loop zero s p = none
raw_loop (suc fuel) s p =
    let c = peek_char p in
    let p₁ = next_char p in
    let c₁ = peek_char p₁ in
    let c₂ = peek_next_char p₁ in
    let s₁ = note_newline c s in
    let s₂ = note_space c s₁ in
    let rest = raw_loop fuel (record s₂ { bytes = s₂.bytes ++ c ∷ [] }) p₁ in
    if leb (length p.source) p.current_char
    then some (s, overrun p)
    else if c == b'"' && c₁ == b'"' && c₂ == b'"'
    then some (s₁, p₁)
    else if c == 0 || c₁ == 0 || c₂ == 0
    then some (s₂, step_back (lex_error unterminated_raw_string p₁))
    else rest

-- The bytes that are kept, `string.data + offset` for `count`.
unfoldable pub trim_raw : RawState → List ℕ
trim_raw s =
    let after_first : ℕ = elim (s.first_newline) [ none ↦ 0 | some n ↦ n + 1 ] in
    let to_last : ℕ = elim (s.last_newline) [ none ↦ length s.bytes | some n ↦ n ] in
    let offset : ℕ = if same_place s.first_newline s.skip_start then after_first else 0 in
    let count : ℕ = if same_place s.last_newline s.skip_end then to_last else length s.bytes in
    take (if ltb count offset then 0 else count - offset) (drop offset s.bytes)

-- Behind the loop: the other two quotes, and the token.
unfoldable pub finish_raw : RawState → Parser → Parser
unfolding next_char trim_raw make_token
finish_raw s p =
    let after = next_char (next_char p) in
    make_token string (record after { next = record (after.next) { value = str (trim_raw s) } })

unfoldable pub read_raw_string : Parser → Option Parser
unfolding next_char raw_loop finish_raw
read_raw_string p =
    let inside = next_char (next_char p) in
    elim (raw_loop (suc (remaining inside)) start_raw inside) [
      | none ↦ none
      | some (s, p') ↦ some (finish_raw s p')
    ]
