-- ===== src/Emit/Loops.antt =====
-- ruwren-sys/src/wren_compiler.c, `endLoop`: the loop instruction and the three kinds of jumps.
use ruwren.Prelude.{
  ℕ, ◌+◌, ◌-◌, ◌/◌, ◌%◌, ◌^◌, ◌≤◌, ◌<◌, ◌≡◌, ◌≢◌, refl, ◌∙◌, true, false, List, [], ◌∷◌, ltb, ◌==◌,
  if◌then◌else◌, length, get_or, arith, sym, subst, In, inl, inr, Bool-cases, ◌⊎◌, ◌++◌,
  length-append, get_or-append, append_assoc,
}
use ruwren.Scopes.{Compiler, Loop, emit_byte}
use ruwren.Emit.{
  patch_jump, jump_target, loop_target, read_short, max_jump, argument_bytes, code_jump,
  code_closure, code_loop, emit_op, emit_short, emit_short_arg, end_loop,
}
use ruwren.Emit.Jumps.{patch_jump-lands}
use ruwren.Emit.Breaks.{
  Breaks, finish, placeholder, other, patch_breaks-AreEnded, IsAlike, Breaks-alike, IsApart,
}

pub emit_short_arg-code :
    (op arg : ℕ) (c : Compiler)
    → (emit_short_arg op arg c).code
      ≡ c.code ++ op % 256 ∷ (arg / 2 ^ 8 % 256 % 256) ∷ (arg % 256 % 256) ∷ []
unfolding emit_short_arg emit_short emit_op emit_byte
emit_short_arg-code op arg c =
    let lo = arg % 256 % 256 in
    let hi = arg / 2 ^ 8 % 256 % 256 in
    append_assoc (c.code ++ op % 256 ∷ []) (hi ∷ []) (lo ∷ [])
    ∙ append_assoc c.code (op % 256 ∷ []) (hi ∷ lo ∷ [])

pub emit_short_arg-errors :
    (op arg : ℕ) (c : Compiler) → (emit_short_arg op arg c).errors ≡ c.errors
unfolding emit_short_arg emit_short emit_op emit_byte
emit_short_arg-errors op arg c = refl

-- What `endLoop` makes of the code of a loop whose placeholders of `break` are at `places`.
pub record Ends (l : Loop) (outer : List Loop) (places : List ℕ) (c after : Compiler) : Type 0 where
  pub length_lem : length after.code ≡ length c.code + 3
  pub exits : jump_target after.code l.exit_jump ≡ length after.code
  pub breaks :
      (p : ℕ)
      → In p places
      → (get_or after.code p 0 ≡ code_jump) × (jump_target after.code (p + 1) ≡ length after.code)
  pub repeats :
      (get_or after.code (length c.code) 0 ≡ code_loop)
      × (loop_target after.code (length c.code + 1) ≡ l.start)
  pub others :
      (i : ℕ)
      → i < length c.code
      → i ≢ l.exit_jump
      → i ≢ l.exit_jump + 1
      → ((p : ℕ) → In p places → IsApart i p)
      → get_or after.code i 0 ≡ get_or c.code i 0
  pub errors : after.errors ≡ c.errors
  pub loops : after.loops ≡ outer

module _ (arg : ℕ) (c : Compiler) where
  abbrev looping : Compiler
  looping = emit_short_arg code_loop arg c

  looping_bytes :
      (i : ℕ)
      → get_or looping.code i 0 ≡ (
          if ltb i (length c.code)
          then get_or c.code i 0
          else get_or
              (code_loop % 256 ∷ (arg / 2 ^ 8 % 256 % 256) ∷ (arg % 256 % 256) ∷ [])
              (i - length c.code)
              0)
  looping_bytes i = rw (emit_short_arg-code code_loop arg c) (
      get_or-append c.code (code_loop % 256 ∷ (arg / 2 ^ 8 % 256 % 256) ∷ (arg % 256 % 256) ∷ []) i
        0)

  looping_before : (i : ℕ) → i < length c.code → get_or looping.code i 0 ≡ get_or c.code i 0
  looping_before i h = ground (arith, looping_bytes i)

  looping_length : length looping.code ≡ length c.code + 3
  looping_length = rw (emit_short_arg-code code_loop arg c) (length-append c.code _)

  looping_op : get_or looping.code (length c.code) 0 ≡ code_loop
  looping_op = ground (arith, looping_bytes (length c.code))

  looping_high : get_or looping.code (length c.code + 1) 0 ≡ arg / 2 ^ 8 % 256
  looping_high =
      let one : length c.code + 1 - length c.code ≡ 1 = omega arith in
      let past : ltb (length c.code + 1) (length c.code) ≡ false = ground arith in
      looping_bytes (length c.code + 1) ∙ rw (past, one) (omega arith)

  looping_low : get_or looping.code (length c.code + 1 + 1) 0 ≡ arg % 256
  looping_low =
      let two : length c.code + 1 + 1 - length c.code ≡ 2 = omega arith in
      let past : ltb (length c.code + 1 + 1) (length c.code) ≡ false = ground arith in
      looping_bytes (length c.code + 1 + 1) ∙ rw (past, two) (omega arith)

module _ (fn_upvalues : ℕ → ℕ) where
  within :
      (code : List ℕ) (i : ℕ) (places : List ℕ) → Breaks fn_upvalues code i places → i ≤ length code
  within code i _ (finish _ e) = omega (arith, e)
  within code i _ (placeholder _ places e l rest) = omega arith
  within code i _ (other _ places e l rest) = omega arith

  inside :
      (code : List ℕ) (i : ℕ) (places : List ℕ)
      → Breaks fn_upvalues code i places
      → (p : ℕ) → In p places
      → (i ≤ p) × (p + 3 ≤ length code)
  inside code i _ (finish _ e) p z = absurd z
  inside code i _ (placeholder _ places e l rest) p (inl q) = omega (arith, q)
  inside code i _ (placeholder _ places e l rest) p (inr q) =
      let (a, b) = inside code (i + 3) places rest p q in (omega (arith, a), b)
  inside code i _ (other _ places e l rest) p q =
      let (a, b) = inside code (i + 1 + argument_bytes fn_upvalues code i) places rest p q in
      (omega (arith, a), b)

  outside-IsApart :
      (code : List ℕ) (start : ℕ) (places : List ℕ)
      → Breaks fn_upvalues code start places
      → (i : ℕ) → (i < start) ⊎ (length code ≤ i)
      → (p : ℕ) → In p places
      → IsApart i p
  outside-IsApart code start places walk i out p q =
      let b = inside code start places walk p q in
      elim out [
        | inl h ↦ (omega (arith, b), omega (arith, b), omega (arith, b))
        | inr h ↦ (omega (arith, b), omega (arith, b), omega (arith, b))
      ]

  closure_arguments :
      (code : List ℕ) (i : ℕ)
      → (get_or code i 0 == code_closure) ≡ true
      → 2 ≤ argument_bytes fn_upvalues code i
  unfolding argument_bytes
  closure_arguments code i e = rw e (omega arith)

  module _ (before after : List ℕ)
      (same : (i : ℕ) → i < length before → get_or after i 0 ≡ get_or before i 0) where
    argument_bytes-inside :
        (i : ℕ)
        → i + 1 + argument_bytes fn_upvalues before i ≤ length before
        → argument_bytes fn_upvalues after i ≡ argument_bytes fn_upvalues before i
    unfolding argument_bytes
    argument_bytes-inside i h =
        let op = same i (omega arith) in
        elim (Bool-cases (get_or before i 0 == code_closure)) [
          | inl e ↦
              let l = closure_arguments before i e in
              rw (op, same (i + 1) (omega (arith, l)), same (i + 2) (omega (arith, l))) refl
          | inr e ↦ rw (op, e) refl
        ]

    module _ (longer : length after ≡ length before + 3)
        (loop : get_or after (length before) 0 ≡ code_loop) where
      loop_arguments : argument_bytes fn_upvalues after (length before) ≡ 2
      unfolding argument_bytes
      loop_arguments = rw loop refl

      Breaks-longer :
          (i : ℕ) (places : List ℕ)
          → Breaks fn_upvalues before i places
          → Breaks fn_upvalues after i places
      Breaks-longer i _ (finish _ e) =
          let op : get_or after i 0 ≡ code_loop = rw e loop in
          let n : argument_bytes fn_upvalues after i ≡ 2 = rw e loop_arguments in
          other i [] (λ z. absurd (omega (arith, op, z))) (omega (arith, longer, e))
            (finish (i + 1 + argument_bytes fn_upvalues after i) (omega (arith, longer, e, n)))
      Breaks-longer i _ (placeholder _ places e l rest) =
          placeholder i places (same i (omega arith) ∙ e) (omega (arith, longer))
            (Breaks-longer (i + 3) places rest)
      Breaks-longer i _ (other _ places e l rest) =
          let n = argument_bytes fn_upvalues before i in
          other i places (λ z. e (sym (same i l) ∙ z)) (omega (arith, longer))
            (subst (λ t. Breaks fn_upvalues after (i + 1 + t) places)
              (sym (argument_bytes-inside i (within before (i + 1 + n) places rest)))
              (Breaks-longer (i + 1 + n) places rest))

  -- For a loop whose condition, exit jump and body are emitted in this order, where the code from
  -- the body on is whole instructions with the placeholders of `break` at certain places, and the
  -- code of the whole function is less than 65536 bytes long with the three of the loop
  -- instruction, `endLoop` reports no error and leaves the loop: the exit jump and a jump at each
  -- of these places lead behind the code, the instruction behind the body leads back to the start
  -- of the loop, and every other byte is as before.
  pub end_loop-Ends :
      (l : Loop) (outer : List Loop) (places : List ℕ) (c : Compiler)
      → l.start ≤ length c.code
      → l.exit_jump + 2 ≤ l.body
      → length c.code + 3 < max_jump
      → Breaks fn_upvalues c.code l.body places
      → Ends l outer places c (end_loop fn_upvalues (l ∷ outer) c)
  unfolding end_loop loop_target jump_target read_short
  end_loop-Ends l outer places c start exit small walk =
      let arg = length c.code + 3 - l.start in
      let looped = looping arg c in
      let body = within c.code l.body places walk in
      let n = looping_length arg c in
      let before = looping_before arg c in
      let (exits, patched, quiet) =
        patch_jump-lands l.exit_jump looped (omega (arith, n, body)) (omega (arith, n)) in
      let exited = patch_jump l.exit_jump looped in
      let m = patched.same_length in
      let alike : IsAlike l.body looped.code exited.code = record {
        same_length = sym m;
        bytes = λ i h. sym (patched.others i (omega arith) (omega arith));
      } in
      let longer =
        Breaks-longer c.code looped.code before n (looping_op arg c) l.body places walk in
      let done =
        patch_breaks-AreEnded fn_upvalues (length exited.code) l.body places exited (omega arith)
          (omega (arith, n, m))
          (Breaks-alike fn_upvalues looped.code exited.code l.body places alike longer) in
      let k = done.same_length in
      let early = λ (i : ℕ) (h : i < l.body).
        done.others i (outside-IsApart c.code l.body places walk i (inl h)) in
      let late = λ (i : ℕ) (h : length c.code ≤ i).
        done.others i (outside-IsApart c.code l.body places walk i (inr h))
        ∙ patched.others i (omega (arith, body)) (omega (arith, body)) in
      let high = late (length c.code + 1) (omega arith) ∙ looping_high arg c in
      let low = late (length c.code + 1 + 1) (omega arith) ∙ looping_low arg c in
      record {
        length_lem = k ∙ m ∙ n;
        exits =
            rw (early l.exit_jump (omega arith), early (l.exit_jump + 1) (omega arith), k) exits;
        breaks = done.ends;
        repeats = (late (length c.code) (omega arith) ∙ looping_op arg c, omega (arith, high, low));
        others = λ i h a b apart. done.others i apart ∙ patched.others i a b ∙ before i h;
        errors = done.errors ∙ quiet ∙ emit_short_arg-errors code_loop arg c;
        loops = refl;
      }
