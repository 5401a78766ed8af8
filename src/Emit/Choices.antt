-- ===== src/Emit/Choices.antt =====
-- ruwren-sys/src/wren_compiler.c, `conditional` and `ifStatement` with `else`: where the two jumps
-- lead.
use ruwren.Prelude.{
  ◌+◌, ◌-◌, ◌≤◌, ◌<◌, ◌≡◌, sym, ap, ◌∙◌, ◌++◌, length, get_or, length-append, get_or-append, arith,
}
use ruwren.Scopes.{Compiler}
use ruwren.Emit.{emit_jump, patch_jump, max_jump, code_jump, code_jump_if}
use ruwren.Emit.Jumps.{patch_jump-lands}
use ruwren.Emit.Branches.{
  HasJump, Extends, Extends-jump, emit_jump-length, patch_jump-HasJump, HasJump-patch_jump,
  HasJump-append, Extends-trans, emit_jump-Extends,
}

module _ (then_branch else_branch : Compiler → Compiler) (c : Compiler) where
  -- Behind the jump on the condition, behind the first branch, behind its jump, in front of the
  -- second branch, and behind that.
  abbrev pub tested : Compiler
  tested = (emit_jump code_jump_if c).1

  abbrev pub first_done : Compiler
  first_done = then_branch tested

  abbrev pub skipping : Compiler
  skipping = (emit_jump code_jump first_done).1

  abbrev pub second : Compiler
  second = patch_jump (emit_jump code_jump_if c).0 skipping

  abbrev pub second_done : Compiler
  second_done = else_branch second

  pub record IsChoice (after : Compiler) : Type 0 where
    pub test : HasJump after.code (length c.code) code_jump_if (length first_done.code + 3)
    pub skip : HasJump after.code (length first_done.code) code_jump (length after.code)

  pub two_jumps-IsChoice :
      Extends tested first_done
      → Extends second second_done
      → length first_done.code < length c.code + max_jump
      → length second_done.code < length first_done.code + 3 + max_jump
      → IsChoice (patch_jump (emit_jump code_jump first_done).0 second_done)
  two_jumps-IsChoice x y near near' =
      let (_, at, _) = emit_jump-length code_jump_if c in
      let (n, at', e) = emit_jump-length code_jump first_done in
      let here = length first_done.code in
      let (whole₀, _) = Extends-jump code_jump_if c first_done (omega arith) x in
      let (whole, op) =
        Extends-jump code_jump_if c skipping (omega arith)
          (Extends-trans tested first_done skipping x (emit_jump-Extends code_jump first_done)) in
      let near₁ : length skipping.code - (length c.code + 1) - 2 < max_jump =
        omega (arith, near, n) in
      let (_, patched, _) =
        patch_jump-lands (length c.code + 1) skipping (omega (arith, whole)) near₁ in
      let m = patched.same_length in
      let kept = patched.others here (omega (arith, whole₀)) (omega (arith, whole₀)) in
      let fixed = patch_jump (length c.code + 1) skipping in
      let is_second : second ≡ fixed = ap (λ o. patch_jump o skipping) at in
      let code : second_done.code ≡ fixed.code ++ y.new =
        y.code ∙ ap (λ (s : Compiler). s.code ++ y.new) is_second in
      let longer = ap length code ∙ length-append fixed.code y.new in
      let byte = ap (λ bytes. get_or bytes here 0) code ∙ get_or-append fixed.code y.new here 0 in
      let inside : here + 3 ≤ length second_done.code = omega (arith, longer, m, n) in
      let near₂ : length second_done.code - (here + 1) - 2 < max_jump = omega (arith, near') in
      let test_done : HasJump second_done.code (length c.code) code_jump_if (length skipping.code) =
        rw code (
          HasJump-append fixed.code y.new (length c.code) code_jump_if (length skipping.code)
            (patch_jump-HasJump (length c.code) code_jump_if skipping op whole near₁)) in
      let (_, patched₂, _) =
        patch_jump-lands (here + 1) second_done (omega (arith, inside)) near₂ in
      let final : IsChoice (patch_jump (here + 1) second_done) = record {
        test = rw (sym n) (
            HasJump-patch_jump (length c.code) code_jump_if (length skipping.code) (here + 1)
              second_done test_done (omega (arith, whole₀)) (omega (arith, inside)) near₂);
        skip = rw (patched₂.same_length) (
            patch_jump-HasJump here code_jump second_done (ground (arith, byte, kept, e, m, n))
              inside near₂);
      } in
      rw at' final
