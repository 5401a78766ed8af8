-- ===== src/Tests/EmitTests.antt =====
-- Jumps and loops on short codes.
use ruwren.Prelude.{ℕ, ◌≡◌, ◌+◌, refl, false, List, [], ◌∷◌, arith, replicate, length-replicate}
use ruwren.Prelude.Int.{pos}
use ruwren.Scopes.{Compiler, Loop}
use ruwren.Emit.{patch_jump, jump_target, end_loop, max_jump, argument_bytes}
use ruwren.Emit.Jumps.{patch_jump-limit}
use ruwren.Emit.Breaks.{Breaks, finish, placeholder, other}
use ruwren.Emit.Loops.{Ends, end_loop-Ends}

abbrev compiler : List ℕ → Compiler
compiler code = record {
  locals = [];
  upvalues = [];
  scope_depth = 1;
  num_slots = pos 1;
  max_slots = pos 1;
  loops = [];
  is_method = false;
  code = code;
  source_lines = [];
  line = 1;
  quiet = false;
  errors = [];
}

-- A placeholder that is followed by 65536 bytes.
many : Compiler
many = compiler (replicate (1 + 2 + max_jump) 1)

patch_jump-limit_example :
    (jump_target (patch_jump 1 many).code 1 ≡ 1 + 2) × ((patch_jump 1 many).errors ≡ many.errors)
unfolding many
patch_jump-limit_example = patch_jump-limit 1 many (length-replicate {A = ℕ} (1 + 2 + max_jump) 1)

-- A condition, the jump out of the loop, and a `break`.
abbrev breaking : Compiler
breaking = compiler (2 ∷ 60 ∷ 255 ∷ 255 ∷ 1 ∷ 76 ∷ 255 ∷ 255 ∷ [])

abbrev loop : Loop
loop = record { start = 0; exit_jump = 2; body = 4; scope_depth = 1 }

breaks : Breaks (λ constant. 0) breaking.code 4 (5 ∷ [])
unfolding argument_bytes
breaks =
    other 4 (5 ∷ []) (λ e. absurd (omega (arith, e))) (omega arith)
      (placeholder 5 [] refl (omega arith) (finish 8 refl))

end_loop-Ends_example :
    Ends loop [] (5 ∷ []) breaking (end_loop (λ constant. 0) (loop ∷ []) breaking)
end_loop-Ends_example =
    end_loop-Ends (λ constant. 0) loop [] (5 ∷ []) breaking (omega arith) (omega arith)
      (omega arith) breaks
