-- ===== src/Emit/Jumps.antt =====
-- ruwren-sys/src/wren_compiler.c: where the jumps lead that `patchJump` completes.
use ruwren.Prelude.{
  ℕ, ◌+◌, ◌-◌, ◌/◌, ◌%◌, ◌^◌, ◌≤◌, ◌<◌, ◌≡◌, ◌≢◌, refl, ◌∙◌, false, List, ltb, length, get_or, set,
  length-set, get_or-set, arith,
}
use ruwren.Scopes.{Compiler}
use ruwren.Emit.{patch_jump, jump_target, read_short, max_jump}

-- What the code is after a short was written at `offset`, high byte first.
pub record IsPatched (offset short : ℕ) (before after : List ℕ) : Type 0 where
  pub same_length : length after ≡ length before
  pub high : get_or after offset 0 ≡ short / 2 ^ 8 % 256
  pub low : get_or after (offset + 1) 0 ≡ short % 256
  pub others : (i : ℕ) → i ≢ offset → i ≢ offset + 1 → get_or after i 0 ≡ get_or before i 0

pub set_short-IsPatched :
    (offset short : ℕ) (code : List ℕ)
    → offset + 2 ≤ length code
    → IsPatched offset short code
        (set (set code offset (short / 2 ^ 8 % 256)) (offset + 1) (short % 256))
set_short-IsPatched offset short code h =
    let hi = short / 2 ^ 8 % 256 in
    let lo = short % 256 in
    let first = set code offset hi in
    let n = length-set code offset hi in
    let outer = λ (i : ℕ). get_or-set first (offset + 1) i lo 0 (omega (arith, n)) in
    let inner = λ (i : ℕ). get_or-set code offset i hi 0 (omega arith) in
    record {
      same_length = length-set first (offset + 1) lo ∙ n;
      high = ground (arith, outer offset, inner offset);
      low = ground (arith, outer (offset + 1));
      others = λ i a b. ground (arith, outer i, inner i, a, b);
    }

pub patch_jump-lands :
    (offset : ℕ) (c : Compiler)
    → offset + 2 ≤ length c.code
    → length c.code - offset - 2 < max_jump
    → (jump_target (patch_jump offset c).code offset ≡ length (patch_jump offset c).code)
      × IsPatched offset (length c.code - offset - 2) c.code (patch_jump offset c).code
      × ((patch_jump offset c).errors ≡ c.errors)
unfolding patch_jump jump_target read_short
patch_jump-lands offset c h near =
    let jump = length c.code - offset - 2 in
    let p = set_short-IsPatched offset jump c.code h in
    let hi = p.high in
    let lo = p.low in
    let n = p.same_length in
    let small : ltb max_jump jump ≡ false = ground arith in
    rw small (omega (arith, n, hi, lo), p, refl)

-- For a placeholder that is followed by exactly 65536 bytes, `patchJump` reports no error, and the
-- jump leads to the byte behind itself.
pub patch_jump-limit :
    (offset : ℕ) (c : Compiler)
    → length c.code ≡ offset + 2 + max_jump
    → (jump_target (patch_jump offset c).code offset ≡ offset + 2)
      × ((patch_jump offset c).errors ≡ c.errors)
unfolding patch_jump jump_target read_short
patch_jump-limit offset c e =
    let jump = length c.code - offset - 2 in
    let p = set_short-IsPatched offset jump c.code (omega arith) in
    let hi = p.high in
    let lo = p.low in
    let equal : ltb max_jump jump ≡ false = ground arith in rw equal (omega (arith, hi, lo), refl)
