-- ===== src/Scopes/Upvalues.antt =====
-- `findUpvalue` against the chain of upvalues that the compiled closures will follow.
use ruwren.Prelude.{
  ℕ, zero, suc, ◌<◌, ◌≡◌, refl, ap, Bool, true, false, Option, none, some, List, [], ◌∷◌, ◌++◌, ltb,
  arith, ◌==◌, if◌then◌else◌, if_split, length, get_elem?, index_of, index_of-passes, Option-cases,
  ◌⊎◌, inl, inr,
}
use ruwren.Scopes.{
  Local, CompilerUpvalue, Compiler, resolve_local, captures, add_upvalue, max_upvalues,
  with_upvalue, flatten, mark_upvalue, at_boundary, find_upvalue,
}

pub local_at : List Local → ℕ → Option Local
local_at [] i = none
local_at (local ∷ locals) i = if i == length locals then some local else local_at locals i

-- The local `i` will be closed when it goes out of scope.
pub IsMarked : List Local → ℕ → Type 0
IsMarked locals i = (l : Local) × (local_at locals i ≡ some l) × (l.is_upvalue ≡ true)

-- All upvalues of `before` are the same in `after`.
abbrev pub Keeps : List CompilerUpvalue → List CompilerUpvalue → Type 0
Keeps before after =
    (n : ℕ) (u : CompilerUpvalue) → get_elem? before n ≡ some u → get_elem? after n ≡ some u

-- The upvalue `i` of the first function leads to the innermost local `name` outside of it: it
-- captures that local of the parent, which is marked, or if the parent has none, an upvalue of the
-- parent that leads there. No boundary of a method is passed.
pub Refers : List Compiler → ℕ → List ℕ → Type 0
Refers [] i name = ⊥
Refers (c ∷ []) i name = ⊥
Refers (c ∷ parent ∷ outer) i name =
    (at_boundary name parent ≡ false)
    × (((j : ℕ) × (get_elem? c.upvalues i ≡ some (record { is_local = true; index = j }))
          × (resolve_local parent.locals name ≡ some j)
          × IsMarked parent.locals j)
        ⊎ (j : ℕ) × (get_elem? c.upvalues i ≡ some (record { is_local = false; index = j }))
          × (resolve_local parent.locals name ≡ none)
          × Refers (parent ∷ outer) j name)

-- No function outside of the first has a local `name`, up to the boundary of a method.
pub Hidden : List Compiler → List ℕ → Type 0
Hidden [] name = Unit
Hidden (c ∷ []) name = Unit
Hidden (c ∷ parent ∷ outer) name =
    (at_boundary name parent ≡ true)
    ⊎ (resolve_local parent.locals name ≡ none) × Hidden (parent ∷ outer) name

length-mark : (ls : List Local) (i : ℕ) → length (mark_upvalue ls i) ≡ length ls
unfolding mark_upvalue
length-mark [] i = refl
length-mark (l ∷ ls) i = ground (arith, length-mark ls i)

-- Marking changes no name.
resolve-mark :
    (ls : List Local) (i : ℕ) (name : List ℕ)
    → resolve_local (mark_upvalue ls i) name ≡ resolve_local ls name
unfolding mark_upvalue resolve_local
resolve-mark [] i name = refl
resolve-mark (l ∷ ls) i name =
    if_split (λ r. resolve_local r name ≡ resolve_local (l ∷ ls) name) (i == length ls) (λ _. refl)
      (λ _. rw (length-mark ls i, resolve-mark ls i name) refl)

resolve_local-below :
    (ls : List Local) (i : ℕ) (name : List ℕ) → resolve_local ls name ≡ some i → i < length ls
unfolding resolve_local
resolve_local-below [] i name h = cc
resolve_local-below (l ∷ ls) i name h = ground (arith, resolve_local-below ls i name)

mark-IsMarked :
    (ls : List Local) (i : ℕ) (name : List ℕ)
    → resolve_local ls name ≡ some i
    → IsMarked (mark_upvalue ls i) i
unfolding mark_upvalue resolve_local IsMarked local_at
mark-IsMarked [] i name h = cc
mark-IsMarked (l ∷ ls) i name h =
    let len = length-mark ls i in
    if_split (λ r. IsMarked r i) (i == length ls)
      (λ same. (record l { is_upvalue = true }, rw (same, local_at) refl, refl))
      (λ other.
        let inner : resolve_local ls name ≡ some i = ground arith in
        let (x, at, marked) = mark-IsMarked ls i name inner in
        (x, rw (len, other, local_at) at, marked))

captures_eq :
    (b : Bool) (i : ℕ) (u : CompilerUpvalue)
    → captures b i u ≡ true
    → u ≡ record { is_local = b; index = i }
captures_eq true i u h =
    let e : u.index ≡ i = ground arith in
    let f : u.is_local ≡ true = ground arith in λ k. record { is_local = f k; index = e k }
captures_eq false i u h =
    let e : u.index ≡ i = ground arith in
    let f : u.is_local ≡ false = ground arith in λ k. record { is_local = f k; index = e k }

get_elem?-kept :
    (us vs : List CompilerUpvalue) (n : ℕ) (u : CompilerUpvalue)
    → get_elem? us n ≡ some u
    → get_elem? (us ++ vs) n ≡ some u
get_elem?-kept [] vs n u h = cc
get_elem?-kept (x ∷ us) vs zero u h = h
get_elem?-kept (x ∷ us) vs (suc n) u h = get_elem?-kept us vs n u h

get_elem?-last :
    (us : List CompilerUpvalue) (u : CompilerUpvalue)
    → get_elem? (us ++ u ∷ []) (length us) ≡ some u
get_elem?-last [] u = refl
get_elem?-last (x ∷ us) u = get_elem?-last us u

-- The upvalue that `addUpvalue` returns captures what was asked for, and the upvalues before it
-- stay.
abbrev Adds : List CompilerUpvalue → Bool → ℕ → ℕ × List CompilerUpvalue → Type 0
Adds us b i r = (get_elem? r.1 r.0 ≡ some (record { is_local = b; index = i })) × Keeps us r.1

pub add_upvalue-Adds :
    (us : List CompilerUpvalue) (b : Bool) (i : ℕ)
    → length us < max_upvalues
    → (r : ℕ × List CompilerUpvalue) × (add_upvalue us b i ≡ some r) × Adds us b i r
unfolding add_upvalue
add_upvalue-Adds us b i room = elim (Option-cases (index_of (captures b i) us)) [
  | inl new ↦
      let below : ltb (length us) max_upvalues ≡ true = ground (arith, room) in
      (
        (length us, us ++ record { is_local = b; index = i } ∷ []),
        rw (add_upvalue, new, below) refl,
        (get_elem?-last us _, λ n u h. get_elem?-kept us _ n u h),
      )
  | inr (k, found) ↦
      let (u, at, ok) = index_of-passes (captures b i) us k found in
      ((k, us), rw (add_upvalue, found) refl, (rw (captures_eq b i u ok) at at, λ n u h. h))
]

-- Every function has room for one more upvalue.
abbrev pub HaveRoom : List Compiler → Type 0
HaveRoom [] = Unit
HaveRoom (c ∷ cs) = (length c.upvalues < max_upvalues) × HaveRoom cs

-- What `find_upvalue` returns for the function `c` inside of `outer`.
abbrev pub Outcome : Compiler → List Compiler → List ℕ → Option ℕ × List Compiler → Type 0
Outcome c outer name (none, chain) = (chain ≡ c ∷ outer) × Hidden (c ∷ outer) name
Outcome c outer name (some i, chain) =
    (upvalues : List CompilerUpvalue) × (outer' : List Compiler) × (chain
      ≡ record c { upvalues = upvalues } ∷ outer')
    × Keeps c.upvalues upvalues
    × Refers (record c { upvalues = upvalues } ∷ outer') i name

abbrev Found : Compiler → List Compiler → List ℕ → Option (Option ℕ × List Compiler) → Type 0
Found c outer name o = (r : Option ℕ × List Compiler) × (o ≡ some r) × Outcome c outer name r

from_local :
    (c parent : Compiler) (outer : List Compiler) (name : List ℕ) (j : ℕ)
    → length c.upvalues < max_upvalues
    → at_boundary name parent ≡ false
    → resolve_local parent.locals name ≡ some j
    → Found c
        (parent ∷ outer)
        name
        (with_upvalue c true j (record parent { locals = mark_upvalue parent.locals j } ∷ outer))
unfolding Refers
from_local c parent outer name j room open_ h =
    let ((i, us), run, (at, keeps)) = add_upvalue-Adds c.upvalues true j room in
    let rest = record parent { locals = mark_upvalue parent.locals j } ∷ outer in
    let there = mark-IsMarked parent.locals j name h in
    (
      (some i, record c { upvalues = us } ∷ rest),
      rw (with_upvalue, run) refl,
      (
        us,
        rest,
        refl,
        keeps,
        (open_, inl (j, at, rw (resolve-mark parent.locals j name) h, there)),
      ),
    )

from_above :
    (c parent : Compiler) (outer : List Compiler) (name : List ℕ) (r : Option ℕ × List Compiler)
    → length c.upvalues < max_upvalues
    → at_boundary name parent ≡ false
    → resolve_local parent.locals name ≡ none
    → Outcome parent outer name r
    → Found c (parent ∷ outer) name (flatten c (some r))
unfolding Refers Hidden
from_above c parent outer name (none, chain) room open_ h (same, hidden) =
    ((none, c ∷ chain), refl, (ap (λ l. c ∷ l) same, inr (h, hidden)))
from_above c parent outer name (some u, chain) room open_ h (us, outer', same, _, refers) =
    let ((i, new), run, (at, keeps)) = add_upvalue-Adds c.upvalues false u room in
    (
      (some i, record c { upvalues = new } ∷ chain),
      rw (flatten, with_upvalue, run) refl,
      (
        new,
        record parent { upvalues = us } ∷ outer',
        ap (λ l. record c { upvalues = new } ∷ l) same,
        keeps,
        (open_, inr (u, at, h, refers)),
      ),
    )

-- If each of the functions being compiled has fewer than 256 upvalues, `findUpvalue` stays in its
-- arrays. If it finds nothing, no function outside has a local of this name up to the boundary of
-- a method, and the chain of compilers is unchanged. If it gives an index, of the function being
-- compiled only the upvalues change, those it had stay, and following the upvalues of the new
-- chain from that index leads to the innermost such local outside, which is marked as an upvalue.
pub find_upvalue-Outcome :
    (c : Compiler) (outer : List Compiler) (name : List ℕ)
    → HaveRoom (c ∷ outer)
    → (r : Option ℕ × List Compiler) × (find_upvalue (c ∷ outer) name ≡ some r)
      × Outcome c outer name r
unfolding find_upvalue Hidden
find_upvalue-Outcome c [] name room = ((none, c ∷ []), refl, (refl, tt))
find_upvalue-Outcome c (parent ∷ outer) name (room, more) =
    if_split (Found c (parent ∷ outer) name) (at_boundary name parent)
      {x = some (none, c ∷ parent ∷ outer)}
      (λ stop. ((none, c ∷ parent ∷ outer), refl, (refl, inl stop)))
      (λ open_. elim (Option-cases (resolve_local parent.locals name)) [
        | inl h ↦
            let (r, run, outcome) = find_upvalue-Outcome parent outer name more in
            rw (h, run) (from_above c parent outer name r room open_ h outcome)
        | inr (j, h) ↦ rw h (from_local c parent outer name j room open_ h)
      ])
