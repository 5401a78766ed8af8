-- ===== src/Signature/Reading.antt =====
-- Reading a signature back from its text: the parts of a name, its brackets and parameters.
use ruwren.Prelude.{
  ℕ, zero, suc, ◌+◌, ◌≡◌, refl, ap, Bool, List, [], ◌∷◌, ◌++◌, ltb, ◌==◌, if◌then◌else◌, arith,
  true, Bool-cases, inl, inr, All, ◌||◌, not,
}
use ruwren.Signature.Bounds.{parameters}

-- What may stand in a name here: neither an opening bracket nor `=` nor a space.
unfoldable pub is_plain : ℕ → Bool
is_plain c = not (c == b'(' || c == b'[' || c == b'=' || c == b' ')

unfoldable pub plain_part : List ℕ → List ℕ
plain_part [] = []
plain_part (c ∷ cs) = let rest = plain_part cs in if is_plain c then c ∷ rest else []

unfoldable pub other_part : List ℕ → List ℕ
other_part [] = []
other_part (c ∷ cs) = let rest = other_part cs in if is_plain c then rest else c ∷ cs

unfoldable pub count : ℕ → List ℕ → ℕ
count c [] = 0
count c (x ∷ xs) = if x == c then suc (count c xs) else count c xs

abbrev pub IsPlain : List ℕ → Type 0
IsPlain = All (λ c. is_plain c ≡ true)

-- The text is a name and something behind it that does not belong to it.
abbrev stops : List ℕ → Bool
stops [] = true
stops (c ∷ cs) = not (is_plain c)

pub plain_part-append :
    (name rest : List ℕ) → IsPlain name → stops rest ≡ true → plain_part (name ++ rest) ≡ name
unfolding plain_part
plain_part-append [] [] h e = refl
plain_part-append [] (c ∷ cs) h e = ground (arith, e)
plain_part-append (c ∷ name) rest (p, h) e =
    rw p (ap (λ (t : List ℕ). c ∷ t) (plain_part-append name rest h e))

pub other_part-append :
    (name rest : List ℕ) → IsPlain name → stops rest ≡ true → other_part (name ++ rest) ≡ rest
unfolding other_part
other_part-append [] [] h e = refl
other_part-append [] (c ∷ cs) h e = ground (arith, e)
other_part-append (c ∷ name) rest (p, h) e = rw p (other_part-append name rest h e)

pub count-append : (c : ℕ) (xs ys : List ℕ) → count c (xs ++ ys) ≡ count c xs + count c ys
unfolding count
count-append c [] ys = omega arith
count-append c (x ∷ xs) ys = ground (arith, count-append c xs ys)

pub count-parameters : (n i : ℕ) → count b'_' (parameters n i) ≡ n
unfolding count parameters
count-parameters zero i = refl
count-parameters (suc n) i = elim (Bool-cases (ltb 0 i)) [
  | inl e ↦ rw e (ap suc (count-parameters n (i + 1)))
  | inr e ↦ rw e (ap suc (count-parameters n (i + 1)))
]

pub count-parameters_equals : (n i : ℕ) → count b'=' (parameters n i) ≡ 0
unfolding count parameters
count-parameters_equals zero i = refl
count-parameters_equals (suc n) i = elim (Bool-cases (ltb 0 i)) [
  | inl e ↦ rw e (count-parameters_equals n (i + 1))
  | inr e ↦ rw e (count-parameters_equals n (i + 1))
]
