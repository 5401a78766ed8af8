-- ===== src/Gc/Mark.antt =====
-- Marking: what is dark, and what waits on the gray stack.
use ruwren.Prelude.{
  ℕ, ◌+◌, ◌≤◌, ◌<◌, ◌≡◌, refl, sym, subst, Bool, true, false, List, [], ◌∷◌, ◌++◌, arith, ◌==◌,
  if◌then◌else◌, if_split, ==_iff, ◌⊎◌, inl, inr, In, length, Bool-cases,
}
use ruwren.Gc.{Marks, gray_obj}
use ruwren.Gc.Children.{gray_all}

abbrev one_if_white : Bool → ℕ
one_if_white true = 0
one_if_white false = 1

unfoldable pub white_count : List ℕ → (ℕ → Bool) → ℕ
white_count [] d = 0
white_count (a ∷ xs) d = one_if_white (d a) + white_count xs d

-- The rounds that are still to come, at most.
unfoldable pub measure : List ℕ → Marks → ℕ
measure all m = white_count all m.is_dark + length m.gray

pub white_count-le : (all : List ℕ) (d : ℕ → Bool) → white_count all d ≤ length all
unfolding white_count
white_count-le [] d = omega arith
white_count-le (a ∷ xs) d = ground (arith, white_count-le xs d)

abbrev with_dark : ℕ → (ℕ → Bool) → ℕ → Bool
with_dark a d b = if b == a then true else d b

white_count-dark-le :
    (all : List ℕ) (a : ℕ) (d : ℕ → Bool) → white_count all (with_dark a d) ≤ white_count all d
unfolding white_count
white_count-dark-le [] a d = omega arith
white_count-dark-le (x ∷ xs) a d = ground (arith, white_count-dark-le xs a d)

white_count-dark-lt :
    (all : List ℕ) (a : ℕ) (d : ℕ → Bool)
    → In a all
    → d a ≡ false
    → white_count all (with_dark a d) < white_count all d
unfolding white_count
white_count-dark-lt [] a d i w = absurd i
white_count-dark-lt (x ∷ xs) a d (inl e) w =
    let w' : d x ≡ false = subst (λ y. d y ≡ false) e w in
    let le = white_count-dark-le xs a d in
    let same : (x == a) ≡ true = ground arith in rw (same, w') (omega (arith, le))
white_count-dark-lt (x ∷ xs) a d (inr i) w =
    let lt = white_count-dark-lt xs a d i w in ground (arith, lt)

-- What graying the objects `xs` does.
pub record Effect (all xs : List ℕ) (m m' : Marks) : Type 0 where
  pub fewer : measure all m' ≤ measure all m
  pub stays_dark : (b : ℕ) → m.is_dark b ≡ true → m'.is_dark b ≡ true
  pub all_dark : (b : ℕ) → In b xs → m'.is_dark b ≡ true
  pub only : (b : ℕ) → m'.is_dark b ≡ true → (m.is_dark b ≡ true) ⊎ In b xs
  pub stays_gray : (b : ℕ) → In b m.gray → In b m'.gray
  pub new_gray : (b : ℕ) → m'.is_dark b ≡ true → m.is_dark b ≡ false → In b m'.gray
  pub only_gray : (b : ℕ) → In b m'.gray → In b m.gray ⊎ In b xs

pub false_true : {P : Type 0} {b : Bool} → b ≡ true → b ≡ false → P
false_true {b = true} t f = cc
false_true {b = false} t f = cc

In-one : {a b : ℕ} → In b (a ∷ []) → b ≡ a
In-one (inl e) = e
In-one (inr i) = absurd i

with_dark-only : (a : ℕ) (d : ℕ → Bool) (b : ℕ) → with_dark a d b ≡ true → (d b ≡ true) ⊎ (b ≡ a)
with_dark-only a d b h = elim (Bool-cases (b == a)) [
  | inl e ↦ inr ((==_iff b a).0 e)
  | inr n ↦ inl (rw n at h)
]

gray_obj-Effect :
    (all : List ℕ) (a : ℕ) (m : Marks) → In a all → Effect all (a ∷ []) m (gray_obj a m)
unfolding gray_obj measure
gray_obj-Effect all a m i =
    if_split {A = Marks} (Effect all (a ∷ []) m) (m.is_dark a)
      (λ dark. record {
        fewer = omega arith;
        stays_dark = λ b d. d;
        all_dark = λ b i. subst (λ x. m.is_dark x ≡ true) (sym (In-one i)) dark;
        only = λ b d. inl d;
        stays_gray = λ b g. g;
        new_gray = λ b d w. false_true d w;
        only_gray = λ b g. inl g;
      })
      (λ white. record {
        fewer = let lt = white_count-dark-lt all a m.is_dark i white in omega (arith, lt);
        stays_dark = λ b d. ground arith;
        all_dark = λ b j. let e = In-one j in ground (arith, e);
        only = λ b d. with_only (with_dark-only a m.is_dark b d);
        stays_gray = λ b g. inr g;
        new_gray = λ b d w. new (with_dark-only a m.is_dark b d) w;
        only_gray = λ b g. old g;
      })
  where
    with_only : {b : ℕ} → (m.is_dark b ≡ true) ⊎ (b ≡ a) → (m.is_dark b ≡ true) ⊎ In b (a ∷ [])
    with_only (inl d) = inl d
    with_only (inr e) = inr (inl e)

    new : {b : ℕ} → (m.is_dark b ≡ true) ⊎ (b ≡ a) → m.is_dark b ≡ false → In b (a ∷ m.gray)
    new (inl d) w = false_true d w
    new (inr e) w = inl e

    old : {b : ℕ} → In b (a ∷ m.gray) → In b m.gray ⊎ In b (a ∷ [])
    old (inl e) = inr (inl e)
    old (inr g) = inl g

-- Effects one after the other.
Effect-then :
    {all xs ys : List ℕ} {m m₁ m₂ : Marks}
    → Effect all xs m m₁
    → Effect all ys m₁ m₂
    → ((b : ℕ) → In b (xs ++ ys) → In b xs ⊎ In b ys)
    → ((b : ℕ) → In b xs ⊎ In b ys → In b (xs ++ ys))
    → Effect all (xs ++ ys) m m₂
Effect-then {all} {xs} {ys} {m} {m₁} {m₂} e f split glue = record {
  fewer = omega (arith, e.fewer, f.fewer);
  stays_dark = λ b d. f.stays_dark b (e.stays_dark b d);
  all_dark = λ b i. dark (split b i);
  only = λ b d. only b (f.only b d);
  stays_gray = λ b g. f.stays_gray b (e.stays_gray b g);
  new_gray = λ b d w. new b d w (Bool-cases (m₁.is_dark b));
  only_gray = λ b g. gray b (f.only_gray b g);
}
  where
    dark : {b : ℕ} → In b xs ⊎ In b ys → m₂.is_dark b ≡ true
    dark (inl i) = f.stays_dark _ (e.all_dark _ i)
    dark (inr j) = f.all_dark _ j

    before : (b : ℕ) → (m.is_dark b ≡ true) ⊎ In b xs → (m.is_dark b ≡ true) ⊎ In b (xs ++ ys)
    before b (inl d) = inl d
    before b (inr i) = inr (glue b (inl i))

    only : (b : ℕ) → (m₁.is_dark b ≡ true) ⊎ In b ys → (m.is_dark b ≡ true) ⊎ In b (xs ++ ys)
    only b (inl d) = before b (e.only b d)
    only b (inr j) = inr (glue b (inr j))

    new :
        (b : ℕ)
        → m₂.is_dark b ≡ true
        → m.is_dark b ≡ false
        → (m₁.is_dark b ≡ true) ⊎ (m₁.is_dark b ≡ false)
        → In b m₂.gray
    new b d w (inl d₁) = f.stays_gray b (e.new_gray b d₁ w)
    new b d w (inr w₁) = f.new_gray b d w₁

    gray₁ : (b : ℕ) → In b m.gray ⊎ In b xs → In b m.gray ⊎ In b (xs ++ ys)
    gray₁ b (inl g) = inl g
    gray₁ b (inr i) = inr (glue b (inl i))

    gray : (b : ℕ) → In b m₁.gray ⊎ In b ys → In b m.gray ⊎ In b (xs ++ ys)
    gray b (inl g) = gray₁ b (e.only_gray b g)
    gray b (inr j) = inr (glue b (inr j))

split_one : (a b : ℕ) (xs : List ℕ) → In b (a ∷ xs) → In b (a ∷ []) ⊎ In b xs
split_one a b xs (inl e) = inl (inl e)
split_one a b xs (inr i) = inr i

glue_one : (a b : ℕ) (xs : List ℕ) → In b (a ∷ []) ⊎ In b xs → In b (a ∷ xs)
glue_one a b xs (inl i) = inl (In-one i)
glue_one a b xs (inr i) = inr i

pub gray_all-Effect :
    (all xs : List ℕ) (m : Marks) → ((b : ℕ) → In b xs → In b all) → Effect all xs m (gray_all xs m)
unfolding gray_all
gray_all-Effect all [] m inside = record {
  fewer = omega arith;
  stays_dark = λ b d. d;
  all_dark = λ b i. absurd i;
  only = λ b d. inl d;
  stays_gray = λ b g. g;
  new_gray = λ b d w. false_true d w;
  only_gray = λ b g. inl g;
}
gray_all-Effect all (a ∷ xs) m inside =
    Effect-then {xs = a ∷ []} (gray_obj-Effect all a m (inside a (inl refl)))
      (gray_all-Effect all xs (gray_obj a m) (λ b i. inside b (inr i))) (λ b i. split_one a b xs i)
      (λ b i. glue_one a b xs i)
