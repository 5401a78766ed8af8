-- ===== src/Embedding/Arity.antt =====
-- ruwren-sys/src/wren_vm.c, `wrenMakeCallHandle`, against the signatures of
-- ruwren-sys/src/wren_compiler.c.
use ruwren.Prelude.{
  ℕ, zero, suc, ◌+◌, ◌-◌, ◌≤◌, ◌<◌, ◌≡◌, refl, sym, ap, ◌∙◌, false, List, [], ◌∷◌, ◌++◌, ltb, ◌==◌,
  if◌then◌else◌, length, get_or, take, length-append, get_or-append, arith, All, append_assoc,
  if_both,
}
use ruwren.Signature.{
  SignatureType, sig_method, sig_getter, sig_setter, sig_subscript, sig_subscript_setter,
  sig_initializer, max_parameters, signature_parameter_list, signature_to_string,
}
use ruwren.Signature.Bounds.{parameters, count_of, signature_parameter_list-text}
use ruwren.Signature.Reading.{is_plain, IsPlain, count, count-append, count-parameters}
use ruwren.Signature.Distinct.{IsArity}
use ruwren.Embedding.CallHandles.{count_back, count_to_bracket, num_params}

-- Without this byte.
abbrev Lacks : ℕ → List ℕ → Type 0
Lacks c = All (λ x. (x == c) ≡ false)

count-take :
    (c : ℕ) (xs : List ℕ) (k : ℕ)
    → k < length xs
    → count c (take (suc k) xs)
      ≡ (if get_or xs k 0 == c then suc (count c (take k xs)) else count c (take k xs))
unfolding count
count-take c [] k h = absurd (omega arith)
count-take c (x ∷ xs) zero h = refl
count-take c (x ∷ xs) (suc k) h = ground (arith, count-take c xs k (omega arith))

Lacks-at : (c : ℕ) (xs : List ℕ) (k : ℕ) → Lacks c xs → k < length xs → (get_or xs k 0 == c) ≡ false
Lacks-at c [] k l h = absurd (omega arith)
Lacks-at c (x ∷ xs) zero (l, _) h = l
Lacks-at c (x ∷ xs) (suc k) (_, ls) h = Lacks-at c xs k ls (omega arith)

-- The count from `k` bytes behind the bracket.
count_back-count :
    (before inner : List ℕ) (k j : ℕ)
    → j ≡ length before + k
    → Lacks b'(' inner
    → k ≤ length inner
    → count_back j (before ++ b'(' ∷ inner) ≡ count b'_' (take k inner)
unfolding count_back count
count_back-count before inner zero zero e lacks h = refl
count_back-count before inner (suc k) zero e lacks h = absurd (omega (arith, e))
count_back-count before inner zero (suc i) e lacks h =
    ground (arith, e, get_or-append before (b'(' ∷ inner) (suc i) 0)
count_back-count before inner (suc k) (suc i) e lacks h =
    let here : suc i - length before ≡ suc k = omega (arith, e) in
    let past : ltb (suc i) (length before) ≡ false = ground (arith, e) in
    let byte : get_or (before ++ b'(' ∷ inner) (suc i) 0 ≡ get_or inner k 0 =
      get_or-append before (b'(' ∷ inner) (suc i) 0 ∙ rw (past, here) refl in
    let other = Lacks-at b'(' inner k lacks (omega (arith, h)) in
    let rest = count_back-count before inner k i (omega (arith, e)) lacks (omega (arith, h)) in
    rw (byte, other, count-take b'_' inner k (omega (arith, h)), rest) refl

count_to_bracket-count :
    (inner rest : List ℕ)
    → Lacks b']' inner
    → count_to_bracket (inner ++ b']' ∷ rest) ≡ count b'_' inner
unfolding count_to_bracket count
count_to_bracket-count [] rest l = refl
count_to_bracket-count (c ∷ cs) rest (l, ls) =
    rw l (ground (arith, count_to_bracket-count cs rest ls))

parameters-Lacks :
    (n i c : ℕ) → (b',' == c) ≡ false → (b'_' == c) ≡ false → Lacks c (parameters n i)
unfolding parameters
parameters-Lacks zero i c comma under = tt
parameters-Lacks (suc n) i c comma under =
    if_both (λ xs. All (λ x. (x == c) ≡ false) (xs ++ parameters n (i + 1))) (ltb 0 i)
      (comma, (under, parameters-Lacks n (i + 1) c comma under))
      (under, parameters-Lacks n (i + 1) c comma under)

Lacks-append : (c : ℕ) (xs ys : List ℕ) → Lacks c xs → Lacks c ys → Lacks c (xs ++ ys)
Lacks-append c [] ys l m = m
Lacks-append c (x ∷ xs) ys (l, ls) m = (l, Lacks-append c xs ys ls m)

take-length : (xs : List ℕ) → take (length xs) xs ≡ xs
take-length [] = refl
take-length (x ∷ xs) = ap (λ rest. x ∷ rest) (take-length xs)

get_or-last : (xs : List ℕ) (c : ℕ) → get_or (xs ++ c ∷ []) (length (xs ++ c ∷ []) - 1) 0 ≡ c
get_or-last xs c =
    let n = length-append xs (c ∷ []) in
    let last : length (xs ++ c ∷ []) - 1 ≡ length xs = omega (arith, n) in
    rw last (ground (arith, get_or-append xs (c ∷ []) (length xs) 0))

-- A text that ends with `n` parameters in parentheses.
abbrev called : List ℕ → ℕ → List ℕ
called before n = before ++ b'(' ∷ (parameters n 0 ++ b')' ∷ [])

num_params-called :
    (before : List ℕ) (n : ℕ)
    → num_params (called before n)
      ≡ n + (if get_or (called before n) 0 0 == b'[' then count_to_bracket (called before n) else 0)
unfolding num_params count
num_params-called before n =
    let inner = parameters n 0 ++ b')' ∷ [] in
    let text = called before n in
    let whole = length-append before (b'(' ∷ inner) in
    let closes : get_or text (length text - 1) 0 ≡ b')' =
      ap (λ xs. get_or xs (length xs - 1) 0)
        (sym (append_assoc before (b'(' ∷ parameters n 0) (b')' ∷ [])))
      ∙ get_or-last (before ++ b'(' ∷ parameters n 0) b')' in
    let lacks =
      Lacks-append b'(' (parameters n 0) (b')' ∷ []) (parameters-Lacks n 0 b'(' refl refl)
        (refl, tt) in
    let back =
      count_back-count before inner (length inner) (length text - 1) (omega (arith, whole)) lacks
        (omega arith) in
    let all : count b'_' (take (length inner) inner) ≡ n =
      ap (count b'_') (take-length inner)
      ∙ count-append b'_' (parameters n 0) (b')' ∷ [])
      ∙ (omega (arith, count-parameters n 0)) in
    rw (closes, back, all) refl

-- Names without a closing parenthesis, and none for subscripts.
abbrev pub HasPlainName : SignatureType → List ℕ → Type 0
HasPlainName sig_subscript name = name ≡ []
HasPlainName sig_subscript_setter name = name ≡ []
HasPlainName _ name = All (λ x. (x == b')') ≡ false) name

not_bracket :
    (name rest : List ℕ) (c : ℕ)
    → IsPlain name
    → (c == b'[') ≡ false
    → (get_or (name ++ c ∷ rest) 0 0 == b'[') ≡ false
unfolding is_plain
not_bracket [] rest c p e = e
not_bracket (x ∷ name) rest c (p, _) e = ground (arith, p)

num_params-name : (name : List ℕ) → IsPlain name → Lacks b')' name → num_params name ≡ 0
unfolding num_params is_plain
num_params-name [] p l = refl
num_params-name (x ∷ name) (p, _) l =
    let last = Lacks-at b')' (x ∷ name) (length (x ∷ name) - 1) l (omega arith) in
    let first : (x == b'[') ≡ false = ground (arith, p) in rw (last, first) refl

-- A text that begins with `n` parameters in brackets.
num_params-subscript : (n : ℕ) → num_params (b'[' ∷ (parameters n 0 ++ b']' ∷ [])) ≡ n
unfolding num_params count_to_bracket
num_params-subscript n =
    let inner = b'[' ∷ parameters n 0 in
    let last = get_or-last inner b']' in
    let inside = count_to_bracket-count (parameters n 0) [] (parameters-Lacks n 0 b']' refl refl) in
    rw (last, inside, count-parameters n 0) (omega arith)

count_of-small : (n : ℕ) → n ≤ max_parameters → count_of n ≡ n
count_of-small n h = ground (arith, h)

num_params-list :
    (before : List ℕ) (n : ℕ)
    → n ≤ max_parameters
    → (get_or (called before n) 0 0 == b'[') ≡ false
    → num_params (signature_parameter_list before n b'(' b')') ≡ n
num_params-list before n small first =
    rw (signature_parameter_list-text, count_of-small n small, num_params-called before n, first)
      (omega arith)

-- A subscript setter, with one more parameter behind the brackets.
num_params-subscript_setter :
    (n : ℕ)
    → n ≤ max_parameters
    → num_params (
        signature_parameter_list (signature_parameter_list [] n b'[' b']' ++ b'=' ∷ []) 1 b'(' b')')
      ≡ n + 1
unfolding count_to_bracket
num_params-subscript_setter n small =
    let brackets = b'[' ∷ (parameters n 0 ++ b']' ∷ []) in
    let last = b'(' ∷ (parameters 1 0 ++ b')' ∷ []) in
    let rest = b'=' ∷ last in
    let text : (parameters n 0 ++ b']' ∷ [] ++ b'=' ∷ []) ++ last ≡ parameters n 0 ++ b']' ∷ rest =
      append_assoc (parameters n 0 ++ b']' ∷ []) (b'=' ∷ []) last
      ∙ append_assoc (parameters n 0) (b']' ∷ []) rest in
    let inside =
      count_to_bracket-count (parameters n 0) rest (parameters-Lacks n 0 b']' refl refl) in
    let inner : signature_parameter_list [] n b'[' b']' ≡ brackets =
      signature_parameter_list-text [] n b'[' b']'
      ∙ ap (λ k. b'[' ∷ (parameters k 0 ++ b']' ∷ [])) (count_of-small n small) in
    ap (λ b. num_params (signature_parameter_list (b ++ b'=' ∷ []) 1 b'(' b')')) inner
    ∙ ap num_params (signature_parameter_list-text (brackets ++ b'=' ∷ []) 1 b'(' b')')
    ∙ num_params-called (brackets ++ b'=' ∷ []) 1
    ∙ ap (λ xs. 1 + count_to_bracket xs) text
    ∙ ap (λ k. 1 + k) (inside ∙ count-parameters n 0)
    ∙ (omega arith)

pub num_params-text :
    (name : List ℕ) (type : SignatureType) (n : ℕ)
    → IsPlain name
    → IsArity type n
    → HasPlainName type name
    → num_params (signature_to_string (record { name = name; type = type; arity = n })) ≡ n
unfolding signature_to_string
num_params-text name sig_method n p a plain =
    num_params-list name n a (not_bracket name _ b'(' p refl)
num_params-text name sig_getter n p a plain = num_params-name name p plain ∙ sym a
num_params-text name sig_setter n p a plain =
    num_params-list (name ++ b'=' ∷ []) 1 (omega arith) (
      ap (λ xs. get_or xs 0 0 == b'[') (append_assoc name (b'=' ∷ []) _)
      ∙ not_bracket name _ b'=' p refl)
    ∙ sym a
num_params-text name sig_subscript n p a plain =
    rw (plain, signature_parameter_list-text, count_of-small n a) (num_params-subscript n)
num_params-text name sig_subscript_setter n p (some_arity, a) plain =
    rw plain (num_params-subscript_setter (n - 1) (omega (arith, a)) ∙ (omega (arith, some_arity)))
num_params-text name sig_initializer n p a plain =
    num_params-list (b'i' ∷ b'n' ∷ b'i' ∷ b't' ∷ b' ' ∷ name) n a refl
