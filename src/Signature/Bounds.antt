-- ===== src/Signature/Bounds.antt =====
-- ruwren-sys/src/wren_compiler.c: the length of a signature against the size of its buffer.
use ruwren.Prelude.{
  ℕ, zero, suc, ◌+◌, ◌-◌, ◌*◌, ◌≤◌, ◌<◌, ◌≡◌, refl, ap, ◌∙◌, List, [], ◌∷◌, ◌++◌, ltb, ◌==◌,
  if◌then◌else◌, length, arith, length-append, append_assoc, append-nil, sym, true, ==_iff,
  Bool-cases, inl, inr, ◌⊎◌,
}
use ruwren.Signature.{
  Signature, SignatureType, sig_method, sig_getter, sig_setter, sig_subscript, sig_subscript_setter,
  sig_initializer, max_parameters, max_method_name, max_method_signature, parameter_loop,
  signature_parameter_list, signature_to_string,
}

-- The parameters from the one at `i` on.
unfoldable pub parameters : ℕ → ℕ → List ℕ
parameters zero i = []
parameters (suc n) i = (if ltb 0 i then b',' ∷ b'_' ∷ [] else b'_' ∷ []) ++ parameters n (i + 1)

abbrev pub count_of : ℕ → ℕ
count_of n = if ltb n max_parameters then n else max_parameters

pub parameter_loop-parameters :
    (n i : ℕ) (name : List ℕ) → parameter_loop n i name ≡ name ++ parameters n i
unfolding parameter_loop parameters
parameter_loop-parameters zero i name = sym (append-nil name)
parameter_loop-parameters (suc n) i name =
    let rest = parameters n (i + 1) in
    elim (Bool-cases (ltb 0 i)) [
      | inl e ↦ rw e (
          parameter_loop-parameters n (i + 1) ((name ++ b',' ∷ []) ++ b'_' ∷ [])
          ∙ append_assoc (name ++ b',' ∷ []) (b'_' ∷ []) rest
          ∙ append_assoc name (b',' ∷ []) (b'_' ∷ rest))
      | inr e ↦ rw e (
          parameter_loop-parameters n (i + 1) (name ++ b'_' ∷ [])
          ∙ append_assoc name (b'_' ∷ []) rest)
    ]

length-parameters_later : (n i : ℕ) → 0 < i → length (parameters n i) ≡ 2 * n
unfolding parameters
length-parameters_later zero i h = refl
length-parameters_later (suc n) i h =
    let later : ltb 0 i ≡ true = ground arith in
    let n_lem = length-parameters_later n (i + 1) (omega arith) in rw later (omega (arith, n_lem))

pub length-parameters : (n : ℕ) → length (parameters n 0) ≡ 2 * n - 1
unfolding parameters
length-parameters zero = refl
length-parameters (suc n) =
    let n_lem = length-parameters_later n 1 (omega arith) in omega (arith, n_lem)

pub signature_parameter_list-text :
    (name : List ℕ) (n left right : ℕ)
    → signature_parameter_list name n left right
      ≡ name ++ left ∷ (parameters (count_of n) 0 ++ right ∷ [])
unfolding signature_parameter_list
signature_parameter_list-text name n left right =
    rw (parameter_loop-parameters (count_of n) 0 (name ++ left ∷ [])) (
      ap (λ (t : List ℕ). t ++ right ∷ [])
        (append_assoc name (left ∷ []) (parameters (count_of n) 0))
      ∙ append_assoc name (left ∷ parameters (count_of n) 0) (right ∷ []))

pub length-signature_parameter_list :
    (name : List ℕ) (n left right : ℕ)
    → length (signature_parameter_list name n left right) ≡ length name + 2 + (2 * count_of n - 1)
length-signature_parameter_list name n left right =
    let params = parameters (count_of n) 0 in
    let whole = ap length (signature_parameter_list-text name n left right) in
    let outer = length-append name (left ∷ (params ++ right ∷ [])) in
    let inner = length-append params (right ∷ []) in
    let count = length-parameters (count_of n) in omega (arith, whole, outer, inner, count)

fits :
    (name : List ℕ) (type : SignatureType) (arity : ℕ)
    → length name ≤ max_method_name
    → let text = signature_to_string (record { name = name; type = type; arity = arity }) in
      (length text + 1 ≤ max_method_signature)
      ⊎ ((type ≡ sig_initializer)
          × (length name ≡ max_method_name)
          × (max_parameters ≤ arity)
          × (length text ≡ max_method_signature))
unfolding signature_to_string
fits name sig_method arity h =
    let n = length-signature_parameter_list name arity b'(' b')' in inl (ground (arith, n))
fits name sig_getter arity h = inl (omega arith)
fits name sig_setter arity h =
    let n = length-signature_parameter_list (name ++ b'=' ∷ []) 1 b'(' b')' in
    let m = length-append name (b'=' ∷ []) in inl (ground (arith, n, m))
fits name sig_subscript arity h =
    let n = length-signature_parameter_list name arity b'[' b']' in inl (ground (arith, n))
fits name sig_subscript_setter arity h =
    let inner = signature_parameter_list name (arity - 1) b'[' b']' in
    let n = length-signature_parameter_list name (arity - 1) b'[' b']' in
    let m = length-append inner (b'=' ∷ []) in
    let k = length-signature_parameter_list (inner ++ b'=' ∷ []) 1 b'(' b')' in
    inl (ground (arith, n, m, k))
fits name sig_initializer arity h =
    let init = b'i' ∷ b'n' ∷ b'i' ∷ b't' ∷ b' ' ∷ name in
    let n = length-signature_parameter_list init arity b'(' b')' in
    elim (Bool-cases (length name == max_method_name)) [
      | inl e ↦ elim (Bool-cases (ltb arity max_parameters)) [
        | inl few ↦ inl (ground (arith, n, few))
        | inr many ↦
            let long = ==_iff (length name) max_method_name in
            inr (refl, long.0 e, ground (arith, many), ground (arith, n, e, many))
      ]
      | inr short ↦ inl (ground (arith, n, short))
    ]

-- For a name of at most 64 bytes, the text of a signature with its terminating zero fits into
-- `MAX_METHOD_SIGNATURE` bytes, or the signature is an initializer with a name of 64 bytes and at
-- least 16 parameters, and its text alone has that many bytes.
pub signature_to_string-fits :
    (s : Signature)
    → length s.name ≤ max_method_name
    → (length (signature_to_string s) + 1 ≤ max_method_signature)
      ⊎ ((s.type ≡ sig_initializer)
          × (length s.name ≡ max_method_name)
          × (max_parameters ≤ s.arity)
          × (length (signature_to_string s) ≡ max_method_signature))
signature_to_string-fits s h = fits s.name s.type s.arity h
