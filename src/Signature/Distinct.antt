-- ===== src/Signature/Distinct.antt =====
-- ruwren-sys/src/wren_compiler.c: signatures as texts and as symbols determine their parts.
use ruwren.Prelude.{
  ℕ, ◌-◌, ◌≤◌, ◌≡◌, ◌↔◌, refl, ap, ◌∙◌, List, [], ◌∷◌, ◌++◌, ◌==◌, if◌then◌else◌, arith,
  append_assoc, append-nil, sym, true, false, some,
}
use ruwren.Signature.{
  Signature, SignatureType, sig_method, sig_getter, sig_setter, sig_subscript, sig_subscript_setter,
  sig_initializer, max_parameters, signature_parameter_list, signature_to_string, signature_symbol,
}
use ruwren.Signature.Bounds.{parameters, count_of, signature_parameter_list-text}
use ruwren.Signature.Reading.{
  IsPlain, plain_part, other_part, count, plain_part-append, other_part-append, count-append,
  count-parameters, count-parameters_equals, is_plain,
}
use ruwren.Symbols.{SymbolTable, symbol_ensure}
use ruwren.Symbols.Laws.{symbol_ensure-interns, symbol_find-at}

abbrev signature : List ℕ → SignatureType → ℕ → Signature
signature name type arity = record { name = name; type = type; arity = arity }

-- The arities that the compiler gives a signature of each type, if it reports no error.
abbrev pub IsArity : SignatureType → ℕ → Type 0
IsArity sig_method n = n ≤ max_parameters
IsArity sig_getter n = n ≡ 0
IsArity sig_setter n = n ≡ 1
IsArity sig_subscript n = n ≤ max_parameters
IsArity sig_subscript_setter n = (1 ≤ n) × (n ≤ max_parameters)
IsArity sig_initializer n = n ≤ max_parameters

-- The signature of which `rest` stands behind the name.
unfoldable pub read_rest : List ℕ → List ℕ → Signature
read_rest name [] = signature name sig_getter 0
read_rest name (c ∷ rest) =
    if c == b'('
    then signature name sig_method (count b'_' rest)
    else if c == b'='
    then signature name sig_setter 1
    else if c == b'['
    then (if count b'=' rest == 0
        then signature name sig_subscript (count b'_' rest)
        else signature name sig_subscript_setter (count b'_' rest))
    else signature (plain_part rest) sig_initializer (count b'_' (other_part rest))

unfoldable pub read_signature : List ℕ → Signature
read_signature text = read_rest (plain_part text) (other_part text)

read_split :
    (name rest : List ℕ) (c : ℕ)
    → IsPlain name
    → is_plain c ≡ false
    → read_signature (name ++ c ∷ rest) ≡ read_rest name (c ∷ rest)
unfolding read_signature
read_split name rest c h e =
    rw
      (
        plain_part-append name (c ∷ rest) h (rw e refl),
        other_part-append name (c ∷ rest) h (rw e refl),
      )
      refl

count_of-small : (n : ℕ) → n ≤ max_parameters → count_of n ≡ n
count_of-small n h = ground arith

count_params :
    (n right : ℕ)
    → n ≤ max_parameters
    → count b'_' (right ∷ []) ≡ 0
    → count b'_' (parameters (count_of n) 0 ++ right ∷ []) ≡ n
count_params n right h zero_lem =
    let e = count-append b'_' (parameters n 0) (right ∷ []) in
    let p = count-parameters n 0 in rw (count_of-small n h) (omega (arith, e, p, zero_lem))

read_name : (name : List ℕ) → IsPlain name → read_signature name ≡ signature name sig_getter 0
unfolding read_signature read_rest
read_name name h =
    let nil = append-nil name in
    let p = ap plain_part (sym nil) ∙ plain_part-append name [] h refl in
    let q = ap other_part (sym nil) ∙ other_part-append name [] h refl in rw (p, q) refl

count_equals : (n right : ℕ) → count b'=' (parameters n 0 ++ right ∷ []) ≡ count b'=' (right ∷ [])
count_equals n right =
    let e = count-append b'=' (parameters n 0) (right ∷ []) in
    let z = count-parameters_equals n 0 in omega (arith, e, z)

read_text :
    (name : List ℕ) (type : SignatureType) (arity : ℕ)
    → IsPlain name
    → IsArity type arity
    → read_signature (signature_to_string (signature name type arity)) ≡ signature name type arity
unfolding signature_to_string read_rest is_plain count
read_text name sig_method n h a =
    rw (signature_parameter_list-text name n b'(' b')')
      (read_split name _ b'(' h refl ∙ ap (signature name sig_method) (count_params n b')' a refl))
read_text name sig_getter n h a = read_name name h ∙ ap (signature name sig_getter) (sym a)
read_text name sig_setter n h a =
    rw (signature_parameter_list-text (name ++ b'=' ∷ []) 1 b'(' b')', append_assoc)
      (read_split name _ b'=' h refl ∙ ap (signature name sig_setter) (sym a))
read_text name sig_subscript n h a =
    let none_equal : (count b'=' (parameters (count_of n) 0 ++ b']' ∷ []) == 0) ≡ true =
      ground (arith, count_equals (count_of n) b']') in
    rw (signature_parameter_list-text name n b'[' b']') (
      read_split name _ b'[' h refl
      ∙ rw none_equal (ap (signature name sig_subscript) (count_params n b']' a refl)))
read_text name sig_subscript_setter n h a =
    let inner = parameters (count_of (n - 1)) 0 ++ b']' ∷ [] in
    let behind = b'(' ∷ (parameters (count_of 1) 0 ++ b')' ∷ []) in
    let text =
      signature_parameter_list-text (signature_parameter_list name (n - 1) b'[' b']' ++ b'=' ∷ []) 1
        b'(' b')'
      ∙ ap (λ (t : List ℕ). (t ++ b'=' ∷ []) ++ behind)
          (signature_parameter_list-text name (n - 1) b'[' b']')
      ∙ append_assoc (name ++ b'[' ∷ inner) (b'=' ∷ []) behind
      ∙ append_assoc name (b'[' ∷ inner) (b'=' ∷ behind) in
    let equals = count-append b'=' inner (b'=' ∷ behind) in
    let some_equal : (count b'=' (inner ++ b'=' ∷ behind) == 0) ≡ false = ground (arith, equals) in
    let left = count_params (n - 1) b']' (omega (arith, a)) refl in
    let whole : count b'_' (inner ++ b'=' ∷ behind) ≡ n = omega (
      arith,
      count-append b'_' inner (b'=' ∷ behind),
      left,
      count_params 1 b')' (omega arith) refl,
      a,
    ) in
    rw text (
      read_split name (inner ++ b'=' ∷ behind) b'[' h refl
      ∙ rw (some_equal) (ap (signature name sig_subscript_setter) whole))
read_text name sig_initializer n h a =
    let init = b'i' ∷ b'n' ∷ b'i' ∷ b't' ∷ [] in
    let params = parameters (count_of n) 0 ++ b')' ∷ [] in
    let p = plain_part-append name (b'(' ∷ params) h refl in
    let q = other_part-append name (b'(' ∷ params) h refl in
    let text = signature_parameter_list-text (init ++ b' ' ∷ name) n b'(' b')' in
    rw text (
      read_split init (name ++ b'(' ∷ params) b' ' (refl, (refl, (refl, (refl, tt)))) refl
      ∙ rw (p, q) (ap (signature name sig_initializer) (count_params n b')' a refl)))

-- A signature that the compiler makes without an error, of a name with neither an opening bracket
-- nor a space nor `=`.
pub record IsOrdinary (s : Signature) : Type 0 where
  pub plain : IsPlain s.name
  pub arity : IsArity s.type s.arity

-- A signature that the compiler makes without an error, of a name with neither an opening bracket
-- nor a space nor `=`, can be read back from its text.
pub read-signature_to_string :
    (s : Signature) → IsOrdinary s → read_signature (signature_to_string s) ≡ s
read-signature_to_string s h = read_text s.name s.type s.arity h.plain h.arity

some_injective : {A : Type 0} (a b : A) → some a ≡ some b → a ≡ b
some_injective a b e = cc

-- Two signatures that the compiler makes without an error, of names with neither an opening
-- bracket nor a space nor `=`, get the same method symbol exactly if they are equal.
pub signature_symbol-distinct :
    (t : SymbolTable) (a b : Signature)
    → IsOrdinary a
    → IsOrdinary b
    → ((signature_symbol (signature_symbol t a).1 b).0 ≡ (signature_symbol t a).0) ↔ (a ≡ b)
unfolding signature_symbol
signature_symbol-distinct t a b ordinary_a ordinary_b =
    let (i, t1, e1, found_a, at_a, keep_a, again) =
      symbol_ensure-interns t (signature_to_string a) in
    let (j, t2, e2, found_b, at_b, keep_b, again_b) =
      symbol_ensure-interns t1 (signature_to_string b) in
    let at_a2 =
      symbol_find-at t2 (signature_to_string a) i (keep_b (signature_to_string a) i found_a) in
    rw (e1, e2)
      (
        λ same.
            let text = some_injective _ _ (sym at_b ∙ rw same at_a2) in
            sym (read-signature_to_string a ordinary_a)
            ∙ ap read_signature (sym text)
            ∙ read-signature_to_string b ordinary_b,
        λ equal.
            let alike =
              ap (λ (s : Signature). symbol_ensure t1 (signature_to_string s)) (sym equal) in
            ap (λ (p : ℕ × SymbolTable). p.0) (sym e2 ∙ alike ∙ again),
      )
