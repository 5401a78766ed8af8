-- ===== src/Signature.antt =====
-- ruwren-sys/src/wren_compiler.c: method signatures as text, by which methods are found. The
-- buffers for that text have as many bytes as `MAX_METHOD_SIGNATURE` of wren_common.h.
pub mod Bounds
pub mod Reading
pub mod Distinct
use ruwren.Prelude.{
  ℕ, zero, suc, ◌+◌, ◌-◌, ◌*◌, Bool, List, [], ◌∷◌, ◌++◌, ltb, ◌==◌, if◌then◌else◌, length, take,
}
use ruwren.Scopes.{Compiler, compile_error, too_many_parameters, method_name_too_long}
use ruwren.Symbols.{SymbolTable, symbol_ensure}

pub data SignatureType : Type 0 where
  sig_method sig_getter sig_setter sig_subscript : SignatureType
  sig_subscript_setter sig_initializer : SignatureType

pub record Signature : Type 0 where
  pub name : List ℕ
  pub type : SignatureType
  pub arity : ℕ

abbrev pub max_parameters : ℕ
max_parameters = 16

abbrev pub max_method_name : ℕ
max_method_name = 64

abbrev pub max_method_signature : ℕ
max_method_signature = max_method_name + max_parameters * 2 + 6

unfoldable pub validate_num_parameters : ℕ → Compiler → Compiler
validate_num_parameters num_args c =
    if num_args == max_parameters + 1 then compile_error too_many_parameters c else c

-- The loop of `signatureParameterList` with `rounds` left, from `i`.
unfoldable pub parameter_loop : ℕ → ℕ → List ℕ → List ℕ
parameter_loop zero i name = name
parameter_loop (suc rounds) i name =
    parameter_loop rounds (i + 1) ((if ltb 0 i then name ++ b',' ∷ [] else name) ++ b'_' ∷ [])

unfoldable pub signature_parameter_list : List ℕ → ℕ → ℕ → ℕ → List ℕ
signature_parameter_list name num_params left right =
    parameter_loop (if ltb num_params max_parameters then num_params else max_parameters) 0
      (name ++ left ∷ [])
    ++ right ∷ []

-- Without the terminating zero.
unfoldable pub signature_to_string : Signature → List ℕ
signature_to_string s = elim s.type [
  | sig_method ↦ signature_parameter_list s.name s.arity b'(' b')'
  | sig_getter ↦ s.name
  | sig_setter ↦ signature_parameter_list (s.name ++ b'=' ∷ []) 1 b'(' b')'
  | sig_subscript ↦ signature_parameter_list s.name s.arity b'[' b']'
  | sig_subscript_setter ↦
      signature_parameter_list
        (signature_parameter_list s.name (s.arity - 1) b'[' b']' ++ b'=' ∷ []) 1 b'(' b')'
  | sig_initializer ↦
      signature_parameter_list ((b'i' ∷ b'n' ∷ b'i' ∷ b't' ∷ b' ' ∷ []) ++ s.name) s.arity b'(' b')'
]

-- With `methodSymbol`.
unfoldable pub signature_symbol : SymbolTable → Signature → ℕ × SymbolTable
signature_symbol method_names s = symbol_ensure method_names (signature_to_string s)

-- `token` is the text of the previous token.
unfoldable pub signature_from_token : List ℕ → SignatureType → Compiler → Signature × Compiler
signature_from_token token type c =
    if ltb max_method_name (length token)
    then (
      record { name = take max_method_name token; type = type; arity = 0 },
      compile_error method_name_too_long c,
    )
    else (record { name = token; type = type; arity = 0 }, c)
