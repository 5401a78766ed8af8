-- ===== src/Tests/SignatureTests.antt =====
-- Signatures of short names.
use ruwren.Prelude.{◌≡◌, ◌+◌, ◌≤◌, ◌↔◌, ◌⊎◌, refl, [], length, arith}
use ruwren.Prelude.Text.{codes}
use ruwren.Signature.{
  signature_parameter_list, parameter_loop, Signature, sig_method, sig_getter, sig_initializer,
  max_method_name, max_method_signature, max_parameters, signature_to_string, signature_symbol,
}
use ruwren.Signature.Bounds.{signature_to_string-fits}
use ruwren.Signature.Reading.{is_plain}
use ruwren.Signature.Distinct.{IsOrdinary, signature_symbol-distinct}

-- `at(_,_)` and `at`.
abbrev at_two : Signature
at_two = record { name = codes "at"; type = sig_method; arity = 2 }

abbrev at_getter : Signature
at_getter = record { name = codes "at"; type = sig_getter; arity = 0 }

at_two_text : signature_to_string at_two ≡ codes "at(_,_)"
unfolding signature_to_string signature_parameter_list parameter_loop
at_two_text = refl

two-IsOrdinary : IsOrdinary at_two
unfolding is_plain
two-IsOrdinary = record { plain = (refl, (refl, tt)); arity = omega arith }

getter-IsOrdinary : IsOrdinary at_getter
unfolding is_plain
getter-IsOrdinary = record { plain = (refl, (refl, tt)); arity = refl }

signature_to_string-fits_example :
    (length (signature_to_string at_two) + 1 ≤ max_method_signature)
    ⊎ ((at_two.type ≡ sig_initializer)
        × (length at_two.name ≡ max_method_name)
        × (max_parameters ≤ at_two.arity)
        × (length (signature_to_string at_two) ≡ max_method_signature))
signature_to_string-fits_example = signature_to_string-fits at_two (omega arith)

signature_symbol-distinct_example :
    ((signature_symbol (signature_symbol [] at_two).1 at_getter).0 ≡ (signature_symbol [] at_two).0)
    ↔ (at_two ≡ at_getter)
signature_symbol-distinct_example =
    signature_symbol-distinct [] at_two at_getter two-IsOrdinary getter-IsOrdinary
