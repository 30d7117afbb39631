-- ===== src/Tests/Texts.antt =====
-- Texts, messages and the wire format at concrete inputs.
use dcom.Base.{◌≤◌, ◌≡◌, refl, [], ◌∷◌, codes, length, get_or, arith, pos, negsuc, ok, ◌>>=◌}
use dcom.Format.{int_format, Carries-int}
use dcom.Marshaller.Access.{
  IsWell, get-set_function_parameter, set_parameter-other, set_parameter-IsWell,
}
use dcom.Marshaller.Wire.{of_text-wire, wire-of_text}
use dcom.Marshaller.{
  Marshaller, of_text, get_wire_format, set_parameter, set_function_parameter,
  get_function_parameter,
}
use dcom.Stream.RoundTrip.{extract-print_int, extract-print_dword}
use dcom.Stream.{print_int, print_nat, extract_int, extract_dword}
use dcom.Tokenize.Split.{split, push_tokens_ends}
use dcom.Tokenize.{push_tokens, rounds}

least_int_is_read : extract_int (pos 7) (print_int (negsuc 2147483647)) ≡ negsuc 2147483647
least_int_is_read = extract-print_int (pos 7) (negsuc 2147483647) (omega arith)

largest_dword_read_back : extract_dword 7 (print_nat 4294967295) ≡ 4294967295
largest_dword_read_back = extract-print_dword 7 4294967295 (omega arith)

push_tokens_ends_example :
    push_tokens (rounds (codes "1?23?")) (codes "1?23?") 0 []
    ≡ (codes "1" ∷ codes "23" ∷ [] ∷ [], 18446744073709551615)
unfolding split
push_tokens_ends_example = push_tokens_ends (codes "1?23?") [] (omega arith)

abbrev short_message : Marshaller
short_message = record {
  all_parameters = codes "0" ∷ codes "10" ∷ [];
  total_number_of_parameters = 2;
}

short_wire : get_wire_format short_message ≡ ok (codes "0?10")
unfolding get_wire_format
short_wire = refl

of_text-wire_example : of_text (codes "0?10") ≡ short_message
of_text-wire_example =
    of_text-wire short_message (codes "0?10") refl (cc) (omega arith) short_wire (omega arith)

wire-of_text_example : get_wire_format (of_text (codes "?1??")) ≡ ok (codes "?1??")
wire-of_text_example = wire-of_text (codes "?1??") (omega arith)

written_then_read :
    (do
      (m, done) ← set_function_parameter int_format short_message (pos 2) (negsuc 4)
      get_function_parameter int_format m (pos 2) (pos 9))
    ≡ ok (negsuc 4)
written_then_read =
    (get-set_function_parameter int_format short_message 1 (negsuc 4) (pos 9) refl (omega arith)
      (Carries-int (negsuc 4) (omega arith))).2

written_and_grown :
    (m : Marshaller) × (set_parameter int_format short_message (pos 5) (pos 3) ≡ ok m)
    × IsWell m
    × (2 ≤ length m.all_parameters)
    × (get_or m.all_parameters 1 [] ≡ codes "10")
written_and_grown =
    set_parameter-other int_format short_message 4 (pos 3) 1 refl (omega arith) (omega arith)

written_message : Marshaller
written_message = record {
  all_parameters = codes "7" ∷ codes "10" ∷ [];
  total_number_of_parameters = 2;
}

writes : set_parameter int_format short_message (pos 1) (pos 7) ≡ ok written_message
unfolding set_parameter written_message print_int
writes = refl

written_count_right : IsWell written_message
written_count_right = set_parameter-IsWell int_format short_message (pos 1) (pos 7) refl writes
