-- ===== src/Tests/Requests.antt =====
-- Requests to the server at concrete inputs.
use dcom.Base.{
  ◌≡◌, refl, true, false, [], ◌∷◌, some, none, codes, arith, pos, negsuc, ok, err, dangling,
  Ensures, text_eq, ◌>>=◌,
}
use dcom.Calculator.{ICalculator, calculator, add_disp_id}
use dcom.Constants.{error_success, error_dispid_invalid, error_no_object_found}
use dcom.Marshaller.Access.{init_helper-IsWell}
use dcom.Marshaller.{empty_marshaller, init_helper}
use dcom.ObjectManager.Destructor.{deleted_twice}
use dcom.ObjectManager.Lifetime.{
  in_turn, delete_request, use_after_delete, delete_other, stored_int,
}
use dcom.ObjectManager.Requests.{call_unknown, create_unregistered_reply}
use dcom.ObjectManager.Safety.{calculator-IsSafe}
use dcom.ObjectManager.{
  load, contains, ObjectManager, process_request, destroy_manager, e_create_custom_object_disp_id,
  e_create_int_disp_id,
}
use dcom.Protocol.{message}
use dcom.ServerStub.Replies.{invoke_add_reply, invoke_other_reply}
use dcom.ServerStub.Safety.{WellReply, invoke_safe}
use dcom.ServerStub.{custom, primitive_int, invoke}
use dcom.Stream.{print_int}
use dcom.Tests.Machine.{windows, allocator, allocate}

abbrev two_objects : ObjectManager
two_objects = record {
  all_objects = 4112 ∷ 4096 ∷ [];
  heap = (4112, primitive_int (pos 7)) ∷ (4096, custom (some calculator)) ∷ [];
}

calculator_known : contains 4096 two_objects.all_objects ≡ true
unfolding contains
calculator_known = refl

calculator_live : load 4096 two_objects.heap ≡ some (custom (some calculator))
unfolding load
calculator_live = refl

use_after_delete_example :
    (in_turn windows allocator two_objects
        (delete_request windows (pos 0) 4096)
        (message windows (pos 0) 4096 (pos 0) [])
      ≡ err dangling)
    × (in_turn windows allocator two_objects
          (delete_request windows (pos 0) 4096)
          (delete_request windows (pos 0) 4096)
        ≡ err dangling)
use_after_delete_example =
    use_after_delete windows allocator two_objects 4096 (custom (some calculator)) (pos 0) (pos 0)
      (pos 0) [] (λ e. absurd (omega arith)) (omega arith) calculator_known calculator_live

deleted_twice_example :
    (do
      (o', reply) ←
          process_request windows allocator two_objects (delete_request windows (pos 0) 4096)
      destroy_manager o')
    ≡ err dangling
deleted_twice_example =
    deleted_twice windows allocator two_objects 4096 (custom (some calculator)) (pos 0)
      (λ e. absurd (omega arith)) (omega arith) calculator_known calculator_live

delete_other_example :
    (o' : ObjectManager) × (process_request windows allocator two_objects
        (delete_request windows (pos 0) 4096)
      ≡ ok (o', delete_request windows (pos 0) 4096))
    × (load 4096 o'.heap ≡ none)
    × (load 4112 o'.heap ≡ load 4112 two_objects.heap)
    × (o'.all_objects ≡ 4112 ∷ 4096 ∷ [])
delete_other_example =
    delete_other windows allocator two_objects 4096 4112 (custom (some calculator)) (pos 0)
      (λ e. absurd (omega arith)) (omega arith) calculator_known calculator_live
      (λ e. absurd (omega arith))

allocated : allocate two_objects.heap ≡ some 4128
unfolding allocate
allocated = refl

negative_number_kept :
    in_turn windows allocator two_objects
      (message windows (pos 0) 0 e_create_int_disp_id (print_int (negsuc 41) ∷ []))
      (message windows (pos 0) 4128 (pos 6) [])
    ≡ ok (message windows error_success 4128 (pos 6) (print_int (negsuc 41) ∷ []))
negative_number_kept =
    stored_int windows allocator two_objects (pos 0) (pos 0) (pos 6) 4128 allocated (negsuc 41) []
      (omega arith)

unregistered : text_eq (codes "Counter") (codes "Calculator") ≡ false
unfolding text_eq
unregistered = refl

create_unregistered_reply_example :
    process_request windows allocator two_objects
      (message windows (pos 0) 0 e_create_custom_object_disp_id (codes "Counter" ∷ []))
    ≡ ok (
      two_objects,
      message windows error_dispid_invalid 0 e_create_custom_object_disp_id (codes "Counter" ∷ []),
    )
create_unregistered_reply_example =
    create_unregistered_reply windows allocator two_objects (pos 0) (codes "Counter") unregistered

stranger : contains 8192 two_objects.all_objects ≡ false
unfolding contains
stranger = refl

unknown_object_refused :
    process_request windows allocator two_objects (message windows (pos 0) 8192 (pos 0) [])
    ≡ ok (two_objects, message windows error_no_object_found 8192 (pos 0) [])
unknown_object_refused =
    call_unknown windows allocator two_objects (pos 0) 8192 (pos 0) [] (λ e. absurd (omega arith))
      (omega arith) (cc) stranger

calculator_called_safely :
    Ensures WellReply
      (invoke (custom (some calculator)) (init_helper empty_marshaller (codes "0?1")))
calculator_called_safely =
    invoke_safe (custom (some calculator)) (init_helper empty_marshaller (codes "0?1"))
      calculator-IsSafe (init_helper-IsWell empty_marshaller (codes "0?1"))

-- A calculator that answers 9 and reports the error 5.
abbrev failing : ICalculator
failing = record {
  add = λ x y z. ok (pos 5, pos 9);
  reverse_name = λ s. ok (pos 5, s);
  long_operation = λ t s. ok (pos 5, s);
}

invoke_add_reply_example :
    invoke
      (custom (some failing))
      (message windows (pos 0) 4096 add_disp_id (print_int (pos 1) ∷ print_int (pos 2) ∷ [] ∷ []))
    ≡ ok (
      message windows
          (pos 0)
          4096
          add_disp_id
          (print_int (pos 1) ∷ print_int (pos 2) ∷ print_int (pos 9) ∷ []),
      error_success,
    )
invoke_add_reply_example =
    invoke_add_reply windows failing (pos 0) 4096 (pos 1) (pos 2) (pos 9) (pos 5) [] (omega arith)
      (omega arith) refl

other_disp_id_refused :
    invoke (custom (some calculator)) (message windows (pos 0) 4096 (pos 3) [])
    ≡ ok (message windows (pos 0) 4096 (pos 3) [], error_dispid_invalid)
other_disp_id_refused =
    invoke_other_reply windows calculator (pos 0) 4096 (pos 3) [] (omega arith) refl refl refl
