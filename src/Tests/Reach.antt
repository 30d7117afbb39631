-- ===== src/Tests/Reach.antt =====
-- The server after its first request.
use dcom.Base.{◌≡◌, refl, [], ◌∷◌, codes, Bytes, pos, ok, inr, Ensures}
use dcom.Marshaller.{
  Marshaller, of_text, get_disp_id, get_object_id, set_error_code, get_function_parameter,
  set_function_parameter,
}
use dcom.ObjectManager.Reach.{NoDeletion, start, serve, Reachable-serves}
use dcom.ObjectManager.Safety.{Served}
use dcom.ObjectManager.{ObjectManager, empty_manager, process_request}
use dcom.ServerStub.{primitive_int}
use dcom.Stream.{extract_int, print_int}
use dcom.Tests.Machine.{windows, allocator, allocate, hex_format}
use dcom.Tokenize.{push_all_tokens, tokenize}

-- An `int` is sent to be kept, and deleted after that.
abbrev pub send_text : Bytes
send_text = codes "0?0000000000000000?1?41"

abbrev pub delete_text : Bytes
delete_text = codes "0?0000000000000000?3?0000000000001000"

abbrev pub one_object : ObjectManager
one_object = record { all_objects = 4096 ∷ []; heap = (4096, primitive_int (pos 41)) ∷ [] }

abbrev sent_reply : Marshaller
sent_reply = record {
  all_parameters =
      codes "0" ∷ codes "0000000000000000" ∷ codes "1" ∷ codes "41" ∷ codes "0000000000001000" ∷ [];
  total_number_of_parameters = 5;
}

pub sent_first :
    process_request windows allocator empty_manager (of_text send_text)
    ≡ ok (one_object, sent_reply)
unfolding process_request of_text get_object_id set_error_code push_all_tokens tokenize hex_format
    allocate empty_manager extract_int print_int get_disp_id get_function_parameter
    set_function_parameter
sent_first = refl

send_text_disp_id : get_disp_id (of_text send_text) ≡ ok (pos 1)
unfolding get_disp_id of_text push_all_tokens tokenize extract_int
send_text_disp_id = refl

pub deletes_nothing : NoDeletion windows (of_text send_text)
deletes_nothing = inr (λ e. cc (send_text_disp_id))

reached_state_serves :
    Ensures Served (process_request windows allocator one_object (of_text delete_text))
reached_state_serves =
    Reachable-serves windows allocator one_object delete_text
      (serve empty_manager one_object send_text sent_reply start deletes_nothing sent_first)
