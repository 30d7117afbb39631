-- ===== src/Tests/Exchange.antt =====
-- One exchange over a pipe at concrete inputs, at the server's end and at the client's.
use dcom.Base.{◌≡◌, refl, true, [], ◌∷◌, ok, codes, Bytes, arith}
use dcom.ClientMessageHandler.Exchange.{send_request_busy, send_request-frames}
use dcom.ClientMessageHandler.{new_handler, send_request}
use dcom.Constants.{invalid_handle_value, error_server_no_response, error_success}
use dcom.Connection.{respond}
use dcom.Marshaller.{
  Marshaller, empty_marshaller, set_wire_format, of_text, get_wire_format, get_object_id,
  set_error_code,
}
use dcom.NamedPipe.Transfer.{frame, IsReady}
use dcom.NamedPipe.{PipeApi, is_closed, flush}
use dcom.ObjectManager.{process_request, contains}
use dcom.ServerMessageHandler.Exchange.{handle_request-respond}
use dcom.ServerMessageHandler.{ServerMessageHandler, handle_request}
use dcom.Stream.{extract_int, print_int}
use dcom.Tests.Frames.{open_pipe}
use dcom.Tests.Machine.{windows, allocator, hex_format}
use dcom.Tests.Safety.{two_live}
use dcom.Tests.Windows.{idle_threads, plain_pipe}
use dcom.ThreadUtils.{ThreadApi}
use dcom.Tokenize.{push_all_tokens, tokenize}

-- The world of one end: what the other end sent, and what this end wrote last.
abbrev pub served : PipeApi (Bytes × Bytes)
served = record (plain_pipe {W = (Bytes × Bytes)}) {
  read_file = λ w h size. (true, w.0, w);
  write_file = λ w h bytes. (true, (w.0, bytes));
}

abbrev server_handler : ServerMessageHandler
server_handler = record { message_thread_handle = 8; pipe = open_pipe }

pub served-IsReady : (w : Bytes × Bytes) → IsReady served open_pipe w 4096 w
unfolding is_closed
served-IsReady w = record {
  is_open = refl;
  has_heap = λ e. absurd (omega arith);
  allocates = refl;
  has_buffer = λ e. absurd (omega arith);
}

-- A call of an object that the server does not know.
abbrev pub call_text : Bytes
call_text = codes "0?0000000000002000?0?2?3?0"

abbrev pub answer_text : Bytes
answer_text = codes "50001?0000000000002000?0?2?3?0"

pub call_answered : respond windows allocator two_live call_text ≡ ok (two_live, answer_text)
unfolding respond process_request of_text get_wire_format extract_int print_int contains
    push_all_tokens tokenize hex_format get_object_id set_error_code
call_answered = refl

handle_request-respond_example :
    handle_request windows allocator served server_handler two_live (frame call_text, [])
    ≡ ok (two_live, (flush served open_pipe (frame call_text, frame answer_text)).1)
handle_request-respond_example =
    handle_request-respond windows allocator served server_handler two_live (frame call_text, [])
      (frame call_text, []) (frame call_text, []) (frame call_text, [])
      (frame call_text, frame answer_text) 4096 4096 call_text answer_text two_live
      (served-IsReady (frame call_text, [])) (ground arith) (omega arith) refl call_answered
      (served-IsReady (frame call_text, [])) (ground arith) (omega arith) refl

abbrev pub no_threads : ThreadApi (Bytes × Bytes)
no_threads = idle_threads

abbrev pub short_request : Marshaller
short_request = record {
  all_parameters = codes "0" ∷ codes "2" ∷ [];
  total_number_of_parameters = 2;
}

pub short_printed : get_wire_format short_request ≡ ok (codes "0?2")
unfolding get_wire_format
short_printed = refl

request_answered :
    send_request served no_threads new_handler short_request empty_marshaller
      (frame answer_text, [])
    ≡ ok (
      error_success,
      record new_handler { pipe = record { pipe = 0 } },
      set_wire_format empty_marshaller answer_text,
      (frame answer_text, frame (codes "0?2")),
    )
request_answered =
    send_request-frames served no_threads new_handler short_request empty_marshaller (codes "0?2")
      short_printed (frame answer_text, []) (frame answer_text, []) (frame answer_text, [])
      (frame answer_text, frame (codes "0?2")) (frame answer_text, frame (codes "0?2"))
      (frame answer_text, frame (codes "0?2")) (frame answer_text, frame (codes "0?2")) 4 4096 4096
      answer_text true refl refl (served-IsReady (frame answer_text, [])) (ground arith)
      (omega arith) refl (served-IsReady (frame answer_text, frame (codes "0?2"))) (ground arith)
      (omega arith) refl refl

-- A server whose one instance is taken, and that gets free within the wait.
abbrev pub busy : PipeApi (Bytes × Bytes)
busy = record served {
  create_file = λ w name. (invalid_handle_value, w);
  get_last_error = λ w. 231;
}

send_request_busy_example :
    send_request busy no_threads new_handler short_request empty_marshaller ([], [])
    ≡ ok (
      error_server_no_response,
      record new_handler { pipe = record { pipe = invalid_handle_value } },
      empty_marshaller,
      ([], []),
    )
send_request_busy_example =
    send_request_busy busy no_threads new_handler short_request empty_marshaller (codes "0?2")
      short_printed ([], []) ([], []) ([], []) refl refl refl
