-- ===== src/Tests/Callbacks.antt =====
-- The test program's callback, called by the thread of an asynchronous request.
use dcom.Base.{
  ℕ, ◌≡◌, refl, true, false, not, [], ◌∷◌, some, none, codes, Bytes, arith, ok, ℤ, pos, ◌==◌,
}
use dcom.ClientMessageHandler.Callback.{callback_on_response, callback_on_failure}
use dcom.ClientMessageHandler.Exchange.{send_request_busy, send_request-frames}
use dcom.ClientMessageHandler.{ClientMessageHandler, ThreadData, send_request, handle_async_request}
use dcom.ClientProgram.{callback_print}
use dcom.Constants.{error_success, error_server_no_response, invalid_handle_value}
use dcom.Format.{int_format}
use dcom.Marshaller.{Marshaller, empty_marshaller, set_wire_format}
use dcom.NamedPipe.Transfer.{frame}
use dcom.Protocol.{message}
use dcom.Stream.{print_int}
use dcom.Tests.Exchange.{short_request, short_printed, served, served-IsReady, no_threads, busy}
use dcom.Tests.Machine.{windows, hex_format}
use dcom.Tokenize.{push_all_tokens, tokenize}

-- The callback writes its text in the place of what was written last.
abbrev print_it : ℕ → ℤ → ℤ → ℕ → ℕ → Bytes × Bytes → Bytes × Bytes
print_it fn code v id cb_data w =
    (w.0, (callback_print windows int_format 77 code v id (not (cb_data == 0))).0)

abbrev given_data : ThreadData
given_data = record { cb_fn = 1300; cb_data = 500 }

abbrev asking : ClientMessageHandler
asking = record {
  thread_data = some given_data;
  message_thread_handle = 8;
  pipe = record { pipe = 0 };
  request = short_request;
}

-- The answer reports an error, and has an `int`.
abbrev failed_text : Bytes
failed_text = codes "50001?0000000000001000?1?41"

abbrev failed_reply : Marshaller
failed_reply = message windows (pos 50001) 4096 (pos 1) (codes "41" ∷ [])

failed_read : set_wire_format empty_marshaller failed_text ≡ failed_reply
unfolding set_wire_format push_all_tokens tokenize print_int hex_format empty_marshaller
failed_read = refl

failed_arrives :
    send_request served no_threads asking short_request empty_marshaller (frame failed_text, [])
    ≡ ok (error_success, asking, failed_reply, (frame failed_text, frame (codes "0?2")))
failed_arrives = rw (← failed_read) (
    send_request-frames served no_threads asking short_request empty_marshaller (codes "0?2")
      short_printed (frame failed_text, []) (frame failed_text, []) (frame failed_text, [])
      (frame failed_text, frame (codes "0?2")) (frame failed_text, frame (codes "0?2"))
      (frame failed_text, frame (codes "0?2")) (frame failed_text, frame (codes "0?2")) 4 4096 4096
      failed_text true refl refl (served-IsReady (frame failed_text, [])) (ground arith)
      (omega arith) refl (served-IsReady (frame failed_text, frame (codes "0?2"))) (ground arith)
      (omega arith) refl refl)

-- The callback prints success, the number and the object's id.
callback_on_response_example :
    handle_async_request served no_threads windows int_format
      (pos 0)
      print_it
      asking
      (frame failed_text, [])
    ≡ ok (
      error_success,
      record asking { thread_data = none },
      print_it 1300 error_success
          (int_format.extract (pos 0) (codes "41"))
          4096
          500
          (frame failed_text, frame (codes "0?2")),
    )
callback_on_response_example =
    callback_on_response served no_threads windows int_format (pos 0) print_it given_data refl
      asking asking refl (frame failed_text, []) (frame failed_text, frame (codes "0?2"))
      (pos 50001) 4096 (pos 1) (codes "41") [] (omega arith) (omega arith) failed_arrives

callback_on_failure_example :
    handle_async_request busy no_threads windows int_format (pos 0) print_it asking ([], [])
    ≡ ok (
      error_server_no_response,
      record asking { thread_data = none; pipe = record { pipe = invalid_handle_value } },
      print_it 1300 error_server_no_response (pos 0) invalid_handle_value 500 ([], []),
    )
callback_on_failure_example =
    callback_on_failure busy no_threads windows int_format (pos 0) print_it given_data refl asking
      (record asking { pipe = record { pipe = invalid_handle_value } }) refl ([], []) ([], [])
      error_server_no_response refl
      (send_request_busy busy no_threads asking short_request empty_marshaller (codes "0?2")
        short_printed ([], []) ([], []) ([], []) refl refl refl)

-- What the callback writes of it, with its data not null and null.
printed_copy : callback_print windows int_format 77 error_success (pos 41) 4096 true ≡ (
  codes
      "\n\t\t\t CallbackPrint() [Thread Id] 77 [ErrorCode] 0 [Input] 0000000000001000 [Output] 41 [Copy] 41\n\n\n",
  some (pos 41),
  true,
)
unfolding callback_print hex_format print_int
printed_copy = refl

printed_creation : callback_print windows int_format 77 error_success (pos 41) 0 false ≡ (
  codes
      "\n\t\t\t CallbackPrint() [Thread Id] 77 [ErrorCode] 0 [Input]  NULL (callback in creation request) [Output] 41 [Copy] Null callback data\n\n\n",
  none,
  true,
)
unfolding callback_print hex_format print_int
printed_creation = refl
