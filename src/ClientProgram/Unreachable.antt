-- ===== src/ClientProgram/Unreachable.antt =====
-- The synchronous tests where no server has made its pipe.
use dcom.Base.{
  ℕ, zero, suc, ◌≡◌, ◌≢◌, refl, Bool, true, false, [], ◌∷◌, ◌++◌, append_assoc, List, none, some,
  Bytes, codes, arith, ℤ, pos, Fault, ok,
}
use dcom.ClientMessageHandler.Polling.{
  absent, Refused, at_once, again, unopened, send_request_gives_up,
}
use dcom.ClientMessageHandler.{
  no_callback, new_handler, server_pipe_name, client_poll_frequency_in_ms, destroy,
}
use dcom.ClientProgram.CalculatorTest.{calculator_test}
use dcom.ClientProgram.ClassTest.{Names, after_calls, class_test}
use dcom.ClientProgram.{type_name, sent_line, send_and_receive, try_next}
use dcom.ClientStub.{new_stub}
use dcom.Connection.{pipe_connection, send_over_pipe}
use dcom.Constants.{error_server_no_response, invalid_handle_value, max_number_of_times_to_poll}
use dcom.Format.{Format, Platform, int_format, string_format}
use dcom.Marshaller.Wire.{get_wire_format-join}
use dcom.Marshaller.{empty_marshaller}
use dcom.NamedPipe.{PipeApi, error_pipe_busy}
use dcom.ObjectManager.{
  e_create_custom_object_disp_id, e_create_int_disp_id, e_create_string_disp_id,
}
use dcom.Protocol.{message, new_marshaller-message, set_function_parameter-message}
use dcom.RpcClient.{
  ParameterType, int_type, string_type, RpcClient, new_client, disp_id_of, invoke, invoke_sync,
  created, create_remote_instance, send_data_internal, send_primitive_data, destroy_client,
  stop_all, end_all,
}
use dcom.Stream.{print_int}
use dcom.ThreadUtils.{ThreadApi}
use dcom.Tokenize.Split.{join}

-- No pipe of the server's name exists: `CreateFile` fails, and not because the pipe is busy.
pub record IsAbsent {W : Type 0} (client : PipeApi W) : Type 0 where
  pub no_pipe :
      (w : W)
      → (w' : W) × (client.create_file w server_pipe_name ≡ (invalid_handle_value, w'))
        × (client.get_last_error w' ≢ error_pipe_busy)

abbrev no_object_line : Bytes
no_object_line = codes "NULL object.\nSkipping GetPrimitiveData() due to null object id\n"

-- The console after the synchronous test of a type.
abbrev pub refused_transcript {ℓ} : {T : Type ℓ} → ParameterType → Format T → T → Bytes
refused_transcript type f t =
    codes "\n\n************** Synchronous test - "
    ++ type_name type
    ++ codes
        " **************\n\n\t1. [Function] - SendPrimitivecDataAsync() [ErrorCode] 50010 [Input] "
    ++ f.print t
    ++ codes " [Output] "
    ++ no_object_line

-- The console after the calculator's test.
abbrev pub thrown_transcript : Bytes
thrown_transcript =
    codes "\n\n************** Calculator object test **************\n"
    ++ codes "CreateRemoteInstance error. Id 50010\n"

module _ {W : Type 0} (p : Platform) (client : PipeApi W) (threads : ThreadApi W)
    (absent_server : IsAbsent client) where
  attempts-Refused : (attempts : ℕ) (w : W) → (w' : W) × Refused client threads attempts w w'
  attempts-Refused zero w = (w, at_once)
  attempts-Refused (suc attempts) w =
      let (w₁, opened, other) = absent_server.no_pipe w in
      let (w₂, rest) = attempts-Refused attempts (threads.sleep w₁ client_poll_frequency_in_ms) in
      (w₂, again (absent w₁ opened other) rest)

  not_answered :
      (d : ℤ) (params : List Bytes) (w : W)
      → (w' : W) × (send_over_pipe client threads (message p (pos 0) 0 d params) empty_marshaller w
          ≡ ok (error_server_no_response, empty_marshaller, w'))
  unfolding send_over_pipe
  not_answered d params w =
      let (w₁, refused) = attempts-Refused max_number_of_times_to_poll w in
      (
        destroy client threads (record new_handler { pipe = unopened }) w₁,
        rw
            (send_request_gives_up client threads new_handler (message p (pos 0) 0 d params)
              empty_marshaller (join (message p (pos 0) 0 d params).all_parameters)
              (get_wire_format-join (message p (pos 0) 0 d params) refl) refused)
            refl,
      )

  create_refused :
      {T : Type 0} (f : Format T) (t : T) (d : ℤ) (c : RpcClient) (w : W)
      → (w' : W) × (create_remote_instance p
            (pipe_connection client threads)
            f
            t
            true
            d
            false
            no_callback
            c
            w
          ≡ ok (error_server_no_response, none, c, w'))
  unfolding create_remote_instance created invoke invoke_sync pipe_connection
  create_refused f t d c w =
      let (w', sent) = not_answered d (f.print t ∷ []) w in
      (
        w',
        rw (
          new_marshaller-message p (pos 0) 0 d,
          set_function_parameter-message p (pos 0) 0 d [] f 0 t (omega arith),
          sent,
        ),
      )

  not_sent :
      {T : Type 0} (type : ParameterType) (f : Format T) (t t1 : T) (initialized : Bool) (w w' : W)
      → send_primitive_data p (pipe_connection client threads) type f t (new_client initialized) w
        ≡ ok (error_server_no_response, none, new_client initialized, w')
      → send_and_receive p (pipe_connection client threads) type f t t1 initialized w
        ≡ ok (refused_transcript type f t, some w')
  unfolding send_and_receive try_next sent_line print_int destroy_client stop_all end_all new_client
  not_sent type f t t1 initialized w w' sent = rw sent (simp (append_assoc))

  throws :
      (what : Fault → Bytes) (names : Names W) (initialized : Bool) (w : W)
      → class_test p (pipe_connection client threads) threads what names initialized w
        ≡ ok (thrown_transcript, none)
  unfolding class_test calculator_test after_calls new_stub try_next print_int
  throws what names initialized w =
      let (w', refused) =
        create_refused string_format (codes "Calculator") e_create_custom_object_disp_id
          (new_client initialized) w in
      rw refused refl

  -- Where no server has made its pipe, the program's synchronous tests end: those of an `int` and of a
  -- string (any two) write error 50010 and that they have no object to read, and the calculator's
  -- test writes the exception of its stub's constructor. No other exception is caught, and the
  -- client's side of the pipe and the threads are those of the code.
  pub tests_unreachable :
      (n t1 : ℤ) (s t1' : Bytes) (what : Fault → Bytes) (names : Names W) (initialized : Bool)
      (w : W)
      → (w₁ w₂ : W) × (send_and_receive p
            (pipe_connection client threads)
            int_type
            int_format
            n
            t1
            initialized
            w
          ≡ ok (refused_transcript int_type int_format n, some w₁))
        × (send_and_receive p
              (pipe_connection client threads)
              string_type
              string_format
              s
              t1'
              initialized
              w₁
            ≡ ok (refused_transcript string_type string_format s, some w₂))
        × (class_test p (pipe_connection client threads) threads what names initialized w₂
            ≡ ok (thrown_transcript, none))
  unfolding send_primitive_data send_data_internal disp_id_of
  tests_unreachable n t1 s t1' what names initialized w =
      let c = new_client initialized in
      let (w₁, first) = create_refused int_format n e_create_int_disp_id c w in
      let (w₂, second) = create_refused string_format s e_create_string_disp_id c w₁ in
      (
        w₁,
        w₂,
        not_sent int_type int_format n t1 initialized w w₁ first,
        not_sent string_type string_format s t1' initialized w₁ w₂ second,
        throws what names initialized w₂,
      )
