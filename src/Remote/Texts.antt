-- ===== src/Remote/Texts.antt =====
-- The remote `ReverseName` and `LongOperation` compute what the local ones do.
use mathlib.Core.List.{reverse}
use dcom.ClientMessageHandler.{ThreadData, no_callback}
use dcom.Base.{
  ℕ, ◌-◌, ◌<◌, ◌≤◌, ◌≡◌, refl, false, [], ◌∷◌, some, Bytes, codes, length, Lacks, ◌≢◌,
  length-reverse, reverse-Lacks, arith, pos, ok, ◌==◌,
}
use dcom.Calculator
use dcom.Calculator.{
  ICalculator, calculator, add_disp_id, reverse_name_disp_id, long_operation_disp_id,
}
use dcom.ClientStub.{ClientStub, reverse_name, long_operation}
use dcom.Connection.{Connection, direct}
use dcom.RpcClient.{invoke}
use dcom.Marshaller.{empty_marshaller}
use dcom.Constants.{error_success, npos}
use dcom.Format.{Platform, Carries-dword, dword_format, string_format}
use dcom.ObjectManager.Requests.{call_reply}
use dcom.ObjectManager.{Allocator, ObjectManager, process_request}
use dcom.Protocol.{
  message, new_marshaller-message, set_function_parameter-message, get_printed-message,
  get_function_parameter-message,
}
use dcom.Remote.Send.{IsConnected, invoke-direct}
use dcom.ServerStub.Replies.{invoke_reverse_name_reply, invoke_long_operation_reply}
use dcom.ServerStub.{custom}
use dcom.Stream.Digits.{length-print_nat}
use dcom.Stream.RoundTrip.{print_nat-Lacks}
use dcom.Stream.{print_nat, dword_max}
use dcom.Tokenize.{wire_delimiter}

-- What `Calculator::LongOperation` answers.
abbrev pub greeting : Bytes
greeting = codes "Hello from server!!!"

-- What the client makes of the reply to a call of `ReverseName`, over any connection.
pub reverse_name_answered :
    (p : Platform) {W : Type 0} (net : Connection W) (stub : ClientStub) (w w' : W) (s s' : Bytes)
    → stub.remote_proxy_object ≢ 0
    → invoke net
        (message p (pos 0) stub.remote_proxy_object reverse_name_disp_id (s ∷ []))
        empty_marshaller
        false
        no_callback
        stub.rpc_client
        w
      ≡ ok (
        error_success,
        message p error_success stub.remote_proxy_object reverse_name_disp_id (s' ∷ []),
        stub.rpc_client,
        w',
      )
    → reverse_name p net stub s w ≡ ok (error_success, s', stub, w')
unfolding reverse_name
reverse_name_answered p net stub w w' s s' not_null answered =
    let object : (stub.remote_proxy_object == 0) ≡ false = ground (arith, not_null) in
    rw (
      object,
      new_marshaller-message p (pos 0) stub.remote_proxy_object reverse_name_disp_id,
      set_function_parameter-message p (pos 0) stub.remote_proxy_object reverse_name_disp_id []
          string_format 0 s (omega arith),
      answered,
      get_function_parameter-message p error_success stub.remote_proxy_object reverse_name_disp_id
          (s' ∷ []) string_format 0 s (omega arith),
    )

-- What the client makes of the reply to a synchronous call of `LongOperation`, over any connection.
pub long_operation_answered :
    (p : Platform) {W : Type 0} (net : Connection W) (stub : ClientStub) (w w' : W) (t : ℕ)
    (s s' : Bytes) (td : ThreadData)
    → stub.remote_proxy_object ≢ 0
    → t ≤ dword_max
    → invoke net
        (message p (pos 0) stub.remote_proxy_object long_operation_disp_id (print_nat t ∷ s ∷ []))
        empty_marshaller
        false
        no_callback
        stub.rpc_client
        w
      ≡ ok (
        error_success,
        message p error_success stub.remote_proxy_object long_operation_disp_id
            (print_nat t ∷ s' ∷ []),
        stub.rpc_client,
        w',
      )
    → long_operation p net stub t s false td w ≡ ok (error_success, s', stub, w')
unfolding long_operation invoke
long_operation_answered p net stub w w' t s s' td not_null ht answered =
    let a = stub.remote_proxy_object in
    let object : (stub.remote_proxy_object == 0) ≡ false = ground (arith, not_null) in
    rw (
      object,
      new_marshaller-message p (pos 0) a long_operation_disp_id,
      set_function_parameter-message p (pos 0) a long_operation_disp_id [] dword_format 0 t
          (omega arith),
      set_function_parameter-message p (pos 0) a long_operation_disp_id (print_nat t ∷ [])
          string_format 1 s (omega arith),
      answered,
      get_printed-message p error_success a long_operation_disp_id (print_nat t ∷ s' ∷ [])
          dword_format 0 t t (omega arith) refl (Carries-dword t ht),
      get_function_parameter-message p error_success a long_operation_disp_id
          (print_nat t ∷ s' ∷ []) string_format 1 s (omega arith),
    )

module _ (p : Platform) (al : Allocator) (stub : ClientStub) (o : ObjectManager)
    (linked : IsConnected stub o) where
  abbrev a : ℕ
  a = stub.remote_proxy_object

  object : (stub.remote_proxy_object == 0) ≡ false
  object = ground (arith, linked.not_null)

  pub reverse_name_served :
      (s : Bytes)
      → process_request p al o (message p (pos 0) a reverse_name_disp_id (s ∷ []))
        ≡ ok (o, message p error_success a reverse_name_disp_id (reverse s ∷ []))
  reverse_name_served s =
      call_reply p al o (pos 0) a reverse_name_disp_id (s ∷ []) linked.not_null linked.in_range
        (custom (some calculator)) (reverse s ∷ []) error_success linked.known linked.live
        (invoke_reverse_name_reply p calculator (pos 0) a s (reverse s) (pos 0)
          (unfold calculator Calculator.reverse_name in refl))

  -- On a connected stub, the remote `ReverseName` returns success and the reversed text, if the
  -- text holds no question mark and is shorter than `npos - 200`; the server's objects and the
  -- client stay as they were.
  pub remote_reverse_name :
      (s : Bytes)
      → Lacks wire_delimiter s
      → length s < npos - 200
      → reverse_name p (direct p al) stub s o ≡ ok (error_success, reverse s, stub, o)
  remote_reverse_name s clean short =
      reverse_name_answered p (direct p al) stub o o s (reverse s) linked.not_null (
        invoke-direct p al o o a error_success reverse_name_disp_id (s ∷ []) (reverse s ∷ [])
          stub.rpc_client linked.in_range (omega arith) (omega arith)
          (record { undelimited = (clean, tt); short = omega arith })
          (record {
            undelimited = (reverse-Lacks wire_delimiter s clean, tt);
            short = omega (arith, length-reverse s);
          })
          (reverse_name_served s))

  pub long_operation_served :
      (t : ℕ) (s : Bytes)
      → t ≤ dword_max
      → process_request p al o (message p (pos 0) a long_operation_disp_id (print_nat t ∷ s ∷ []))
        ≡ ok (o, message p error_success a long_operation_disp_id (print_nat t ∷ greeting ∷ []))
  long_operation_served t s ht =
      call_reply p al o (pos 0) a long_operation_disp_id (print_nat t ∷ s ∷ []) linked.not_null
        linked.in_range (custom (some calculator)) (print_nat t ∷ greeting ∷ []) error_success
        linked.known linked.live
        (invoke_long_operation_reply p calculator (pos 0) a t s greeting (pos 0) ht
          (unfold calculator Calculator.long_operation in refl))

  -- On a connected stub, the remote `LongOperation` in synchronous mode returns success and the
  -- server's greeting, for any wait time that is a `DWORD` and any text that holds no question
  -- mark and is shorter than `npos - 200`.
  pub remote_long_operation :
      (t : ℕ) (s : Bytes) (td : ThreadData)
      → t ≤ dword_max
      → Lacks wire_delimiter s
      → length s < npos - 200
      → long_operation p (direct p al) stub t s false td o
        ≡ ok (error_success, codes "Hello from server!!!", stub, o)
  remote_long_operation t s td ht clean short =
      long_operation_answered p (direct p al) stub o o t s greeting td linked.not_null ht (
        invoke-direct p al o o a error_success long_operation_disp_id (print_nat t ∷ s ∷ [])
          (print_nat t ∷ greeting ∷ []) stub.rpc_client linked.in_range (omega arith) (omega arith)
          (record {
            undelimited = (print_nat-Lacks t, (clean, tt));
            short = omega (arith, length-print_nat t (omega arith));
          })
          (record {
            undelimited = (print_nat-Lacks t, (omega arith, tt));
            short = omega (arith, length-print_nat t (omega arith));
          })
          (long_operation_served t s ht))
