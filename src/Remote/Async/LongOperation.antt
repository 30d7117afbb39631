-- ===== src/Remote/Async/LongOperation.antt =====
-- `LongOperation` in asynchronous mode, over the pipe: what the caller gets at once, and what the thread
-- of the request then does.
use dcom.Base.{
  refl, ℕ, ◌≤◌, ◌≡◌, ◌≢◌, true, false, [], ◌∷◌, ◌++◌, none, some, Bytes, length, Lacks, arith, ◌==◌,
  ℤ, pos, ok,
}
use dcom.Calculator.{long_operation_disp_id}
use dcom.ClientMessageHandler.Callback.{callback_on_response}
use dcom.ClientMessageHandler.{
  ClientMessageHandler, ThreadData, new_handler, send_async_request, handle_async_request,
}
use dcom.ClientStub.{ClientStub, long_operation}
use dcom.Connection.{pipe_connection}
use dcom.Constants.{error_success}
use dcom.Format.{Platform, dword_format, string_format}
use dcom.NamedPipe.{PipeApi, new_pipe}
use dcom.ObjectManager.{Allocator}
use dcom.Protocol.{message, new_marshaller-message, set_function_parameter-message}
use dcom.Remote.Calls.{pipe_request}
use dcom.Remote.Link.{View, Link}
use dcom.Remote.PipeStub.{IsCompact-wait, IsCompact-greeting}
use dcom.Remote.Send.{IsConnected}
use dcom.Remote.Texts.{greeting, long_operation_served}
use dcom.RpcClient.{invoke, invoke_async}
use dcom.ServerMessageHandler.{ServerMessageHandler}
use dcom.Stream.{print_nat, dword_max}
use dcom.ThreadUtils.{ThreadApi}
use dcom.Tokenize.{wire_delimiter}

-- The handler of a call on the object `a` that runs in the thread `t`.
abbrev pub waiting : Platform → ℕ → ThreadData → ℕ → ℕ → Bytes → ClientMessageHandler
waiting p t td a wait_time s = record {
  thread_data = some td;
  message_thread_handle = t;
  pipe = record { pipe = 0 };
  request = message p (pos 0) a long_operation_disp_id (print_nat wait_time ∷ s ∷ []);
}

-- The stub with one more handler.
abbrev pub with_waiting : ClientStub → ClientMessageHandler → ClientStub
with_waiting stub running = record stub {
  rpc_client = record stub.rpc_client {
    async_message_handlers = stub.rpc_client.async_message_handlers ++ running ∷ [];
  };
}

module _ {W : Type 0} (p : Platform) (al : Allocator) (client server : PipeApi W)
    (threads : ThreadApi W) (v : View W) (h : ℕ) (handler : ServerMessageHandler) (others : W → W)
    (link : Link p al client server threads v h handler others) (stub : ClientStub) (wait_time : ℕ)
    (s : Bytes) where
  -- The call itself leaves the text alone.
  pub starts_waiting :
      (td : ThreadData) (t : ℕ) (w w₁ : W)
      → stub.remote_proxy_object ≢ 0
      → stub.rpc_client.critical_section_initialized ≡ true
      → t ≢ 0
      → (td.cb_fn == 0) ≡ false
      → threads.create_thread w ≡ (t, w₁)
      → long_operation p (pipe_connection client threads) stub wait_time s true td w
        ≡ ok (
          error_success,
          s,
          with_waiting stub (waiting p t td stub.remote_proxy_object wait_time s),
          w₁,
        )
  unfolding long_operation invoke invoke_async pipe_connection send_async_request new_handler
      new_pipe
  starts_waiting td t w w₁ not_null initialized runs has_cb made =
      let a = stub.remote_proxy_object in
      let thread : (t == 0) ≡ false = ground (arith, runs) in
      let object : (stub.remote_proxy_object == 0) ≡ false = ground (arith, not_null) in
      rw (
        object,
        has_cb,
        new_marshaller-message p (pos 0) a long_operation_disp_id,
        set_function_parameter-message p (pos 0) a long_operation_disp_id [] dword_format 0
            wait_time (omega arith),
        set_function_parameter-message p (pos 0) a long_operation_disp_id (print_nat wait_time ∷ [])
            string_format 1 s (omega arith),
        made,
        thread,
        initialized,
      )

  -- The thread tells its callback success and the server's greeting, and the handle of the object.
  pub waiting_ends :
      (blank : Bytes) (t : ℕ) (later : W) (td : ThreadData)
      (callbacks : ℕ → ℤ → Bytes → ℕ → ℕ → W → W)
      → IsConnected stub (v.objects later)
      → wait_time ≤ dword_max
      → Lacks wire_delimiter s
      → Lacks 0 s
      → length s ≤ 400
      → (td.cb_fn == 0) ≡ false
      → (w' : W) × (handle_async_request client threads p string_format blank callbacks
            (waiting p t td stub.remote_proxy_object wait_time s)
            later
          ≡ ok (
            error_success,
            record (waiting p t td stub.remote_proxy_object wait_time s) { thread_data = none },
            callbacks td.cb_fn error_success greeting stub.remote_proxy_object td.cb_data w',
          ))
        × (v.objects w' ≡ v.objects later)
  waiting_ends blank t later td callbacks linked ht lacks clean short has_cb =
      let a = stub.remote_proxy_object in
      let (w', sent, same) =
        pipe_request p al client server threads v h handler others link later (v.objects later) a
          error_success long_operation_disp_id (print_nat wait_time ∷ s ∷ [])
          (print_nat wait_time ∷ greeting ∷ []) linked.in_range (omega arith) (omega arith)
          (IsCompact-wait wait_time s ht lacks clean short) (IsCompact-greeting wait_time ht)
          (long_operation_served p al stub (v.objects later) linked wait_time s ht)
          (waiting p t td a wait_time s) in
      (
        w',
        callback_on_response client threads p string_format blank callbacks td has_cb
            (waiting p t td a wait_time s) (waiting p t td a wait_time s) refl later w'
            error_success a long_operation_disp_id (print_nat wait_time) (greeting ∷ [])
            linked.in_range (omega arith) sent,
        same,
      )
