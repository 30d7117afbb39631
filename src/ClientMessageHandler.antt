-- ===== src/ClientMessageHandler.antt =====
-- Common/include/ClientMessageHandler.h and Common/ClientMessageHandler.cpp: one request over a pipe,
-- in the caller's thread or in one of its own. A function pointer is an address, null where it is 0;
-- what the function there does is an argument of the thread's function, `handle_async_request`.
pub mod Exchange
pub mod Polling
pub mod Callback
use dcom.Base.{
  ℕ, zero, suc, not, [], Option, none, some, Bytes, codes, ◌==◌, if◌then◌else◌, ℤ, pos, eq_ℤ,
  Outcome, ok, ◌>>=◌,
}
use dcom.Constants.{
  max_number_of_times_to_poll, error_success, error_server_no_response, error_send_failed,
  error_receive_failed, error_parameter_invalid,
}
use dcom.Format.{Format, Platform}
use dcom.Marshaller.{
  Marshaller, get_wire_format, set_wire_format, empty_marshaller, get_function_parameter,
  get_last_function_parameter_index, get_object_id,
}
use dcom.NamedPipe.{
  PipeApi, NamedPipe, new_pipe, open_with_wait_on_busy, is_connected, read, write, close,
}
use dcom.ThreadUtils.{ThreadApi, wait_and_terminate_thread}

-- `SERVER_PIPE_NAME`
abbrev pub server_pipe_name : Bytes
server_pipe_name = codes "\\\\.\\pipe\\srv"

abbrev pub pipe_busy_timeout : ℕ
pipe_busy_timeout = 1000

abbrev pub client_poll_frequency_in_ms : ℕ
client_poll_frequency_in_ms = 500

-- What the thread of a request needs: the callback and the caller's data.
pub record ThreadData : Type 0 where
  pub cb_fn : ℕ
  pub cb_data : ℕ

-- The default arguments: no callback.
abbrev pub no_callback : ThreadData
no_callback = record { cb_fn = 0; cb_data = 0 }

pub record ClientMessageHandler : Type 0 where
  pub thread_data : Option ThreadData
  pub message_thread_handle : ℕ
  pub pipe : NamedPipe
  pub request : Marshaller

unfoldable pub new_handler : ClientMessageHandler
new_handler = record {
  thread_data = none;
  message_thread_handle = 0;
  pipe = new_pipe;
  request = empty_marshaller;
}

module _ {W : Type 0} (api : PipeApi W) (threads : ThreadApi W) where
  -- The `for` loop of `SendRequest`: `left` more attempts.
  unfoldable pub poll : ℕ → NamedPipe → W → NamedPipe × W
  poll zero n w = (n, w)
  poll (suc left) n w =
      let (opened, n', w') = open_with_wait_on_busy api n server_pipe_name pipe_busy_timeout w in
      let later = poll left n' (threads.sleep w' client_poll_frequency_in_ms) in
      if opened then (n', w') else later

  -- Write and read over the connected pipe: a failed read covers a failed write.
  unfoldable pub exchange : NamedPipe → Bytes → W → ℤ × Bytes × W
  exchange n s w =
      let (written, w') = write api n s w in
      let (received, response_str, w'') = read api n [] w' in
      let after_write = if written then error_success else error_send_failed in
      (if received then after_write else error_receive_failed, response_str, w'')

  unfoldable pub send_request :
      ClientMessageHandler
      → Marshaller
      → Marshaller
      → W
      → Outcome (ℤ × ClientMessageHandler × Marshaller × W)
  send_request handler request response w = do
    s ← get_wire_format request
    let (n, w₁) = poll max_number_of_times_to_poll handler.pipe w
    let (code, response_str, w₂) = exchange n s w₁
    let (_, n', w₃) = close api n w₂
    if not (is_connected n)
        then ok (error_server_no_response, record handler { pipe = n }, response, w₁)
        else ok (
          code,
          record handler { pipe = n' },
          if eq_ℤ code error_success then set_wire_format response response_str else response,
          w₃,
        )

  -- `SendAsyncRequest`: the error code, and whether the thread runs, which then does
  -- `handle_async_request`. `make_shared` never returns null, so the test of its result is not a branch here.
  unfoldable pub send_async_request :
      ClientMessageHandler → Marshaller → ThreadData → W → ℤ × ClientMessageHandler × W
  send_async_request handler request td w =
      let (thread, w') = threads.create_thread w in
      (
        if thread == 0 then pos (threads.last_error w') else error_success,
        record handler { thread_data = some td; message_thread_handle = thread; request = request },
        w',
      )

  unfoldable pub stop : ClientMessageHandler → W → ClientMessageHandler × W
  stop handler w =
      let (_, n, w') = close api handler.pipe w in
      let (_, w'') = wait_and_terminate_thread threads handler.message_thread_handle w' in
      (record handler { pipe = n }, w'')

  -- The destructor.
  unfoldable pub destroy : ClientMessageHandler → W → W
  destroy handler w =
      let (_, n, w') = close api handler.pipe w in
      threads.close_thread w' handler.message_thread_handle

  module _ (p : Platform) {T : Type 0} (f : Format T) (blank : T)
      (callbacks : ℕ → ℤ → T → ℕ → ℕ → W → W) where
    -- The rest of it, with the thread's data. The callback gets the error code of the exchange, the
    -- last parameter of the response and its object id; the data is then given up.
    unfoldable pub handle_with :
        ThreadData → ClientMessageHandler → W → Outcome (ℤ × ClientMessageHandler × W)
    handle_with td handler w = do
      (code, handler', response, w') ← send_request handler handler.request empty_marshaller w
      result ←
          if eq_ℤ code error_success
          then get_function_parameter f response (get_last_function_parameter_index response) blank
          else ok blank
      object_id ← get_object_id p response
      ok (
          if td.cb_fn == 0 then (code, handler', w') else (
            code,
            record handler' { thread_data = none },
            callbacks td.cb_fn code result object_id td.cb_data w',
          ))

    -- The thread of an asynchronous request; no thread data is the null pointer. `callbacks` says
    -- what the function at an address does.
    unfoldable pub handle_async_request :
        ClientMessageHandler → W → Outcome (ℤ × ClientMessageHandler × W)
    unfolding handle_with
    handle_async_request handler w = elim handler.thread_data [
      | none ↦ ok (error_parameter_invalid, handler, w)
      | some td ↦ handle_with td handler w
    ]
