-- ===== src/Remote/Async/Read.antt =====
-- `GetPrimitiveDataAsync` over the pipe: what the caller gets at once, and what the thread of the
-- request then does.
use dcom.Base.{
  refl, ℕ, ◌<◌, ◌≡◌, ◌≢◌, ap, ◌∙◌, true, false, [], ◌∷◌, ◌++◌, none, some, arith, ◌==◌, ℤ, pos,
  IsInt, ok,
}
use dcom.ClientMessageHandler.Callback.{callback_on_response}
use dcom.ClientMessageHandler.{
  ClientMessageHandler, ThreadData, new_handler, send_async_request, handle_async_request,
}
use dcom.Connection.{pipe_connection}
use dcom.Constants.{error_success, handle_count}
use dcom.Format.{Platform, Carries-int, int_format}
use dcom.NamedPipe.{PipeApi, new_pipe}
use dcom.ObjectManager.Requests.{call_reply}
use dcom.ObjectManager.{Allocator, contains, load, e_create_int_disp_id}
use dcom.Protocol.{message, new_marshaller-message}
use dcom.Remote.Calls.{IsCompact-int, pipe_request}
use dcom.Remote.Link.{View, Link}
use dcom.RpcClient.{
  RpcClient, int_type, disp_id_of, get_data_internal, get_primitive_data_async, invoke,
  invoke_async,
}
use dcom.ServerMessageHandler.{ServerMessageHandler}
use dcom.ServerStub.Replies.{invoke_int_reply}
use dcom.ServerStub.{primitive_int}
use dcom.Stream.{print_int}
use dcom.ThreadUtils.{ThreadApi}

-- The handler of a request that runs in the thread `t` and reads the object `b`, with the callback
-- and its data.
abbrev pub reading : Platform → ℕ → ThreadData → ℕ → ClientMessageHandler
reading p t td b = record {
  thread_data = some td;
  message_thread_handle = t;
  pipe = record { pipe = 0 };
  request = message p (pos 0) b e_create_int_disp_id [];
}

module _ {W : Type 0} (p : Platform) (al : Allocator) (client server : PipeApi W)
    (threads : ThreadApi W) (v : View W) (h : ℕ) (handler : ServerMessageHandler) (others : W → W)
    (link : Link p al client server threads v h handler others) (b : ℕ) (not_null : b ≢ 0)
    (in_range : b < handle_count) where
  starts_reading :
      (c : RpcClient) (td : ThreadData) (t : ℕ) (w w₁ : W)
      → c.critical_section_initialized ≡ true
      → t ≢ 0
      → threads.create_thread w ≡ (t, w₁)
      → get_primitive_data_async p (pipe_connection client threads) int_type int_format b td c w
        ≡ ok (
          error_success,
          none,
          record c { async_message_handlers = c.async_message_handlers ++ reading p t td b ∷ [] },
          w₁,
        )
  unfolding get_primitive_data_async get_data_internal disp_id_of invoke invoke_async
      pipe_connection send_async_request new_handler new_pipe
  starts_reading c td t w w₁ initialized runs made =
      let thread : (t == 0) ≡ false = ground (arith, runs) in
      let object : (b == 0) ≡ false = ground (arith, not_null) in
      rw
        (object, new_marshaller-message p (pos 0) b e_create_int_disp_id, made, thread, initialized)

  -- An `int` that the server holds in a live object is asked for over the pipe by a client whose
  -- critical section is initialized. The call returns success at once, if Windows starts the thread. When
  -- the thread then runs, in whatever world in which the server still holds the object, it tells the callback of the call
  -- success, the number, and the object's handle, with the data of the call; the server's objects
  -- stay as they were.
  pub async_int_read :
      (c : RpcClient) (n blank : ℤ) (t : ℕ) (w w₁ later : W) (td : ThreadData)
      (callbacks : ℕ → ℤ → ℤ → ℕ → ℕ → W → W)
      → c.critical_section_initialized ≡ true
      → t ≢ 0
      → threads.create_thread w ≡ (t, w₁)
      → IsInt n
      → contains b (v.objects later).all_objects ≡ true
      → load b (v.objects later).heap ≡ some (primitive_int n)
      → (td.cb_fn == 0) ≡ false
      → (get_primitive_data_async p (pipe_connection client threads) int_type int_format b td c w
          ≡ ok (
            error_success,
            none,
            record c { async_message_handlers = c.async_message_handlers ++ reading p t td b ∷ [] },
            w₁,
          ))
        × ((w' : W) × (handle_async_request client threads p int_format blank callbacks
                (reading p t td b)
                later
              ≡ ok (
                error_success,
                record (reading p t td b) { thread_data = none },
                callbacks td.cb_fn error_success n b td.cb_data w',
              ))
            × (v.objects w' ≡ v.objects later))
  async_int_read c n blank t w w₁ later td callbacks initialized runs made hn known live has_cb =
      let (w', sent, same) =
        pipe_request p al client server threads v h handler others link later (v.objects later) b
          error_success e_create_int_disp_id [] (print_int n ∷ []) in_range (omega arith)
          (omega arith) (record { undelimited = tt; clean = tt; short = omega arith })
          (IsCompact-int n hn)
          (call_reply p al (v.objects later) (pos 0) b e_create_int_disp_id [] not_null in_range
            (primitive_int n) (print_int n ∷ []) error_success known live
            (invoke_int_reply p (pos 0) b e_create_int_disp_id [] n))
          (reading p t td b) in
      (
        starts_reading c td t w w₁ initialized runs made,
        (
          w',
          callback_on_response client threads p int_format blank callbacks td has_cb
                (reading p t td b) (reading p t td b) refl later w' error_success b
                e_create_int_disp_id (print_int n) [] in_range (omega arith) sent
              ∙ ap
                  (λ (r : ℤ). ok (
                    error_success,
                    record (reading p t td b) { thread_data = none },
                    callbacks td.cb_fn error_success r b td.cb_data w',
                  ))
                  ((Carries-int n hn).reads_back blank),
          same,
        ),
      )
