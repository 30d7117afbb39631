-- ===== src/Remote/Async.antt =====
-- `SendPrimitivecDataAsync` over the pipe: what the caller gets at once, and what the thread of the
-- request then does.
pub mod Read
pub mod LongOperation
use dcom.Base.{
  refl, ℕ, ◌<◌, ◌≡◌, ◌≢◌, ap, ◌∙◌, true, false, [], ◌∷◌, ◌++◌, none, some, arith, ◌==◌, ℤ, pos,
  IsInt, ok,
}
use dcom.ClientMessageHandler.Callback.{callback_on_response}
use dcom.ClientMessageHandler.{
  ClientMessageHandler, ThreadData, new_handler, send_async_request, handle_async_request,
}
use dcom.Connection.{pipe_connection}
use dcom.Constants.{error_success, handle_count}
use dcom.Format.{Platform, int_format}
use dcom.NamedPipe.{PipeApi, new_pipe}
use dcom.ObjectManager.Creation.{create_int_reply}
use dcom.ObjectManager.{Allocator, e_create_int_disp_id}
use dcom.Protocol.{message, new_marshaller-message, set_function_parameter-message}
use dcom.Remote.Calls.{IsCompact, IsCompact-int, pipe_request}
use dcom.Remote.Link.{View, Link}
use dcom.Remote.Primitives.{grown}
use dcom.RpcClient.{
  RpcClient, int_type, disp_id_of, create_remote_instance, send_data_internal,
  send_primitive_data_async, invoke, invoke_async,
}
use dcom.ServerMessageHandler.{ServerMessageHandler}
use dcom.ServerStub.{primitive_int}
use dcom.Stream.RoundTrip.{print_int-Lacks, print_int-clean, length-print_int}
use dcom.Stream.{print_int}
use dcom.ThreadUtils.{ThreadApi}

-- The handler of a request that runs in the thread `t`, with the callback and its data.
abbrev pub asking : Platform → ℕ → ThreadData → ℤ → ClientMessageHandler
asking p t td v = record {
  thread_data = some td;
  message_thread_handle = t;
  pipe = record { pipe = 0 };
  request = message p (pos 0) 0 e_create_int_disp_id (print_int v ∷ []);
}

module _ {W : Type 0} (p : Platform) (al : Allocator) (client server : PipeApi W)
    (threads : ThreadApi W) (v : View W) (h : ℕ) (handler : ServerMessageHandler) (others : W → W)
    (link : Link p al client server threads v h handler others) where
  starts :
      (c : RpcClient) (td : ThreadData) (n : ℤ) (t : ℕ) (w w₁ : W)
      → c.critical_section_initialized ≡ true
      → t ≢ 0
      → threads.create_thread w ≡ (t, w₁)
      → send_primitive_data_async p (pipe_connection client threads) int_type int_format n td c w
        ≡ ok (
          error_success,
          none,
          record c { async_message_handlers = c.async_message_handlers ++ asking p t td n ∷ [] },
          w₁,
        )
  unfolding send_primitive_data_async send_data_internal create_remote_instance disp_id_of invoke
      invoke_async pipe_connection send_async_request new_handler new_pipe
  starts c td n t w w₁ initialized runs made =
      let thread : (t == 0) ≡ false = ground (arith, runs) in
      rw (
        new_marshaller-message p (pos 0) 0 e_create_int_disp_id,
        set_function_parameter-message p (pos 0) 0 e_create_int_disp_id [] int_format 0 n
            (omega arith),
        made,
        thread,
        initialized,
      )

  -- An `int` is sent to be kept, over the pipe, with a callback and its data, by a client whose critical
  -- section is initialized. The call returns success at once, with no handle, if Windows starts the
  -- thread; the handler that the client then keeps has the callback and the data. When the thread
  -- then runs, in whatever world in which the server has memory for one more object, it makes the
  -- object there, and calls that callback with success, the handle of the object, the null object id
  -- of the request, and that data, if the callback is not null; the thread's data is given up.
  pub async_int_kept :
      (c : RpcClient) (n : ℤ) (t : ℕ) (w w₁ later : W) (b : ℕ) (td : ThreadData)
      (callbacks : ℕ → ℤ → ℕ → ℕ → ℕ → W → W)
      → c.critical_section_initialized ≡ true
      → t ≢ 0
      → threads.create_thread w ≡ (t, w₁)
      → IsInt n
      → al.allocate (v.objects later).heap ≡ some b
      → (td.cb_fn == 0) ≡ false
      → (send_primitive_data_async p (pipe_connection client threads) int_type int_format n td c w
          ≡ ok (
            error_success,
            none,
            record c { async_message_handlers = c.async_message_handlers ++ asking p t td n ∷ [] },
            w₁,
          ))
        × ((w' : W) × (handle_async_request client threads p p.handle_format 0 callbacks
                (asking p t td n)
                later
              ≡ ok (
                error_success,
                record (asking p t td n) { thread_data = none },
                callbacks td.cb_fn error_success b 0 td.cb_data w',
              ))
            × (v.objects w' ≡ grown (v.objects later) b (primitive_int n)))
  async_int_kept c n t w w₁ later b td callbacks initialized runs made hn allocated has_cb =
      let in_range : b < handle_count = (al.fresh (v.objects later).heap b allocated).1 in
      let (w', sent, same) =
        pipe_request p al client server threads v h handler others link later
          (grown (v.objects later) b (primitive_int n)) 0 error_success e_create_int_disp_id
          (print_int n ∷ []) (print_int n ∷ p.handle_format.print b ∷ []) (omega arith)
          (omega arith) (omega arith) (IsCompact-int n hn) (kept_int n hn b in_range)
          (create_int_reply p al (v.objects later) (pos 0) n b hn allocated) (asking p t td n) in
      (
        starts c td n t w w₁ initialized runs made,
        (
          w',
          callback_on_response client threads p p.handle_format 0 callbacks td has_cb
                (asking p t td n) (asking p t td n) refl later w' error_success 0
                e_create_int_disp_id (print_int n) (p.handle_format.print b ∷ []) (omega arith)
                (omega arith) sent
              ∙ ap
                  (λ (r : ℕ). ok (
                    error_success,
                    record (asking p t td n) { thread_data = none },
                    callbacks td.cb_fn error_success r 0 td.cb_data w',
                  ))
                  ((p.handle_carries b in_range).reads_back 0),
          same,
        ),
      )
    where
      kept_int :
          (n : ℤ)
          → IsInt n
          → (b : ℕ) → b < handle_count
          → IsCompact (print_int n ∷ p.handle_format.print b ∷ [])
      kept_int n hn b in_range = record {
        undelimited = (print_int-Lacks n, ((p.handle_carries b in_range).undelimited, tt));
        clean = (print_int-clean n, (p.handle_clean b in_range, tt));
        short = omega (arith, length-print_int n hn, p.handle_short b in_range);
      }
