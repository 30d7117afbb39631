-- ===== src/Connection.antt =====
-- How the client reaches a server: the interface between `RPCClient` and `ClientMessageHandler`, and
-- `pipe_connection`, the code's own, over a named pipe. `direct` is not code but what a connection
-- promises: the request is processed by the server's `ObjectManager`, and its message is the
-- response.
use dcom.Base.{some, Bytes, ℤ, Outcome, ok, ◌>>=◌}
use dcom.ClientMessageHandler.{
  ClientMessageHandler, ThreadData, new_handler, send_request, send_async_request, stop, destroy,
}
use dcom.Constants.{error_success}
use dcom.Format.{Platform}
use dcom.Marshaller.{Marshaller, of_text, set_wire_format, get_wire_format}
use dcom.NamedPipe.{PipeApi}
use dcom.ObjectManager.{Allocator, ObjectManager, process_request}
use dcom.ThreadUtils.{ThreadApi}

pub record Connection (W : Type 0) : Type 0 where
  -- A request and the message for the response; the error code, the response and the world.
  pub send : Marshaller → Marshaller → W → Outcome (ℤ × Marshaller × W)
  pub send_async : Marshaller → ThreadData → W → ℤ × ClientMessageHandler × W
  pub stop_handler : ClientMessageHandler → W → ClientMessageHandler × W
  pub destroy_handler : ClientMessageHandler → W → W

module _ {W : Type 0} (api : PipeApi W) (threads : ThreadApi W) where
  -- The handler of a synchronous request ends with it.
  unfoldable pub send_over_pipe : Marshaller → Marshaller → W → Outcome (ℤ × Marshaller × W)
  send_over_pipe request response w = do
    (code, handler, response', w') ← send_request api threads new_handler request response w
    ok (code, response', destroy api threads handler w')

  unfoldable pub pipe_connection : Connection W
  pipe_connection = record {
    send = send_over_pipe;
    send_async = λ request td w. send_async_request api threads new_handler request td w;
    stop_handler = λ handler w. stop api threads handler w;
    destroy_handler = λ handler w. destroy api threads handler w;
  }

module _ (p : Platform) (al : Allocator) where
  -- `ServerMessageHandler::HandleRequest` between its read and its write.
  unfoldable pub respond : ObjectManager → Bytes → Outcome (ObjectManager × Bytes)
  respond o msg = do
    (o', m) ← process_request p al o (of_text msg)
    s ← get_wire_format m
    ok (o', s)

  unfoldable pub send_direct :
      Marshaller → Marshaller → ObjectManager → Outcome (ℤ × Marshaller × ObjectManager)
  send_direct request response o = do
    s ← get_wire_format request
    (o', reply) ← respond o s
    ok (error_success, set_wire_format response reply, o')

  unfoldable pub direct : Connection ObjectManager
  direct = record {
    send = send_direct;
    send_async = λ request td o. (
      error_success,
      record {
        thread_data = some td;
        message_thread_handle = 0;
        pipe = record { pipe = 0 };
        request = request;
      },
      o,
    );
    stop_handler = λ handler o. (handler, o);
    destroy_handler = λ handler o. o;
  }
