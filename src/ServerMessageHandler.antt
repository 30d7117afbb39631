-- ===== src/ServerMessageHandler.antt =====
-- Common/include/ServerMessageHandler.h and Common/ServerMessageHandler.cpp: the server's end of one
-- connection. The pipe and the threads are those of Windows over a state `W` of the world; the
-- objects are those of the one `ObjectManager`.
pub mod Exchange
pub mod Safety
use dcom.Base.{ℕ, Bool, true, false, not, [], Bytes, ◌==◌, if◌then◌else◌, Outcome, ok, ◌>>=◌}
use dcom.ClientMessageHandler.{server_pipe_name}
use dcom.Format.{Platform}
use dcom.Marshaller.{Marshaller, of_text, get_wire_format}
use dcom.NamedPipe.{
  PipeApi, NamedPipe, new_pipe, create, connect, read, write, flush, reset, close,
  open_with_wait_on_busy,
}
use dcom.ObjectManager.{Allocator, ObjectManager, process_request}
use dcom.ThreadUtils.{ThreadApi, max_thread_timeout_in_ms, wait_and_terminate_thread}

pub record ServerMessageHandler : Type 0 where
  pub message_thread_handle : ℕ
  pub pipe : NamedPipe

unfoldable pub new_server_handler : ServerMessageHandler
new_server_handler = record { message_thread_handle = 0; pipe = new_pipe }

-- The wait for a busy pipe in `Stop`, in milliseconds.
abbrev fake_client_wait : ℕ
fake_client_wait = 500

module _ {W : Type 0} (api : PipeApi W) (threads : ThreadApi W) where
  -- The destructor.
  unfoldable pub destroy_handler : ServerMessageHandler → W → W
  destroy_handler handler w =
      let (_, n, w') = close api handler.pipe w in
      threads.close_thread w' handler.message_thread_handle

  unfoldable pub wait_for_message : ServerMessageHandler → W → Bool × ServerMessageHandler × W
  wait_for_message handler w =
      let (made, n, w₁) = create api handler.pipe server_pipe_name w in
      let (connected, w₂) = connect api n w₁ in
      if made
      then (connected, record handler { pipe = n }, w₂)
      else (false, record handler { pipe = n }, w₁)

  -- Whether a thread runs, which then does `process_message_thread`.
  unfoldable pub handle_message : ServerMessageHandler → W → Bool × ServerMessageHandler × W
  handle_message handler w =
      let (thread, w₁) = threads.create_thread w in
      let (_, n, w₂) = reset api handler.pipe w₁ in
      if not (thread == 0)
      then (true, record handler { message_thread_handle = thread }, w₁)
      else (false, record { message_thread_handle = thread; pipe = n }, w₂)

  -- A fake client wakes a server that waits for one; its pipe is closed at the end of the block.
  unfoldable pub fake_client : W → W
  fake_client w =
      let (_, fake, w₁) = open_with_wait_on_busy api new_pipe server_pipe_name fake_client_wait w in
      let (_, _, w₂) = close api fake w₁ in w₂

  -- `yielded` is what the main thread does to the handler before the sleep is over: the handle of the
  -- thread that it has then. The pipe stays as the reset left it: another reset does nothing to it.
  unfoldable pub stop_handler :
      (ServerMessageHandler → W → ℕ × W) → ServerMessageHandler → W → ServerMessageHandler × W
  unfolding fake_client
  stop_handler yielded handler w =
      let w₁ = if handler.message_thread_handle == 0 then fake_client w else w in
      let (_, n, w₂) = reset api handler.pipe w₁ in
      let w₃ = threads.sleep w₂ max_thread_timeout_in_ms in
      let (thread, w₄) = yielded (record handler { pipe = n }) w₃ in
      let (_, w₅) = wait_and_terminate_thread threads thread w₄ in
      (record { message_thread_handle = thread; pipe = n }, w₅)

module _ (p : Platform) (al : Allocator) {W : Type 0} (api : PipeApi W) where
  unfoldable pub send_response_to_client : ServerMessageHandler → Marshaller → W → Outcome W
  send_response_to_client handler m w = do
    s ← get_wire_format m
    let (written, w₁) = write api handler.pipe s w
    let (_, w₂) = flush api handler.pipe w₁
    ok (if written then w₂ else w₁)

  unfoldable pub handle_request :
      ServerMessageHandler → ObjectManager → W → Outcome (ObjectManager × W)
  handle_request handler o w =
      let (received, msg, w₁) = read api handler.pipe [] w in
      if received then answer msg w₁ else ok (o, w₁)
    where
      answer : Bytes → W → Outcome (ObjectManager × W)
      answer msg w₁ = do
        (o', m) ← process_request p al o (of_text msg)
        w₂ ← send_response_to_client handler m w₁
        ok (o', w₂)

  -- The thread of a request: it handles it and resets the pipe.
  unfoldable pub process_message_thread :
      ServerMessageHandler → ObjectManager → W → Outcome (ServerMessageHandler × ObjectManager × W)
  process_message_thread handler o w = do
    (o', w₁) ← handle_request handler o w
    let (_, n, w₂) = reset api handler.pipe w₁
    ok (record handler { pipe = n }, o', w₂)
