-- ===== src/RpcServer.antt =====
-- Common/include/RPCServer.h and Common/RPCServer.cpp: the thread that waits for clients, and the
-- list of the handlers that it made. One round of its loop is a function; what other threads do
-- meanwhile to the pipes and the events is part of the world `W`; the thread of a handler, which resets
-- that handler's pipe when it is done, is `process_message_thread` of ServerMessageHandler.
pub mod AtEnd
pub mod Signal
use dcom.Base.{
  ℕ, zero, suc, Option, none, some, Bool, true, false, not, List, [], ◌∷◌, ◌++◌, length, ltb, ◌==◌,
  if◌then◌else◌,
}
use dcom.NamedPipe.{PipeApi}
use dcom.ServerMessageHandler.{
  ServerMessageHandler, new_server_handler, wait_for_message, handle_message, destroy_handler,
  stop_handler,
}
use dcom.ThreadUtils.{ThreadApi, wait_object_0, wait_and_terminate_thread}

-- `CreateEvent`, `SetEvent` and the `CloseHandle` of an event.
pub record EventApi (W : Type 0) : Type 0 where
  pub create_event : W → ℕ × W
  pub set_event : W → ℕ → W
  pub close_event : W → ℕ → W

pub record RpcServer : Type 0 where
  pub all_message_handlers : List ServerMessageHandler
  pub main_server_thread_handle : ℕ
  pub exit_event : ℕ

abbrev server_poll_frequency_in_ms : ℕ
server_poll_frequency_in_ms = 500

-- `vector::pop_back` behind the test that the vector is not empty.
unfoldable pub pop_back {ℓ} : {A : Type ℓ} → List A → List A
pop_back [] = []
pop_back (x ∷ []) = []
pop_back (x ∷ y ∷ s) = x ∷ pop_back (y ∷ s)

-- The object behind the last pointer has changed.
unfoldable pub set_back {ℓ} : {A : Type ℓ} → List A → A → List A
set_back [] v = []
set_back (x ∷ []) v = v ∷ []
set_back (x ∷ y ∷ s) v = x ∷ set_back (y ∷ s) v

module _ {W : Type 0} (threads : ThreadApi W) (events : EventApi W) where
  -- The constructor throws where the critical section or the event cannot be made: the first
  -- component is false. `initialized` is what `InitializeCriticalSectionAndSpinCount` returned.
  unfoldable pub new_server : Bool → W → Bool × RpcServer × W
  new_server initialized w =
      let (event, w') = events.create_event w in
      let server : RpcServer = record {
        all_message_handlers = [];
        main_server_thread_handle = 0;
        exit_event = event;
      } in
      if initialized
      then (not (event == 0), server, w')
      else (false, record server { exit_event = 0 }, w)

  unfoldable pub run : RpcServer → W → RpcServer × W
  run server w =
      let (thread, w') = threads.create_thread w in
      (record server { main_server_thread_handle = thread }, w')

module _ {W : Type 0} (api : PipeApi W) (threads : ThreadApi W) where
  -- The round goes on once the client is there, or none came. The handler stands at the end of the
  -- list, and the pointer is shared: what it does next is seen there. If no client came it is taken
  -- off, and it ends with the round.
  unfoldable pub after_wait : RpcServer → Bool → ServerMessageHandler → W → RpcServer × W
  after_wait server connected handler w =
      let (_, handled, w₁) = handle_message api threads handler w in
      if connected
      then (
        record server { all_message_handlers = set_back server.all_message_handlers handled },
        w₁,
      )
      else (
        record server { all_message_handlers = pop_back server.all_message_handlers },
        destroy_handler api threads handler (threads.sleep w server_poll_frequency_in_ms),
      )

  -- One round of the loop; false where it was the last. The new handler is in the list before it waits
  -- for a client.
  unfoldable pub main_round : RpcServer → W → Bool × RpcServer × W
  main_round server w =
      let (result, w₁) = threads.wait_for_single_object w server.exit_event 0 in
      let pushed = server.all_message_handlers ++ new_server_handler ∷ [] in
      let (connected, handler, w₂) = wait_for_message api threads new_server_handler w₁ in
      let waited : RpcServer = record server { all_message_handlers = set_back pushed handler } in
      let (server', w₃) = after_wait waited connected handler w₂ in
      if result == wait_object_0 then (false, server, w₁) else (true, server', w₃)

  -- The whole loop, with a bound on its rounds; none where the bound is reached.
  unfoldable pub main_server_thread : ℕ → RpcServer → W → Option (RpcServer × W)
  unfolding main_round
  main_server_thread zero server w = none
  main_server_thread (suc rounds) server w =
      let (more, server', w') = main_round server w in
      let rest = main_server_thread rounds server' w' in if more then rest else some (server', w')

  -- The handlers are stopped in the order in which they were made.
  unfoldable pub stop_handlers :
      (ServerMessageHandler → W → ℕ × W)
      → List ServerMessageHandler
      → W
      → List ServerMessageHandler × W
  stop_handlers yielded [] w = ([], w)
  stop_handlers yielded (handler ∷ handlers) w =
      let (stopped, w₁) = stop_handler api threads yielded handler w in
      let (rest, w₂) = stop_handlers yielded handlers w₁ in (stopped ∷ rest, w₂)

  unfoldable pub stop_server :
      EventApi W → (ServerMessageHandler → W → ℕ × W) → RpcServer → W → RpcServer × W
  stop_server events yielded server w =
      let w₁ = if server.exit_event == 0 then w else events.set_event w server.exit_event in
      let (handlers, w₂) = stop_handlers yielded server.all_message_handlers w₁ in
      let (_, w₃) = wait_and_terminate_thread threads server.main_server_thread_handle w₂ in
      (record server { all_message_handlers = handlers }, w₃)

  -- The members end after the body of the destructor, the handlers in their order.
  unfoldable pub destroy_all : List ServerMessageHandler → W → W
  destroy_all [] w = w
  destroy_all (handler ∷ handlers) w = destroy_all handlers (destroy_handler api threads handler w)

  unfoldable pub destroy_server : EventApi W → RpcServer → W → W
  destroy_server events server w =
      destroy_all server.all_message_handlers (events.close_event w server.exit_event)
