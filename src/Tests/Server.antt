-- ===== src/Tests/Server.antt =====
-- The loop of the server at concrete inputs: a client connects, and the server is stopped.
use dcom.Base.{List, ℕ, ◌≡◌, refl, true, [], ◌∷◌, All, Bytes, Bool, false, if◌then◌else◌, ◌++◌}
use dcom.NamedPipe.{PipeApi, is_closed, create, connect, new_pipe}
use dcom.RpcServer.AtEnd.{stop_server-closed}
use dcom.RpcServer.{EventApi, RpcServer, main_round, after_wait, set_back, stop_server}
use dcom.ServerMessageHandler.{
  ServerMessageHandler, wait_for_message, handle_message, new_server_handler,
}
use dcom.Tests.Exchange.{served, no_threads}
use dcom.Tests.Windows.{idle_threads, plain_pipe}
use dcom.ThreadUtils.{ThreadApi}

-- The exit event is not set: the wait for it times out.
abbrev unset : ThreadApi (Bytes × Bytes)
unset = record no_threads { wait_for_single_object = λ w h time. (258, w) }

abbrev empty_server : RpcServer
empty_server = record { all_message_handlers = []; main_server_thread_handle = 8; exit_event = 12 }

abbrev busy_handler : ServerMessageHandler
busy_handler = record { message_thread_handle = 8; pipe = record { pipe = 4 } }

abbrev one_handler : RpcServer
one_handler = record empty_server { all_message_handlers = busy_handler ∷ [] }

first_round : main_round served unset empty_server ([], []) ≡ (true, one_handler, ([], []))
unfolding main_round after_wait set_back wait_for_message handle_message create connect
    new_server_handler new_pipe
first_round = refl

-- The thread of the handler stays the one it has.
abbrev not_yielded : ServerMessageHandler → Bytes × Bytes → ℕ × (Bytes × Bytes)
not_yielded handler w = (handler.message_thread_handle, w)

abbrev no_events : EventApi (Bytes × Bytes)
no_events = record { create_event = λ w. (12, w); set_event = λ w h. w; close_event = λ w h. w }

pipes_closed_at_the_end :
    All
      (λ h. is_closed h.pipe ≡ true)
      (stop_server served unset no_events not_yielded one_handler ([], [])).0.all_message_handlers
pipes_closed_at_the_end = stop_server-closed served unset no_events not_yielded one_handler ([], [])

-- The world tells whether the exit event was set: a wait for it succeeds then.
abbrev event_threads : ThreadApi Bool
event_threads = record (idle_threads {W = Bool}) {
  wait_for_single_object = λ w h time. (if w then 0 else 258, w);
}

abbrev exit_events : EventApi Bool
exit_events = record {
  create_event = λ w. (12, w);
  set_event = λ w h. true;
  close_event = λ w h. w;
}

abbrev quiet_pipe : PipeApi Bool
quiet_pipe = plain_pipe

first_client : main_round quiet_pipe event_threads empty_server false ≡ (true, one_handler, false)
unfolding main_round after_wait set_back wait_for_message handle_message create connect
    new_server_handler new_pipe
first_client = refl

-- A client comes before the console says q.
abbrev client_comes : RpcServer → Bool → List ServerMessageHandler × Bool
client_comes server w = (server.all_message_handlers ++ busy_handler ∷ [], w)

-- While a handler is stopped the main thread starts its thread.
abbrev started_late : ServerMessageHandler → Bool → ℕ × Bool
started_late handler w = (20, w)

-- The world is true once the event was set.
abbrev WasSet : ℕ → Bool → Type 0
WasSet e w = w ≡ true
