-- ===== src/RpcServer/AtEnd.antt =====
-- The handlers of the server at its end.
use dcom.Base.{ℕ, ◌≡◌, true, List, [], ◌∷◌, All}
use dcom.NamedPipe.Guards.{reset-closed}
use dcom.NamedPipe.{PipeApi, is_closed}
use dcom.RpcServer.{EventApi, RpcServer, stop_handlers, stop_server}
use dcom.ServerMessageHandler.{ServerMessageHandler, stop_handler}
use dcom.ThreadUtils.{ThreadApi}

module _ {W : Type 0} (api : PipeApi W) (threads : ThreadApi W) where
  stop_handler-closed :
      (yielded : ServerMessageHandler → W → ℕ × W) (handler : ServerMessageHandler) (w : W)
      → is_closed (stop_handler api threads yielded handler w).0.pipe ≡ true
  unfolding stop_handler
  stop_handler-closed yielded handler w = reset-closed api handler.pipe _

  stop_handlers-closed :
      (yielded : ServerMessageHandler → W → ℕ × W) (handlers : List ServerMessageHandler) (w : W)
      → All (λ h. is_closed h.pipe ≡ true) (stop_handlers api threads yielded handlers w).0
  unfolding stop_handlers
  stop_handlers-closed yielded [] w = tt
  stop_handlers-closed yielded (h ∷ handlers) w =
      (stop_handler-closed yielded h w, stop_handlers-closed yielded handlers _)

module _ {W : Type 0} (api : PipeApi W) (threads : ThreadApi W) where
  -- When the server has stopped, the pipe of each handler in its list is closed.
  pub stop_server-closed :
      (events : EventApi W) (yielded : ServerMessageHandler → W → ℕ × W) (server : RpcServer)
      (w : W)
      → All
          (λ h. is_closed h.pipe ≡ true)
          (stop_server api threads events yielded server w).0.all_message_handlers
  unfolding stop_server
  stop_server-closed events yielded server w =
      stop_handlers-closed api threads yielded server.all_message_handlers _
