-- ===== src/RpcServer/Signal.antt =====
-- The exit event while the server stops.
use dcom.Base.{ℕ, ◌≡◌, Bool-cases, inl, inr, List, [], ◌∷◌, Bytes, false, if◌then◌else◌, ◌==◌}
use dcom.Constants.{invalid_handle_value}
use dcom.NamedPipe.{
  PipeApi, NamedPipe, is_closed, close, disconnect, reset, open_with_wait_on_busy, new_pipe,
  error_pipe_busy,
}
use dcom.RpcServer.{EventApi, RpcServer, stop_handlers, stop_server}
use dcom.ServerMessageHandler.{ServerMessageHandler, fake_client, stop_handler}
use dcom.ThreadUtils.{
  ThreadApi, wait_and_terminate_thread, stop_active, still_active, wait_object_0,
}

-- What is set stays set: `IsSignalled` says that the event of a handle was set and not reset since. Nothing that
-- the server calls while it stops resets an event.
pub record StaysSet {W : Type 0} (api : PipeApi W) (threads : ThreadApi W) (events : EventApi W)
    (yielded : ServerMessageHandler → W → ℕ × W) (IsSignalled : ℕ → W → Type 0) : Type 0 where
  pub set_event : (e : ℕ) (w : W) → IsSignalled e (events.set_event w e)
  pub create_file :
      (e : ℕ) (w : W) (name : Bytes) → IsSignalled e w → IsSignalled e (api.create_file w name).1
  pub wait_named_pipe :
      (e : ℕ) (w : W) (name : Bytes) (time : ℕ)
      → IsSignalled e w
      → IsSignalled e (api.wait_named_pipe w name time).1
  pub disconnect_named_pipe :
      (e : ℕ) (w : W) (h : ℕ) → IsSignalled e w → IsSignalled e (api.disconnect_named_pipe w h).1
  pub close_handle :
      (e : ℕ) (w : W) (h : ℕ) → IsSignalled e w → IsSignalled e (api.close_handle w h).1
  pub sleep : (e : ℕ) (w : W) (time : ℕ) → IsSignalled e w → IsSignalled e (threads.sleep w time)
  pub get_exit_code_thread :
      (e : ℕ) (w : W) (h : ℕ) → IsSignalled e w → IsSignalled e (threads.get_exit_code_thread w h).2
  pub wait_for_single_object :
      (e : ℕ) (w : W) (h time : ℕ)
      → IsSignalled e w
      → IsSignalled e (threads.wait_for_single_object w h time).1
  pub terminate_thread :
      (e : ℕ) (w : W) (h code : ℕ)
      → IsSignalled e w
      → IsSignalled e (threads.terminate_thread w h code)
  pub main_thread :
      (e : ℕ) (handler : ServerMessageHandler) (w : W)
      → IsSignalled e w
      → IsSignalled e (yielded handler w).1

module _ {W : Type 0} (api : PipeApi W) (threads : ThreadApi W) (events : EventApi W)
    (yielded : ServerMessageHandler → W → ℕ × W) (IsSignalled : ℕ → W → Type 0)
    (stays : StaysSet api threads events yielded IsSignalled) (e : ℕ) where
  close-IsSignalled : (n : NamedPipe) (w : W) → IsSignalled e w → IsSignalled e (close api n w).2
  unfolding close
  close-IsSignalled n w h = elim (Bool-cases (is_closed n)) [
    | inl closed ↦ rw closed h
    | inr opened ↦ rw opened (stays.close_handle e w n.pipe h)
  ]

  disconnect-IsSignalled :
      (n : NamedPipe) (w : W) → IsSignalled e w → IsSignalled e (disconnect api n w).1
  unfolding disconnect
  disconnect-IsSignalled n w h = elim (Bool-cases (is_closed n)) [
    | inl closed ↦ rw closed h
    | inr opened ↦ rw opened (stays.disconnect_named_pipe e w n.pipe h)
  ]

  reset-IsSignalled : (n : NamedPipe) (w : W) → IsSignalled e w → IsSignalled e (reset api n w).2
  unfolding reset
  reset-IsSignalled n w h = close-IsSignalled n _ (disconnect-IsSignalled n w h)

  open-IsSignalled :
      (n : NamedPipe) (name : Bytes) (time : ℕ) (w : W)
      → IsSignalled e w
      → IsSignalled e (open_with_wait_on_busy api n name time w).2
  unfolding open_with_wait_on_busy
  open-IsSignalled n name time w h =
      let tried = stays.create_file e w name h in
      elim (Bool-cases ((api.create_file w name).0 == invalid_handle_value)) [
        | inl failed ↦
            elim (Bool-cases (api.get_last_error (api.create_file w name).1 == error_pipe_busy)) [
              | inl busy ↦ rw (failed, busy) (stays.wait_named_pipe e _ name time tried)
              | inr other ↦ rw (failed, other) tried
            ]
        | inr opened ↦ rw opened tried
      ]

  stop_active-IsSignalled :
      (handle : ℕ) (w : W) → IsSignalled e w → IsSignalled e (stop_active threads handle w)
  unfolding stop_active
  stop_active-IsSignalled handle w h =
      let waited = stays.wait_for_single_object e w handle 100 h in
      elim (Bool-cases ((threads.wait_for_single_object w handle 100).0 == wait_object_0)) [
        | inl done ↦ rw done waited
        | inr active ↦ rw active (stays.terminate_thread e _ handle _ waited)
      ]

  wait_and_terminate_thread-IsSignalled :
      (handle : ℕ) (w : W)
      → IsSignalled e w
      → IsSignalled e (wait_and_terminate_thread threads handle w).1
  unfolding wait_and_terminate_thread
  wait_and_terminate_thread-IsSignalled handle w h =
      let (found, code, w') = threads.get_exit_code_thread w handle in
      let asked : IsSignalled e w' = stays.get_exit_code_thread e w handle h in
      elim (Bool-cases (handle == 0)) [
        | inl none ↦ rw none h
        | inr some ↦ elim (Bool-cases ((if found then code else still_active) == still_active)) [
          | inl active ↦ rw (some, active) (stop_active-IsSignalled handle w' asked)
          | inr done ↦ rw (some, done) asked
        ]
      ]

  fake_client-IsSignalled : (w : W) → IsSignalled e w → IsSignalled e (fake_client api threads w)
  unfolding fake_client
  fake_client-IsSignalled w h = close-IsSignalled _ _ (open-IsSignalled new_pipe _ _ w h)

  stop_handler-IsSignalled :
      (handler : ServerMessageHandler) (w : W)
      → IsSignalled e w
      → IsSignalled e (stop_handler api threads yielded handler w).1
  unfolding stop_handler
  stop_handler-IsSignalled handler w h =
      let after : (w₁ : W)
          → IsSignalled e w₁
          → IsSignalled e (threads.sleep (reset api handler.pipe w₁).2 100) =
        λ w₁ h₁. stays.sleep e _ 100 (reset-IsSignalled handler.pipe w₁ h₁) in
      elim (Bool-cases (handler.message_thread_handle == 0)) [
        | inl waits ↦ rw waits (
            wait_and_terminate_thread-IsSignalled _ _ (
              stays.main_thread e _ _
                (after (fake_client api threads w) (fake_client-IsSignalled w h))))
        | inr serves ↦
            rw serves
              (wait_and_terminate_thread-IsSignalled _ _ (stays.main_thread e _ _ (after w h)))
      ]

  stop_handlers-IsSignalled :
      (handlers : List ServerMessageHandler) (w : W)
      → IsSignalled e w
      → IsSignalled e (stop_handlers api threads yielded handlers w).1
  unfolding stop_handlers
  stop_handlers-IsSignalled [] w h = h
  stop_handlers-IsSignalled (handler ∷ handlers) w h =
      stop_handlers-IsSignalled handlers _ (stop_handler-IsSignalled handler w h)

module _ {W : Type 0} (api : PipeApi W) (threads : ThreadApi W) (events : EventApi W)
    (yielded : ServerMessageHandler → W → ℕ × W) (IsSignalled : ℕ → W → Type 0)
    (stays : StaysSet api threads events yielded IsSignalled) where
  pub stop_server-IsSignalled :
      (server : RpcServer) (w : W)
      → (server.exit_event == 0) ≡ false
      → IsSignalled server.exit_event (stop_server api threads events yielded server w).1
  unfolding stop_server
  stop_server-IsSignalled server w made = rw made (
      wait_and_terminate_thread-IsSignalled api threads events yielded IsSignalled stays
        server.exit_event _ _
        (stop_handlers-IsSignalled api threads events yielded IsSignalled stays server.exit_event
          server.all_message_handlers _ (stays.set_event server.exit_event w)))
