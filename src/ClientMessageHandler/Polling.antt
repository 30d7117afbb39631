-- ===== src/ClientMessageHandler/Polling.antt =====
-- The attempts of a client to reach a server that is not there yet, or never comes.
use dcom.Base.{ℕ, zero, suc, ◌+◌, ◌-◌, Bytes, ◌<◌, ◌≡◌, ◌≢◌, refl, ap, ◌∙◌, false, ok, arith, ◌==◌}
use dcom.ClientMessageHandler.{
  ClientMessageHandler, poll, send_request, server_pipe_name, pipe_busy_timeout,
  client_poll_frequency_in_ms,
}
use dcom.Constants.{invalid_handle_value, error_server_no_response, max_number_of_times_to_poll}
use dcom.Marshaller.{Marshaller, get_wire_format}
use dcom.NamedPipe.{
  PipeApi, NamedPipe, is_closed, is_connected, open_with_wait_on_busy, error_pipe_busy,
}
use dcom.ThreadUtils.{ThreadApi}
use mathlib.Core.Path.{subst}

-- One attempt is refused: the pipe does not open, and either it is not there, or it is busy and does
-- not get free within the wait.
pub data RefusedOnce {W : Type 0} (api : PipeApi W) (w : W) : W → Type 0 where
  absent :
      (w₁ : W)
      → api.create_file w server_pipe_name ≡ (invalid_handle_value, w₁)
      → api.get_last_error w₁ ≢ error_pipe_busy
      → RefusedOnce api w w₁
  taken :
      (w₁ w₂ : W)
      → api.create_file w server_pipe_name ≡ (invalid_handle_value, w₁)
      → api.get_last_error w₁ ≡ error_pipe_busy
      → api.wait_named_pipe w₁ server_pipe_name pipe_busy_timeout ≡ (false, w₂)
      → RefusedOnce api w w₂

-- So many attempts are refused one after the other, with the pause of `SendRequest` after each.
pub data Refused {W : Type 0} (api : PipeApi W) (threads : ThreadApi W) : ℕ → W → W → Type 0 where
  at_once : {w : W} → Refused api threads zero w w
  again :
      {k : ℕ} {w w₁ w₂ : W}
      → RefusedOnce api w w₁
      → Refused api threads k (threads.sleep w₁ client_poll_frequency_in_ms) w₂
      → Refused api threads (suc k) w w₂

-- The pipe after an attempt that failed.
abbrev pub unopened : NamedPipe
unopened = record { pipe = invalid_handle_value }

module _ {W : Type 0} (api : PipeApi W) (threads : ThreadApi W) where
  open_refused :
      (n : NamedPipe) {w w₁ : W}
      → RefusedOnce api w w₁
      → open_with_wait_on_busy api n server_pipe_name pipe_busy_timeout w ≡ (false, unopened, w₁)
  unfolding open_with_wait_on_busy
  open_refused n (absent w₁ e apart) =
      let other : (api.get_last_error w₁ == error_pipe_busy) ≡ false = ground (arith, apart) in
      rw (e, other) refl
  open_refused n (taken w₁ w₂ e busy waited) = rw (e, busy, waited) refl

  poll_refused :
      (left : ℕ) (n : NamedPipe) {w w₁ : W}
      → RefusedOnce api w w₁
      → poll api threads (suc left) n w
        ≡ poll api threads left unopened (threads.sleep w₁ client_poll_frequency_in_ms)
  unfolding poll
  poll_refused left n r = rw (open_refused n r) refl

  poll_accepted :
      (left h : ℕ) (n : NamedPipe) (w w₁ : W)
      → (h == invalid_handle_value) ≡ false
      → api.create_file w server_pipe_name ≡ (h, w₁)
      → poll api threads (suc left) n w ≡ (record { pipe = h }, w₁)
  unfolding poll open_with_wait_on_busy
  poll_accepted left h n w w₁ valid opened = rw (opened, valid) refl

  poll_after :
      {k : ℕ} {w w₁ : W} (left : ℕ) (n : NamedPipe)
      → Refused api threads k w w₁
      → (m : NamedPipe) × (poll api threads (k + suc left) n w ≡ poll api threads (suc left) m w₁)
  poll_after {k = zero} left n at_once =
      let e : 0 + suc left ≡ suc left = omega arith in (n, rw e refl)
  poll_after {k = suc k} left n (again r rest) =
      let (m, e) = poll_after left unopened rest in
      let one : suc k + suc left ≡ suc (k + suc left) = omega arith in
      (m, rw one (poll_refused (k + suc left) n r ∙ e))

  no_attempt : {w w₁ : W} → Refused api threads zero w w₁ → w ≡ w₁
  no_attempt at_once = refl

  poll_exhausted :
      {k : ℕ} {w w₁ : W} (n : NamedPipe)
      → Refused api threads (suc k) w w₁
      → poll api threads (suc k) n w ≡ (unopened, w₁)
  unfolding poll
  poll_exhausted {k = zero} n (again r rest) =
      poll_refused 0 n r ∙ ap (λ u. (unopened, u)) (no_attempt rest)
  poll_exhausted {k = suc k} n (again r rest) =
      poll_refused (suc k) n r ∙ poll_exhausted unopened rest

  given_up :
      (handler : ClientMessageHandler) (request response : Marshaller) (s : Bytes) (w w₁ : W)
      → get_wire_format request ≡ ok s
      → poll api threads 10 handler.pipe w ≡ (unopened, w₁)
      → send_request api threads handler request response w
        ≡ ok (error_server_no_response, record handler { pipe = unopened }, response, w₁)
  unfolding send_request is_connected is_closed
  given_up handler request response s w w₁ printed polled = rw (printed, polled) refl

  -- A server that refuses fewer than ten attempts and accepts the next is reached: `SendRequest`
  -- leaves its loop with the pipe that this attempt opened, whatever the pipe was before.
  pub poll_reaches :
      {k : ℕ} {w w₁ : W} (n : NamedPipe) (h : ℕ) (w₂ : W)
      → Refused api threads k w w₁
      → k < max_number_of_times_to_poll
      → (h == invalid_handle_value) ≡ false
      → api.create_file w₁ server_pipe_name ≡ (h, w₂)
      → poll api threads max_number_of_times_to_poll n w ≡ (record { pipe = h }, w₂)
  poll_reaches {k} {w} {w₁} n h w₂ refused few valid opened =
      let (m, e) = poll_after (9 - k) n refused in
      let rounds : k + suc (9 - k) ≡ 10 = omega arith in
      subst (λ r. poll api threads r n w ≡ (record { pipe = h }, w₂)) rounds
        (e ∙ poll_accepted (9 - k) h m w₁ w₂ valid opened)

  -- After ten refused attempts the request is given up: the error is `error_server_no_response`, the
  -- response is as it was, and the world is that of the attempts and their pauses.
  pub send_request_gives_up :
      (handler : ClientMessageHandler) (request response : Marshaller) (s : Bytes) {w w₁ : W}
      → get_wire_format request ≡ ok s
      → Refused api threads max_number_of_times_to_poll w w₁
      → send_request api threads handler request response w
        ≡ ok (error_server_no_response, record handler { pipe = unopened }, response, w₁)
  send_request_gives_up handler request response s {w} {w₁} printed refused =
      given_up handler request response s w w₁ printed (poll_exhausted {k = 9} handler.pipe refused)
