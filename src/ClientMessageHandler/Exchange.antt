-- ===== src/ClientMessageHandler/Exchange.antt =====
-- A request over the pipe as the client sees it.
use dcom.Base.{ℕ, suc, ◌<◌, ◌≡◌, refl, Bool, true, false, [], Bytes, length, Lacks, ◌==◌, ok}
use dcom.ClientMessageHandler.{
  ClientMessageHandler, poll, exchange, send_request, server_pipe_name, pipe_busy_timeout,
}
use dcom.Constants.{pipe_buffer_size, invalid_handle_value, error_success, error_server_no_response}
use dcom.Marshaller.{Marshaller, get_wire_format, set_wire_format}
use dcom.NamedPipe.Transfer.{IsReady, frame, read-frame, write-frame}
use dcom.NamedPipe.{
  PipeApi, NamedPipe, is_closed, is_connected, close, read, write, open_with_wait_on_busy,
  error_pipe_busy,
}
use dcom.ThreadUtils.{ThreadApi}

module _ {W : Type 0} (api : PipeApi W) (threads : ThreadApi W) where
  -- The first attempt succeeds.
  poll_opened :
      (left h : ℕ) (n : NamedPipe) (w w₁ : W)
      → (h == invalid_handle_value) ≡ false
      → api.create_file w server_pipe_name ≡ (h, w₁)
      → poll api threads (suc left) n w ≡ (record { pipe = h }, w₁)
  unfolding poll open_with_wait_on_busy
  poll_opened left h n w w₁ valid opened = rw (opened, valid) refl

  close_opened :
      (n : NamedPipe) (closed : Bool) (w w₁ : W)
      → is_closed n ≡ false
      → api.close_handle w n.pipe ≡ (closed, w₁)
      → close api n w ≡ (closed, record { pipe = 0 }, w₁)
  unfolding close
  close_opened n closed w w₁ opened e = rw (opened, e) refl

  exchange_done :
      (n : NamedPipe) (s reply : Bytes) (w w' w'' : W)
      → write api n s w ≡ (true, w')
      → read api n [] w' ≡ (true, reply, w'')
      → exchange api threads n s w ≡ (error_success, reply, w'')
  unfolding exchange
  exchange_done n s reply w w' w'' written received = rw (written, received) refl

  send_request_done :
      (handler : ClientMessageHandler) (request response : Marshaller) (s reply : Bytes)
      (n n' : NamedPipe) (closed : Bool) (w w₁ w₂ w₃ : W)
      → get_wire_format request ≡ ok s
      → poll api threads 10 handler.pipe w ≡ (n, w₁)
      → exchange api threads n s w₁ ≡ (error_success, reply, w₂)
      → close api n w₂ ≡ (closed, n', w₃)
      → is_connected n ≡ true
      → send_request api threads handler request response w
        ≡ ok (error_success, record handler { pipe = n' }, set_wire_format response reply, w₃)
  unfolding send_request
  send_request_done handler request response s reply n n' closed w w₁ w₂ w₃ printed polled exchanged
        at_end connected =
      rw (printed, polled, exchanged, at_end, connected) refl

module _ {W : Type 0} (api : PipeApi W) (threads : ThreadApi W) (handler : ClientMessageHandler)
    (request response : Marshaller) (s : Bytes) (printed : get_wire_format request ≡ ok s) where
  -- If the pipe is busy at the first attempt and gets free within the wait, the request is given
  -- up with `error_server_no_response`: the pipe was waited for and not opened, and nothing else
  -- was done to the world.
  pub send_request_busy :
      (w w₁ w₂ : W)
      → api.create_file w server_pipe_name ≡ (invalid_handle_value, w₁)
      → api.get_last_error w₁ ≡ error_pipe_busy
      → api.wait_named_pipe w₁ server_pipe_name pipe_busy_timeout ≡ (true, w₂)
      → send_request api threads handler request response w
        ≡ ok (
          error_server_no_response,
          record handler { pipe = record { pipe = invalid_handle_value } },
          response,
          w₂,
        )
  unfolding send_request poll open_with_wait_on_busy is_connected is_closed
  send_request_busy w w₁ w₂ refused busy waited = rw (printed, refused, busy, waited) refl

  -- The pipe opens at the first attempt, there is memory for the buffers, and Windows writes the
  -- frame of the request and reads the frame of a reply, both of at most 511 bytes with no zero
  -- byte. Then the request succeeds, its response is what the reply's text stands for, and the
  -- pipe is closed.
  pub send_request-frames :
      (w w₁ w₂ w₃ w₄ w₅ w₆ : W) (h buffer buffer' : ℕ) (reply : Bytes) (closed : Bool)
      → (h == invalid_handle_value) ≡ false
      → api.create_file w server_pipe_name ≡ (h, w₁)
      → IsReady api (record { pipe = h }) w₁ buffer w₂
      → Lacks 0 s
      → length s < pipe_buffer_size
      → api.write_file w₂ h (frame s) ≡ (true, w₃)
      → IsReady api (record { pipe = h }) (api.heap_free w₃ buffer) buffer' w₄
      → Lacks 0 reply
      → length reply < pipe_buffer_size
      → api.read_file w₄ h pipe_buffer_size ≡ (true, frame reply, w₅)
      → api.close_handle (api.heap_free w₅ buffer') h ≡ (closed, w₆)
      → send_request api threads handler request response w
        ≡ ok (
          error_success,
          record handler { pipe = record { pipe = 0 } },
          set_wire_format response reply,
          w₆,
        )
  send_request-frames w w₁ w₂ w₃ w₄ w₅ w₆ h buffer buffer' reply closed valid opened ready clean
        short sent ready' clean' short' received at_end =
      send_request_done api threads handler request response s reply (record { pipe = h })
        (record { pipe = 0 }) closed w w₁ (api.heap_free w₅ buffer') w₆ printed
        (poll_opened api threads 9 h handler.pipe w w₁ valid opened)
        (exchange_done api threads (record { pipe = h }) s reply w₁ (api.heap_free w₃ buffer)
          (api.heap_free w₅ buffer')
          (write-frame api (record { pipe = h }) w₁ w₂ w₃ buffer ready s true clean short sent)
          (read-frame api (record { pipe = h }) (api.heap_free w₃ buffer) w₄ w₅ buffer' ready' []
            reply clean' short' received))
        (close_opened api threads (record { pipe = h }) closed (api.heap_free w₅ buffer') w₆
          ready.is_open at_end)
        (unfold is_connected in rw ready.is_open refl)
