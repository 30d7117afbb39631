-- ===== src/ServerMessageHandler/Exchange.antt =====
-- A request over the pipe, from the frame that is read to the frame that is written.
use dcom.Base.{ℕ, ◌<◌, ◌≡◌, true, Bytes, length, Lacks, [], ◌>>=◌, refl, >>=-eq-ok, ok}
use dcom.Connection.{respond}
use dcom.Constants.{pipe_buffer_size}
use dcom.Format.{Platform}
use dcom.Marshaller.{of_text, get_wire_format}
use dcom.NamedPipe.Transfer.{IsReady, frame, read-frame, write-frame}
use dcom.NamedPipe.{PipeApi, flush}
use dcom.ObjectManager.{Allocator, ObjectManager, process_request}
use dcom.ServerMessageHandler.{ServerMessageHandler, handle_request, send_response_to_client}

module _ (p : Platform) (al : Allocator) {W : Type 0} (api : PipeApi W)
    (handler : ServerMessageHandler) (o : ObjectManager) where
  -- The handler reads the frame of a text, answers it as `respond` does, writes the frame of the
  -- answer and flushes the pipe, if both texts have at most 511 bytes and no zero byte, the pipe
  -- is open, there is memory for the buffers, and Windows reads and writes the frames.
  pub handle_request-respond :
      (w w₁ w₂ w₃ w₄ : W) (buffer buffer' : ℕ) (msg reply : Bytes) (o' : ObjectManager)
      → IsReady api handler.pipe w buffer w₁
      → Lacks 0 msg
      → length msg < pipe_buffer_size
      → api.read_file w₁ handler.pipe.pipe pipe_buffer_size ≡ (true, frame msg, w₂)
      → respond p al o msg ≡ ok (o', reply)
      → IsReady api handler.pipe (api.heap_free w₂ buffer) buffer' w₃
      → Lacks 0 reply
      → length reply < pipe_buffer_size
      → api.write_file w₃ handler.pipe.pipe (frame reply) ≡ (true, w₄)
      → handle_request p al api handler o w
        ≡ ok (o', (flush api handler.pipe (api.heap_free w₄ buffer')).1)
  unfolding handle_request send_response_to_client respond
  handle_request-respond w w₁ w₂ w₃ w₄ buffer buffer' msg reply o' ready clean short e answered
        ready' clean' short' e' =
      let ((o₁, m), served, rest) =
        >>=-eq-ok (process_request p al o (of_text msg))
          (λ r. get_wire_format r.1 >>= λ s. ok (r.0, s)) answered in
      let (s, printed, same) = >>=-eq-ok (get_wire_format m) (λ s. ok (o₁, s)) rest in
      let at_manager : o₁ ≡ o' = cc in
      let at_text : s ≡ reply = cc in
      rw
        (
          read-frame api handler.pipe w w₁ w₂ buffer ready [] msg clean short e,
          served,
          printed,
          at_text,
          write-frame api handler.pipe (api.heap_free w₂ buffer) w₃ w₄ buffer' ready' reply true
              clean' short' e',
          at_manager,
        )
        refl
