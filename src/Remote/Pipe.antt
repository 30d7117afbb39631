-- ===== src/Remote/Pipe.antt =====
-- A request over the pipe does what the direct connection does.
use dcom.Base.{ℕ, ◌<◌, ◌≡◌, refl, ◌∙◌, none, some, Bytes, length, Lacks, ok}
use dcom.ClientMessageHandler.Exchange.{send_request-frames}
use dcom.ClientMessageHandler.{ClientMessageHandler, new_handler, send_request, destroy}
use dcom.Connection.{respond, send_direct, send_over_pipe}
use dcom.Constants.{error_success, pipe_buffer_size}
use dcom.Format.{Platform}
use dcom.Marshaller.{Marshaller, get_wire_format, set_wire_format}
use dcom.NamedPipe.Transfer.{frame}
use dcom.NamedPipe.{PipeApi, is_closed, flush, close}
use dcom.ObjectManager.{Allocator, ObjectManager}
use dcom.Remote.Link.{View, Link}
use dcom.ServerMessageHandler.Exchange.{handle_request-respond}
use dcom.ServerMessageHandler.{ServerMessageHandler}
use dcom.ThreadUtils.{ThreadApi}

-- The texts that one frame carries.
abbrev pub Fits : Bytes → Type 0
Fits s = Lacks 0 s × (length s < pipe_buffer_size)

pub destroy_closed :
    {W : Type 0} (client : PipeApi W) (threads : ThreadApi W) (w : W)
    → destroy client threads (record new_handler { pipe = record { pipe = 0 } }) w
      ≡ threads.close_thread w 0
unfolding destroy close is_closed new_handler
destroy_closed client threads w = refl

module _ {W : Type 0} (p : Platform) (al : Allocator) (client server : PipeApi W)
    (threads : ThreadApi W) (v : View W) (h : ℕ) (handler : ServerMessageHandler) (others : W → W)
    (link : Link p al client server threads v h handler others) where
  -- The server's thread, on a request that waits for it: its reply waits at the client's end.
  answered_by_others :
      (w : W) (s reply : Bytes) (o' : ObjectManager)
      → v.at_server w ≡ some (frame s)
      → Fits s
      → respond p al (v.objects w) s ≡ ok (o', reply)
      → Fits reply
      → (v.objects (others w) ≡ o') × (v.at_client (others w) ≡ some (frame reply))
  answered_by_others w s reply o' waiting (clean, short) answered (clean', short') =
      let (b, w₁, ready, same₁) = link.server_end.memory w in
      let (w₂, e, _) = link.server_reads w₁ (frame s) (same₁.server_kept ∙ waiting) in
      let (b', w₃, ready', _) = link.server_end.memory (server.heap_free w₂ b) in
      let (w₄, e', sent) = link.server_writes w₃ (frame reply) in
      let freed = link.server_end.freed w₄ b' in
      let flushed : v.at_client (flush server handler.pipe (server.heap_free w₄ b')).1
          ≡ v.at_client (server.heap_free w₄ b') =
        unfold flush in rw ready'.is_open (link.flushed (server.heap_free w₄ b')) in
      let (done, left) = link.runs w _ o' (
        handle_request-respond p al server handler (v.objects w) w w₁ w₂ w₃ w₄ b b' s reply o' ready
          clean short e answered ready' clean' short' e') in
      (done, left ∙ flushed ∙ freed.client_kept ∙ sent)

  -- The client's side and the server's together, for whatever handler of the client.
  pub send_request-respond :
      (asking : ClientMessageHandler) (request response : Marshaller) (w : W) (s reply : Bytes)
      (o' : ObjectManager)
      → get_wire_format request ≡ ok s
      → Fits s
      → respond p al (v.objects w) s ≡ ok (o', reply)
      → Fits reply
      → (w' : W) × (send_request client threads asking request response w
          ≡ ok (
            error_success,
            record asking { pipe = record { pipe = 0 } },
            set_wire_format response reply,
            w',
          ))
        × (v.objects w' ≡ o')
  send_request-respond asking request response w s reply o' printed (clean, short) answered
        (clean', short') =
      let (w₁, opened, kept₁, quiet) = link.opens w in
      let (b, w₂, ready, same₂) = link.client_end.memory w₁ in
      let (w₃, sent, waiting, kept₃, quiet₃) = link.client_writes w₂ (frame s) in
      let freed₃ = link.client_end.freed w₃ b in
      let (b', w₄, ready', same₄) = link.client_end.memory (client.heap_free w₃ b) in
      let waiting₄ : v.at_server w₄ ≡ some (frame s) =
        same₄.server_kept ∙ freed₃.server_kept ∙ waiting in
      let objects₄ : v.objects w₄ ≡ v.objects w =
        same₄.objects_kept ∙ freed₃.objects_kept ∙ kept₃ ∙ same₂.objects_kept ∙ kept₁ in
      let quiet₄ : v.at_client w₄ ≡ none =
        same₄.client_kept ∙ freed₃.client_kept ∙ quiet₃ ∙ same₂.client_kept ∙ quiet in
      let answered₄ : respond p al (v.objects w₄) s ≡ ok (o', reply) = rw objects₄ answered in
      let (done, left) =
        answered_by_others w₄ s reply o' waiting₄ (clean, short) answered₄ (clean', short') in
      let (w₅, received, kept₅) = link.client_reads (others w₄) (frame reply) left in
      let w₆ : W = (client.close_handle (client.heap_free w₅ b') h).1 in
      (
        w₆,
        send_request-frames client threads asking request response s printed w w₁ w₂ w₃ w₄ w₅ w₆ h b
            b' reply (client.close_handle (client.heap_free w₅ b') h).0 link.valid opened ready
            clean short sent ready' clean' short'
            (link.waits w₄ (frame s) waiting₄ quiet₄ ∙ received) refl,
        link.closed (client.heap_free w₅ b')
            ∙ (link.client_end.freed w₅ b').objects_kept
            ∙ kept₅
            ∙ done,
      )

  pub send_over_pipe-respond :
      (request response : Marshaller) (w : W) (s reply : Bytes) (o' : ObjectManager)
      → get_wire_format request ≡ ok s
      → Fits s
      → respond p al (v.objects w) s ≡ ok (o', reply)
      → Fits reply
      → (w' : W) × (send_over_pipe client threads request response w
          ≡ ok (error_success, set_wire_format response reply, w'))
        × (v.objects w' ≡ o')
  unfolding send_over_pipe
  send_over_pipe-respond request response w s reply o' printed fits answered fits' =
      let (w₆, over_pipe, same) =
        send_request-respond new_handler request response w s reply o' printed fits answered
          fits' in
      (
        threads.close_thread w₆ 0,
        rw (over_pipe, destroy_closed client threads w₆),
        link.thread_closed w₆ 0 ∙ same,
      )

  -- What the direct connection answers to a request is what the client gets over the pipe, and the
  -- server's objects are then those of the direct connection, if the texts of the request and of the
  -- reply fit a frame: at most 511 bytes, none of them zero.
  pub send_over_pipe-direct :
      (request response : Marshaller) (w : W) (s reply : Bytes) (o' : ObjectManager)
      → get_wire_format request ≡ ok s
      → Fits s
      → respond p al (v.objects w) s ≡ ok (o', reply)
      → Fits reply
      → (w' : W) × (send_over_pipe client threads request response w
          ≡ ok (error_success, set_wire_format response reply, w'))
        × (send_direct p al request response (v.objects w)
            ≡ ok (error_success, set_wire_format response reply, v.objects w'))
  unfolding send_direct
  send_over_pipe-direct request response w s reply o' printed fits answered fits' =
      let (w', sent, same) =
        send_over_pipe-respond request response w s reply o' printed fits answered fits' in
      (w', sent, rw (printed, answered, same))
