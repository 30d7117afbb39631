-- ===== src/ServerMessageHandler/Safety.antt =====
-- What a request leaves behind, whatever the pipe delivers.
use dcom.Base.{◌≡◌, true, Bytes, [], Ensures, Ensures->>=}
use dcom.Format.{Platform}
use dcom.Marshaller.Access.{IsWell}
use dcom.Marshaller.Wire.{get_wire_format-join}
use dcom.Marshaller.{Marshaller, of_text}
use dcom.NamedPipe.Guards.{reset-closed}
use dcom.NamedPipe.{PipeApi, read, is_closed}
use dcom.ObjectManager.{Allocator, ObjectManager, process_request}
use dcom.ServerMessageHandler.{
  ServerMessageHandler, handle_request, send_response_to_client, process_message_thread,
}
use dcom.ServerStub.Safety.{Ensures-if}

-- The text that the handler's next read delivers.
abbrev pub delivered : {W : Type 0} → PipeApi W → ServerMessageHandler → W → Bytes
delivered api handler w = (read api handler.pipe [] w).1

module _ (p : Platform) (al : Allocator) {W : Type 0} (api : PipeApi W)
    (handler : ServerMessageHandler) (o : ObjectManager) (w : W) (Q : ObjectManager → Type 0)
    (before : Q o)
    (served : Ensures
      (λ (r : ObjectManager × Marshaller). Q r.0 × IsWell r.1)
      (process_request p al o (of_text (delivered api handler w)))) where
  -- What holds of the objects when a message that this handler reads is served, and before that, holds
  -- when the request is over.
  pub handle_request_keeps :
      Ensures (λ (r : ObjectManager × W). Q r.0) (handle_request p al api handler o w)
  unfolding handle_request send_response_to_client
  handle_request_keeps =
      Ensures-if (λ (r : ObjectManager × W). Q r.0) ((read api handler.pipe [] w).0) _ _
        (Ensures->>= (λ (r : ObjectManager × Marshaller). Q r.0 × IsWell r.1)
          (λ (r : ObjectManager × W). Q r.0)
          (process_request p al o (of_text (delivered api handler w))) _ served
          λ r k. rw (get_wire_format-join r.1 k.1) k.0)
        before

  pub process_message_thread_keeps :
      Ensures
        (λ (r : ServerMessageHandler × ObjectManager × W). (is_closed r.0.pipe ≡ true) × Q r.1)
        (process_message_thread p al api handler o w)
  unfolding process_message_thread
  process_message_thread_keeps =
      Ensures->>= (λ (r : ObjectManager × W). Q r.0)
        (λ (r : ServerMessageHandler × ObjectManager × W). (is_closed r.0.pipe ≡ true) × Q r.1)
        (handle_request p al api handler o w) _ handle_request_keeps
        λ r k. (reset-closed api handler.pipe r.1, k)
