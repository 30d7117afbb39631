-- ===== src/Remote/PipeStub.antt =====
-- The life of a `ClientStub` over the pipe, and its synchronous `LongOperation`.
use dcom.ClientMessageHandler.{ThreadData}
use dcom.Base.{
  ℕ, ◌≤◌, ◌<◌, ◌≡◌, Bool, false, [], ◌∷◌, some, Bytes, length, Lacks, codes, arith, pos, ok,
}
use dcom.Calculator.{calculator, long_operation_disp_id}
use dcom.ClientStub.{ClientStub, new_stub, destroy_stub, long_operation}
use dcom.Connection.{pipe_connection}
use dcom.Constants.{error_success, handle_count}
use dcom.Format.{Platform}
use dcom.NamedPipe.{PipeApi}
use dcom.ObjectManager.Creation.{create_calculator_reply}
use dcom.ObjectManager.Lifetime.{delete_reply}
use dcom.ObjectManager.{Allocator, free, e_create_custom_object_disp_id, e_delete_disp_id}
use dcom.Remote.Calls.{IsCompact, pipe_invoke}
use dcom.Remote.Link.{View, Link}
use dcom.Remote.Primitives.{grown}
use dcom.Remote.Send.{IsConnected}
use dcom.Remote.Session.{new_stub_answered, destroy_answered}
use dcom.Remote.Texts.{greeting, long_operation_answered, long_operation_served}
use dcom.RpcClient.{new_client, destroy_client}
use dcom.ServerMessageHandler.{ServerMessageHandler}
use dcom.ServerStub.{custom}
use dcom.Stream.Digits.{length-print_nat}
use dcom.Stream.RoundTrip.{print_nat-Lacks, print_nat-clean}
use dcom.Stream.{print_nat, dword_max}
use dcom.ThreadUtils.{ThreadApi}
use dcom.Tokenize.{wire_delimiter}

pub IsCompact-handle :
    (p : Platform) (a : ℕ) → a < handle_count → IsCompact (p.handle_format.print a ∷ [])
IsCompact-handle p a in_range = record {
  undelimited = ((p.handle_carries a in_range).undelimited, tt);
  clean = (p.handle_clean a in_range, tt);
  short = omega (arith, p.handle_short a in_range);
}

-- A wait time and a text, as `LongOperation` sends them.
pub IsCompact-wait :
    (t : ℕ) (s : Bytes)
    → t ≤ dword_max
    → Lacks wire_delimiter s
    → Lacks 0 s
    → length s ≤ 400
    → IsCompact (print_nat t ∷ s ∷ [])
IsCompact-wait t s ht lacks clean short = record {
  undelimited = (print_nat-Lacks t, (lacks, tt));
  clean = (print_nat-clean t, (clean, tt));
  short = omega (arith, length-print_nat t (omega arith));
}

pub IsCompact-greeting : (t : ℕ) → t ≤ dword_max → IsCompact (print_nat t ∷ greeting ∷ [])
IsCompact-greeting t ht = IsCompact-wait t greeting ht (omega arith) (omega arith) (omega arith)

module _ {W : Type 0} (p : Platform) (al : Allocator) (client server : PipeApi W)
    (threads : ThreadApi W) (v : View W) (h : ℕ) (handler : ServerMessageHandler) (others : W → W)
    (link : Link p al client server threads v h handler others) where
  -- The constructor makes a calculator on the server, if that has memory for one.
  pub pipe_new_stub :
      (initialized : Bool) (w : W) (b : ℕ)
      → al.allocate (v.objects w).heap ≡ some b
      → (w' : W) × (new_stub p (pipe_connection client threads) initialized w
          ≡ ok (
            error_success,
            some (record { rpc_client = new_client initialized; remote_proxy_object = b }),
            w',
          ))
        × (v.objects w' ≡ grown (v.objects w) b (custom (some calculator)))
  pipe_new_stub initialized w b allocated =
      let fresh = al.fresh (v.objects w).heap b allocated in
      let (w', answered, same) =
        pipe_invoke p al client server threads v h handler others link w
          (grown (v.objects w) b (custom (some calculator))) 0 error_success
          e_create_custom_object_disp_id (codes "Calculator" ∷ [])
          (codes "Calculator" ∷ p.handle_format.print b ∷ []) (omega arith) (omega arith)
          (omega arith)
          (record {
            undelimited = (omega arith, tt);
            clean = (omega arith, tt);
            short = omega arith;
          })
          (record {
            undelimited = (omega arith, ((p.handle_carries b fresh.1).undelimited, tt));
            clean = (omega arith, (p.handle_clean b fresh.1, tt));
            short = omega (arith, p.handle_short b fresh.1);
          })
          (create_calculator_reply p al (v.objects w) (pos 0) b allocated)
          (new_client initialized) in
      (
        w',
        new_stub_answered p (pipe_connection client threads) b initialized w w'
            (λ e. omega (arith, fresh, e)) fresh.1 answered,
        same,
      )

  module _ (stub : ClientStub) (w : W) (linked : IsConnected stub (v.objects w)) where
    -- The destructor frees the object on the server, and then stops the handlers of the client.
    pub pipe_destroy_stub :
        (w' : W) × (destroy_stub p (pipe_connection client threads) stub w
          ≡ ok (destroy_client (pipe_connection client threads) stub.rpc_client w'))
        × (v.objects w'
            ≡ record (v.objects w) { heap = free stub.remote_proxy_object (v.objects w).heap })
    pipe_destroy_stub =
        let (w', answered, same) =
          pipe_invoke p al client server threads v h handler others link w
            (record (v.objects w) { heap = free stub.remote_proxy_object (v.objects w).heap }) 0
            error_success e_delete_disp_id (p.handle_format.print stub.remote_proxy_object ∷ [])
            (p.handle_format.print stub.remote_proxy_object ∷ []) (omega arith) (omega arith)
            (omega arith) (IsCompact-handle p stub.remote_proxy_object linked.in_range)
            (IsCompact-handle p stub.remote_proxy_object linked.in_range)
            (delete_reply p al (v.objects w) (pos 0) stub.remote_proxy_object linked.not_null
              linked.in_range linked.known (custom (some calculator)) linked.live)
            stub.rpc_client in
        (
          w',
          destroy_answered p (pipe_connection client threads) stub w w' linked.not_null answered,
          same,
        )

    -- The synchronous call brings back the server's greeting.
    pub pipe_long_operation :
        (t : ℕ) (s : Bytes) (td : ThreadData)
        → t ≤ dword_max
        → Lacks wire_delimiter s
        → Lacks 0 s
        → length s ≤ 400
        → (w' : W) × (long_operation p (pipe_connection client threads) stub t s false td w
            ≡ ok (error_success, greeting, stub, w'))
          × (v.objects w' ≡ v.objects w)
    pipe_long_operation t s td ht lacks clean short =
        let (w', answered, same) =
          pipe_invoke p al client server threads v h handler others link w (v.objects w)
            stub.remote_proxy_object error_success long_operation_disp_id (print_nat t ∷ s ∷ [])
            (print_nat t ∷ greeting ∷ []) linked.in_range (omega arith) (omega arith)
            (IsCompact-wait t s ht lacks clean short) (IsCompact-greeting t ht)
            (long_operation_served p al stub (v.objects w) linked t s ht) stub.rpc_client in
        (
          w',
          long_operation_answered p (pipe_connection client threads) stub w w' t s greeting td
              linked.not_null ht answered,
          same,
        )
