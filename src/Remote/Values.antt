-- ===== src/Remote/Values.antt =====
-- Values kept on the server and read back: what the client makes of the replies, over any connection, and
-- `int`s over the pipe.
use dcom.Base.{
  ℕ, ◌<◌, ◌≡◌, ◌≢◌, refl, ap, ◌∙◌, false, List, [], ◌∷◌, some, Bytes, arith, ℤ, pos, IsInt, ok,
  eq_ℤ, ◌==◌,
}
use dcom.ClientMessageHandler.{no_callback}
use dcom.Connection.{Connection, pipe_connection}
use dcom.Constants.{error_success, handle_count}
use dcom.Format.{Format, Platform, Carries-int, int_format}
use dcom.Marshaller.{empty_marshaller, e_invalid_disp_id}
use dcom.NamedPipe.{PipeApi}
use dcom.ObjectManager.Creation.{create_int_reply}
use dcom.ObjectManager.Heap.{load_new, contains-insert_self}
use dcom.ObjectManager.Requests.{call_reply}
use dcom.ObjectManager.{Allocator, contains, load, e_create_int_disp_id}
use dcom.Protocol.{
  message, new_marshaller-message, set_function_parameter-message, get_printed-message,
  get_function_parameter-message,
}
use dcom.Remote.Calls.{IsCompact-int, pipe_invoke}
use dcom.Remote.Link.{View, Link}
use dcom.Remote.Primitives.{grown}
use dcom.RpcClient.{
  RpcClient, ParameterType, int_type, disp_id_of, created, create_remote_instance,
  send_data_internal, get_data_internal, send_primitive_data, get_primitive_data, invoke,
}
use dcom.ServerMessageHandler.{ServerMessageHandler}
use dcom.ServerStub.Replies.{invoke_int_reply}
use dcom.ServerStub.{primitive_int}
use dcom.Stream.RoundTrip.{print_int-Lacks, print_int-clean, length-print_int}
use dcom.Stream.{print_int}
use dcom.ThreadUtils.{ThreadApi}

module _ (p : Platform) {W T : Type 0} (net : Connection W) (type : ParameterType)
    (valid : eq_ℤ (disp_id_of type) e_invalid_disp_id ≡ false) (f : Format T) (c : RpcClient)
    (b : ℕ) (not_null : b ≢ 0) (in_range : b < handle_count) (w w' : W) where
  pub send_answered :
      (t : T) (q : Bytes) (rest : List Bytes)
      → invoke net
          (message p (pos 0) 0 (disp_id_of type) (f.print t ∷ []))
          empty_marshaller
          false
          no_callback
          c
          w
        ≡ ok (
          error_success,
          message p error_success 0 (disp_id_of type) (q ∷ p.handle_format.print b ∷ rest),
          c,
          w',
        )
      → send_primitive_data p net type f t c w ≡ ok (error_success, some b, c, w')
  unfolding send_primitive_data send_data_internal create_remote_instance created
  send_answered t q rest answered =
      let object : (b == 0) ≡ false = ground (arith, not_null) in
      rw (
        valid,
        new_marshaller-message p (pos 0) 0 (disp_id_of type),
        set_function_parameter-message p (pos 0) 0 (disp_id_of type) [] f 0 t (omega arith),
        answered,
        get_printed-message p error_success 0 (disp_id_of type) (q ∷ p.handle_format.print b ∷ rest)
            p.handle_format 1 b 0 (omega arith) refl (p.handle_carries b in_range),
        object,
      )

  pub get_answered :
      (t : T) (q : Bytes)
      → invoke net (message p (pos 0) b (disp_id_of type) []) empty_marshaller false no_callback c w
        ≡ ok (error_success, message p error_success b (disp_id_of type) (q ∷ []), c, w')
      → get_primitive_data p net type f b t c w ≡ ok (error_success, some (f.extract t q), c, w')
  unfolding get_primitive_data get_data_internal
  get_answered t q answered =
      let object : (b == 0) ≡ false = ground (arith, not_null) in
      rw (
        valid,
        object,
        new_marshaller-message p (pos 0) b (disp_id_of type),
        answered,
        get_function_parameter-message p error_success b (disp_id_of type) (q ∷ []) f 0 t
            (omega arith),
      )

module _ {W : Type 0} (p : Platform) (al : Allocator) (client server : PipeApi W)
    (threads : ThreadApi W) (v : View W) (h : ℕ) (handler : ServerMessageHandler) (others : W → W)
    (link : Link p al client server threads v h handler others) (w : W) (b : ℕ)
    (allocated : al.allocate (v.objects w).heap ≡ some b) where
  -- An `int` is kept on the server, and then read back.
  pub pipe_int :
      (n t : ℤ) (c : RpcClient)
      → IsInt n
      → (w₁ w₂ : W) × (send_primitive_data p
            (pipe_connection client threads)
            int_type
            int_format
            n
            c
            w
          ≡ ok (error_success, some b, c, w₁))
        × (get_primitive_data p (pipe_connection client threads) int_type int_format b t c w₁
            ≡ ok (error_success, some n, c, w₂))
        × (v.objects w₂ ≡ grown (v.objects w) b (primitive_int n))
  unfolding disp_id_of
  pipe_int n t c hn =
      let fresh = al.fresh (v.objects w).heap b allocated in
      let not_null : b ≢ 0 = λ e. omega (arith, fresh, e) in
      let (w₁, sent, same) =
        pipe_invoke p al client server threads v h handler others link w
          (grown (v.objects w) b (primitive_int n)) 0 error_success e_create_int_disp_id
          (print_int n ∷ []) (print_int n ∷ p.handle_format.print b ∷ []) (omega arith)
          (omega arith) (omega arith) (IsCompact-int n hn)
          (record {
            undelimited = (print_int-Lacks n, ((p.handle_carries b fresh.1).undelimited, tt));
            clean = (print_int-clean n, (p.handle_clean b fresh.1, tt));
            short = omega (arith, length-print_int n hn, p.handle_short b fresh.1);
          })
          (create_int_reply p al (v.objects w) (pos 0) n b hn allocated) c in
      let (w₂, got, same') =
        pipe_invoke p al client server threads v h handler others link w₁ (v.objects w₁) b
          error_success e_create_int_disp_id [] (print_int n ∷ []) fresh.1 (omega arith)
          (omega arith) (record { undelimited = tt; clean = tt; short = omega arith })
          (IsCompact-int n hn)
          (call_reply p al (v.objects w₁) (pos 0) b e_create_int_disp_id [] not_null fresh.1
            (primitive_int n) (print_int n ∷ []) error_success
            (ap (λ o. contains b o.all_objects) same
              ∙ contains-insert_self b (v.objects w).all_objects)
            (ap (λ o. load b o.heap) same ∙ load_new b (primitive_int n) (v.objects w).heap)
            (invoke_int_reply p (pos 0) b e_create_int_disp_id [] n))
          c in
      (
        w₁,
        w₂,
        send_answered p (pipe_connection client threads) int_type refl int_format c b not_null
            fresh.1 w w₁ n (print_int n) [] sent,
        get_answered p (pipe_connection client threads) int_type refl int_format c b not_null
              fresh.1 w₁ w₂ t (print_int n) got
            ∙ ap (λ (r : ℤ). ok (error_success, some r, c, w₂)) ((Carries-int n hn).reads_back t),
        same' ∙ same,
      )
