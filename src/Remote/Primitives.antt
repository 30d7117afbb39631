-- ===== src/Remote/Primitives.antt =====
-- Numbers and strings kept on the server by `SendPrimitiveData` and read by `GetPrimitiveData`.
use dcom.Base.{ℕ, ◌<◌, ◌≡◌, ◌≢◌, refl, false, [], ◌∷◌, some, arith, ℤ, pos, IsInt, ok, ◌==◌}
use dcom.Connection.{direct}
use dcom.Constants.{error_success, handle_count}
use dcom.Format.{Platform, Carries-int, int_format}
use dcom.ObjectManager.Heap.{load_new, contains-insert_self}
use dcom.ObjectManager.Creation.{create_int_reply}
use dcom.ObjectManager.Requests.{call_reply}
use dcom.ObjectManager.{Allocator, ObjectManager, insert, e_create_int_disp_id}
use dcom.Protocol.{new_marshaller-message, set_function_parameter-message, get_printed-message}
use dcom.Remote.Send.{Transmits, invoke-direct}
use dcom.RpcClient.{
  RpcClient, int_type, disp_id_of, created, create_remote_instance, send_data_internal,
  get_data_internal, send_primitive_data, get_primitive_data,
}
use dcom.ServerStub.Replies.{invoke_int_reply}
use dcom.ServerStub.{ServerStub, primitive_int}
use dcom.Stream.RoundTrip.{print_int-Lacks, length-print_int}
use dcom.Stream.{print_int}

-- The server with one more object.
abbrev pub grown : ObjectManager → ℕ → ServerStub → ObjectManager
grown o b stub = record { all_objects = insert b o.all_objects; heap = (b, stub) ∷ o.heap }

module _ (p : Platform) (al : Allocator) (o : ObjectManager) (b : ℕ)
    (allocated : al.allocate o.heap ≡ some b) where
  not_null : b ≢ 0
  not_null e = omega (arith, al.fresh o.heap b allocated)

  in_range : b < handle_count
  in_range = (al.fresh o.heap b allocated).1

  module _ (v : ℤ) (hv : IsInt v) (c : RpcClient) where
    sent_int : Transmits p (print_int v ∷ [])
    sent_int = record {
      undelimited = (print_int-Lacks v, tt);
      short = omega (arith, length-print_int v hv);
    }

    created_int : Transmits p (print_int v ∷ p.handle_format.print b ∷ [])
    created_int = record {
      undelimited = (print_int-Lacks v, ((p.handle_carries b in_range).undelimited, tt));
      short = omega (arith, length-print_int v hv, p.handle_short b in_range);
    }

    send_int :
        send_primitive_data p (direct p al) int_type int_format v c o
        ≡ ok (error_success, some b, c, grown o b (primitive_int v))
    unfolding send_primitive_data send_data_internal create_remote_instance disp_id_of created
    send_int =
        let object : (b == 0) ≡ false = ground (arith, not_null) in
        rw (
          new_marshaller-message p (pos 0) 0 e_create_int_disp_id,
          set_function_parameter-message p (pos 0) 0 e_create_int_disp_id [] int_format 0 v
              (omega arith),
          invoke-direct p al o (grown o b (primitive_int v)) 0 error_success e_create_int_disp_id
              (print_int v ∷ []) (print_int v ∷ p.handle_format.print b ∷ []) c (omega arith)
              (omega arith) (omega arith) sent_int created_int
              (create_int_reply p al o (pos 0) v b hv allocated),
          get_printed-message p error_success 0 e_create_int_disp_id
              (print_int v ∷ p.handle_format.print b ∷ []) p.handle_format 1 b 0 (omega arith) refl
              (p.handle_carries b in_range),
          object,
        )

    get_int :
        (t : ℤ)
        → get_primitive_data p (direct p al) int_type int_format b t c (grown o b (primitive_int v))
          ≡ ok (error_success, some v, c, grown o b (primitive_int v))
    unfolding get_primitive_data get_data_internal disp_id_of
    get_int t =
        let object : (b == 0) ≡ false = ground (arith, not_null) in
        rw (
          object,
          new_marshaller-message p (pos 0) b e_create_int_disp_id,
          invoke-direct p al (grown o b (primitive_int v)) (grown o b (primitive_int v)) b
              error_success e_create_int_disp_id [] (print_int v ∷ []) c in_range (omega arith)
              (omega arith) (record { undelimited = tt; short = omega arith }) sent_int
              (call_reply p al (grown o b (primitive_int v)) (pos 0) b e_create_int_disp_id []
                not_null in_range (primitive_int v) (print_int v ∷ []) error_success
                (contains-insert_self b o.all_objects) (load_new b (primitive_int v) o.heap)
                (invoke_int_reply p (pos 0) b e_create_int_disp_id [] v)),
          get_printed-message p error_success b e_create_int_disp_id (print_int v ∷ []) int_format 0
              v t (omega arith) refl (Carries-int v hv),
        )

    -- If the server has memory for one more object, `SendPrimitiveData` keeps an `int` in a new
    -- object and returns its handle, and `GetPrimitiveData` then reads that `int` through the
    -- handle, whatever its variable held.
    pub remote_int :
        (t : ℤ)
        → (send_primitive_data p (direct p al) int_type int_format v c o
            ≡ ok (error_success, some b, c, grown o b (primitive_int v)))
          × (get_primitive_data p
                (direct p al)
                int_type
                int_format
                b
                t
                c
                (grown o b (primitive_int v))
              ≡ ok (error_success, some v, c, grown o b (primitive_int v)))
    remote_int t = (send_int, get_int t)
