-- ===== src/Remote/Session.antt =====
-- The life of a `ClientStub`: its constructor makes the object, and its destructor deletes it.
use dcom.ClientMessageHandler.{no_callback}
use dcom.Base.{
  ℕ, ◌<◌, ◌≡◌, ◌≢◌, refl, sym, ap, ◌∙◌, inl, inr, Bool, true, false, some, [], ◌∷◌, List, codes,
  arith, ◌==◌, ==_iff, Bool-cases, ℤ, pos, IsInt, ◌+ℤ◌, ok,
}
use mathlib.Core.Path.{subst}
use dcom.Calculator.{calculator}
use dcom.ClientMessageHandler.{ClientMessageHandler}
use dcom.ClientStub.{ClientStub, new_stub, add, destroy_stub}
use dcom.Connection.{Connection, direct}
use dcom.Constants.{error_success, handle_count}
use dcom.Format.{Platform, string_format}
use dcom.ObjectManager.Heap.{
  load_new, load_old, load-free_self, load-free_other, contains-insert_self,
}
use dcom.ObjectManager.Lifetime.{delete_reply}
use dcom.ObjectManager.Creation.{create_calculator_reply}
use dcom.ObjectManager.{
  Allocator, ObjectManager, contains, load, free, e_create_custom_object_disp_id, e_delete_disp_id,
}
use dcom.Marshaller.{empty_marshaller}
use dcom.Protocol.{
  message, new_marshaller-message, set_function_parameter-message, get_printed-message,
}
use dcom.Remote.Add.{remote_add}
use dcom.Remote.Primitives.{grown}
use dcom.Remote.Send.{Transmits, IsConnected, invoke-direct}
use dcom.RpcClient.{
  invoke, new_client, RpcClient, stop_all, end_all, destroy_client, create_remote_instance, created,
}
use dcom.ServerStub.{custom}

stop_all-direct :
    (p : Platform) (al : Allocator) (handlers : List ClientMessageHandler) (o : ObjectManager)
    → stop_all (direct p al) handlers o ≡ (handlers, o)
unfolding stop_all direct
stop_all-direct p al [] o = refl
stop_all-direct p al (handler ∷ handlers) o = rw (stop_all-direct p al handlers o) refl

end_all-direct :
    (p : Platform) (al : Allocator) (handlers : List ClientMessageHandler) (o : ObjectManager)
    → end_all (direct p al) handlers o ≡ o
unfolding end_all direct
end_all-direct p al [] o = refl
end_all-direct p al (handler ∷ handlers) o = end_all-direct p al handlers o

pub destroy_client-direct :
    (p : Platform) (al : Allocator) (c : RpcClient) (o : ObjectManager)
    → destroy_client (direct p al) c o ≡ o
unfolding destroy_client
destroy_client-direct p al c o =
    rw (stop_all-direct p al c.async_message_handlers o)
      (end_all-direct p al c.async_message_handlers o)

handle-Transmits :
    (p : Platform) (a : ℕ) → a < handle_count → Transmits p (p.handle_format.print a ∷ [])
handle-Transmits p a in_range = record {
  undelimited = ((p.handle_carries a in_range).undelimited, tt);
  short = omega (arith, p.handle_short a in_range);
}

-- What the destructor makes of the reply, over any connection.
pub destroy_answered :
    (p : Platform) {W : Type 0} (net : Connection W) (stub : ClientStub) (w w' : W)
    → stub.remote_proxy_object ≢ 0
    → invoke net
        (message p (pos 0) 0 e_delete_disp_id (p.handle_format.print stub.remote_proxy_object ∷ []))
        empty_marshaller
        false
        no_callback
        stub.rpc_client
        w
      ≡ ok (
        error_success,
        message p error_success 0 e_delete_disp_id
            (p.handle_format.print stub.remote_proxy_object ∷ []),
        stub.rpc_client,
        w',
      )
    → destroy_stub p net stub w ≡ ok (destroy_client net stub.rpc_client w')
unfolding destroy_stub
destroy_answered p net stub w w' not_null answered =
    let object : (stub.remote_proxy_object == 0) ≡ false = ground (arith, not_null) in
    rw (
      object,
      new_marshaller-message p (pos 0) 0 e_delete_disp_id,
      set_function_parameter-message p (pos 0) 0 e_delete_disp_id [] p.handle_format 0
          stub.remote_proxy_object (omega arith),
      answered,
    )

module _ (p : Platform) {W : Type 0} (net : Connection W) (b : ℕ) (initialized : Bool) (w w' : W)
    (not_null : b ≢ 0) (in_range : b < handle_count)
    (answered : invoke net
        (message p (pos 0) 0 e_create_custom_object_disp_id (codes "Calculator" ∷ []))
        empty_marshaller
        false
        no_callback
        (new_client initialized)
        w
      ≡ ok (
        error_success,
        message p error_success 0 e_create_custom_object_disp_id
            (codes "Calculator" ∷ p.handle_format.print b ∷ []),
        new_client initialized,
        w',
      )) where
  create_answered :
      create_remote_instance p net string_format
        (codes "Calculator")
        true
        e_create_custom_object_disp_id
        false
        no_callback
        (new_client initialized)
        w
      ≡ ok (error_success, some b, new_client initialized, w')
  unfolding create_remote_instance created
  create_answered =
      let object : (b == 0) ≡ false = ground (arith, not_null) in
      rw (
        new_marshaller-message p (pos 0) 0 e_create_custom_object_disp_id,
        set_function_parameter-message p (pos 0) 0 e_create_custom_object_disp_id [] string_format 0
            (codes "Calculator") (omega arith),
        answered,
        get_printed-message p error_success 0 e_create_custom_object_disp_id
            (codes "Calculator" ∷ p.handle_format.print b ∷ []) p.handle_format 1 b 0 (omega arith)
            refl (p.handle_carries b in_range),
        object,
      )

  -- What the constructor makes of the reply, over any connection.
  pub new_stub_answered :
      new_stub p net initialized w
      ≡ ok (
        error_success,
        some (record { rpc_client = new_client initialized; remote_proxy_object = b }),
        w',
      )
  unfolding new_stub
  new_stub_answered = rw create_answered

-- The destructor of a connected stub frees the object; its pointer stays in the server's collection.
pub destroy_stub-direct :
    (p : Platform) (al : Allocator) (stub : ClientStub) (o : ObjectManager)
    → IsConnected stub o
    → destroy_stub p (direct p al) stub o
      ≡ ok (record o { heap = free stub.remote_proxy_object o.heap })
destroy_stub-direct p al stub o linked =
    destroy_answered p (direct p al) stub o
      (record o { heap = free stub.remote_proxy_object o.heap }) linked.not_null
      (invoke-direct p al o (record o { heap = free stub.remote_proxy_object o.heap }) 0
        error_success e_delete_disp_id (p.handle_format.print stub.remote_proxy_object ∷ [])
        (p.handle_format.print stub.remote_proxy_object ∷ []) stub.rpc_client (omega arith)
        (omega arith) (omega arith) (handle-Transmits p stub.remote_proxy_object linked.in_range)
        (handle-Transmits p stub.remote_proxy_object linked.in_range)
        (delete_reply p al o (pos 0) stub.remote_proxy_object linked.not_null linked.in_range
          linked.known (custom (some calculator)) linked.live))
    ∙ ap ok (
        destroy_client-direct p al stub.rpc_client
          (record o { heap = free stub.remote_proxy_object o.heap }))

module _ (p : Platform) (al : Allocator) (o : ObjectManager) (b : ℕ)
    (allocated : al.allocate o.heap ≡ some b) (initialized : Bool) where
  abbrev pub fresh_stub : ClientStub
  fresh_stub = record { rpc_client = new_client initialized; remote_proxy_object = b }

  abbrev pub with_calculator : ObjectManager
  with_calculator = grown o b (custom (some calculator))

  pub not_null : b ≢ 0
  not_null e = omega (arith, (al.fresh o.heap b allocated).0)

  pub in_range : b < handle_count
  in_range = (al.fresh o.heap b allocated).1

  pub fresh_stub-IsConnected : IsConnected fresh_stub with_calculator
  fresh_stub-IsConnected = record {
    not_null = not_null;
    in_range = in_range;
    known = contains-insert_self b o.all_objects;
    live = load_new b (custom (some calculator)) o.heap;
  }

  name_sent : Transmits p (codes "Calculator" ∷ [])
  name_sent = record { undelimited = (omega arith, tt); short = omega arith }

  name_created : Transmits p (codes "Calculator" ∷ p.handle_format.print b ∷ [])
  name_created = record {
    undelimited = (omega arith, ((p.handle_carries b in_range).undelimited, tt));
    short = omega (arith, p.handle_short b in_range);
  }

  pub new_stub-direct :
      new_stub p (direct p al) initialized o ≡ ok (error_success, some fresh_stub, with_calculator)
  new_stub-direct =
      new_stub_answered p (direct p al) b initialized o with_calculator not_null in_range (
        invoke-direct p al o with_calculator 0 error_success e_create_custom_object_disp_id
          (codes "Calculator" ∷ []) (codes "Calculator" ∷ p.handle_format.print b ∷ [])
          (new_client initialized) (omega arith) (omega arith) (omega arith) name_sent name_created
          (create_calculator_reply p al o (pos 0) b allocated))

  pub freed_heap : (c : ℕ) → load c (free b with_calculator.heap) ≡ load c o.heap
  freed_heap c = elim (Bool-cases (b == c)) [
    | inl same ↦
        subst (λ d. load d (free b with_calculator.heap) ≡ load d o.heap) ((==_iff b c).0 same)
          (load-free_self b with_calculator.heap ∙ sym (al.fresh o.heap b allocated).2)
    | inr apart ↦
        load-free_other c b with_calculator.heap (ground arith)
        ∙ load_old c b (custom (some calculator)) o.heap (ground arith)
  ]

  -- If the server has memory for one more object, the constructor of the stub makes a calculator there
  -- and throws nothing, `Add` of two `int`s whose sum is an `int` then answers the sum, and the
  -- destructor leaves the server's heap as it was before the stub; the collection keeps the pointer
  -- to the object that is gone.
  pub calculator_session :
      (x y z : ℤ)
      → IsInt x
      → IsInt y
      → IsInt z
      → IsInt (x +ℤ y)
      → (o' o'' : ObjectManager) × (new_stub p (direct p al) initialized o
          ≡ ok (error_success, some fresh_stub, o'))
        × (add p (direct p al) fresh_stub x y z o' ≡ ok (error_success, x +ℤ y, fresh_stub, o'))
        × (destroy_stub p (direct p al) fresh_stub o' ≡ ok o'')
        × ((c : ℕ) → load c o''.heap ≡ load c o.heap)
        × (contains b o''.all_objects ≡ true)
  calculator_session x y z hx hy hz hs = (
    with_calculator,
    record with_calculator { heap = free b with_calculator.heap },
    new_stub-direct,
    remote_add p al fresh_stub with_calculator fresh_stub-IsConnected x y z hx hy hz hs,
    destroy_stub-direct p al fresh_stub with_calculator fresh_stub-IsConnected,
    freed_heap,
    contains-insert_self b o.all_objects,
  )
