-- ===== src/ObjectManager/Lifetime.antt =====
-- The life of an object: made by one request, read by others, and deleted.
use dcom.Base.{
  ℕ, ◌<◌, ◌≡◌, ◌≢◌, refl, true, List, [], ◌∷◌, some, none, Bytes, set, arith, ℤ, pos, IsInt,
  Outcome, ok, err, dangling, ◌>>=◌,
}
use dcom.Constants.{error_success, handle_count}
use dcom.Format.{Platform}
use dcom.Marshaller.Access.{padded}
use dcom.Marshaller.{Marshaller, get_function_parameter}
use dcom.ObjectManager.Cases.{delete_pointer_live, delete_pointer_dangling}
use dcom.ObjectManager.Heap.{load_new, load-free_self, load-free_other, contains-insert_self}
use dcom.ObjectManager.Creation.{global_reply, global_fault, create_int_reply, create_string_reply}
use dcom.ObjectManager.Requests.{call_reply, call_dangling}
use dcom.ObjectManager.{
  load, free, Allocator, ObjectManager, contains, insert, delete_object, handle_global_functions,
  process_request, e_create_int_disp_id, e_create_string_disp_id, e_delete_disp_id,
}
use dcom.Protocol.{message, get_disp_id-message, set_error_code-message, get_printed-message}
use dcom.ServerStub.Replies.{invoke_int_reply, invoke_string_reply}
use dcom.ServerStub.{ServerStub, primitive_int, primitive_string}
use dcom.Stream.{print_int}

-- The reply to the second of two requests.
abbrev pub in_turn :
    Platform → Allocator → ObjectManager → Marshaller → Marshaller → Outcome Marshaller
in_turn p al o first second = do
  (o', _) ← process_request p al o first
  (_, reply) ← process_request p al o' second
  ok reply

-- The request that asks for the object at address `a` to be deleted.
abbrev pub delete_request : Platform → ℤ → ℕ → Marshaller
delete_request p code a = message p code 0 e_delete_disp_id (p.handle_format.print a ∷ [])

module _ (p : Platform) (al : Allocator) (o : ObjectManager) (code : ℤ) (a : ℕ) (not_null : a ≢ 0)
    (in_range : a < handle_count) (member : contains a o.all_objects ≡ true) where
  pointer_read : get_function_parameter p.handle_format (delete_request p code a) (pos 1) 0 ≡ ok a
  pointer_read =
      get_printed-message p code 0 e_delete_disp_id (p.handle_format.print a ∷ []) p.handle_format 0
        a 0 (omega arith) refl (p.handle_carries a in_range)

  -- A deletion frees the object, and leaves its address in the set.
  pub delete_reply :
      (stub : ServerStub)
      → load a o.heap ≡ some stub
      → process_request p al o (delete_request p code a)
        ≡ ok (record o { heap = free a o.heap }, delete_request p error_success a)
  delete_reply stub live =
      global_reply p al o code e_delete_disp_id (p.handle_format.print a ∷ [])
        (record o { heap = free a o.heap }, delete_request p code a, error_success)
        (delete_request p error_success a)
        (unfold handle_global_functions delete_object in
          rw (
            get_disp_id-message p code 0 e_delete_disp_id (p.handle_format.print a ∷ [])
                (omega arith),
            pointer_read,
            delete_pointer_live p al o a (delete_request p code a) stub not_null member live,
          ))
        (set_error_code-message p code 0 e_delete_disp_id (p.handle_format.print a ∷ [])
          error_success)

  delete_dangling :
      load a o.heap ≡ none → process_request p al o (delete_request p code a) ≡ err dangling
  delete_dangling gone = global_fault p al o code e_delete_disp_id (p.handle_format.print a ∷ []) (
      unfold handle_global_functions delete_object in
      rw (
        get_disp_id-message p code 0 e_delete_disp_id (p.handle_format.print a ∷ []) (omega arith),
        pointer_read,
        delete_pointer_dangling p al o a (delete_request p code a) not_null member gone,
      ))

-- Once a live object has been deleted, the next request that names it, be it a call with any disp
-- id and parameters or a second deletion, goes through a dangling pointer.
pub use_after_delete :
    (p : Platform) (al : Allocator) (o : ObjectManager) (a : ℕ) (stub : ServerStub)
    (code later d : ℤ) (params : List Bytes)
    → a ≢ 0
    → a < handle_count
    → contains a o.all_objects ≡ true
    → load a o.heap ≡ some stub
    → (in_turn p al o (delete_request p code a) (message p later a d params) ≡ err dangling)
      × (in_turn p al o (delete_request p code a) (delete_request p later a) ≡ err dangling)
use_after_delete p al o a stub code later d params not_null in_range member live = (
  rw (
    delete_reply p al o code a not_null in_range member stub live,
    call_dangling p al freed later a d params not_null in_range member (load-free_self a o.heap),
  ),
  rw (
    delete_reply p al o code a not_null in_range member stub live,
    delete_dangling p al freed later a not_null in_range member (load-free_self a o.heap),
  ),
)
  where
    freed : ObjectManager
    freed = record o { heap = free a o.heap }

-- The deletion of a live object frees it and reports success. Every other object stays as it was,
-- and all pointers stay in the collection, that of the freed object included.
pub delete_other :
    (p : Platform) (al : Allocator) (o : ObjectManager) (a b : ℕ) (stub : ServerStub) (code : ℤ)
    → a ≢ 0
    → a < handle_count
    → contains a o.all_objects ≡ true
    → load a o.heap ≡ some stub
    → a ≢ b
    → (o' : ObjectManager) × (process_request p al o (delete_request p code a)
        ≡ ok (o', delete_request p error_success a))
      × (load a o'.heap ≡ none)
      × (load b o'.heap ≡ load b o.heap)
      × (o'.all_objects ≡ o.all_objects)
delete_other p al o a b stub code not_null in_range member live apart = (
  record o { heap = free a o.heap },
  delete_reply p al o code a not_null in_range member stub live,
  load-free_self a o.heap,
  load-free_other b a o.heap apart,
  refl,
)

module _ (p : Platform) (al : Allocator) (o : ObjectManager) (code later d : ℤ) (b : ℕ)
    (allocated : al.allocate o.heap ≡ some b) where
  positive : b ≢ 0
  positive e = omega (arith, al.fresh o.heap b allocated)

  -- If the server has memory for one more object, an `int` that a client stores is what a later
  -- request for the new object is answered, whatever disp id and parameters that request has.
  pub stored_int :
      (v : ℤ) (params : List Bytes)
      → IsInt v
      → in_turn p al o
          (message p code 0 e_create_int_disp_id (print_int v ∷ []))
          (message p later b d params)
        ≡ ok (message p error_success b d (set (padded 1 params) 0 (print_int v)))
  stored_int v params hv = rw (
    create_int_reply p al o code v b hv allocated,
    call_reply p al
        (record { all_objects = insert b o.all_objects; heap = (b, primitive_int v) ∷ o.heap })
        later b d params positive (al.fresh o.heap b allocated).1 (primitive_int v)
        (set (padded 1 params) 0 (print_int v)) error_success (contains-insert_self b o.all_objects)
        (load_new b (primitive_int v) o.heap) (invoke_int_reply p later b d params v),
  )

  -- So is a string.
  pub stored_string :
      (v : Bytes) (params : List Bytes)
      → in_turn p al o
          (message p code 0 e_create_string_disp_id (v ∷ []))
          (message p later b d params)
        ≡ ok (message p error_success b d (set (padded 1 params) 0 v))
  stored_string v params = rw (
    create_string_reply p al o code v [] b allocated,
    call_reply p al
        (record { all_objects = insert b o.all_objects; heap = (b, primitive_string v) ∷ o.heap })
        later b d params positive (al.fresh o.heap b allocated).1 (primitive_string v)
        (set (padded 1 params) 0 v) error_success (contains-insert_self b o.all_objects)
        (load_new b (primitive_string v) o.heap) (invoke_string_reply p later b d params v),
  )
