-- ===== src/ObjectManager/Creation.antt =====
-- What the server answers to the requests that make an object.
use dcom.Base.{
  ℕ, ◌<◌, ◌≡◌, refl, false, List, [], ◌∷◌, some, none, Bytes, codes, set, arith, ◌==◌, text_eq, ℤ,
  pos, IsInt, eq_ℤ, ok, err, dangling, bad_alloc,
}
use dcom.Calculator.{calculator}
use dcom.Constants.{error_success}
use dcom.Format.{Platform, Carries-int, int_format, string_format}
use dcom.Marshaller.Access.{padded}
use dcom.Marshaller.{Marshaller, set_error_code}
use dcom.ObjectManager.Safety.{new_or_fail-some, new_or_fail-none}
use dcom.ObjectManager.{
  Heap, Allocator, ObjectManager, insert, create_object, create_primitive_object, create, register,
  handle_global_functions, process_request, e_create_custom_object_disp_id, e_create_int_disp_id,
  e_create_string_disp_id, e_delete_disp_id,
}
use dcom.Protocol.{
  message, get_disp_id-message, get_object_id-message, set_error_code-message,
  get_function_parameter-message, set_function_parameter-message, get_printed-message,
}
use dcom.ServerStub.{ServerStub, custom, primitive_int, primitive_string}
use dcom.Stream.{print_int}

module _ (p : Platform) (al : Allocator) (o : ObjectManager) (code : ℤ) (d : ℤ)
    (params : List Bytes) where
  -- A request with the null object id goes to the global functions.
  pub global_reply :
      (r : ObjectManager × Marshaller × ℤ) (reply : Marshaller)
      → handle_global_functions p al o (message p code 0 d params) ≡ ok r
      → set_error_code r.1 r.2 ≡ ok reply
      → process_request p al o (message p code 0 d params) ≡ ok (r.0, reply)
  unfolding process_request
  global_reply r reply h e = rw (get_object_id-message p code 0 d params (omega arith), h, e)

  pub global_fault :
      handle_global_functions p al o (message p code 0 d params) ≡ err dangling
      → process_request p al o (message p code 0 d params) ≡ err dangling
  unfolding process_request
  global_fault h = rw (get_object_id-message p code 0 d params (omega arith), h)

  -- What is written of a new object.
  pub register_reply :
      (b : ℕ) (h : Heap)
      → 0 < b
      → register p al o (b, h, message p code 0 d params)
        ≡ ok (
          record { all_objects = insert b o.all_objects; heap = h },
          message p error_success 0 d (set (padded 2 params) 1 (p.handle_format.print b)),
          error_success,
        )
  register_reply b h positive =
      let pointer : (b == 0) ≡ false = ground arith in
      unfold register in
      rw (
        pointer,
        set_function_parameter-message p code 0 d params p.handle_format 1 b (omega arith),
        set_error_code-message p code 0 d (set (padded 2 params) 1 (p.handle_format.print b))
            error_success,
      )

  create_reply :
      (b : ℕ) (stub : ServerStub)
      → IsInt d
      → eq_ℤ d e_delete_disp_id ≡ false
      → 0 < b
      → create p al d o.heap (message p code 0 d params)
        ≡ ok (b, (b, stub) ∷ o.heap, message p code 0 d params)
      → process_request p al o (message p code 0 d params)
        ≡ ok (
          record { all_objects = insert b o.all_objects; heap = (b, stub) ∷ o.heap },
          message p error_success 0 d (set (padded 2 params) 1 (p.handle_format.print b)),
        )
  create_reply b stub hd other positive h =
      global_reply
        (
          record { all_objects = insert b o.all_objects; heap = (b, stub) ∷ o.heap },
          message p error_success 0 d (set (padded 2 params) 1 (p.handle_format.print b)),
          error_success,
        )
        (message p error_success 0 d (set (padded 2 params) 1 (p.handle_format.print b)))
        (unfold handle_global_functions in
          rw (get_disp_id-message p code 0 d params hd, other, h)
            (register_reply b ((b, stub) ∷ o.heap) positive))
        (set_error_code-message p error_success 0 d
          (set (padded 2 params) 1 (p.handle_format.print b)) error_success)

module _ (p : Platform) (al : Allocator) (o : ObjectManager) (code : ℤ) where
  -- What `new` does for an `int` and for a string.
  pub int_made :
      (v : ℤ) (b : ℕ)
      → IsInt v
      → al.allocate o.heap ≡ some b
      → create p al e_create_int_disp_id o.heap
          (message p code 0 e_create_int_disp_id (print_int v ∷ []))
        ≡ ok (
          b,
          (b, primitive_int v) ∷ o.heap,
          message p code 0 e_create_int_disp_id (print_int v ∷ []),
        )
  unfolding create create_primitive_object
  int_made v b hv allocated =
      rw
        (get_printed-message p code 0 e_create_int_disp_id (print_int v ∷ []) int_format 0 v (pos 0)
          (omega arith) refl (Carries-int v hv))
        (new_or_fail-some p al (primitive_int v) o.heap
          (message p code 0 e_create_int_disp_id (print_int v ∷ [])) b allocated)

  pub string_made :
      (v : Bytes) (more : List Bytes) (b : ℕ)
      → al.allocate o.heap ≡ some b
      → create p al e_create_string_disp_id o.heap
          (message p code 0 e_create_string_disp_id (v ∷ more))
        ≡ ok (
          b,
          (b, primitive_string v) ∷ o.heap,
          message p code 0 e_create_string_disp_id (v ∷ more),
        )
  unfolding create create_primitive_object
  string_made v more b allocated =
      rw
        (get_function_parameter-message p code 0 e_create_string_disp_id (v ∷ more) string_format 0
          [] (omega arith))
        (new_or_fail-some p al (primitive_string v) o.heap
          (message p code 0 e_create_string_disp_id (v ∷ more)) b allocated)

  pub int_not_made :
      (v : ℤ)
      → IsInt v
      → al.allocate o.heap ≡ none
      → create p al e_create_int_disp_id o.heap
          (message p code 0 e_create_int_disp_id (print_int v ∷ []))
        ≡ err bad_alloc
  unfolding create create_primitive_object
  int_not_made v hv full =
      rw
        (get_printed-message p code 0 e_create_int_disp_id (print_int v ∷ []) int_format 0 v (pos 0)
          (omega arith) refl (Carries-int v hv))
        (new_or_fail-none p al (primitive_int v) o.heap
          (message p code 0 e_create_int_disp_id (print_int v ∷ [])) full)

  pub string_not_made :
      (v : Bytes) (more : List Bytes)
      → al.allocate o.heap ≡ none
      → create p al e_create_string_disp_id o.heap
          (message p code 0 e_create_string_disp_id (v ∷ more))
        ≡ err bad_alloc
  unfolding create create_primitive_object
  string_not_made v more full =
      rw
        (get_function_parameter-message p code 0 e_create_string_disp_id (v ∷ more) string_format 0
          [] (omega arith))
        (new_or_fail-none p al (primitive_string v) o.heap
          (message p code 0 e_create_string_disp_id (v ∷ more)) full)

  -- An `int` is stored in a new object, whose address is the second parameter of the reply.
  pub create_int_reply :
      (v : ℤ) (b : ℕ)
      → IsInt v
      → al.allocate o.heap ≡ some b
      → process_request p al o (message p code 0 e_create_int_disp_id (print_int v ∷ []))
        ≡ ok (
          record { all_objects = insert b o.all_objects; heap = (b, primitive_int v) ∷ o.heap },
          message p error_success 0 e_create_int_disp_id
              (print_int v ∷ p.handle_format.print b ∷ []),
        )
  create_int_reply v b hv allocated =
      create_reply p al o code e_create_int_disp_id (print_int v ∷ []) b (primitive_int v)
        (omega arith) refl (al.fresh o.heap b allocated).0 (int_made v b hv allocated)

  -- A string likewise: the text of the first parameter, whatever stands behind it.
  pub create_string_reply :
      (v : Bytes) (more : List Bytes) (b : ℕ)
      → al.allocate o.heap ≡ some b
      → process_request p al o (message p code 0 e_create_string_disp_id (v ∷ more))
        ≡ ok (
          record { all_objects = insert b o.all_objects; heap = (b, primitive_string v) ∷ o.heap },
          message p error_success 0 e_create_string_disp_id
              (set (padded 2 (v ∷ more)) 1 (p.handle_format.print b)),
        )
  create_string_reply v more b allocated =
      create_reply p al o code e_create_string_disp_id (v ∷ more) b (primitive_string v)
        (omega arith) refl (al.fresh o.heap b allocated).0 (string_made v more b allocated)

  pub create_calculator_reply :
      (b : ℕ)
      → al.allocate o.heap ≡ some b
      → process_request p al o
          (message p code 0 e_create_custom_object_disp_id (codes "Calculator" ∷ []))
        ≡ ok (
          record {
            all_objects = insert b o.all_objects;
            heap = (b, custom (some calculator)) ∷ o.heap;
          },
          message p error_success 0 e_create_custom_object_disp_id
              (codes "Calculator" ∷ p.handle_format.print b ∷ []),
        )
  create_calculator_reply b allocated =
      create_reply p al o code e_create_custom_object_disp_id (codes "Calculator" ∷ []) b
        (custom (some calculator)) (omega arith) refl (al.fresh o.heap b allocated).0
        (unfold create create_object text_eq in
          rw
            (get_function_parameter-message p code 0 e_create_custom_object_disp_id
              (codes "Calculator" ∷ []) string_format 0 [] (omega arith))
            (new_or_fail-some p al (custom (some calculator)) o.heap
              (message p code 0 e_create_custom_object_disp_id (codes "Calculator" ∷ [])) b
              allocated))
