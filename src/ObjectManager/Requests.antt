-- ===== src/ObjectManager/Requests.antt =====
-- What the server answers to the requests of the protocol, and what becomes of its objects.
use dcom.Base.{
  ℕ, ◌<◌, ◌≡◌, ◌≢◌, true, false, List, [], ◌∷◌, some, none, Bytes, codes, length, arith, ltb, ◌==◌,
  text_eq, ℤ, ok, err, dangling,
}
use dcom.Constants.{
  error_no_object_found, error_dispid_invalid, error_object_not_registered, handle_count,
}
use dcom.Format.{Platform, string_format}
use dcom.ObjectManager.Creation.{global_reply}
use dcom.ObjectManager.Cases.{invoke_object_live, invoke_object_unknown, invoke_object_dangling}
use dcom.ObjectManager.{
  load, Allocator, ObjectManager, contains, create_object, create, register,
  handle_global_functions, process_request, e_create_custom_object_disp_id,
}
use dcom.Protocol.{
  message, get_disp_id-message, get_object_id-message, set_error_code-message,
  get_function_parameter-message,
}
use dcom.ServerStub.{ServerStub, invoke}

contains_nonempty : (a : ℕ) (s : List ℕ) → contains a s ≡ true → ltb 0 (length s) ≡ true
unfolding contains
contains_nonempty a [] h = cc
contains_nonempty a (b ∷ s) h = ground arith

module _ (p : Platform) (al : Allocator) (o : ObjectManager) (code : ℤ) (a : ℕ) (d : ℤ)
    (params : List Bytes) (not_null : a ≢ 0) (in_range : a < handle_count) where
  -- A call on a live object: the server's objects stay, and the stub's answer is the reply.
  pub call_reply :
      (stub : ServerStub) (params' : List Bytes) (e : ℤ)
      → contains a o.all_objects ≡ true
      → load a o.heap ≡ some stub
      → invoke stub (message p code a d params) ≡ ok (message p code a d params', e)
      → process_request p al o (message p code a d params) ≡ ok (o, message p e a d params')
  unfolding process_request
  call_reply stub params' e member live h =
      let object : (a == 0) ≡ false = ground arith in
      let called = invoke_object_live p al o a (message p code a d params) stub member live in
      rw (
        get_object_id-message p code a d params in_range,
        object,
        contains_nonempty a o.all_objects member,
        called,
        h,
        set_error_code-message p code a d params' e,
      )

  -- A call through a pointer that is not null and that the server does not know is refused, once
  -- the server has made an object at all.
  pub call_unknown :
      o.all_objects ≢ []
      → contains a o.all_objects ≡ false
      → process_request p al o (message p code a d params)
        ≡ ok (o, message p error_no_object_found a d params)
  unfolding process_request
  call_unknown some_object unknown =
      let object : (a == 0) ≡ false = ground arith in
      let nonempty : ltb 0 (length o.all_objects) ≡ true = ground arith in
      rw (
        get_object_id-message p code a d params in_range,
        object,
        nonempty,
        invoke_object_unknown p al o a (message p code a d params) unknown,
        set_error_code-message p code a d params error_no_object_found,
      )

  -- A call on an object that was deleted goes through a dangling pointer.
  pub call_dangling :
      contains a o.all_objects ≡ true
      → load a o.heap ≡ none
      → process_request p al o (message p code a d params) ≡ err dangling
  unfolding process_request
  call_dangling member gone =
      let object : (a == 0) ≡ false = ground arith in
      rw (
        get_object_id-message p code a d params in_range,
        object,
        contains_nonempty a o.all_objects member,
        invoke_object_dangling p al o a (message p code a d params) member gone,
      )

module _ (p : Platform) (al : Allocator) (o : ObjectManager) (code : ℤ) where
  -- A request for a class whose name is not `Calculator`: no object is made, and the reply says
  -- that the disp id is invalid, not that the class is not registered.
  pub create_unregistered_reply :
      (name : Bytes)
      → text_eq name (codes "Calculator") ≡ false
      → process_request p al o (message p code 0 e_create_custom_object_disp_id (name ∷ []))
        ≡ ok (o, message p error_dispid_invalid 0 e_create_custom_object_disp_id (name ∷ []))
  create_unregistered_reply name unregistered =
      global_reply p al o code e_create_custom_object_disp_id (name ∷ [])
        (
          o,
          message p error_dispid_invalid 0 e_create_custom_object_disp_id (name ∷ []),
          error_dispid_invalid,
        )
        (message p error_dispid_invalid 0 e_create_custom_object_disp_id (name ∷ []))
        (unfold handle_global_functions in
          rw
            (
              get_disp_id-message p code 0 e_create_custom_object_disp_id (name ∷ []) (omega arith),
              made,
            )
            (unfold register in
              rw (
                set_error_code-message p error_object_not_registered 0
                  e_create_custom_object_disp_id (name ∷ []) error_dispid_invalid)))
        (set_error_code-message p error_dispid_invalid 0 e_create_custom_object_disp_id (name ∷ [])
          error_dispid_invalid)
    where
      made :
          create p al e_create_custom_object_disp_id o.heap
            (message p code 0 e_create_custom_object_disp_id (name ∷ []))
          ≡ ok (
            0,
            o.heap,
            message p error_object_not_registered 0 e_create_custom_object_disp_id (name ∷ []),
          )
      made =
          unfold create create_object in
          rw (
            get_function_parameter-message p code 0 e_create_custom_object_disp_id (name ∷ [])
                string_format 0 [] (omega arith),
            unregistered,
            set_error_code-message p code 0 e_create_custom_object_disp_id (name ∷ [])
                error_object_not_registered,
          )
