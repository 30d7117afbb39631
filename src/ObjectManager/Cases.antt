-- ===== src/ObjectManager/Cases.antt =====
-- The branches of a deletion and of a call on an object.
use dcom.Base.{
  ℕ, ◌≡◌, ◌≢◌, ◌⊎◌, inl, inr, true, false, none, some, arith, ◌==◌, Bool-cases, Option-cases, ok,
  err, dangling,
}
use dcom.Constants.{error_success, error_no_object_found, error_parameter_invalid}
use dcom.Format.{Platform}
use dcom.Marshaller.{Marshaller}
use dcom.ObjectManager.{
  load, free, Allocator, ObjectManager, contains, delete_pointer, invoke_object,
}
use dcom.ServerStub.{ServerStub, invoke}

pub none-ne-some {ℓ} : {A : Type ℓ} (a : A) → none ≡ some a → ⊥
none-ne-some a e = cc

module _ (p : Platform) (al : Allocator) (o : ObjectManager) (a : ℕ) (m : Marshaller) where
  pub delete_pointer_null : a ≡ 0 → delete_pointer p al o a m ≡ ok (o, m, error_parameter_invalid)
  unfolding delete_pointer
  delete_pointer_null e = rw e

  pub delete_pointer_unknown :
      a ≢ 0
      → contains a o.all_objects ≡ false
      → delete_pointer p al o a m ≡ ok (o, m, error_no_object_found)
  unfolding delete_pointer
  delete_pointer_unknown z e = let t : (a == 0) ≡ false = ground arith in rw (t, e)

  -- The set still holds a pointer whose object is gone: it is deleted twice.
  pub delete_pointer_dangling :
      a ≢ 0
      → contains a o.all_objects ≡ true
      → load a o.heap ≡ none
      → delete_pointer p al o a m ≡ err dangling
  unfolding delete_pointer
  delete_pointer_dangling z e f =
      let t : (a == 0) ≡ false = ground arith in rw (t, e, f, delete_pointer)

  pub delete_pointer_live :
      (stub : ServerStub)
      → a ≢ 0
      → contains a o.all_objects ≡ true
      → load a o.heap ≡ some stub
      → delete_pointer p al o a m ≡ ok (record o { heap = free a o.heap }, m, error_success)
  unfolding delete_pointer
  delete_pointer_live stub z e f =
      let t : (a == 0) ≡ false = ground arith in rw (t, e, f, delete_pointer)

  pub delete_pointer_cases :
      ((a ≡ 0) × (delete_pointer p al o a m ≡ ok (o, m, error_parameter_invalid)))
      ⊎ (((contains a o.all_objects ≡ false)
            × (delete_pointer p al o a m ≡ ok (o, m, error_no_object_found)))
          ⊎ ((a ≢ 0)
              × (contains a o.all_objects ≡ true)
              × (((load a o.heap ≡ none) × (delete_pointer p al o a m ≡ err dangling))
                  ⊎ ((stub : ServerStub) × (load a o.heap ≡ some stub)
                      × (delete_pointer p al o a m
                          ≡ ok (record o { heap = free a o.heap }, m, error_success))))))
  delete_pointer_cases = elim (Bool-cases (a == 0)) [
    | inl z ↦ let z' : a ≡ 0 = ground arith in inl (z', delete_pointer_null z')
    | inr z ↦
        let z' : a ≢ 0 = ground arith in
        elim (Bool-cases (contains a o.all_objects)) [
          | inr e ↦ inr (inl (e, delete_pointer_unknown z' e))
          | inl e ↦ elim (Option-cases (load a o.heap)) [
            | inl f ↦ inr (inr (z', e, inl (f, delete_pointer_dangling z' e f)))
            | inr (stub, f) ↦ inr (inr (z', e, inr (stub, f, delete_pointer_live stub z' e f)))
          ]
        ]
  ]

  pub invoke_object_unknown :
      contains a o.all_objects ≡ false → invoke_object p al o a m ≡ ok (m, error_no_object_found)
  unfolding invoke_object
  invoke_object_unknown e = rw e

  pub invoke_object_dangling :
      contains a o.all_objects ≡ true
      → load a o.heap ≡ none
      → invoke_object p al o a m ≡ err dangling
  unfolding invoke_object
  invoke_object_dangling e f = rw (e, f, invoke_object)

  pub invoke_object_live :
      (stub : ServerStub)
      → contains a o.all_objects ≡ true
      → load a o.heap ≡ some stub
      → invoke_object p al o a m ≡ invoke stub m
  unfolding invoke_object
  invoke_object_live stub e f = rw (e, f, invoke_object)

  pub invoke_object_cases :
      ((contains a o.all_objects ≡ false)
        × (invoke_object p al o a m ≡ ok (m, error_no_object_found)))
      ⊎ ((contains a o.all_objects ≡ true)
          × (((load a o.heap ≡ none) × (invoke_object p al o a m ≡ err dangling))
              ⊎ ((stub : ServerStub) × (load a o.heap ≡ some stub)
                  × (invoke_object p al o a m ≡ invoke stub m))))
  invoke_object_cases = elim (Bool-cases (contains a o.all_objects)) [
    | inr e ↦ inl (e, invoke_object_unknown e)
    | inl e ↦ elim (Option-cases (load a o.heap)) [
      | inl f ↦ inr (e, inl (f, invoke_object_dangling e f))
      | inr (stub, f) ↦ inr (e, inr (stub, f, invoke_object_live stub e f))
    ]
  ]
