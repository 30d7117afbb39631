-- ===== src/ObjectManager/Safety.antt =====
-- The server uses its memory rightly as long as no object has been deleted.
use mathlib.Core.Path.{subst}
use dcom.Base.{
  ℕ, ◌<◌, ◌≡◌, refl, sym, ◌∙◌, ◌⊎◌, inl, inr, false, [], ◌∷◌, none, some, codes, length, arith, ltb,
  ◌==◌, text_eq, Option-cases, ℤ, pos, eq_ℤ, is_int, ◌+ℤ◌, signed_overflow, ok, err, bad_alloc,
  Ensures, Ensures->>=, Ensures-weaken,
}
use dcom.Calculator.{calculator, add, reverse_name, long_operation}
use dcom.Constants.{
  error_success, error_object_not_registered, error_dispid_invalid, invalid_handle_value,
}
use dcom.Format.{Platform, int_format, string_format}
use dcom.Marshaller.Access.{IsWell}
use dcom.Marshaller.Safety.{get_parameter_safe, set_parameter_safe}
use dcom.Marshaller.{Marshaller, get_disp_id, set_error_code, get_object_id, e_invalid_disp_id}
use dcom.ObjectManager.Cases.{delete_pointer_cases, invoke_object_cases, none-ne-some}
use dcom.ObjectManager.Invariant.{Inv, NoneDeleted, Inv-insert, Inv-free, NoneDeleted-insert}
use dcom.ObjectManager.{
  Heap, Allocator, ObjectManager, new_stub, new_or_fail, create_object, create_primitive_object,
  create, delete_pointer, delete_object, register, handle_global_functions, invoke_object,
  process_request, e_create_custom_object_disp_id, e_create_int_disp_id, e_create_string_disp_id,
  e_delete_disp_id,
}
use dcom.ServerStub.Safety.{
  IsSafe, StubIsSafe, WellReply, Ensures-if, invoke_safe, after_get, after_set,
}
use dcom.ServerStub.{ServerStub, custom, primitive_int, primitive_string}

add_safe : (x y z : ℤ) → Ensures (λ _. Unit {0}) (add x y z)
unfolding add
add_safe x y z =
    Ensures-if (λ _. Unit {0}) (is_int (x +ℤ y)) (ok (pos 0, x +ℤ y)) (err signed_overflow) tt tt

pub calculator-IsSafe : IsSafe calculator
unfolding calculator reverse_name long_operation
calculator-IsSafe = record {
  add_safe = add_safe;
  reverse_name_safe = λ s. tt;
  long_operation_safe = λ t s. tt;
}

-- A creation gives the null pointer and the old heap, or the pointer to a new, safe stub.
abbrev pub Created : Heap → ℕ × Heap × Marshaller → Type 0
Created h (a, h', m) =
    IsWell m
    × (((a ≡ 0) × (h' ≡ h))
        ⊎ ((stub : ServerStub) × (0 < a) × (h' ≡ (a, stub) ∷ h) × StubIsSafe stub))

module _ (p : Platform) (al : Allocator) where
  new_stub-some :
      (stub : ServerStub) (h : Heap) (a : ℕ)
      → al.allocate h ≡ some a
      → new_stub p al stub h ≡ ok (a, (a, stub) ∷ h)
  unfolding new_stub
  new_stub-some stub h a e = rw (e, new_stub)

  new_stub-none :
      (stub : ServerStub) (h : Heap) → al.allocate h ≡ none → new_stub p al stub h ≡ err bad_alloc
  unfolding new_stub
  new_stub-none stub h e = rw (e, new_stub)

  -- `new` gives a fresh address, and the test for a null pointer behind it never holds.
  pub new_or_fail-some :
      (stub : ServerStub) (h : Heap) (m : Marshaller) (a : ℕ)
      → al.allocate h ≡ some a
      → new_or_fail p al stub h m ≡ ok (a, (a, stub) ∷ h, m)
  unfolding new_or_fail
  new_or_fail-some stub h m a e =
      let pointer : (a == 0) ≡ false = ground (arith, al.fresh h a e) in
      rw (new_stub-some stub h a e, pointer)

  pub new_or_fail-none :
      (stub : ServerStub) (h : Heap) (m : Marshaller)
      → al.allocate h ≡ none
      → new_or_fail p al stub h m ≡ err bad_alloc
  unfolding new_or_fail
  new_or_fail-none stub h m e = rw (new_stub-none stub h e)

  new_or_fail_safe :
      (stub : ServerStub) (h : Heap) (m : Marshaller)
      → StubIsSafe stub
      → IsWell m
      → Ensures (Created h) (new_or_fail p al stub h m)
  new_or_fail_safe stub h m safe well = elim (Option-cases (al.allocate h)) [
    | inl e ↦ subst (Ensures (Created h)) (sym (new_or_fail-none stub h m e)) tt
    | inr (a, e) ↦
        subst (Ensures (Created h)) (sym (new_or_fail-some stub h m a e))
          (well, inr (stub, (al.fresh h a e).0, refl, safe))
  ]

  pub create_safe :
      (disp_id : ℤ) (h : Heap) (m : Marshaller)
      → IsWell m
      → Ensures (Created h) (create p al disp_id h m)
  unfolding create create_object create_primitive_object
  create_safe disp_id h m well =
      Ensures-if (Created h) (eq_ℤ disp_id e_create_custom_object_disp_id) _ _
        (after_get string_format m 0 (Created h) well [] _ λ object_name.
          Ensures-if (Created h) (text_eq object_name (codes "Calculator")) _ _
            (new_or_fail_safe (custom (some calculator)) h m calculator-IsSafe well)
            (Ensures->>= IsWell (Created h) (set_error_code m error_object_not_registered) _
              (unfold set_error_code in
                set_parameter_safe int_format m 0 well error_object_not_registered (omega arith))
              λ m' w. (w, inl (refl, refl))))
        (Ensures-if (Created h) (eq_ℤ disp_id e_create_int_disp_id) _ _
          (after_get int_format m 0 (Created h) well (pos 0) _
            λ v. new_or_fail_safe (primitive_int v) h m tt well)
          (Ensures-if (Created h) (eq_ℤ disp_id e_create_string_disp_id) _ _
            (after_get string_format m 0 (Created h) well [] _
              λ v. new_or_fail_safe (primitive_string v) h m tt well)
            (well, inl (refl, refl))))

-- What a handler of requests leaves: in `Live` no known object is gone.
abbrev pub Live : ObjectManager × Marshaller × ℤ → Type 0
Live (o, m, error_code) = Inv o × NoneDeleted o × IsWell m

abbrev Kept : ObjectManager × Marshaller × ℤ → Type 0
Kept (o, m, error_code) = Inv o × IsWell m

abbrev pub Served : ObjectManager × Marshaller → Type 0
Served (o, m) = Inv o × IsWell m

module _ (p : Platform) (al : Allocator) where
  pub register_safe :
      (o : ObjectManager) (r : ℕ × Heap × Marshaller)
      → Inv o
      → NoneDeleted o
      → Created o.heap r
      → Ensures Live (register p al o r)
  unfolding register
  register_safe o (a, h, m) inv live (well, inl (z, e)) =
      rw (z, e)
        (Ensures->>= IsWell Live (set_error_code m error_dispid_invalid) _
          (unfold set_error_code in
            set_parameter_safe int_format m 0 well error_dispid_invalid (omega arith))
          λ m' w. (inv, live, w))
  register_safe o (a, h, m) inv live (well, inr (stub, positive, e, safe)) =
      let pointer : (a == 0) ≡ false = ground arith in
      rw (pointer, e)
        (after_set p.handle_format m 1 Live well a _ (omega arith) λ m₁ _ w₁.
          Ensures->>= IsWell Live (set_error_code m₁ error_success) _
            (unfold set_error_code in
              set_parameter_safe int_format m₁ 0 w₁ error_success (omega arith))
            λ m₂ w₂. (Inv-insert o a stub inv positive safe, NoneDeleted-insert o a stub live, w₂))

  delete_pointer_safe :
      (o : ObjectManager) (a : ℕ) (m : Marshaller)
      → Inv o
      → NoneDeleted o
      → IsWell m
      → Ensures Kept (delete_pointer p al o a m)
  delete_pointer_safe o a m inv live well = elim (delete_pointer_cases p al o a m) [
    | inl (_, e) ↦ subst (Ensures Kept) (sym e) (inv, well)
    | inr (inl (_, e)) ↦ subst (Ensures Kept) (sym e) (inv, well)
    | inr (inr (_, member, inl (gone, e))) ↦
        let (stub, found) = live a member in absurd (none-ne-some stub (sym gone ∙ found))
    | inr (inr (_, member, inr (stub, found, e))) ↦
        subst (Ensures Kept) (sym e) (Inv-free o a inv, well)
  ]

  delete_object_safe :
      (o : ObjectManager) (m : Marshaller)
      → Inv o
      → NoneDeleted o
      → IsWell m
      → Ensures Kept (delete_object p al o m)
  unfolding delete_object
  delete_object_safe o m inv live well =
      after_get p.handle_format m 0 Kept well 0 _ λ a. delete_pointer_safe o a m inv live well

  handle_global_functions_safe :
      (o : ObjectManager) (m : Marshaller)
      → Inv o
      → NoneDeleted o
      → IsWell m
      → Ensures Kept (handle_global_functions p al o m)
  unfolding handle_global_functions
  handle_global_functions_safe o m inv live well =
      Ensures->>= (λ _. Unit {0}) Kept (get_disp_id m) _
        (unfold get_disp_id in get_parameter_safe int_format m 2 well e_invalid_disp_id)
        λ disp_id _.
          Ensures-if Kept (eq_ℤ disp_id e_delete_disp_id) _ _ (delete_object_safe o m inv live well)
            (Ensures->>= (Created o.heap) Kept (create p al disp_id o.heap m) _
              (create_safe p al disp_id o.heap m well)
              λ r c.
                Ensures-weaken Live Kept (register p al o r) (λ s l. (l.0, l.2))
                  (register_safe o r inv live c))

  pub invoke_object_safe :
      (o : ObjectManager) (a : ℕ) (m : Marshaller)
      → Inv o
      → NoneDeleted o
      → IsWell m
      → Ensures WellReply (invoke_object p al o a m)
  invoke_object_safe o a m inv live well = elim (invoke_object_cases p al o a m) [
    | inl (_, e) ↦ subst (Ensures WellReply) (sym e) well
    | inr (member, inl (gone, e)) ↦
        let (stub, found) = live a member in absurd (none-ne-some stub (sym gone ∙ found))
    | inr (member, inr (stub, found, e)) ↦
        subst (Ensures WellReply) (sym e) (invoke_safe stub m (inv.known a stub found).2 well)
  ]

  -- From a state that satisfies the invariant and in which each known object is live, every
  -- message with the right count is served without undefined behaviour but that of the data itself
  -- (an `int` sum that overflows, no memory left for a new object). The invariant is kept, and the
  -- count of the reply is right.
  pub process_request_safe :
      (o : ObjectManager) (m : Marshaller)
      → Inv o
      → NoneDeleted o
      → IsWell m
      → Ensures Served (process_request p al o m)
  unfolding process_request
  process_request_safe o m inv live well =
      Ensures->>= (λ _. Unit {0}) Served (get_object_id p m) _
        (unfold get_object_id in get_parameter_safe p.handle_format m 1 well invalid_handle_value)
        λ a _.
          Ensures-if Served (a == 0) _ _
            (Ensures->>= Kept Served (handle_global_functions p al o m) _
              (handle_global_functions_safe o m inv live well)
              λ r k.
                Ensures->>= IsWell Served (set_error_code r.1 r.2) _
                  (unfold set_error_code in
                    set_parameter_safe int_format r.1 0 k.1 r.2 (omega arith))
                  λ m' w. (k.0, w))
            (Ensures-if Served (ltb 0 (length o.all_objects)) _ _
              (Ensures->>= WellReply Served (invoke_object p al o a m) _
                (invoke_object_safe o a m inv live well)
                λ r k.
                  Ensures->>= IsWell Served (set_error_code r.0 r.1) _
                    (unfold set_error_code in
                      set_parameter_safe int_format r.0 0 k r.1 (omega arith))
                    λ m' w. (inv, w))
              (inv, well))
