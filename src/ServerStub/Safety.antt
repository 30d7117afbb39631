-- ===== src/ServerStub/Safety.antt =====
-- `Invoke` uses its memory rightly, for every stub whose object does and every message.
use mathlib.Core.Path.{subst}
use dcom.Base.{
  ℕ, suc, ◌+◌, ◌<◌, ◌^◌, ◌≡◌, refl, sym, Bool, true, false, [], none, some, Bytes, arith,
  if◌then◌else◌, ℤ, pos, negsuc, eq_ℤ, Outcome, ok, ◌>>=◌, Ensures, Ensures->>=, Ensures-catch_all,
}
use dcom.Calculator.{
  ICalculator, invoke_add, invoke_reverse_name, invoke_long_operation, dispatch_entries,
  max_disp_id, add_disp_id, reverse_name_disp_id, long_operation_disp_id,
}
use dcom.Constants.{error_parameter_invalid, error_dispid_invalid}
use dcom.Format.{Format, int_format, dword_format, string_format}
use dcom.Marshaller.Access.{IsWell}
use dcom.Marshaller.Safety.{
  get_parameter_safe, get_function_parameter_safe, set_function_parameter_safe,
}
use dcom.Marshaller.{Marshaller, get_disp_id, get_function_parameter, set_function_parameter}
use dcom.ServerStub.{ServerStub, custom, primitive_int, primitive_string, call, dispatch, invoke}

abbrev Returns {ℓ} : {A : Type ℓ} → Outcome A → Type 0
Returns = Ensures (λ _. Unit {0})

-- The functions of the class use their memory rightly.
pub record IsSafe (c : ICalculator) : Type 0 where
  pub add_safe : (x y z : ℤ) → Returns (c.add x y z)
  pub reverse_name_safe : (s : Bytes) → Returns (c.reverse_name s)
  pub long_operation_safe : (wait_time : ℕ) (s : Bytes) → Returns (c.long_operation wait_time s)

abbrev pub WellReply : Marshaller × ℤ → Type 0
WellReply (m, error_code) = IsWell m

module _ {ℓ κ} {T : Type ℓ} {B : Type κ} (f : Format T) (m : Marshaller) (i : ℕ) (R : B → Type 0)
    (well : IsWell m) where
  -- Reading and writing a parameter, then going on.
  pub after_get :
      (t : T) (k : T → Outcome B)
      → ((v : T) → Ensures R (k v))
      → Ensures R (do v ← get_function_parameter f m (pos (suc i)) t; k v)
  after_get t k h =
      Ensures->>= (λ _. Unit {0}) R (get_function_parameter f m (pos (suc i)) t) k
        (get_function_parameter_safe f m i well t) (λ v _. h v)

  pub after_set :
      (v : T) (k : Marshaller × Bool → Outcome B)
      → i + 3 < 2 ^ 31
      → ((m' : Marshaller) (done : Bool) → IsWell m' → Ensures R (k (m', done)))
      → Ensures R (do r ← set_function_parameter f m (pos (suc i)) v; k r)
  after_set v k h go =
      Ensures->>= (λ (r : Marshaller × Bool). IsWell r.0) R
        (set_function_parameter f m (pos (suc i)) v) k (set_function_parameter_safe f m i well v h)
        (λ r w. go r.0 r.1 w)

module _ (c : ICalculator) (safe : IsSafe c) (m : Marshaller) (well : IsWell m) where
  invoke_add_safe : Ensures WellReply (invoke_add c m)
  unfolding invoke_add
  invoke_add_safe =
      Ensures-catch_all WellReply _ (ok (m, error_parameter_invalid))
        (after_get int_format m 0 WellReply well (pos 0) _ λ x.
          after_get int_format m 1 WellReply well (pos 0) _ λ y.
            after_get int_format m 2 WellReply well (pos 0) _ λ z.
              Ensures->>= (λ _. Unit {0}) WellReply (c.add x y z) _ (safe.add_safe x y z)
                λ r _. after_set int_format m 2 WellReply well r.1 _ (omega arith) λ m₁ _ w₁.
                  after_set int_format m₁ 1 WellReply w₁ y _ (omega arith) λ m₂ _ w₂.
                    after_set int_format m₂ 0 WellReply w₂ x _ (omega arith) λ m₃ _ w₃. w₃)
        well

  invoke_reverse_name_safe : Ensures WellReply (invoke_reverse_name c m)
  unfolding invoke_reverse_name
  invoke_reverse_name_safe =
      Ensures-catch_all WellReply _ (ok (m, error_parameter_invalid))
        (after_get string_format m 0 WellReply well [] _ λ s.
          Ensures->>= (λ _. Unit {0}) WellReply (c.reverse_name s) _ (safe.reverse_name_safe s)
            λ r _. after_set string_format m 0 WellReply well r.1 _ (omega arith) λ m₁ _ w₁. w₁)
        well

  invoke_long_operation_safe : Ensures WellReply (invoke_long_operation c m)
  unfolding invoke_long_operation
  invoke_long_operation_safe =
      Ensures-catch_all WellReply _ (ok (m, error_parameter_invalid))
        (after_get dword_format m 0 WellReply well 0 _ λ t.
          after_get string_format m 1 WellReply well [] _ λ s.
            Ensures->>= (λ _. Unit {0}) WellReply (c.long_operation t s) _
              (safe.long_operation_safe t s)
              λ r _.
                after_set string_format m 1 WellReply well r.1 _ (omega arith) λ m₁ _ w₁.
                  after_set dword_format m₁ 0 WellReply w₁ t _ (omega arith) λ m₂ _ w₂. w₂)
        well

-- The dispatch table has three functions and then the null entry, which is never called.
pub dispatch_cases :
    (c : ICalculator) (disp_id : ℤ) (m : Marshaller)
    → dispatch max_disp_id 0 c disp_id m ≡ (
        if eq_ℤ add_disp_id disp_id
        then invoke_add c m
        else if eq_ℤ reverse_name_disp_id disp_id
        then invoke_reverse_name c m
        else if eq_ℤ long_operation_disp_id disp_id
        then invoke_long_operation c m
        else ok (m, error_dispid_invalid))
unfolding dispatch call dispatch_entries
dispatch_cases c disp_id m = refl

-- A choice ensures what both its branches do.
pub Ensures-if {ℓ} :
    {A : Type ℓ} (Q : A → Type 0) (b : Bool) (x y : Outcome A)
    → Ensures Q x
    → Ensures Q y
    → Ensures Q (if b then x else y)
Ensures-if Q true x y hx hy = hx
Ensures-if Q false x y hx hy = hy

-- The objects that the server may hold.
abbrev pub StubIsSafe : ServerStub → Type 0
StubIsSafe (custom none) = Unit
StubIsSafe (custom (some c)) = IsSafe c
StubIsSafe (primitive_int v) = Unit
StubIsSafe (primitive_string v) = Unit

-- On a stub whose object, if it has one, has safe functions, `Invoke` of a message with the right
-- count reads and writes inside the vector and calls no null pointer, and the count stays right.
pub invoke_safe :
    (stub : ServerStub) (m : Marshaller)
    → StubIsSafe stub
    → IsWell m
    → Ensures WellReply (invoke stub m)
unfolding invoke
invoke_safe (custom none) m safe well = well
invoke_safe (custom (some c)) m safe well =
    Ensures->>= (λ _. Unit {0}) WellReply (get_disp_id m) _
      (unfold get_disp_id in get_parameter_safe int_format m 2 well (negsuc 0))
      λ disp_id _. subst (Ensures WellReply) (sym (dispatch_cases c disp_id m)) (
        Ensures-if WellReply (eq_ℤ add_disp_id disp_id) _ _ (invoke_add_safe c safe m well) (
          Ensures-if WellReply (eq_ℤ reverse_name_disp_id disp_id) _ _
            (invoke_reverse_name_safe c safe m well)
            (Ensures-if WellReply (eq_ℤ long_operation_disp_id disp_id) _ _
              (invoke_long_operation_safe c safe m well) well)))
invoke_safe (primitive_int v) m safe well =
    after_set int_format m 0 WellReply well v _ (omega arith) λ m₁ _ w₁. w₁
invoke_safe (primitive_string v) m safe well =
    after_set string_format m 0 WellReply well v _ (omega arith) λ m₁ _ w₁. w₁
