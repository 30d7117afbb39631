-- ===== src/ObjectManager/Reach.antt =====
-- The states that the server reaches from its start by requests that delete nothing.
use dcom.Base.{
  ℕ, ◌≡◌, ◌≢◌, ◌∙◌, ◌⊎◌, inl, inr, true, Bytes, length, arith, ltb, ◌==◌, ap, Bool-cases, pos,
  negsuc, eq_ℤ, ℤ, ok, Ensures, Ensures->>=,
}
use mathlib.Core.Path.{subst}
use dcom.Constants.{invalid_handle_value}
use dcom.Format.{Platform, int_format}
use dcom.Marshaller.Access.{IsWell, init_helper-IsWell}
use dcom.Marshaller.Safety.{get_parameter_total, set_parameter_safe}
use dcom.Marshaller.{
  Marshaller, empty_marshaller, of_text, get_disp_id, get_object_id, set_error_code,
  e_invalid_disp_id,
}
use dcom.ObjectManager.Invariant.{Inv, NoneDeleted}
use dcom.ObjectManager.Safety.{
  Created, Live, Served, create_safe, register_safe, invoke_object_safe, process_request_safe,
}
use dcom.ObjectManager.{
  load, contains, Allocator, ObjectManager, empty_manager, create, handle_global_functions,
  invoke_object, process_request, e_delete_disp_id,
}
use dcom.ServerStub.Safety.{WellReply, Ensures-if}

-- The message does not ask for the deletion of an object: it is for an object, or its disp id is
-- another.
abbrev pub NoDeletion : Platform → Marshaller → Type 0
NoDeletion p m = (get_object_id p m ≢ ok 0) ⊎ (get_disp_id m ≢ ok e_delete_disp_id)

-- A step is a text that arrives, is no deletion, and is served.
pub data Reachable (p : Platform) (al : Allocator) : ObjectManager → Type 0 where
  start : Reachable p al empty_manager
  serve :
      (o o' : ObjectManager) (text : Bytes) (reply : Marshaller)
      → Reachable p al o
      → NoDeletion p (of_text text)
      → process_request p al o (of_text text) ≡ ok (o', reply)
      → Reachable p al o'

abbrev pub ServedLive : ObjectManager × Marshaller → Type 0
ServedLive (o, m) = Inv o × NoneDeleted o × IsWell m

pub eq_ℤ_sound : (a b : ℤ) → eq_ℤ a b ≡ true → a ≡ b
eq_ℤ_sound (pos a) (pos b) h = ground arith
eq_ℤ_sound (pos a) (negsuc b) h = cc
eq_ℤ_sound (negsuc a) (pos b) h = cc
eq_ℤ_sound (negsuc a) (negsuc b) h = ground arith

module _ (p : Platform) (al : Allocator) (o : ObjectManager) (m : Marshaller) (inv : Inv o)
    (live : NoneDeleted o) (well : IsWell m) where
  disp_id_total : (d : ℤ) × (get_disp_id m ≡ ok d)
  unfolding get_disp_id
  disp_id_total = get_parameter_total int_format m 2 well e_invalid_disp_id

  object_id_total : (a : ℕ) × (get_object_id p m ≡ ok a)
  unfolding get_object_id
  object_id_total = get_parameter_total p.handle_format m 1 well invalid_handle_value

  handle_global_functions-Live :
      get_disp_id m ≢ ok e_delete_disp_id → Ensures Live (handle_global_functions p al o m)
  unfolding handle_global_functions
  handle_global_functions-Live other =
      let (d, e) = disp_id_total in
      elim (Bool-cases (eq_ℤ d e_delete_disp_id)) [
        | inl same ↦ absurd (other (e ∙ ap ok (eq_ℤ_sound d e_delete_disp_id same)))
        | inr apart ↦
            rw (e, apart)
              (Ensures->>= (Created o.heap) Live (create p al d o.heap m) _
                (create_safe p al d o.heap m well) λ r c. register_safe p al o r inv live c)
      ]

  pub process_request_live : NoDeletion p m → Ensures ServedLive (process_request p al o m)
  unfolding process_request
  process_request_live none_asked =
      let (a, e) = object_id_total in
      elim (Bool-cases (a == 0)) [
        | inl null ↦
            let zero_id : get_object_id p m ≡ ok 0 = e ∙ ap ok (ground arith) in
            let other : get_disp_id m ≢ ok e_delete_disp_id = elim none_asked [
              | inl apart ↦ absurd (apart zero_id)
              | inr apart ↦ apart
            ] in
            rw (e, null)
              (Ensures->>= Live ServedLive (handle_global_functions p al o m) _
                (handle_global_functions-Live other)
                λ r k.
                  Ensures->>= IsWell ServedLive (set_error_code r.1 r.2) _
                    (unfold set_error_code in
                      set_parameter_safe int_format r.1 0 k.2 r.2 (omega arith))
                    λ m' w. (k.0, k.1, w))
        | inr object ↦
            rw (e, object)
              (Ensures-if ServedLive (ltb 0 (length o.all_objects)) _ _
                (Ensures->>= WellReply ServedLive (invoke_object p al o a m) _
                  (invoke_object_safe p al o a m inv live well)
                  λ r k.
                    Ensures->>= IsWell ServedLive (set_error_code r.0 r.1) _
                      (unfold set_error_code in
                        set_parameter_safe int_format r.0 0 k r.1 (omega arith))
                      λ m' w. (inv, live, w))
                (inv, live, well))
      ]

pub of_text-IsWell : (text : Bytes) → IsWell (of_text text)
unfolding of_text
of_text-IsWell text = init_helper-IsWell empty_marshaller text

pub empty_manager-Inv : Inv empty_manager
unfolding empty_manager load
empty_manager-Inv = record { known = λ a stub e. absurd (ground arith) }

pub empty_manager-NoneDeleted : NoneDeleted empty_manager
unfolding empty_manager contains
empty_manager-NoneDeleted a e = absurd (ground arith)

module _ (p : Platform) (al : Allocator) where
  Reachable-Live : (o : ObjectManager) → Reachable p al o → Inv o × NoneDeleted o
  Reachable-Live _ start = (empty_manager-Inv, empty_manager-NoneDeleted)
  Reachable-Live _ (serve o o' text reply before none_asked e) =
      let (inv, live) = Reachable-Live o before in
      let (inv', live', _) =
        subst (Ensures ServedLive) e
          (process_request_live p al o (of_text text) inv live (of_text-IsWell text) none_asked) in
      (inv', live')

  -- In every state that the server reaches from its start by requests that delete nothing, any
  -- text that arrives, one that asks for a deletion included, is served without undefined
  -- behaviour but that of the data itself (an `int` sum that overflows, no memory left for a new
  -- object), the invariant is kept, and the count of the reply is right.
  pub Reachable-serves :
      (o : ObjectManager) (text : Bytes)
      → Reachable p al o
      → Ensures Served (process_request p al o (of_text text))
  Reachable-serves o text reached =
      let (inv, live) = Reachable-Live o reached in
      process_request_safe p al o (of_text text) inv live (of_text-IsWell text)
