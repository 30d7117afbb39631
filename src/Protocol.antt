-- ===== src/Protocol.antt =====
-- The protocol of Common/include/Marshaller.h: a message as an error code, an object id, a disp id
-- and the texts of the function's parameters, and what the operations of `Marshaller` do to it.
use dcom.Base.{
  ℕ, suc, ◌+◌, ◌-◌, ◌^◌, ◌<◌, ◌≡◌, refl, ap, ◌∙◌, true, false, List, [], ◌∷◌, Bytes, length, get_or,
  set, length-set, ltb, arith, All, Lacks, ℤ, pos, IsInt, ok,
}
use dcom.Constants.{handle_count, npos, error_invalid_value, invalid_handle_value}
use dcom.Format.{Format, Platform, Carries, Carries-int, int_format}
use dcom.Marshaller.Access.{
  get_parameter_at, get_function_parameter_lem, set_function_parameter_lem, padded,
}
use dcom.Marshaller.Wire.{of_text-wire}
use dcom.Stream.RoundTrip.{print_int-Lacks}
use dcom.Tokenize.{wire_delimiter}
use mathlib.Core.List.{cons-ne-nil}
use dcom.Marshaller.{
  Marshaller, get_function_parameter, set_function_parameter, get_disp_id, get_error_code,
  set_error_code, get_object_id, new_marshaller, e_invalid_disp_id, of_text, get_wire_format,
}

module _ (p : Platform) where
  abbrev pub message : ℤ → ℕ → ℤ → List Bytes → Marshaller
  message code a disp_id params = record {
    all_parameters =
        int_format.print code ∷ p.handle_format.print a ∷ int_format.print disp_id ∷ params;
    total_number_of_parameters = suc (suc (suc (length params)));
  }

  pub new_marshaller-message :
      (code : ℤ) (a : ℕ) (disp_id : ℤ)
      → new_marshaller p code a disp_id ≡ ok (message code a disp_id [])
  unfolding new_marshaller
  new_marshaller-message code a disp_id = refl

  module _ (code : ℤ) (a : ℕ) (disp_id : ℤ) (params : List Bytes) where
    pub get_error_code-message :
        IsInt code → get_error_code (message code a disp_id params) ≡ ok code
    unfolding get_error_code
    get_error_code-message h =
        get_parameter_at int_format (message code a disp_id params) 0 refl error_invalid_value
          (omega arith)
        ∙ ap ok ((Carries-int code h).reads_back error_invalid_value)

    pub get_object_id-message :
        a < handle_count → get_object_id p (message code a disp_id params) ≡ ok a
    unfolding get_object_id
    get_object_id-message h =
        get_parameter_at p.handle_format (message code a disp_id params) 1 refl invalid_handle_value
          (omega arith)
        ∙ ap ok ((p.handle_carries a h).reads_back invalid_handle_value)

    pub get_disp_id-message :
        IsInt disp_id → get_disp_id (message code a disp_id params) ≡ ok disp_id
    unfolding get_disp_id
    get_disp_id-message h =
        get_parameter_at int_format (message code a disp_id params) 2 refl e_invalid_disp_id
          (omega arith)
        ∙ ap ok ((Carries-int disp_id h).reads_back e_invalid_disp_id)

    pub set_error_code-message :
        (code' : ℤ)
        → set_error_code (message code a disp_id params) code' ≡ ok (message code' a disp_id params)
    unfolding set_error_code
    set_error_code-message code' =
        let room : ltb (suc (suc (suc (length params)))) 1 ≡ false = ground arith in rw room

    -- The parameter in place `i` of the function, counted from 0.
    pub get_function_parameter-message {ℓ} :
        {T : Type ℓ} (f : Format T) (i : ℕ) (t : T)
        → i < length params
        → get_function_parameter f (message code a disp_id params) (pos (suc i)) t
          ≡ ok (f.extract t (get_or params i []))
    get_function_parameter-message f i t h =
        get_function_parameter_lem f (message code a disp_id params) i t
        ∙ get_parameter_at f (message code a disp_id params) (i + 3) refl t (omega arith)
        ∙ (let e : i + 3 ≡ suc (suc (suc i)) = omega arith in rw e)

    pub set_function_parameter-message {ℓ} :
        {T : Type ℓ} (f : Format T) (i : ℕ) (v : T)
        → i + 3 < 2 ^ 31
        → set_function_parameter f (message code a disp_id params) (pos (suc i)) v
          ≡ ok (message code a disp_id (set (padded (suc i) params) i (f.print v)), true)
    set_function_parameter-message f i v h =
        set_function_parameter_lem f (message code a disp_id params) i v refl h
        ∙ (let e : i + 3 ≡ suc (suc (suc i)) = omega arith in
            let d : suc (suc (suc (suc i))) - suc (suc (suc (length params)))
                ≡ suc i - length params =
              omega arith in
            rw (e, d, length-set (padded (suc i) params) i (f.print v)))

    -- A message whose texts hold no delimiter goes over the wire unchanged.
    pub of_text-message :
        (s : Bytes)
        → a < handle_count
        → All (Lacks wire_delimiter) params
        → get_wire_format (message code a disp_id params) ≡ ok s
        → length s < npos
        → of_text s ≡ message code a disp_id params
    of_text-message s in_range lacks e fits =
        of_text-wire (message code a disp_id params) s refl (cons-ne-nil _ _)
          (
            print_int-Lacks code,
            ((p.handle_carries a in_range).undelimited, (print_int-Lacks disp_id, lacks)),
          )
          e fits

    -- A parameter that stands as its print is read as its value.
    pub get_printed-message {ℓ} :
        {T : Type ℓ} (f : Format T) (i : ℕ) (v t : T)
        → i < length params
        → get_or params i [] ≡ f.print v
        → Carries f v
        → get_function_parameter f (message code a disp_id params) (pos (suc i)) t ≡ ok v
    get_printed-message f i v t h e carries =
        get_function_parameter-message f i t h
        ∙ ap (λ s. ok (f.extract t s)) e
        ∙ ap ok (carries.reads_back t)
