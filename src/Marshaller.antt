-- ===== src/Marshaller.antt =====
-- Common/include/Marshaller.h and Common/Marshaller.cpp: the message as a vector of parameters,
-- 1: error code, 2: object id, 3: disp id, and from 4 on the parameters of the function.
-- A `long` index is an integer; where the code compares it with a `size_t`, or uses it as one, it
-- wraps to 64 bits.
pub mod Access
pub mod Wire
pub mod Safety
pub mod Last
use dcom.Base.{
  ℕ, zero, suc, ◌+◌, ◌-◌, ◌^◌, ◌≡◌, refl, Bool, true, false, List, [], ◌∷◌, ◌++◌, Bytes, codes,
  length, ltb, ◌==◌, if◌then◌else◌, ℤ, pos, negsuc, ◌+ℤ◌, Outcome, ok, err, ◌>>=◌, at, put, resize,
  wrap, sub_ℕ,
}
use dcom.Constants.{error_invalid_value, invalid_handle_value}
use dcom.Format.{Format, Platform, int_format}
use dcom.Tokenize.{wire_delimiter, push_all_tokens}

pub record Marshaller : Type 0 where
  pub all_parameters : List Bytes
  pub total_number_of_parameters : ℕ

-- `enum ePositionT`
abbrev pub e_result_position : ℤ
e_result_position = pos 1

abbrev pub e_object_id_position : ℤ
e_object_id_position = pos 2

abbrev pub e_disp_id_position : ℤ
e_disp_id_position = pos 3

-- `GlobalDispIdT::eInvalidDispId` of Common/include/RPC.h
abbrev pub e_invalid_disp_id : ℤ
e_invalid_disp_id = negsuc 0

abbrev pub to_size : ℤ → ℕ
to_size (pos n) = n
to_size (negsuc n) = 2 ^ 64 - 1 - n

abbrev pub pred_ℤ : ℤ → ℤ
pred_ℤ (pos zero) = negsuc 0
pred_ℤ (pos (suc n)) = pos n
pred_ℤ (negsuc n) = negsuc (suc n)

abbrev pub is_zero : ℤ → Bool
is_zero (pos n) = n == 0
is_zero (negsuc n) = false

unfoldable pub init_helper : Marshaller → Bytes → Marshaller
init_helper m s =
    let params = push_all_tokens s m.all_parameters in
    record { all_parameters = params; total_number_of_parameters = length params }

-- The constructor from no argument, and from a text.
unfoldable pub empty_marshaller : Marshaller
empty_marshaller = record { all_parameters = []; total_number_of_parameters = 0 }

unfoldable pub of_text : Bytes → Marshaller
unfolding init_helper empty_marshaller
of_text s = init_helper empty_marshaller s

unfoldable pub set_wire_format : Marshaller → Bytes → Marshaller
unfolding init_helper
set_wire_format m s = init_helper m s

-- `if (index > m_totalNumberOfParameters) { … }` of `SetParameter`.
grow : Marshaller → ℤ → Outcome Marshaller
grow m index = if ltb m.total_number_of_parameters (to_size index) then resized else ok m
  where
    resized : Outcome Marshaller
    resized = do
      params ← resize (to_size index) [] m.all_parameters
      ok (record { all_parameters = params; total_number_of_parameters = length params })

module _ {ℓ} {T : Type ℓ} (f : Format T) where
  unfoldable pub get_parameter : Marshaller → ℤ → T → Outcome T
  get_parameter m index t =
      if ltb m.total_number_of_parameters (to_size index)
      then ok t
      else do s ← at m.all_parameters (to_size (pred_ℤ index)); ok (f.extract t s)

  unfoldable pub set_parameter : Marshaller → ℤ → T → Outcome Marshaller
  unfolding grow
  set_parameter m index t = do
    m' ← grow m index
    params ← put m'.all_parameters (to_size (pred_ℤ index)) (f.print t)
    ok (record m' { all_parameters = params })

  unfoldable pub get_function_parameter : Marshaller → ℤ → T → Outcome T
  unfolding get_parameter ◌+ℤ◌
  get_function_parameter m index t =
      if is_zero index then ok t else get_parameter m (e_disp_id_position +ℤ index) t

  unfoldable pub set_function_parameter : Marshaller → ℤ → T → Outcome (Marshaller × Bool)
  unfolding set_parameter ◌+ℤ◌
  set_function_parameter m index t =
      if is_zero index
      then ok (m, false)
      else do m' ← set_parameter m (e_disp_id_position +ℤ index) t; ok (m', true)

unfoldable pub get_disp_id : Marshaller → Outcome ℤ
unfolding get_parameter
get_disp_id m = get_parameter int_format m e_disp_id_position e_invalid_disp_id

unfoldable pub set_disp_id : Marshaller → ℤ → Outcome Marshaller
unfolding set_parameter
set_disp_id m disp_id = set_parameter int_format m e_disp_id_position disp_id

unfoldable pub get_error_code : Marshaller → Outcome ℤ
unfolding get_parameter
get_error_code m = get_parameter int_format m e_result_position error_invalid_value

unfoldable pub set_error_code : Marshaller → ℤ → Outcome Marshaller
unfolding set_parameter
set_error_code m error_code = set_parameter int_format m e_result_position error_code

-- The loop of `GetWireFormat`: `left` more parameters from `index` on.
wire_from : ℕ → ℕ → Marshaller → Bytes → Outcome Bytes
wire_from zero index m s = ok s
wire_from (suc left) index m s = do
  p ← at m.all_parameters index
  let grown = s ++ p
  wire_from left (index + 1) m
      (if index == m.total_number_of_parameters - 1 then grown else grown ++ wire_delimiter ∷ [])

unfoldable pub get_wire_format : Marshaller → Outcome Bytes
unfolding wire_from
get_wire_format m = wire_from m.total_number_of_parameters 0 m []

-- `(long)(m_totalNumberOfParameters - eDispIdPosition)`: the difference wraps.
unfoldable pub get_last_function_parameter_index : Marshaller → ℤ
unfolding wrap
get_last_function_parameter_index m = wrap (sub_ℕ m.total_number_of_parameters 3)

module _ (p : Platform) where
  unfoldable pub get_object_id : Marshaller → Outcome ℕ
  unfolding get_parameter
  get_object_id m = get_parameter p.handle_format m e_object_id_position invalid_handle_value

  unfoldable pub set_object_id : Marshaller → ℕ → Outcome Marshaller
  unfolding set_parameter
  set_object_id m ptr = set_parameter p.handle_format m e_object_id_position ptr

  -- The constructor from an error code, an object id and a disp id.
  unfoldable pub new_marshaller : ℤ → ℕ → ℤ → Outcome Marshaller
  unfolding empty_marshaller set_error_code set_object_id set_disp_id
  new_marshaller error_code object_id disp_id = do
    m ← set_error_code empty_marshaller error_code
    m' ← set_object_id m object_id
    set_disp_id m' disp_id
