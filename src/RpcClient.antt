-- ===== src/RpcClient.antt =====
-- Common/include/RPCClient.h and Common/RPCClient.cpp: objects on the server, made and read in one
-- call each, over any connection. A pointer that the caller passes for a result is a flag (is it
-- null?), and what is stored through it is part of the result. The callback of an asynchronous request
-- and its data are addresses, together a `ThreadData`.
use dcom.Base.{
  ℕ, Bool, true, false, not, ◌&&◌, List, [], ◌∷◌, ◌++◌, Option, none, some, ◌==◌, if◌then◌else◌, ℤ,
  pos, eq_ℤ, Outcome, ok, ◌>>=◌,
}
use dcom.ClientMessageHandler.{ClientMessageHandler, ThreadData, no_callback, new_handler}
use dcom.Connection.{Connection}
use dcom.Constants.{
  error_success, error_parameter_invalid, error_null_object, error_type_not_supported,
  error_critical_section,
}
use dcom.Format.{Format, Platform}
use dcom.Marshaller.{
  Marshaller, empty_marshaller, new_marshaller, set_function_parameter, get_function_parameter,
  get_error_code, e_invalid_disp_id,
}
use dcom.ObjectManager.{e_create_int_disp_id, e_create_string_disp_id}

pub record RpcClient : Type 0 where
  pub async_message_handlers : List ClientMessageHandler
  pub critical_section_initialized : Bool

-- The types that `GetDispId<T>` tells apart.
pub data ParameterType : Type 0 where
  int_type string_type other_type : ParameterType

unfoldable pub disp_id_of : ParameterType → ℤ
disp_id_of int_type = e_create_int_disp_id
disp_id_of string_type = e_create_string_disp_id
disp_id_of other_type = e_invalid_disp_id

-- The constructor; `initialized` is what `InitializeCriticalSectionAndSpinCount` returned.
unfoldable pub new_client : Bool → RpcClient
new_client initialized = record {
  async_message_handlers = [];
  critical_section_initialized = initialized;
}

module _ {W : Type 0} (net : Connection W) where
  -- The destructor stops the handlers in the order in which they were made; then the vector ends, and
  -- each of them with it.
  unfoldable pub stop_all : List ClientMessageHandler → W → List ClientMessageHandler × W
  stop_all [] w = ([], w)
  stop_all (handler ∷ handlers) w =
      let (stopped, w₁) = net.stop_handler handler w in
      let (rest, w₂) = stop_all handlers w₁ in (stopped ∷ rest, w₂)

  unfoldable pub end_all : List ClientMessageHandler → W → W
  end_all [] w = w
  end_all (handler ∷ handlers) w = end_all handlers (net.destroy_handler handler w)

  unfoldable pub destroy_client : RpcClient → W → W
  destroy_client c w = let (stopped, w') = stop_all c.async_message_handlers w in end_all stopped w'

  unfoldable pub invoke_async :
      Marshaller
      → Marshaller
      → ThreadData
      → RpcClient
      → W
      → Outcome (ℤ × Marshaller × RpcClient × W)
  invoke_async request response td c w =
      let (code, handler, w') = net.send_async request td w in
      if c.critical_section_initialized
      then ok (
        code,
        response,
        record c { async_message_handlers = c.async_message_handlers ++ handler ∷ [] },
        w',
      )
      else ok (error_critical_section, response, c, net.destroy_handler new_handler w)

  unfoldable pub invoke_sync :
      Marshaller → Marshaller → RpcClient → W → Outcome (ℤ × Marshaller × RpcClient × W)
  invoke_sync request response c w = do
    (code, response', w') ← net.send request response w
    code' ← if eq_ℤ code error_success then get_error_code response' else ok code
    ok (code', response', c, w')

  unfoldable pub invoke :
      Marshaller
      → Marshaller
      → Bool
      → ThreadData
      → RpcClient
      → W
      → Outcome (ℤ × Marshaller × RpcClient × W)
  invoke request response async td c w =
      if async then invoke_async request response td c w else invoke_sync request response c w

module _ (p : Platform) {W : Type 0} (net : Connection W) where
  -- The handle in the second parameter of a response that reports success.
  unfoldable pub created : ℤ → Marshaller → RpcClient → W → Outcome (ℤ × Option ℕ × RpcClient × W)
  created code response c w = if eq_ℤ code error_success then fetched else ok (code, none, c, w)
    where
      fetched : Outcome (ℤ × Option ℕ × RpcClient × W)
      fetched = do
        remote_object ← get_function_parameter p.handle_format response (pos 2) 0
        ok (
            if remote_object == 0
            then (error_null_object, none, c, w)
            else (error_success, some remote_object, c, w))

  -- The error code, and the handle that is stored through `ptr`, if one is.
  unfoldable pub create_remote_instance {ℓ} :
      {T : Type ℓ}
      → Format T
      → T
      → Bool
      → ℤ
      → Bool
      → ThreadData
      → RpcClient
      → W
      → Outcome (ℤ × Option ℕ × RpcClient × W)
  create_remote_instance f t has_ptr disp_id async td c w =
      if not async && not has_ptr then ok (error_parameter_invalid, none, c, w) else requested
    where
      requested : Outcome (ℤ × Option ℕ × RpcClient × W)
      requested = do
        m ← new_marshaller p (pos 0) 0 disp_id
        (request, _) ← set_function_parameter f m (pos 1) t
        (code, response, c', w') ← invoke net request empty_marshaller async td c w
        if async then ok (code, none, c', w') else created code response c' w'

  unfoldable pub send_data_internal {ℓ} :
      {T : Type ℓ}
      → ParameterType
      → Format T
      → T
      → Bool
      → Bool
      → ThreadData
      → RpcClient
      → W
      → Outcome (ℤ × Option ℕ × RpcClient × W)
  send_data_internal type f t has_ptr async td c w =
      if eq_ℤ (disp_id_of type) e_invalid_disp_id
      then ok (error_type_not_supported, none, c, w)
      else create_remote_instance f t has_ptr (disp_id_of type) async td c w

  -- `t` is what the caller's variable holds; the result has what it holds afterwards.
  unfoldable pub get_data_internal {ℓ} :
      {T : Type ℓ}
      → ParameterType
      → Format T
      → ℕ
      → Option T
      → Bool
      → ThreadData
      → RpcClient
      → W
      → Outcome (ℤ × Option T × RpcClient × W)
  get_data_internal {T} type f object_id t async td c w =
      if eq_ℤ (disp_id_of type) e_invalid_disp_id
      then ok (error_type_not_supported, t, c, w)
      else if object_id == 0
      then ok (error_null_object, t, c, w)
      else if not async && is_null t
      then ok (error_parameter_invalid, t, c, w)
      else requested
    where
      is_null : Option T → Bool
      is_null none = true
      is_null (some v) = false

      fetched : Option T → Marshaller → Outcome (Option T)
      fetched none response = ok none
      fetched (some v) response = do v' ← get_function_parameter f response (pos 1) v; ok (some v')

      requested : Outcome (ℤ × Option T × RpcClient × W)
      requested = do
        request ← new_marshaller p (pos 0) object_id (disp_id_of type)
        (code, response, c', w') ← invoke net request empty_marshaller async td c w
        t' ← if eq_ℤ code error_success then fetched t response else ok t
        ok (code, t', c', w')

  -- The public functions, synchronous and asynchronous.
  unfoldable pub send_primitive_data {ℓ} :
      {T : Type ℓ}
      → ParameterType
      → Format T
      → T
      → RpcClient
      → W
      → Outcome (ℤ × Option ℕ × RpcClient × W)
  send_primitive_data type f t c w = send_data_internal type f t true false no_callback c w

  unfoldable pub send_primitive_data_async {ℓ} :
      {T : Type ℓ}
      → ParameterType
      → Format T
      → T
      → ThreadData
      → RpcClient
      → W
      → Outcome (ℤ × Option ℕ × RpcClient × W)
  send_primitive_data_async type f t td c w = send_data_internal type f t false true td c w

  unfoldable pub get_primitive_data {ℓ} :
      {T : Type ℓ}
      → ParameterType
      → Format T
      → ℕ
      → T
      → RpcClient
      → W
      → Outcome (ℤ × Option T × RpcClient × W)
  get_primitive_data type f object_id t c w =
      get_data_internal type f object_id (some t) false no_callback c w

  unfoldable pub get_primitive_data_async {ℓ} :
      {T : Type ℓ}
      → ParameterType
      → Format T
      → ℕ
      → ThreadData
      → RpcClient
      → W
      → Outcome (ℤ × Option T × RpcClient × W)
  get_primitive_data_async type f object_id td c w =
      get_data_internal type f object_id none true td c w
