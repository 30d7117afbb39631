-- ===== src/ClientStub.antt =====
-- Client/CalculatorClient.h: `ClientStub<ICalculator>`, the remote `Calculator` as the client sees it.
-- A call returns its error code and what it leaves in the reference parameter.
use dcom.Base.{
  ℕ, Bool, true, false, not, ◌&&◌, Option, none, some, Bytes, codes, ◌==◌, if◌then◌else◌, ℤ, pos,
  eq_ℤ, Outcome, ok, ◌>>=◌,
}
use dcom.Calculator.{add_disp_id, reverse_name_disp_id, long_operation_disp_id}
use dcom.ClientMessageHandler.{ThreadData, no_callback}
use dcom.Connection.{Connection}
use dcom.Constants.{error_success, error_no_object_found, error_parameter_invalid}
use dcom.Format.{Platform, int_format, dword_format, string_format}
use dcom.Marshaller.{
  Marshaller, empty_marshaller, new_marshaller, set_function_parameter, get_function_parameter,
}
use dcom.ObjectManager.{e_create_custom_object_disp_id, e_delete_disp_id}
use dcom.RpcClient.{RpcClient, invoke, create_remote_instance, new_client, destroy_client}

pub record ClientStub : Type 0 where
  pub rpc_client : RpcClient
  pub remote_proxy_object : ℕ

module _ (p : Platform) {W : Type 0} (net : Connection W) where
  -- The constructor throws where the object could not be made: no stub, and the error code.
  unfoldable pub new_stub : Bool → W → Outcome (ℤ × Option ClientStub × W)
  new_stub initialized w = do
    (code, ptr, c, w') ←
        create_remote_instance p net string_format (codes "Calculator") true
          e_create_custom_object_disp_id false no_callback (new_client initialized) w
    ok (
      code,
      elim ptr [ none ↦ none | some h ↦ some (record { rpc_client = c; remote_proxy_object = h }) ],
      w',
    )

  unfoldable pub destroy_stub : ClientStub → W → Outcome W
  destroy_stub stub w =
      if stub.remote_proxy_object == 0 then ok (destroy_client net stub.rpc_client w) else deleted
    where
      deleted : Outcome W
      deleted = do
        m ← new_marshaller p (pos 0) 0 e_delete_disp_id
        (request, _) ← set_function_parameter p.handle_format m (pos 1) stub.remote_proxy_object
        (_, _, c, w') ← invoke net request empty_marshaller false no_callback stub.rpc_client w
        ok (destroy_client net c w')

  unfoldable pub add : ClientStub → ℤ → ℤ → ℤ → W → Outcome (ℤ × ℤ × ClientStub × W)
  add stub x y z w =
      if stub.remote_proxy_object == 0 then ok (error_no_object_found, z, stub, w) else called
    where
      results : ℤ → Marshaller → Outcome ℤ
      results code response = if eq_ℤ code error_success then fetched else ok z
        where
          fetched : Outcome ℤ
          fetched = do
            z' ← get_function_parameter int_format response (pos 3) z
            _ ← get_function_parameter int_format response (pos 2) y
            _ ← get_function_parameter int_format response (pos 1) (pos 1)
            ok z'

      called : Outcome (ℤ × ℤ × ClientStub × W)
      called = do
        m ← new_marshaller p (pos 0) stub.remote_proxy_object add_disp_id
        (m₁, _) ← set_function_parameter int_format m (pos 1) x
        (m₂, _) ← set_function_parameter int_format m₁ (pos 2) y
        (request, _) ← set_function_parameter int_format m₂ (pos 3) z
        (code, response, c, w') ←
            invoke net request empty_marshaller false no_callback stub.rpc_client w
        z' ← results code response
        ok (code, z', record stub { rpc_client = c }, w')

  unfoldable pub reverse_name : ClientStub → Bytes → W → Outcome (ℤ × Bytes × ClientStub × W)
  reverse_name stub s w =
      if stub.remote_proxy_object == 0 then ok (error_no_object_found, s, stub, w) else called
    where
      called : Outcome (ℤ × Bytes × ClientStub × W)
      called = do
        m ← new_marshaller p (pos 0) stub.remote_proxy_object reverse_name_disp_id
        (request, _) ← set_function_parameter string_format m (pos 1) s
        (code, response, c, w') ←
            invoke net request empty_marshaller false no_callback stub.rpc_client w
        s' ←
            if eq_ℤ code error_success
            then get_function_parameter string_format response (pos 1) s
            else ok s
        ok (code, s', record stub { rpc_client = c }, w')

  unfoldable pub long_operation :
      ClientStub → ℕ → Bytes → Bool → ThreadData → W → Outcome (ℤ × Bytes × ClientStub × W)
  long_operation stub wait_time s async td w =
      if stub.remote_proxy_object == 0
      then ok (error_no_object_found, s, stub, w)
      else if async && td.cb_fn == 0
      then ok (error_parameter_invalid, s, stub, w)
      else called
    where
      fetched : Marshaller → Outcome Bytes
      fetched response = do
        _ ← get_function_parameter dword_format response (pos 1) wait_time
        get_function_parameter string_format response (pos 2) s

      called : Outcome (ℤ × Bytes × ClientStub × W)
      called = do
        m ← new_marshaller p (pos 0) stub.remote_proxy_object long_operation_disp_id
        (m₁, _) ← set_function_parameter dword_format m (pos 1) wait_time
        (request, _) ← set_function_parameter string_format m₁ (pos 2) s
        (code, response, c, w') ← invoke net request empty_marshaller async td stub.rpc_client w
        s' ← if eq_ℤ code error_success && not async then fetched response else ok s
        ok (code, s', record stub { rpc_client = c }, w')
