-- ===== src/ClientProgram.antt =====
-- Client/Client.cpp: the test program, with what it writes to the console as a text. Here are its
-- callback and its synchronous test of a primitive type; its asynchronous test is in AsyncTest, the
-- test of the calculator in CalculatorTest and ClassTest, and the main function in Main.
pub mod Transcript
pub mod CalculatorTest
pub mod ClassTest
pub mod ClassTranscript
pub mod Main
pub mod Unreachable
pub mod AsyncTest
pub mod AsyncTranscript
use dcom.Base.{
  ℕ, Bool, true, false, [], ◌∷◌, ◌++◌, Option, none, some, Bytes, codes, ◌==◌, if◌then◌else◌, ℤ,
  pos, Fault, out_of_bounds, dangling, null_call, signed_overflow, length_error, bad_alloc, Outcome,
  ok, err,
}
use dcom.ClientStub.{ClientStub, new_stub, add, reverse_name, long_operation}
use dcom.Connection.{Connection}
use dcom.Format.{Format, Platform, int_format}
use dcom.RpcClient.{
  ParameterType, int_type, string_type, other_type, new_client, destroy_client, send_primitive_data,
  get_primitive_data, RpcClient,
}
use dcom.Stream.{print_int, print_nat}

-- The block of a `try` that goes on with what was computed, having written `out`. An exception is
-- caught and reported; the state of the world behind it is not modelled.
unfoldable pub try_next {ℓ κ} :
    {A : Type ℓ} {W : Type κ}
    → (Fault → Bytes)
    → Outcome A
    → Bytes
    → (A → Outcome (Bytes × Option W))
    → Outcome (Bytes × Option W)
try_next report (ok a) out go_on = go_on a
try_next report (err length_error) out go_on = ok (out ++ report length_error ++ codes "\n", none)
try_next report (err bad_alloc) out go_on = ok (out ++ report bad_alloc ++ codes "\n", none)
try_next report (err out_of_bounds) out go_on = err out_of_bounds
try_next report (err dangling) out go_on = err dangling
try_next report (err null_call) out go_on = err null_call
try_next report (err signed_overflow) out go_on = err signed_overflow

-- `catch (...)`
abbrev internal_error : Fault → Bytes
internal_error fault = codes "Internal error"

-- The name of the type; `is_same` knows two.
unfoldable pub type_name : ParameterType → Bytes
type_name int_type = codes " - type int "
type_name string_type = codes " - type string "
type_name other_type = []

module _ (p : Platform) where
  -- `CallbackPrint`: what is written, what is stored through `data` if that is not null, and the
  -- result. A stream writes a value as the marshaller's does.
  unfoldable pub callback_print {ℓ} :
      {T : Type ℓ} → Format T → ℕ → ℤ → T → ℕ → Bool → Bytes × Option T × Bool
  callback_print f thread_id error_code output object_id has_data = (
    codes "\n\t\t\t CallbackPrint() "
        ++ codes "[Thread Id] "
        ++ print_nat thread_id
        ++ codes " [ErrorCode] "
        ++ print_int error_code
        ++ codes " [Input] "
        ++ (if object_id == 0
            then codes " NULL (callback in creation request)"
            else p.handle_format.print object_id)
        ++ codes " [Output] "
        ++ f.print output
        ++ codes " [Copy] "
        ++ (if has_data then f.print output else codes "Null callback data")
        ++ codes "\n"
        ++ codes "\n"
        ++ codes "\n",
    if has_data then some output else none,
    true,
  )

  -- The two lines that `SendAndReceivePrimitiveDataTypes` writes about its calls; the first without
  -- what it writes of the handle.
  unfoldable pub sent_line {ℓ} : {T : Type ℓ} → Format T → ℤ → T → Bytes
  sent_line f error_code t =
      codes "\n\t1. [Function] - SendPrimitivecDataAsync() "
      ++ codes "[ErrorCode] "
      ++ print_int error_code
      ++ codes " [Input] "
      ++ f.print t
      ++ codes " [Output] "

  unfoldable pub read_line {ℓ} : {T : Type ℓ} → Format T → ℤ → ℕ → T → Bytes
  read_line f error_code remote_object t =
      codes "\n\t2. [Function] - GetPrimitiveData() "
      ++ codes "[ErrorCode] "
      ++ print_int error_code
      ++ codes " [Input] "
      ++ p.handle_format.print remote_object
      ++ codes " [Output] "
      ++ f.print t
      ++ codes "\n"

  module _ {ℓ} {T : Type ℓ} {W : Type 0} (net : Connection W) (type : ParameterType)
      (f : Format T) where
    -- The second half, once there is an object; `t1` is what the variable holds before it is read.
    unfoldable pub receive_back : T → Bytes → ℕ → RpcClient → W → Outcome (Bytes × Option W)
    unfolding try_next read_line
    receive_back t1 out remote_object client w =
        try_next internal_error (get_primitive_data p net type f remote_object t1 client w) out λ r.
          ok (
            out ++ read_line f r.0 remote_object (elim r.1 [ none ↦ t1 | some v ↦ v ]),
            some (destroy_client net r.2 r.3),
          )

    unfoldable pub send_and_receive : T → T → Bool → W → Outcome (Bytes × Option W)
    unfolding try_next type_name sent_line receive_back
    send_and_receive t t1 initialized w =
        let title =
          codes "\n\n************** Synchronous test - "
          ++ type_name type
          ++ codes " **************"
          ++ codes "\n" in
        try_next internal_error (send_primitive_data p net type f t (new_client initialized) w)
          title
          λ r.
            let out = title ++ sent_line f r.0 t in
            elim r.1 [
              | none ↦ ok (
                out
                    ++ codes "NULL object."
                    ++ codes "\n"
                    ++ codes "Skipping GetPrimitiveData() due to null object id"
                    ++ codes "\n",
                some (destroy_client net r.2 r.3),
              )
              | some remote_object ↦
                  receive_back t1 (out ++ p.handle_format.print remote_object ++ codes "\n")
                    remote_object r.2 r.3
            ]
