-- ===== src/Remote/Add.antt =====
-- The remote `Add` computes what the local one does.
use dcom.ClientMessageHandler.{no_callback}
use dcom.Base.{
  ℕ, ◌≡◌, ◌≢◌, refl, ap, ◌∙◌, true, false, [], ◌∷◌, some, arith, ℤ, pos, IsInt, is_int_of, ◌+ℤ◌, ok,
  ◌==◌,
}
use dcom.Calculator
use dcom.Calculator.{
  ICalculator, calculator, add_disp_id, reverse_name_disp_id, long_operation_disp_id,
}
use dcom.ClientStub.{ClientStub, add}
use dcom.Connection.{Connection, direct}
use dcom.RpcClient.{invoke}
use dcom.Constants.{error_success}
use dcom.Format.{Platform, Carries-int, int_format}
use dcom.Marshaller.{Marshaller, set_function_parameter, get_function_parameter, empty_marshaller}
use dcom.ObjectManager.Requests.{call_reply}
use dcom.ObjectManager.{Allocator, ObjectManager, process_request}
use dcom.Protocol.{
  message, new_marshaller-message, set_function_parameter-message, get_printed-message,
}
use dcom.Remote.Send.{Transmits, IsConnected, invoke-direct}
use dcom.ServerStub.Replies.{invoke_add_reply}
use dcom.ServerStub.{custom}
use dcom.Stream.RoundTrip.{print_int-Lacks, length-print_int, extract-print_int}
use dcom.Stream.{print_int}

pub Transmits-ints :
    (p : Platform) (x y z : ℤ)
    → IsInt x
    → IsInt y
    → IsInt z
    → Transmits p (print_int x ∷ print_int y ∷ print_int z ∷ [])
Transmits-ints p x y z hx hy hz = record {
  undelimited = (print_int-Lacks x, (print_int-Lacks y, (print_int-Lacks z, tt)));
  short = omega (arith, length-print_int x hx, length-print_int y hy, length-print_int z hz);
}

-- The request of a call of `Add`, and the reply to it.
abbrev pub add_request : Platform → ℕ → ℤ → ℤ → ℤ → Marshaller
add_request p a x y z =
    message p (pos 0) a add_disp_id (print_int x ∷ print_int y ∷ print_int z ∷ [])

abbrev pub add_reply : Platform → ℕ → ℤ → ℤ → Marshaller
add_reply p a x y =
    message p error_success a add_disp_id (print_int x ∷ print_int y ∷ print_int (x +ℤ y) ∷ [])

-- What the client makes of the reply, over any connection.
pub add_answered :
    (p : Platform) {W : Type 0} (net : Connection W) (stub : ClientStub) (w w' : W) (x y z : ℤ)
    → stub.remote_proxy_object ≢ 0
    → IsInt x
    → IsInt y
    → IsInt (x +ℤ y)
    → invoke net
        (add_request p stub.remote_proxy_object x y z)
        empty_marshaller
        false
        no_callback
        stub.rpc_client
        w
      ≡ ok (error_success, add_reply p stub.remote_proxy_object x y, stub.rpc_client, w')
    → add p net stub x y z w ≡ ok (error_success, x +ℤ y, stub, w')
unfolding add
add_answered p net stub w w' x y z not_null hx hy hs answered = rw (
  object,
  new_marshaller-message p (pos 0) a add_disp_id,
  set₁,
  set₂,
  set₃,
  answered,
  get₃,
  get₂,
  get₁,
)
  where
    a : ℕ
    a = stub.remote_proxy_object

    object : (stub.remote_proxy_object == 0) ≡ false
    object = ground (arith, not_null)

    set₁ :
        set_function_parameter int_format (message p (pos 0) a add_disp_id []) (pos 1) x
        ≡ ok (message p (pos 0) a add_disp_id (print_int x ∷ []), true)
    set₁ = set_function_parameter-message p (pos 0) a add_disp_id [] int_format 0 x (omega arith)

    set₂ :
        set_function_parameter int_format
          (message p (pos 0) a add_disp_id (print_int x ∷ []))
          (pos 2)
          y
        ≡ ok (message p (pos 0) a add_disp_id (print_int x ∷ print_int y ∷ []), true)
    set₂ =
        set_function_parameter-message p (pos 0) a add_disp_id (print_int x ∷ []) int_format 1 y
          (omega arith)

    set₃ :
        set_function_parameter int_format
          (message p (pos 0) a add_disp_id (print_int x ∷ print_int y ∷ []))
          (pos 3)
          z
        ≡ ok (message p (pos 0) a add_disp_id (print_int x ∷ print_int y ∷ print_int z ∷ []), true)
    set₃ =
        set_function_parameter-message p (pos 0) a add_disp_id (print_int x ∷ print_int y ∷ [])
          int_format 2 z (omega arith)

    reply : Marshaller
    reply = add_reply p stub.remote_proxy_object x y

    get₃ : get_function_parameter int_format reply (pos 3) z ≡ ok (x +ℤ y)
    get₃ =
        get_printed-message p error_success a add_disp_id
          (print_int x ∷ print_int y ∷ print_int (x +ℤ y) ∷ []) int_format 2 (x +ℤ y) z
          (omega arith) refl (Carries-int (x +ℤ y) hs)

    get₂ : get_function_parameter int_format reply (pos 2) y ≡ ok y
    get₂ =
        get_printed-message p error_success a add_disp_id
          (print_int x ∷ print_int y ∷ print_int (x +ℤ y) ∷ []) int_format 1 y y (omega arith) refl
          (Carries-int y hy)

    get₁ : get_function_parameter int_format reply (pos 1) (pos 1) ≡ ok x
    get₁ =
        get_printed-message p error_success a add_disp_id
          (print_int x ∷ print_int y ∷ print_int (x +ℤ y) ∷ []) int_format 0 x (pos 1) (omega arith)
          refl (Carries-int x hx)

module _ (p : Platform) (al : Allocator) (stub : ClientStub) (o : ObjectManager)
    (linked : IsConnected stub o) (x y z : ℤ) (hx : IsInt x) (hy : IsInt y) (hz : IsInt z)
    (hs : IsInt (x +ℤ y)) where
  sum : calculator.add x y z ≡ ok (pos 0, x +ℤ y)
  sum = unfold calculator Calculator.add in rw (is_int_of (x +ℤ y) hs)

  pub add_served :
      process_request p al o (add_request p stub.remote_proxy_object x y z)
      ≡ ok (o, add_reply p stub.remote_proxy_object x y)
  add_served =
      call_reply p al o (pos 0) stub.remote_proxy_object add_disp_id
        (print_int x ∷ print_int y ∷ print_int z ∷ []) linked.not_null linked.in_range
        (custom (some calculator)) (print_int x ∷ print_int y ∷ print_int (x +ℤ y) ∷ [])
        error_success linked.known linked.live
        (invoke_add_reply p calculator (pos 0) stub.remote_proxy_object x y (x +ℤ y) (pos 0)
          (print_int z) hx hy
          (ap (λ t. calculator.add x y t) (extract-print_int (pos 0) z hz) ∙ sum))

  -- On a connected stub, the remote `Add` of two `int`s returns success and their sum, if that is
  -- an `int`, whatever `int` the result variable held before; the server's objects and the client
  -- stay as they were.
  pub remote_add : add p (direct p al) stub x y z o ≡ ok (error_success, x +ℤ y, stub, o)
  remote_add = add_answered p (direct p al) stub o o x y z linked.not_null hx hy hs (
      invoke-direct p al o o stub.remote_proxy_object error_success add_disp_id
        (print_int x ∷ print_int y ∷ print_int z ∷ [])
        (print_int x ∷ print_int y ∷ print_int (x +ℤ y) ∷ []) stub.rpc_client linked.in_range
        (omega arith) (omega arith) (Transmits-ints p x y z hx hy hz)
        (Transmits-ints p x y (x +ℤ y) hx hy hs) add_served)
