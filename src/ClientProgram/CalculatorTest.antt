-- ===== src/ClientProgram/CalculatorTest.antt =====
-- `TestClassCalculator` of Client/Client.cpp up to its asynchronous call, and what it writes.
use dcom.ClientMessageHandler.{no_callback}
use dcom.Base.{
  ◌≡◌, refl, Bool, false, [], ◌++◌, Option, none, some, Bytes, codes, ℤ, pos, Fault, Outcome, ok,
  arith, ℕ, ◌+ℤ◌,
}
use dcom.Calculator.{calculator}
use dcom.ClientProgram.{try_next}
use dcom.ClientStub.{ClientStub, new_stub, add, reverse_name, long_operation}
use dcom.Connection.{Connection, direct}
use dcom.Constants.{error_success}
use dcom.Format.{Platform}
use dcom.ObjectManager.{Allocator, ObjectManager}
use dcom.Remote.Add.{remote_add}
use dcom.Remote.Primitives.{grown}
use dcom.Remote.Session.{fresh_stub, fresh_stub-IsConnected, new_stub-direct}
use dcom.Remote.Texts.{greeting, remote_reverse_name, remote_long_operation}
use dcom.ServerStub.{custom}
use dcom.Stream.{print_int}
use mathlib.Core.List.{reverse}

-- The lines that it writes about its calls.
unfoldable pub add_line : ℤ → ℤ → ℤ → ℤ → Bytes
add_line error_code x y z =
    codes "\n\t1. [Function] - Add() "
    ++ codes "[ErrorCode] "
    ++ print_int error_code
    ++ codes " [Input] "
    ++ print_int x
    ++ codes " + "
    ++ print_int y
    ++ codes " = "
    ++ codes "[Output] "
    ++ print_int z
    ++ codes "\n"

unfoldable pub reverse_name_line : ℤ → Bytes → Bytes
reverse_name_line error_code s =
    codes "\n\t2. [Function] - ReverseName() "
    ++ codes "[ErrorCode] "
    ++ print_int error_code
    ++ codes " [Input] 'Client - Hello world'"
    ++ codes " [Output] "
    ++ s
    ++ codes "\n"

unfoldable pub long_operation_line : ℤ → Bytes → Bytes
long_operation_line error_code s1 =
    codes "\n\t3.1 [Function] - LongOperation(...) in synchronous mode.[ErrorCode] "
    ++ print_int error_code
    ++ codes "[Input] 5 seconds remote wait time"
    ++ codes " [Output] "
    ++ s1
    ++ codes "\n"

module _ (p : Platform) {W : Type 0} (net : Connection W) (what : Fault → Bytes) where
  -- The calls on the stub: what is written; and the text `s1`, the stub and the world before the
  -- asynchronous call.
  -- `what` is the text of an exception of the library.
  unfoldable pub calls : Bytes → ClientStub → W → Outcome (Bytes × Option (Bytes × ClientStub × W))
  unfolding try_next add_line reverse_name_line long_operation_line
  calls out calc w = try_next what (add p net calc (pos 3) (pos 4) (pos 0) w) out λ r₁.
      let out₁ = out ++ add_line r₁.0 (pos 3) (pos 4) r₁.1 in
      try_next what (reverse_name p net r₁.2 (codes "Client - Hello world") r₁.3) out₁ λ r₂.
        let out₂ = out₁ ++ reverse_name_line r₂.0 r₂.1 in
        try_next what (long_operation p net r₂.2 5000 [] false no_callback r₂.3) out₂
          λ r₃. ok (out₂ ++ long_operation_line r₃.0 r₃.1, some (r₃.1, r₃.2, r₃.3))

  -- The exception that the stub's constructor throws is caught too, and its text written.
  unfoldable pub calculator_test : Bool → W → Outcome (Bytes × Option (Bytes × ClientStub × W))
  unfolding try_next calls
  calculator_test initialized w =
      let title = codes "\n\n************** Calculator object test **************" ++ codes "\n" in
      try_next what (new_stub p net initialized w) title λ r. elim r.1 [
        | none ↦
            ok (
              title ++ codes "CreateRemoteInstance error. Id " ++ print_int r.0 ++ codes "\n",
              none,
            )
        | some calc ↦ calls title calc r.2
      ]

-- The console after the synchronous calls, if all succeeded.
abbrev pub calls_transcript : Bytes
calls_transcript =
    codes "\n\n************** Calculator object test **************\n"
    ++ codes "\n\t1. [Function] - Add() [ErrorCode] 0 [Input] 3 + 4 = [Output] 7\n"
    ++ codes "\n\t2. [Function] - ReverseName() [ErrorCode] 0 [Input] 'Client - Hello world'"
    ++ codes " [Output] dlrow olleH - tneilC\n"
    ++ codes "\n\t3.1 [Function] - LongOperation(...) in synchronous mode.[ErrorCode] 0"
    ++ codes "[Input] 5 seconds remote wait time [Output] Hello from server!!!\n"

-- The calls succeed, over any connection.
pub calculator_test_answered :
    (p : Platform) {W : Type 0} (net : Connection W) (what : Fault → Bytes) (initialized : Bool)
    (stub : ClientStub) (w w₁ w₂ w₃ w₄ : W)
    → new_stub p net initialized w ≡ ok (error_success, some stub, w₁)
    → add p net stub (pos 3) (pos 4) (pos 0) w₁ ≡ ok (error_success, pos 3 +ℤ pos 4, stub, w₂)
    → reverse_name p net stub (codes "Client - Hello world") w₂
      ≡ ok (error_success, reverse (codes "Client - Hello world"), stub, w₃)
    → long_operation p net stub 5000 [] false no_callback w₃
      ≡ ok (error_success, greeting, stub, w₄)
    → calculator_test p net what initialized w ≡ ok (calls_transcript, some (greeting, stub, w₄))
unfolding calculator_test calls try_next add_line reverse_name_line long_operation_line print_int
    ◌+ℤ◌
calculator_test_answered p net what initialized stub w w₁ w₂ w₃ w₄ made added reversed answered =
    rw (made, added, reversed, answered) refl

-- If the server has memory for one more object, the test writes for each of its three synchronous
-- calls that it succeeded, the sum 7, the text backwards and the server's greeting, and catches no
-- exception; it holds a stub of a new calculator.
pub calculator_test-direct :
    (p : Platform) (al : Allocator) (o : ObjectManager) (b : ℕ) (what : Fault → Bytes)
    (initialized : Bool) (allocated : al.allocate o.heap ≡ some b)
    → calculator_test p (direct p al) what initialized o
      ≡ ok (
        calls_transcript,
        some (
          greeting,
          fresh_stub p al o b allocated initialized,
          grown o b (custom (some calculator)),
        ),
      )
unfolding ◌+ℤ◌
calculator_test-direct p al o b what initialized allocated =
    let stub = fresh_stub p al o b allocated initialized in
    let o' = grown o b (custom (some calculator)) in
    let linked = fresh_stub-IsConnected p al o b allocated initialized in
    calculator_test_answered p (direct p al) what initialized stub o o' o' o' o'
      (new_stub-direct p al o b allocated initialized)
      (remote_add p al stub o' linked (pos 3) (pos 4) (pos 0) (omega arith) (omega arith)
        (omega arith) (omega arith))
      (remote_reverse_name p al stub o' linked (codes "Client - Hello world") (omega arith)
        (omega arith))
      (remote_long_operation p al stub o' linked 5000 [] no_callback (omega arith) tt (omega arith))
