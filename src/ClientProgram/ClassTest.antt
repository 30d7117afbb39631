-- ===== src/ClientProgram/ClassTest.antt =====
-- `TestClassCalculator` of Client/Client.cpp, whole: the synchronous calls, the asynchronous call, and
-- the destructor of the stub. The string `s2` stands in the memory of the client, at the address that is
-- passed with the callback; this runs in the thread of the request, and stores there. What the callback itself writes is not part of the text.
use dcom.Base.{ℕ, Bool, true, ◌++◌, Option, none, some, Bytes, codes, ℤ, Fault, Outcome, ok, ◌>>=◌}
use dcom.ClientMessageHandler.{ThreadData}
use dcom.ClientProgram.CalculatorTest.{calculator_test}
use dcom.ClientProgram.{try_next}
use dcom.ClientStub.{ClientStub, long_operation, destroy_stub}
use dcom.Connection.{Connection}
use dcom.Format.{Platform}
use dcom.Stream.{print_int}
use dcom.ThreadUtils.{ThreadApi}

unfoldable pub waited_call_line : ℤ → Bytes → Bytes
waited_call_line error_code s2 =
    codes "\t[ErrorCode] "
    ++ print_int error_code
    ++ codes "[Input] after imposed 6 seconds wait"
    ++ codes " [Output] "
    ++ s2
    ++ codes "\n"

-- What the test names by address: `CallbackPrint<string>` and `s2`; and the strings in the memory.
pub record Names (W : Type 0) : Type 0 where
  pub print_string : ℕ
  pub s2_at : ℕ
  pub strings : W → ℕ → Bytes

module _ (p : Platform) {W : Type 0} (net : Connection W) (threads : ThreadApi W)
    (what : Fault → Bytes) (names : Names W) where
  -- `&CallbackPrint<string>, (LPVOID)&s2`
  abbrev pub long_callback : ThreadData
  long_callback = record { cb_fn = names.print_string; cb_data = names.s2_at }

  -- The asynchronous call, and the wait after it.
  unfoldable pub async_call :
      Bytes → Bytes → ClientStub → W → Outcome (Bytes × Option (ClientStub × W))
  unfolding try_next waited_call_line
  async_call written s1 calc w =
      let out =
        written
        ++ codes "\n\t3.2 [Function] - LongOperation(...) in asynchronous mode."
        ++ codes "\n" in
      try_next what (long_operation p net calc 5000 s1 true long_callback w) out λ r.
        let woken = threads.sleep r.3 6000 in
        ok (out ++ waited_call_line r.0 (names.strings woken names.s2_at), some (r.2, woken))

  -- The stub ends with the block.
  unfoldable pub end_of_block : Bytes → Option (ClientStub × W) → Outcome (Bytes × Option W)
  end_of_block out none = ok (out, none)
  end_of_block out (some (calc, w)) = do w' ← destroy_stub p net calc w; ok (out, some w')

  unfoldable pub after_calls : Bytes → Option (Bytes × ClientStub × W) → Outcome (Bytes × Option W)
  unfolding async_call end_of_block
  after_calls out none = ok (out, none)
  after_calls out (some (s1, calc, w)) = do
    (out', end) ← async_call out s1 calc w
    end_of_block out' end

  unfoldable pub class_test : Bool → W → Outcome (Bytes × Option W)
  unfolding after_calls
  class_test initialized w = do
    (out, end) ← calculator_test p net what initialized w
    after_calls out end
