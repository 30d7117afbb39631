-- ===== src/ClientProgram/Main.antt =====
-- The main function of Client/Client.cpp: its five tests, one after the other.
use dcom.Base.{
  ℕ, Bool, [], ◌++◌, Option, none, some, Bytes, codes, ℤ, pos, Fault, Outcome, ok, ◌>>=◌,
}
use dcom.ClientProgram.AsyncTest.{Statics, async_send_and_receive}
use dcom.ClientProgram.ClassTest.{Names, class_test}
use dcom.ClientProgram.{send_and_receive}
use dcom.Connection.{Connection}
use dcom.Format.{Platform, int_format, string_format}
use dcom.RpcClient.{int_type, string_type}
use dcom.ThreadUtils.{ThreadApi}

-- What the five tests name by address, and the memory of the client.
pub record Variables (W : Type 0) : Type 0 where
  pub int_statics : Statics W ℤ
  pub string_statics : Statics W Bytes
  pub names : Names W

-- The next test adds to what was written. After an exception that a test caught the program goes on,
-- from a world that is not modelled; so the text ends there.
unfoldable pub next_test :
    {W : Type 0} → Bytes × Option W → (W → Outcome (Bytes × Option W)) → Outcome (Bytes × Option W)
next_test (out, none) test = ok (out, none)
next_test (out, some w) test = do (written, end) ← test w; ok (out ++ written, end)

module _ (p : Platform) {W : Type 0} (net : Connection W) (threads : ThreadApi W)
    (what : Fault → Bytes) (variables : Variables W) where
  -- `thread_id` is the program's own thread, `initialized` what the clients' critical sections
  -- come to, and `t1` what the variable of the first test holds before it is read.
  unfoldable pub client_main : ℕ → Bool → ℤ → W → Outcome (Bytes × Option W)
  unfolding next_test
  client_main thread_id initialized t1 w = do
    first ← send_and_receive p net int_type int_format (pos 94087) t1 initialized w
    second ← next_test first λ w₁.
        send_and_receive p net string_type string_format (codes "This is a test") [] initialized w₁
    third ← next_test second λ w₂.
        async_send_and_receive p net threads int_type int_format variables.int_statics thread_id
          (pos 12345) initialized w₂
    fourth ← next_test third λ w₃.
        async_send_and_receive p net threads string_type string_format variables.string_statics
          thread_id (codes "Async test") initialized w₃
    next_test fourth λ w₄. class_test p net threads what variables.names initialized w₄
