-- ===== src/ClientProgram/ClassTranscript.antt =====
-- What the calculator's test writes when it reaches the server over the pipe, and its thread is done
-- before it wakes up.
use dcom.Base.{ℤ, ◌==◌, ℕ, ◌≡◌, ◌≢◌, true, false, ◌++◌, none, some, Bytes, codes, Fault, ok}
use dcom.ClientMessageHandler.{ThreadData, handle_async_request}
use dcom.ClientProgram.AsyncTest.{program_callbacks}
use dcom.ClientProgram.AsyncTranscript.{IsMemory}
use dcom.ClientProgram.CalculatorTest.{calls_transcript, calculator_test}
use dcom.ClientProgram.ClassTest.{Names}
use dcom.ClientStub.{ClientStub}
use dcom.Connection.{pipe_connection}
use dcom.Constants.{error_success}
use dcom.Format.{Platform, string_format}
use dcom.NamedPipe.{PipeApi}
use dcom.ObjectManager.{Allocator, ObjectManager}
use dcom.Remote.Async.LongOperation.{waiting, with_waiting}
use dcom.Remote.Link.{View, Link}
use dcom.Remote.Session.{fresh_stub, with_calculator}
use dcom.Remote.Texts.{greeting}
use dcom.ServerMessageHandler.{ServerMessageHandler}
use dcom.ThreadUtils.{ThreadApi}

-- The console after a test that reached the server.
abbrev pub class_transcript : Bytes
class_transcript =
    calls_transcript
    ++ codes "\n\t3.2 [Function] - LongOperation(...) in asynchronous mode.\n"
    ++ codes "\t[ErrorCode] 0[Input] after imposed 6 seconds wait [Output] Hello from server!!!\n"

module _ {W : Type 0} (p : Platform) (al : Allocator) (client server : PipeApi W)
    (threads : ThreadApi W) (v : View W) (h : ℕ) (handler : ServerMessageHandler) (others : W → W)
    (link : Link p al client server threads v h handler others) (what : Fault → Bytes)
    (names : Names W) (write : ℕ → Bytes → W → W) (memory : IsMemory v names.strings write)
    (elsewhere : ℕ → ℤ → Bytes → ℕ → ℕ → W → W) (t : ℕ) (runs : t ≢ 0)
    (print_string : (names.print_string == 0) ≡ false) (given : names.s2_at ≢ 0) (started : W → W)
    (made : (w : W) → threads.create_thread w ≡ (t, started w))
    (objects_kept : (w : W) → v.objects (started w) ≡ v.objects w) (blank : Bytes) (w : W) (b : ℕ)
    (allocated : al.allocate (v.objects w).heap ≡ some b)
    (told : (w₀ w' : W)
      → handle_async_request client threads p string_format blank
          (program_callbacks p string_format t write names.print_string elsewhere)
          (waiting p t
            (record { cb_fn = names.print_string; cb_data = names.s2_at })
            b
            5000
            greeting)
          w₀
        ≡ ok (
          error_success,
          record (waiting p t
              (record { cb_fn = names.print_string; cb_data = names.s2_at })
              b
              5000
              greeting) { thread_data = none },
          w',
        )
      → threads.sleep w₀ 6000 ≡ w') where
  abbrev calling : ThreadData
  calling = record { cb_fn = names.print_string; cb_data = names.s2_at }

  abbrev callbacks : ℕ → ℤ → Bytes → ℕ → ℕ → W → W
  callbacks = program_callbacks p string_format t write names.print_string elsewhere

  abbrev stub : ClientStub
  stub = fresh_stub p al (v.objects w) b allocated true

  abbrev served : ObjectManager
  served = with_calculator p al (v.objects w) b allocated true

  abbrev running : ClientStub
  running =
      with_waiting stub
        (waiting p t (record { cb_fn = names.print_string; cb_data = names.s2_at }) b 5000 greeting)

  -- The synchronous calls, one after the other.
  abbrev CallsEnd : Type 0
  CallsEnd =
      (w₄ : W) × (calculator_test p (pipe_connection client threads) what true w
        ≡ ok (calls_transcript, some (greeting, stub, w₄)))
      × (v.objects w₄ ≡ served)
