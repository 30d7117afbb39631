-- ===== src/Tests/ClassTest.antt =====
-- The calculator's test of the client over a pipe, with a thread that runs while it sleeps.
use dcom.Base.{◌==◌, if◌then◌else◌, ℕ, suc, [], ok, err, Bytes, Outcome, ℤ}
use dcom.ClientMessageHandler.{ClientMessageHandler, ThreadData, handle_async_request}
use dcom.ClientProgram.AsyncTest.{program_callbacks}
use dcom.ClientProgram.ClassTest.{Names}
use dcom.Format.{string_format}
use dcom.Remote.Async.LongOperation.{waiting}
use dcom.Remote.Texts.{greeting}
use dcom.Tests.Net.{Net, client_api}
use dcom.Tests.Machine.{windows}
use dcom.Tests.Windows.{idle_threads}
use dcom.ThreadUtils.{ThreadApi}

abbrev write_text : ℕ → Bytes → Net → Net
write_text a text w = record w { texts = λ b. if b == a then text else w.texts b }

abbrev names : Names Net
names = record { print_string = 1400; s2_at = 700; strings = λ w. w.texts }

abbrev calling : ThreadData
calling = record { cb_fn = 1400; cb_data = 700 }

-- No other function of the program is called.
abbrev elsewhere : ℕ → ℤ → Bytes → ℕ → ℕ → Net → Net
elsewhere fn code output object_id address w = w

-- What the thread of the asynchronous call does, where waiting has no effect.
abbrev thread_end : ThreadApi Net → Net → Outcome (ℤ × ClientMessageHandler × Net)
thread_end threads w =
    handle_async_request client_api threads windows string_format []
      (program_callbacks windows string_format 8 write_text 1400 elsewhere)
      (waiting windows 8 calling 4112 5000 greeting) w

abbrev world_of : Net → Outcome (ℤ × ClientMessageHandler × Net) → Net
world_of w (ok r) = r.2
world_of w (err fault) = w

abbrev class_threads : ThreadApi Net
class_threads = record (idle_threads {W = Net}) {
  create_thread = λ w. (8, record w { threads_started = suc w.threads_started });
  sleep = λ w time. world_of w (thread_end idle_threads w);
}
