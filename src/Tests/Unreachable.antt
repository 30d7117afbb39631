-- ===== src/Tests/Unreachable.antt =====
-- The synchronous tests of the client where no server runs.
use dcom.Base.{ℕ, ◌≡◌, refl, true, some, none, [], ok, codes, pos, suc, arith}
use dcom.ClientProgram.ClassTest.{Names, class_test}
use dcom.ClientProgram.Unreachable.{
  IsAbsent, refused_transcript, thrown_transcript, tests_unreachable,
}
use dcom.ClientProgram.{send_and_receive}
use dcom.Connection.{pipe_connection}
use dcom.Constants.{invalid_handle_value}
use dcom.Format.{int_format, string_format}
use dcom.NamedPipe.{PipeApi}
use dcom.RpcClient.{int_type, string_type}
use dcom.Tests.Machine.{windows}
use dcom.Tests.Windows.{plain_pipe, idle_threads}

-- The world counts the attempts; `ERROR_FILE_NOT_FOUND` is 2.
abbrev no_server : PipeApi ℕ
no_server = record (plain_pipe {W = ℕ}) {
  create_file = λ w name. (invalid_handle_value, suc w);
  get_last_error = λ w. 2;
}

no_server-IsAbsent : IsAbsent no_server
no_server-IsAbsent = record { no_pipe = λ w. (suc w, refl, λ e. absurd (omega (arith, e))) }

abbrev names : Names ℕ
names = record { print_string = 1400; s2_at = 700; strings = λ w a. [] }

tests_unreachable_example :
    (w₁ w₂ : ℕ) × (send_and_receive windows
        (pipe_connection no_server idle_threads)
        int_type
        int_format
        (pos 94087)
        (pos 5)
        true
        0
      ≡ ok (refused_transcript int_type int_format (pos 94087), some w₁))
    × (send_and_receive windows
          (pipe_connection no_server idle_threads)
          string_type
          string_format
          (codes "This is a test")
          []
          true
          w₁
        ≡ ok (refused_transcript string_type string_format (codes "This is a test"), some w₂))
    × (class_test windows
          (pipe_connection no_server idle_threads)
          idle_threads
          (λ fault. codes "library")
          names
          true
          w₂
        ≡ ok (thrown_transcript, none))
tests_unreachable_example =
    tests_unreachable windows no_server idle_threads no_server-IsAbsent (pos 94087) (pos 5)
      (codes "This is a test") [] (λ fault. codes "library") names true 0
