-- ===== src/Tests/Limits.antt =====
-- Limits at concrete inputs: a server that is late, a message that is too long, and the last
-- parameter of a message.
use dcom.Base.{
  ℕ, zero, suc, ◌+◌, ◌<◌, ◌≤◌, ◌≡◌, refl, true, false, [], ◌∷◌, codes, Bytes, arith, ltb, length,
  Lacks, if◌then◌else◌, ok,
}
use dcom.ClientMessageHandler.Polling.{
  RefusedOnce, Refused, absent, at_once, again, poll_reaches, send_request_gives_up, unopened,
}
use dcom.ClientMessageHandler.{new_handler, poll, send_request}
use dcom.Constants.{invalid_handle_value, error_server_no_response, max_number_of_times_to_poll}
use dcom.Format.{string_format}
use dcom.Marshaller.Last.{get-last_function_parameter}
use dcom.Marshaller.{
  Marshaller, empty_marshaller, get_function_parameter, get_last_function_parameter_index,
}
use dcom.NamedPipe.Guards.{write_too_long}
use dcom.NamedPipe.{PipeApi, write}
use dcom.Tests.Exchange.{short_request, short_printed, served, served-IsReady}
use dcom.Tests.Frames.{open_pipe}
use dcom.Tests.Windows.{idle_threads, plain_pipe}
use dcom.ThreadUtils.{ThreadApi}

-- The world counts the attempts; the server is there from the thirteenth on.
abbrev late : PipeApi ℕ
late = record (plain_pipe {W = ℕ}) {
  create_file = λ w name. (if ltb w 12 then invalid_handle_value else 4, suc w);
  get_last_error = λ w. 2;
  wait_named_pipe = λ w name wait_time. (false, w);
}

abbrev counting_threads : ThreadApi ℕ
counting_threads = idle_threads

not_there : (w : ℕ) → w < 12 → RefusedOnce late w (suc w)
not_there w early =
    let e : ltb w 12 ≡ true = ground arith in
    absent (suc w) (rw e refl) (λ same. absurd (omega arith))

attempts_fail : (k w : ℕ) → k + w ≤ 12 → Refused late counting_threads k w (k + w)
attempts_fail zero w h = let e : 0 + w ≡ w = omega arith in rw e at_once
attempts_fail (suc k) w h =
    let e : suc k + w ≡ k + suc w = omega arith in
    rw e (again (not_there w (omega arith)) (attempts_fail k (suc w) (omega arith)))

poll_reaches_example :
    poll late counting_threads max_number_of_times_to_poll open_pipe 9 ≡ (record { pipe = 4 }, 13)
poll_reaches_example =
    poll_reaches late counting_threads {k = 3} open_pipe 4 13 (attempts_fail 3 9 (omega arith))
      (omega arith) refl refl

send_request_gives_up_example :
    send_request late counting_threads new_handler short_request empty_marshaller 0
    ≡ ok (error_server_no_response, record new_handler { pipe = unopened }, empty_marshaller, 10)
send_request_gives_up_example =
    send_request_gives_up late counting_threads new_handler short_request empty_marshaller
      (codes "0?2") short_printed (attempts_fail 10 0 (omega arith))

-- A message of `n` letters.
unfoldable letters : ℕ → Bytes
letters zero = []
letters (suc n) = 65 ∷ letters n

length-letters : (n : ℕ) → length (letters n) ≡ n
unfolding letters
length-letters zero = refl
length-letters (suc n) = omega (arith, length-letters n)

letters-Lacks : (n : ℕ) → Lacks 0 (letters n)
unfolding letters
letters-Lacks zero = tt
letters-Lacks (suc n) = (omega arith, letters-Lacks n)

write_too_long_example : write served open_pipe (letters 512) ([], []) ≡ (false, ([], []))
unfolding letters
write_too_long_example =
    write_too_long served open_pipe ([], []) ([], []) 4096 (letters 512) (served-IsReady ([], []))
      (letters-Lacks 512) (omega (arith, length-letters 512))

-- A message with an object id and no disp id.
abbrev no_disp_id : Marshaller
no_disp_id = record { all_parameters = codes "0" ∷ codes "id" ∷ []; total_number_of_parameters = 2 }

get-last_function_parameter_example :
    get_function_parameter string_format no_disp_id
      (get_last_function_parameter_index no_disp_id)
      []
    ≡ ok (codes "id")
get-last_function_parameter_example =
    get-last_function_parameter string_format no_disp_id refl (omega arith) [] (omega arith)
