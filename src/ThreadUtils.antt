-- ===== src/ThreadUtils.antt =====
-- Common/include/Utils.h, `ThreadUtils::WaitAndTerminateThread`, over the functions of Windows that
-- deal with threads.
use dcom.Base.{ℕ, ◌-◌, ◌^◌, Bool, not, ◌==◌, if◌then◌else◌}

pub record ThreadApi (W : Type 0) : Type 0 where
  pub create_thread : W → ℕ × W
  pub last_error : W → ℕ
  pub get_exit_code_thread : W → ℕ → Bool × ℕ × W
  pub wait_for_single_object : W → ℕ → ℕ → ℕ × W
  pub terminate_thread : W → ℕ → ℕ → W
  pub sleep : W → ℕ → W
  pub close_thread : W → ℕ → W

abbrev pub still_active : ℕ
still_active = 259

-- `WAIT_OBJECT_0`
abbrev pub wait_object_0 : ℕ
wait_object_0 = 0

abbrev pub max_thread_timeout_in_ms : ℕ
max_thread_timeout_in_ms = 100

-- `ERROR_THREAD_TERMINATED`, -1 as a `DWORD`
abbrev pub error_thread_terminated : ℕ
error_thread_terminated = 2 ^ 32 - 1

module _ {W : Type 0} (api : ThreadApi W) where
  -- The thread still runs: it has a little time, and is then terminated.
  unfoldable pub stop_active : ℕ → W → W
  stop_active handle w =
      let (result, w') = api.wait_for_single_object w handle max_thread_timeout_in_ms in
      if not (result == wait_object_0)
      then api.terminate_thread w' handle error_thread_terminated
      else w'

  unfoldable pub wait_and_terminate_thread : ℕ → W → ℕ × W
  unfolding stop_active
  wait_and_terminate_thread handle w =
      let (found, code, w') = api.get_exit_code_thread w handle in
      let exit_code = if found then code else still_active in
      if handle == 0
      then (0, w)
      else if not (exit_code == still_active)
      then (exit_code, w')
      else (error_thread_terminated, stop_active handle w')
