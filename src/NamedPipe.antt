-- ===== src/NamedPipe.antt =====
-- Common/include/NamedPipe.h and Common/NamedPipe.cpp: a message pipe with a buffer of fixed size.
-- What Windows does with a pipe is a parameter, `PipeApi`, over a state `W` of the world; a pipe is
-- its handle. A function returns its result, the pipe where it changes, and the world.
pub mod Transfer
pub mod Guards
use dcom.Base.{
  ℕ, zero, suc, ◌+◌, ◌-◌, ◌≡◌, Bool, true, false, not, ◌&&◌, ◌||◌, List, [], ◌∷◌, ◌++◌, Bytes,
  codes, length, replicate, ltb, leb, ◌==◌, if◌then◌else◌,
}
use dcom.Constants.{invalid_handle_value, pipe_buffer_size}

-- The functions of the Windows API that the class calls. `read_file` returns the bytes read.
pub record PipeApi (W : Type 0) : Type 0 where
  pub create_named_pipe : W → Bytes → ℕ × W
  pub create_file : W → Bytes → ℕ × W
  pub get_last_error : W → ℕ
  pub wait_named_pipe : W → Bytes → ℕ → Bool × W
  pub set_named_pipe_handle_state : W → ℕ → ℕ → Bool × W
  pub connect_named_pipe : W → ℕ → Bool × W
  pub get_process_heap : W → ℕ
  pub heap_alloc : W → ℕ → ℕ × W
  pub heap_free : W → ℕ → W
  pub read_file : W → ℕ → ℕ → Bool × Bytes × W
  pub write_file : W → ℕ → Bytes → Bool × W
  pub flush_file_buffers : W → ℕ → Bool × W
  pub disconnect_named_pipe : W → ℕ → Bool × W
  pub close_handle : W → ℕ → Bool × W

-- `m_pipe`
pub record NamedPipe : Type 0 where
  pub pipe : ℕ

abbrev pub error_pipe_busy : ℕ
error_pipe_busy = 231

-- `PIPE_NOWAIT`
abbrev pipe_nowait : ℕ
pipe_nowait = 1

-- The text that a buffer holds up to its first zero byte.
unfoldable pub c_string : Bytes → Bytes
c_string [] = []
c_string (c ∷ s) = if c == 0 then [] else c ∷ c_string s

unfoldable pub new_pipe : NamedPipe
new_pipe = record { pipe = 0 }

-- `INVALID_HANDLE_VALUE == m_pipe || NULL == m_pipe`
unfoldable pub is_closed : NamedPipe → Bool
is_closed n = n.pipe == invalid_handle_value || n.pipe == 0

unfoldable pub is_connected : NamedPipe → Bool
unfolding is_closed
is_connected n = not (is_closed n)

module _ {W : Type 0} (api : PipeApi W) where
  unfoldable pub create : NamedPipe → Bytes → W → Bool × NamedPipe × W
  create n [] w = (false, n, w)
  create n (c ∷ name) w =
      let (h, w') = if n.pipe == 0 then api.create_named_pipe w (c ∷ name) else (n.pipe, w) in
      (not (h == invalid_handle_value), record { pipe = h }, w')

  unfoldable pub open_with_wait_on_busy : NamedPipe → Bytes → ℕ → W → Bool × NamedPipe × W
  open_with_wait_on_busy n name wait_time w =
      let (h, w') = api.create_file w name in
      if not (h == invalid_handle_value)
      then (true, record { pipe = h }, w')
      else if not (api.get_last_error w' == error_pipe_busy)
      then (false, record { pipe = h }, w')
      else let (waited, w'') = api.wait_named_pipe w' name wait_time in
        (waited, record { pipe = h }, w'')

  unfoldable pub set_state : NamedPipe → ℕ → W → Bool × W
  unfolding is_closed
  set_state n state w =
      if is_closed n then (false, w) else api.set_named_pipe_handle_state w n.pipe state

  unfoldable pub connect : NamedPipe → W → Bool × W
  unfolding is_closed
  connect n w = if is_closed n then (false, w) else api.connect_named_pipe w n.pipe

  -- `msg += requestStr` of the zeroed buffer, one byte longer than what is read into it.
  read_buffer : NamedPipe → ℕ → Bytes → W → Bool × Bytes × W
  unfolding c_string
  read_buffer n buffer msg w =
      let (result, bytes, w') = api.read_file w n.pipe pipe_buffer_size in
      (result, if ltb 0 (length bytes) then msg ++ c_string bytes else msg, api.heap_free w' buffer)

  unfoldable pub read : NamedPipe → Bytes → W → Bool × Bytes × W
  unfolding is_closed read_buffer
  read n msg w =
      if is_closed n
      then (false, msg, w)
      else if api.get_process_heap w == 0
      then (false, msg, w)
      else let (buffer, w') = api.heap_alloc w (pipe_buffer_size + 1) in
        if buffer == 0 then (false, msg, w') else read_buffer n buffer msg w'

  -- `StringCchCopy` into 512 characters wants room for the zero at the end.
  write_buffer : NamedPipe → ℕ → Bytes → W → Bool × W
  unfolding c_string
  write_buffer n buffer msg w =
      let text = c_string msg in
      if leb pipe_buffer_size (length text)
      then (false, api.heap_free w buffer)
      else let (result, w') =
          api.write_file w n.pipe (text ++ replicate (pipe_buffer_size - length text) 0) in
        (result, api.heap_free w' buffer)

  unfoldable pub write : NamedPipe → Bytes → W → Bool × W
  unfolding is_closed write_buffer
  write n msg w =
      if is_closed n
      then (false, w)
      else if ltb pipe_buffer_size (length msg)
      then (false, w)
      else if api.get_process_heap w == 0
      then (false, w)
      else let (buffer, w') = api.heap_alloc w (pipe_buffer_size + 1) in
        if buffer == 0 then (false, w') else write_buffer n buffer msg w'

  unfoldable pub flush : NamedPipe → W → Bool × W
  unfolding is_closed
  flush n w = if is_closed n then (false, w) else api.flush_file_buffers w n.pipe

  unfoldable pub disconnect : NamedPipe → W → Bool × W
  unfolding is_closed
  disconnect n w = if is_closed n then (false, w) else api.disconnect_named_pipe w n.pipe

  unfoldable pub close : NamedPipe → W → Bool × NamedPipe × W
  unfolding is_closed
  close n w =
      if is_closed n
      then (false, n, w)
      else let (result, w') = api.close_handle w n.pipe in (result, record { pipe = 0 }, w')

  unfoldable pub reset : NamedPipe → W → Bool × NamedPipe × W
  unfolding disconnect close
  reset n w =
      let (disconnected, w') = disconnect n w in
      let (closed, n', w'') = close n w' in (disconnected && closed, n', w'')

  unfoldable pub switch_to_asynch : NamedPipe → W → Bool × W
  unfolding set_state
  switch_to_asynch n w = set_state n pipe_nowait w
