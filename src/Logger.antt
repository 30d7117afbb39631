-- ===== src/Logger.antt =====
-- Common/include/Utils.h, `Logger::Log`: a formatted text goes to the debugger, from a buffer that is
-- doubled until the text fits. The C library's `_vsnprintf_s`, with the format and its arguments, is a
-- parameter: the size of the buffer gives its result and what it leaves in the buffer. So is the
-- memory: which sizes `new` can allocate.
pub mod Growth
use dcom.Base.{
  ℕ, zero, suc, ◌*◌, ◌%◌, ◌^◌, Bool, not, Option, none, some, Bytes, if◌then◌else◌, ℤ, negsuc, eq_ℤ,
  Outcome, ok, err, bad_alloc,
}
use dcom.NamedPipe.{c_string}

module _ (vsnprintf : ℕ → ℤ × Bytes) (allocates : ℕ → Bool) where
  -- The loop, with a bound on the buffers that it tries: what `OutputDebugString` gets, or the
  -- exception of `new`, which no test for `NULL` stops; none where the bound is reached. The size is
  -- a `DWORD`.
  unfoldable pub grow_buffer : ℕ → ℕ → Option (Outcome Bytes)
  grow_buffer zero buff_size = none
  grow_buffer (suc left) buff_size =
      let (written, data_buffer) = vsnprintf buff_size in
      let rest = grow_buffer left (buff_size * 2 % 2 ^ 32) in
      if not (allocates buff_size)
      then some (err bad_alloc)
      else if eq_ℤ (negsuc 0) written
      then rest
      else some (ok (c_string data_buffer))

  unfoldable pub log : ℕ → Option (Outcome Bytes)
  log left = grow_buffer left 1024
