-- ===== src/NamedPipe/Guards.antt =====
-- What the operations refuse: a pipe that is not open, and a message that no frame can carry.
use dcom.Base.{
  ℕ, ◌≤◌, ◌≡◌, if◌then◌else◌, refl, true, false, Bytes, length, Lacks, arith, ltb, leb, ◌==◌,
  Bool-cases, inl, inr,
}
use dcom.Constants.{pipe_buffer_size}
use dcom.NamedPipe.Transfer.{IsReady, c_string_id}
use dcom.NamedPipe.{
  PipeApi, NamedPipe, is_closed, is_connected, set_state, connect, read, write, write_buffer, flush,
  disconnect, close, reset, switch_to_asynch,
}

-- On a pipe that is not open every operation but `Create` and `OpenWithWaitOnBusy` returns false, and
-- changes neither the pipe nor the world.
pub closed_refuses :
    {W : Type 0} (api : PipeApi W) (n : NamedPipe) (state : ℕ) (msg : Bytes) (w : W)
    → is_closed n ≡ true
    → (is_connected n ≡ false)
      × (set_state api n state w ≡ (false, w))
      × (switch_to_asynch api n w ≡ (false, w))
      × (connect api n w ≡ (false, w))
      × (read api n msg w ≡ (false, msg, w))
      × (write api n msg w ≡ (false, w))
      × (flush api n w ≡ (false, w))
      × (disconnect api n w ≡ (false, w))
      × (close api n w ≡ (false, n, w))
      × (reset api n w ≡ (false, n, w))
unfolding is_connected set_state switch_to_asynch connect read write flush disconnect close reset
closed_refuses api n state msg w closed = (
  rw closed refl,
  rw closed refl,
  rw closed refl,
  rw closed refl,
  rw closed refl,
  rw closed refl,
  rw closed refl,
  rw closed refl,
  rw closed refl,
  rw closed refl,
)

module _ {W : Type 0} (api : PipeApi W) where
  close-closed : (n : NamedPipe) (w : W) → is_closed (close api n w).1 ≡ true
  unfolding close is_closed
  close-closed n w = elim (Bool-cases (is_closed n)) [
    | inl e ↦ rw e e
    | inr e ↦ rw e (ground arith)
  ]

  pub reset-closed : (n : NamedPipe) (w : W) → is_closed (reset api n w).1 ≡ true
  unfolding reset
  reset-closed n w = close-closed n _

-- On an open pipe, with memory for the buffer, no message of 512 bytes or more, none of them zero, is
-- written. One of more than 512 bytes is refused at once. One of exactly 512 passes that test and is
-- refused when it is copied: the buffer was taken, and is given back.
pub write_too_long :
    {W : Type 0} (api : PipeApi W) (n : NamedPipe) (w w' : W) (buffer : ℕ) (msg : Bytes)
    → IsReady api n w buffer w'
    → Lacks 0 msg
    → pipe_buffer_size ≤ length msg
    → write api n msg w
      ≡ (false, if ltb pipe_buffer_size (length msg) then w else api.heap_free w' buffer)
unfolding write write_buffer
write_too_long api n w w' buffer msg ready text long =
    let full : leb pipe_buffer_size (length msg) ≡ true = ground arith in
    let heap : (api.get_process_heap w == 0) ≡ false = ground (arith, ready.has_heap) in
    let buffered : (buffer == 0) ≡ false = ground (arith, ready.has_buffer) in
    elim (Bool-cases (ltb pipe_buffer_size (length msg))) [
      | inl large ↦ rw (ready.is_open, large) refl
      | inr small ↦
          rw (ready.is_open, small, heap, ready.allocates, buffered, c_string_id msg text, full)
            refl
    ]
