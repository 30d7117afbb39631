-- ===== src/NamedPipe/Transfer.antt =====
-- A text goes through the pipe in a frame of 512 bytes, filled up with zeros.
use dcom.Base.{
  ℕ, zero, suc, ◌+◌, ◌-◌, ◌<◌, ◌≡◌, ◌≢◌, refl, ap, ◌∙◌, Bool, true, false, [], ◌∷◌, ◌++◌,
  append-nil, Bytes, length, length-append, length-replicate, replicate, Lacks, arith, ltb, leb,
  ◌==◌,
}
use dcom.Constants.{pipe_buffer_size}
use dcom.NamedPipe.{PipeApi, NamedPipe, c_string, is_closed, read, read_buffer, write, write_buffer}

abbrev pub frame : Bytes → Bytes
frame text = text ++ replicate (pipe_buffer_size - length text) 0

c_string-zeros : (n : ℕ) → c_string (replicate n 0) ≡ []
unfolding c_string
c_string-zeros zero = refl
c_string-zeros (suc n) = refl

c_string-append : (s zeros : Bytes) → Lacks 0 s → c_string (s ++ zeros) ≡ s ++ c_string zeros
unfolding c_string
c_string-append [] zeros h = refl
c_string-append (c ∷ s) zeros h =
    let text : (c == 0) ≡ false = ground arith in rw (text, c_string-append s zeros h.1)

pub c_string-frame : (s : Bytes) → Lacks 0 s → c_string (frame s) ≡ s
c_string-frame s h =
    c_string-append s _ h
    ∙ ap (λ t. s ++ t) (c_string-zeros (pipe_buffer_size - length s))
    ∙ append-nil s

pub c_string_id : (s : Bytes) → Lacks 0 s → c_string s ≡ s
unfolding c_string
c_string_id [] h = refl
c_string_id (c ∷ s) h = let text : (c == 0) ≡ false = ground arith in rw (text, c_string_id s h.1)

length-frame : (s : Bytes) → length s < pipe_buffer_size → length (frame s) ≡ pipe_buffer_size
length-frame s h = omega (
  arith,
  length-append s (replicate (pipe_buffer_size - length s) 0),
  length-replicate (pipe_buffer_size - length s) (let z : ℕ = 0 in z),
)

-- An open pipe, and room for the buffer: the premises under which data moves.
pub record IsReady {W : Type 0} (api : PipeApi W) (n : NamedPipe) (w : W) (buffer : ℕ) (w' : W)
    : Type 0 where
  pub is_open : is_closed n ≡ false
  pub has_heap : api.get_process_heap w ≢ 0
  pub allocates : api.heap_alloc w (pipe_buffer_size + 1) ≡ (buffer, w')
  pub has_buffer : buffer ≢ 0

module _ {W : Type 0} (api : PipeApi W) (n : NamedPipe) (w w' w'' : W) (buffer : ℕ)
    (ready : IsReady api n w buffer w') where
  -- If the pipe is open and there is memory for the buffer, a text of up to 511 bytes, none of
  -- them zero, is handed to Windows as its frame, and the result is that of Windows.
  pub write-frame :
      (msg : Bytes) (sent : Bool)
      → Lacks 0 msg
      → length msg < pipe_buffer_size
      → api.write_file w' n.pipe (frame msg) ≡ (sent, w'')
      → write api n msg w ≡ (sent, api.heap_free w'' buffer)
  unfolding write write_buffer
  write-frame msg sent text short e =
      let small : ltb pipe_buffer_size (length msg) ≡ false = ground arith in
      let fits : leb pipe_buffer_size (length msg) ≡ false = ground arith in
      let heap : (api.get_process_heap w == 0) ≡ false = ground (arith, ready.has_heap) in
      let buffered : (buffer == 0) ≡ false = ground (arith, ready.has_buffer) in
      rw (ready.is_open, small, heap, ready.allocates, buffered, c_string_id msg text, fits, e)

  -- If the pipe is open and there is memory for the buffer, the frame of a text of up to 511
  -- bytes, none of them zero, is read as the text, which is added to the message.
  pub read-frame :
      (msg text : Bytes)
      → Lacks 0 text
      → length text < pipe_buffer_size
      → api.read_file w' n.pipe pipe_buffer_size ≡ (true, frame text, w'')
      → read api n msg w ≡ (true, msg ++ text, api.heap_free w'' buffer)
  unfolding read read_buffer
  read-frame msg text clean short e =
      let full : ltb 0 (length (frame text)) ≡ true = ground (arith, length-frame text short) in
      let heap : (api.get_process_heap w == 0) ≡ false = ground (arith, ready.has_heap) in
      let buffered : (buffer == 0) ≡ false = ground (arith, ready.has_buffer) in
      rw (ready.is_open, heap, ready.allocates, buffered, e, full, c_string-frame text clean)
