-- ===== src/Tests/Frames.antt =====
-- A pipe that echoes the frame last written to it.
use dcom.Base.{◌≡◌, refl, true, [], codes, Bytes, arith, Lacks}
use dcom.NamedPipe.Transfer.{frame, IsReady, write-frame, read-frame}
use dcom.NamedPipe.{PipeApi, NamedPipe, is_closed, read, write}
use dcom.Tests.Windows.{plain_pipe}

-- The world is what was last written.
abbrev echo : PipeApi Bytes
echo = record (plain_pipe {W = Bytes}) {
  read_file = λ w h size. (true, w, []);
  write_file = λ w h bytes. (true, bytes);
}

abbrev pub open_pipe : NamedPipe
open_pipe = record { pipe = 4 }

echo-IsReady : (w : Bytes) → IsReady echo open_pipe w 4096 w
unfolding is_closed
echo-IsReady w = record {
  is_open = refl;
  has_heap = λ e. absurd (omega arith);
  allocates = refl;
  has_buffer = λ e. absurd (omega arith);
}

abbrev sum_text : Bytes
sum_text = codes "2?3"

sum_text_clean : Lacks 0 sum_text
sum_text_clean = ground arith

frame_written : write echo open_pipe sum_text [] ≡ (true, frame sum_text)
frame_written =
    write-frame echo open_pipe [] [] (frame sum_text) 4096 (echo-IsReady []) sum_text true
      sum_text_clean (omega arith) refl

echoed : read echo open_pipe [] (frame sum_text) ≡ (true, sum_text, [])
echoed =
    read-frame echo open_pipe (frame sum_text) (frame sum_text) [] 4096
      (echo-IsReady (frame sum_text)) [] sum_text sum_text_clean (omega arith) refl
