-- ===== src/Tests/Windows.antt =====
-- A Windows in which every operation succeeds, nothing is read, and the world stays as it is. The
-- worlds of the other modules differ from it in what they say.
use dcom.Base.{true, []}
use dcom.NamedPipe.{PipeApi}
use dcom.ThreadUtils.{ThreadApi}

abbrev pub plain_pipe : {W : Type 0} → PipeApi W
plain_pipe {W} = record {
  create_named_pipe = λ w name. (4, w);
  create_file = λ w name. (4, w);
  get_last_error = λ w. 0;
  wait_named_pipe = λ w name wait_time. (true, w);
  set_named_pipe_handle_state = λ w h state. (true, w);
  connect_named_pipe = λ w h. (true, w);
  get_process_heap = λ w. 1;
  heap_alloc = λ w size. (4096, w);
  heap_free = λ w buffer. w;
  read_file = λ w h size. (true, [], w);
  write_file = λ w h bytes. (true, w);
  flush_file_buffers = λ w h. (true, w);
  disconnect_named_pipe = λ w h. (true, w);
  close_handle = λ w h. (true, w);
}

abbrev pub idle_threads : {W : Type 0} → ThreadApi W
idle_threads {W} = record {
  create_thread = λ w. (8, w);
  last_error = λ w. 0;
  get_exit_code_thread = λ w h. (true, 0, w);
  wait_for_single_object = λ w h time. (0, w);
  terminate_thread = λ w h code. w;
  sleep = λ w time. w;
  close_thread = λ w h. w;
}
