-- ===== src/Remote/Link.antt =====
-- The two ends of a named pipe, and a server that handles what comes in while the client waits: the
-- documented behaviour of Windows on which a request over the pipe relies. The client and the server
-- are two processes, each with a `PipeApi` of its own over the one world.
use dcom.Base.{ℕ, ◌≡◌, true, false, Option, none, some, Bytes, ok, ◌==◌}
use dcom.ClientMessageHandler.{server_pipe_name}
use dcom.Constants.{invalid_handle_value, pipe_buffer_size}
use dcom.Format.{Platform}
use dcom.NamedPipe.Transfer.{IsReady}
use dcom.NamedPipe.{PipeApi, NamedPipe}
use dcom.ObjectManager.{Allocator, ObjectManager}
use dcom.ServerMessageHandler.{ServerMessageHandler, handle_request}
use dcom.ThreadUtils.{ThreadApi}

-- What a world holds that matters here: the server's objects, and the message that waits at either
-- end of the pipe.
pub record View (W : Type 0) : Type 0 where
  pub objects : W → ObjectManager
  pub at_server : W → Option Bytes
  pub at_client : W → Option Bytes

-- The second world differs in nothing of this.
pub record Same {W : Type 0} (v : View W) (w w' : W) : Type 0 where
  pub objects_kept : v.objects w' ≡ v.objects w
  pub server_kept : v.at_server w' ≡ v.at_server w
  pub client_kept : v.at_client w' ≡ v.at_client w

-- One end of the pipe, open, with memory for the buffers.
pub record End {W : Type 0} (v : View W) (api : PipeApi W) (n : NamedPipe) : Type 0 where
  pub memory : (w : W) → (buffer : ℕ) × (w' : W) × IsReady api n w buffer w' × Same v w w'
  pub freed : (w : W) (buffer : ℕ) → Same v w (api.heap_free w buffer)

-- `others` is what the other threads do while the client waits for the reply to its request.
pub record Link {W : Type 0} (p : Platform) (al : Allocator) (client server : PipeApi W)
    (threads : ThreadApi W) (v : View W) (h : ℕ) (handler : ServerMessageHandler) (others : W → W)
    : Type 0 where
  pub client_end : End v client (record { pipe = h })
  pub server_end : End v server handler.pipe
  pub valid : (h == invalid_handle_value) ≡ false
  -- `CreateFile` opens the client's end, of a new connection on which nothing was sent.
  pub opens :
      (w : W)
      → (w' : W) × (client.create_file w server_pipe_name ≡ (h, w'))
        × (v.objects w' ≡ v.objects w)
        × (v.at_client w' ≡ none)
  -- What one end writes waits at the other.
  pub client_writes :
      (w : W) (bytes : Bytes)
      → (w' : W) × (client.write_file w h bytes ≡ (true, w'))
        × (v.at_server w' ≡ some bytes)
        × (v.objects w' ≡ v.objects w)
        × (v.at_client w' ≡ v.at_client w)
  pub server_writes :
      (w : W) (bytes : Bytes)
      → (w' : W) × (server.write_file w handler.pipe.pipe bytes ≡ (true, w'))
        × (v.at_client w' ≡ some bytes)
  -- A message that waits is read whole.
  pub server_reads :
      (w : W) (bytes : Bytes)
      → v.at_server w ≡ some bytes
      → (w' : W) × (server.read_file w handler.pipe.pipe pipe_buffer_size ≡ (true, bytes, w'))
        × (v.objects w' ≡ v.objects w)
  pub client_reads :
      (w : W) (bytes : Bytes)
      → v.at_client w ≡ some bytes
      → (w' : W) × (client.read_file w h pipe_buffer_size ≡ (true, bytes, w'))
        × (v.objects w' ≡ v.objects w)
  -- `FlushFileBuffers` takes nothing back.
  pub flushed :
      (w : W) → v.at_client (server.flush_file_buffers w handler.pipe.pipe).1 ≡ v.at_client w
  -- With a request under way and no reply, the client's `ReadFile` blocks while the server's thread
  -- handles the request, and then reads what it finds.
  pub waits :
      (w : W) (bytes : Bytes)
      → v.at_server w ≡ some bytes
      → v.at_client w ≡ none
      → client.read_file w h pipe_buffer_size ≡ client.read_file (others w) h pipe_buffer_size
  pub runs :
      (w w' : W) (o' : ObjectManager)
      → handle_request p al server handler (v.objects w) w ≡ ok (o', w')
      → (v.objects (others w) ≡ o') × (v.at_client (others w) ≡ v.at_client w')
  -- Closing the pipe and the handle of a thread leaves the server's objects alone.
  pub closed : (w : W) → v.objects (client.close_handle w h).1 ≡ v.objects w
  pub thread_closed : (w : W) (t : ℕ) → v.objects (threads.close_thread w t) ≡ v.objects w
