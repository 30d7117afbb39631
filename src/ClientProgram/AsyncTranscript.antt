-- ===== src/ClientProgram/AsyncTranscript.antt =====
-- What the asynchronous test writes when it reaches the server over the pipe, and its threads are
-- done before it wakes up.
use dcom.Base.{ℕ, ◌≡◌, ◌≢◌, refl, true, false, [], ◌∷◌, ◌++◌, Bytes, codes, ◌==◌, arith, ℤ, IsInt}
use dcom.ClientMessageHandler.{ClientMessageHandler, ThreadData}
use dcom.ClientProgram.AsyncTest.{stored_by_callback, program_callbacks, Statics}
use dcom.ClientProgram.{callback_print}
use dcom.Format.{Format, Platform, int_format}
use dcom.NamedPipe.{PipeApi}
use dcom.ObjectManager.{Allocator}
use dcom.Remote.Link.{View, Link}
use dcom.RpcClient.{RpcClient}
use dcom.ServerMessageHandler.{ServerMessageHandler}
use dcom.Stream.{print_int, print_nat}
use dcom.ThreadUtils.{ThreadApi}

-- The console after a test, in the thread `me`, in which the value `v` came back from the object `b`.
abbrev pub async_transcript : Platform → ℕ → ℤ → ℕ → Bytes
async_transcript p me n b =
    codes "\n\n************** Asynchronous test -  type int  [Thread id] - "
    ++ print_nat me
    ++ codes " **************\n\n\t1. [Function] - SendPrimitivecDataAsync() \n"
    ++ codes "\t[ErrorCode] 0 [Input] "
    ++ print_int n
    ++ codes " [Output] after imposed 5 seconds wait - "
    ++ p.handle_format.print b
    ++ codes "\n\n\t2. [Function] - GetPrimitiveDataAsync() \n"
    ++ codes "\t[ErrorCode] 0 [Input] "
    ++ print_int n
    ++ codes " [Output] after imposed 5 seconds wait - "
    ++ print_int n
    ++ codes "\n"

-- The memory of the client: what is stored at an address is read there, and the server's objects stand
-- apart.
pub record IsMemory {W T : Type 0} (v : View W) (value : W → ℕ → T) (write : ℕ → T → W → W)
    : Type 0 where
  pub stored : (a : ℕ) (t : T) (w : W) → value (write a t w) a ≡ t
  pub objects_kept : (a : ℕ) (t : T) (w : W) → v.objects (write a t w) ≡ v.objects w

pub stores :
    {W T : Type 0} (p : Platform) (f : Format T) (thread_id : ℕ) (write : ℕ → T → W → W)
    (print_at : ℕ) (elsewhere : ℕ → ℤ → T → ℕ → ℕ → W → W) (code : ℤ) (output : T)
    (object_id address : ℕ) (w : W)
    → address ≢ 0
    → program_callbacks p f thread_id write print_at elsewhere print_at code output object_id
        address w
      ≡ write address output w
unfolding program_callbacks stored_by_callback callback_print
stores p f thread_id write print_at elsewhere code output object_id address w named =
    let given : (address == 0) ≡ false = ground (arith, named) in
    let here : (print_at == print_at) ≡ true = ground arith in
    rw (program_callbacks, stored_by_callback, callback_print, here, given) refl

module _ {W : Type 0} (p : Platform) (al : Allocator) (client server : PipeApi W)
    (threads : ThreadApi W) (v : View W) (h : ℕ) (handler : ServerMessageHandler) (others : W → W)
    (link : Link p al client server threads v h handler others) (statics : Statics W ℤ)
    (write_id : ℕ → ℕ → W → W) (write_result : ℕ → ℤ → W → W)
    (id_memory : IsMemory v statics.ids write_id)
    (result_memory : IsMemory v statics.results write_result)
    (elsewhere_id : ℕ → ℤ → ℕ → ℕ → ℕ → W → W) (elsewhere : ℕ → ℤ → ℤ → ℕ → ℕ → W → W)
    (print_id : (statics.print_id == 0) ≡ false)
    (print_result : (statics.print_result == 0) ≡ false) (n : ℤ) (hn : IsInt n) (me t t' : ℕ)
    (runs : t ≢ 0) (runs' : t' ≢ 0) (id_given : statics.remote_object_id_at ≢ 0)
    (result_given : statics.opresult_at ≢ 0) (w w₁ w₂ : W)
    (made : threads.create_thread w ≡ (t, w₁)) where
  -- The functions of the program, as the two threads call them.
  abbrev id_callbacks : ℕ → ℤ → ℕ → ℕ → ℕ → W → W
  id_callbacks = program_callbacks p p.handle_format t write_id statics.print_id elsewhere_id

  abbrev result_callbacks : ℕ → ℤ → ℤ → ℕ → ℕ → W → W
  result_callbacks = program_callbacks p int_format t' write_result statics.print_result elsewhere

  abbrev sending : ThreadData
  sending = record { cb_fn = statics.print_id; cb_data = statics.remote_object_id_at }

  abbrev fetching : ThreadData
  fetching = record { cb_fn = statics.print_result; cb_data = statics.opresult_at }

  abbrev woken : W
  woken = threads.sleep w₁ 5000

  abbrev with_handler : ClientMessageHandler → RpcClient
  with_handler running = record {
    async_message_handlers = running ∷ [];
    critical_section_initialized = true;
  }
