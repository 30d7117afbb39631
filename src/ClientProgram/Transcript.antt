-- ===== src/ClientProgram/Transcript.antt =====
-- What the synchronous test writes when it reaches the server.
use dcom.Base.{
  ap, ◌∙◌, ◌≤◌, ℕ, ◌≡◌, Bool, ◌++◌, append_assoc, some, Bytes, codes, length, Lacks, ℤ, IsInt, ok,
}
use dcom.ClientProgram.{type_name, sent_line, read_line, receive_back, send_and_receive, try_next}
use dcom.Connection.{Connection, pipe_connection}
use dcom.NamedPipe.{PipeApi}
use dcom.Remote.Link.{View, Link}
use dcom.Remote.Values.{pipe_int}
use dcom.ServerMessageHandler.{ServerMessageHandler}
use dcom.ThreadUtils.{ThreadApi}
use dcom.Constants.{error_success}
use dcom.Format.{Format, Platform, int_format, string_format}
use dcom.ObjectManager.{Allocator, ObjectManager}
use dcom.Remote.Primitives.{grown}
use dcom.Remote.Strings.{remote_string}
use dcom.RpcClient.{
  ParameterType, int_type, string_type, new_client, destroy_client, stop_all, end_all,
  send_primitive_data, get_primitive_data,
}
use dcom.ServerStub.{primitive_int, primitive_string}
use dcom.Stream.{print_int}
use dcom.Tokenize.{wire_delimiter}

-- The console after a test in which the value `v` came back from the object `b`.
abbrev pub transcript {ℓ} : {T : Type ℓ} → Platform → ParameterType → Format T → T → ℕ → Bytes
transcript p type f v b =
    codes "\n\n************** Synchronous test - "
    ++ type_name type
    ++ codes " **************\n\n\t1. [Function] - SendPrimitivecDataAsync() [ErrorCode] 0 [Input] "
    ++ f.print v
    ++ codes " [Output] "
    ++ p.handle_format.print b
    ++ codes "\n\n\t2. [Function] - GetPrimitiveData() [ErrorCode] 0 [Input] "
    ++ p.handle_format.print b
    ++ codes " [Output] "
    ++ f.print v
    ++ codes "\n"

module _ {W T : Type 0} (p : Platform) (net : Connection W) (type : ParameterType) (f : Format T)
    (v t1 : T) (b : ℕ) (initialized : Bool) (w w₁ w₂ : W) where
  kept_lem :
      (send_primitive_data p net type f v (new_client initialized) w
        ≡ ok (error_success, some b, new_client initialized, w₁))
      → (get_primitive_data p net type f b t1 (new_client initialized) w₁
          ≡ ok (error_success, some v, new_client initialized, w₂))
      → send_and_receive p net type f v t1 initialized w ≡ ok (transcript p type f v b, some w₂)
  unfolding send_and_receive receive_back sent_line read_line try_next destroy_client stop_all
      end_all new_client print_int
  kept_lem sent got = rw (sent, got) (simp (append_assoc))

module _ {W : Type 0} (p : Platform) (al : Allocator) (client server : PipeApi W)
    (threads : ThreadApi W) (view : View W) (h : ℕ) (handler : ServerMessageHandler)
    (others : W → W) (link : Link p al client server threads view h handler others) where
  -- Over the pipe, if the server has memory for two more objects, the synchronous test of an `int` and
  -- after it that of a string of at most 400 bytes with no question mark and no zero byte write that
  -- both calls succeeded and that the value which was sent came back from a new object, which the
  -- server then holds; neither catches an exception.
  pub synchronous_tests :
      (w : W) (b b' : ℕ) (v t : ℤ) (s t' : Bytes) (initialized : Bool)
      → IsInt v
      → Lacks wire_delimiter s
      → Lacks 0 s
      → length s ≤ 400
      → al.allocate (view.objects w).heap ≡ some b
      → al.allocate (grown (view.objects w) b (primitive_int v)).heap ≡ some b'
      → (w₁ w₂ : W) × (send_and_receive p
            (pipe_connection client threads)
            int_type
            int_format
            v
            t
            initialized
            w
          ≡ ok (transcript p int_type int_format v b, some w₁))
        × (send_and_receive p
              (pipe_connection client threads)
              string_type
              string_format
              s
              t'
              initialized
              w₁
            ≡ ok (transcript p string_type string_format s b', some w₂))
        × (view.objects w₂
            ≡ grown (grown (view.objects w) b (primitive_int v)) b' (primitive_string s))
  synchronous_tests w b b' v t s t' initialized hv lacks clean short first second =
      let net = pipe_connection client threads in
      let c = new_client initialized in
      let (w₀, w₁, sent, got, same) =
        pipe_int p al client server threads view h handler others link w b first v t c hv in
      let (w₃, w₂, sent', got', same') =
        remote_string p al client server threads view h handler others link w₁ b'
          (ap (λ (o : ObjectManager). al.allocate o.heap) same ∙ second) s t' c lacks clean short in
      (
        w₁,
        w₂,
        kept_lem p net int_type int_format v t b initialized w w₀ w₁ sent got,
        kept_lem p net string_type string_format s t' b' initialized w₁ w₃ w₂ sent' got',
        same' ∙ ap (λ o. grown o b' (primitive_string s)) same,
      )
