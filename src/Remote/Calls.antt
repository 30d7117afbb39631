-- ===== src/Remote/Calls.antt =====
-- Calls of a remote `Calculator` over the pipe.
use dcom.ClientMessageHandler.{no_callback}
use dcom.Base.{
  ℕ, ap, ◌-◌, ◌<◌, ◌≤◌, ◌≡◌, refl, ◌∙◌, false, [], ◌∷◌, List, Bytes, length, All, Lacks,
  reverse-Lacks, length-reverse, arith, ℤ, pos, IsInt, ◌+ℤ◌, ok,
}
use dcom.Calculator.{add_disp_id, reverse_name_disp_id}
use dcom.ClientMessageHandler.{ClientMessageHandler, new_handler, send_request}
use dcom.ClientStub.{ClientStub, add, reverse_name}
use dcom.Connection.{respond, pipe_connection, send_over_pipe}
use dcom.Constants.{error_success, handle_count, pipe_buffer_size}
use dcom.Format.{Platform}
use dcom.Marshaller.{Marshaller, get_wire_format, empty_marshaller, of_text, set_wire_format}
use dcom.NamedPipe.{PipeApi}
use dcom.ObjectManager.{Allocator, ObjectManager, process_request}
use dcom.Protocol.{message, get_error_code-message}
use dcom.Remote.Add.{add_answered, add_served}
use dcom.Remote.Link.{View, Link}
use dcom.Remote.Pipe.{Fits, send_request-respond, destroy_closed}
use dcom.Remote.Send.{Transmits, IsConnected, wire_text, get_wire, wire_short, of_wire}
use dcom.Remote.Texts.{reverse_name_answered, reverse_name_served}
use dcom.RpcClient.{RpcClient, invoke, invoke_sync}
use dcom.ServerMessageHandler.{ServerMessageHandler}
use dcom.Stream.RoundTrip.{print_int-Lacks, print_int-clean, length-print_int}
use dcom.Stream.{print_int}
use dcom.ThreadUtils.{ThreadApi}
use dcom.Tokenize.Split.{total_length, join-Lacks}
use dcom.Tokenize.{wire_delimiter}
use mathlib.Core.List.{reverse}

-- The parameters of a message that fits a frame.
pub record IsCompact (params : List Bytes) : Type 0 where
  pub undelimited : All (Lacks wire_delimiter) params
  pub clean : All (Lacks 0) params
  pub short : total_length params < pipe_buffer_size - 60

IsCompact-Transmits : (p : Platform) (params : List Bytes) → IsCompact params → Transmits p params
IsCompact-Transmits p params c = record {
  undelimited = c.undelimited;
  short = omega (arith, c.short);
}

pub IsCompact-int : (n : ℤ) → IsInt n → IsCompact (print_int n ∷ [])
IsCompact-int n hn = record {
  undelimited = (print_int-Lacks n, tt);
  clean = (print_int-clean n, tt);
  short = omega (arith, length-print_int n hn);
}

IsCompact-ints :
    (x y z : ℤ)
    → IsInt x
    → IsInt y
    → IsInt z
    → IsCompact (print_int x ∷ print_int y ∷ print_int z ∷ [])
IsCompact-ints x y z hx hy hz = record {
  undelimited = (print_int-Lacks x, (print_int-Lacks y, (print_int-Lacks z, tt)));
  clean = (print_int-clean x, (print_int-clean y, (print_int-clean z, tt)));
  short = omega (arith, length-print_int x hx, length-print_int y hy, length-print_int z hz);
}

module _ (p : Platform) (a : ℕ) (code d : ℤ) (params : List Bytes) (hc : IsInt code)
    (ha : a < handle_count) (hd : IsInt d) (c : IsCompact params) where
  text : Bytes
  text = wire_text p code a d params hc ha hd (IsCompact-Transmits p params c)

  text-Fits : Fits text
  unfolding text
  text-Fits = (
    join-Lacks 0 (message p code a d params).all_parameters (λ e. absurd (omega arith))
        (print_int-clean code, (p.handle_clean a ha, (print_int-clean d, c.clean))),
    omega (arith, wire_short p code a d params hc ha hd (IsCompact-Transmits p params c), c.short),
  )

set_wire_format-of_text : (s : Bytes) → set_wire_format empty_marshaller s ≡ of_text s
unfolding set_wire_format of_text
set_wire_format-of_text s = refl

module _ {W : Type 0} (p : Platform) (al : Allocator) (client server : PipeApi W)
    (threads : ThreadApi W) (v : View W) (h : ℕ) (handler : ServerMessageHandler) (others : W → W)
    (link : Link p al client server threads v h handler others) where
  module _ (w : W) (o' : ObjectManager) (a : ℕ) (code d : ℤ) (params params' : List Bytes)
      (ha : a < handle_count) (hc : IsInt code) (hd : IsInt d) (compact : IsCompact params)
      (compact' : IsCompact params')
      (served : process_request p al (v.objects w) (message p (pos 0) a d params)
        ≡ ok (o', message p code a d params')) where
    answered :
        respond p al (v.objects w) (text p a (pos 0) d params (omega arith) ha hd compact)
        ≡ ok (o', text p a code d params' hc ha hd compact')
    unfolding respond text
    answered = rw (
      of_wire p (pos 0) a d params (omega arith) ha hd (IsCompact-Transmits p params compact),
      served,
      get_wire p code a d params' hc ha hd (IsCompact-Transmits p params' compact'),
    )

    read_back :
        set_wire_format empty_marshaller (text p a code d params' hc ha hd compact')
        ≡ message p code a d params'
    unfolding text
    read_back =
        set_wire_format-of_text (text p a code d params' hc ha hd compact')
        ∙ of_wire p code a d params' hc ha hd (IsCompact-Transmits p params' compact')

    -- One request in the client, on its way to the server and back.
    pub pipe_request :
        (asking : ClientMessageHandler)
        → (w' : W) × (send_request client threads asking
              (message p (pos 0) a d params)
              empty_marshaller
              w
            ≡ ok (
              error_success,
              record asking { pipe = record { pipe = 0 } },
              message p code a d params',
              w',
            ))
          × (v.objects w' ≡ o')
    unfolding text
    pipe_request asking =
        let (w', sent, same) =
          send_request-respond p al client server threads v h handler others link asking
            (message p (pos 0) a d params) empty_marshaller w
            (text p a (pos 0) d params (omega arith) ha hd compact)
            (text p a code d params' hc ha hd compact') o'
            (get_wire p (pos 0) a d params (omega arith) ha hd
              (IsCompact-Transmits p params compact))
            (text-Fits p a (pos 0) d params (omega arith) ha hd compact) answered
            (text-Fits p a code d params' hc ha hd compact') in
        (
          w',
          sent
              ∙ ap (λ m. ok (error_success, record asking { pipe = record { pipe = 0 } }, m, w'))
                  read_back,
          same,
        )

    -- `Invoke` over the pipe, on a request that the server answers.
    pub pipe_invoke :
        (c : RpcClient)
        → (w' : W) × (invoke
              (pipe_connection client threads)
              (message p (pos 0) a d params)
              empty_marshaller
              false
              no_callback
              c
              w
            ≡ ok (code, message p code a d params', c, w'))
          × (v.objects w' ≡ o')
    unfolding invoke invoke_sync pipe_connection send_over_pipe
    pipe_invoke c =
        let (w', sent, same) = pipe_request new_handler in
        (
          threads.close_thread w' 0,
          rw (sent, destroy_closed client threads w', get_error_code-message p code a d params' hc),
          link.thread_closed w' 0 ∙ same,
        )

  -- A request that the server reads as some other message, and answers.
  module _ (w : W) (o' : ObjectManager) (request m : Marshaller) (sent_text : Bytes) (a : ℕ)
      (code d : ℤ) (params' : List Bytes) (ha : a < handle_count) (hc : IsInt code) (hd : IsInt d)
      (compact' : IsCompact params') (written : get_wire_format request ≡ ok sent_text)
      (fits : Fits sent_text) (read : of_text sent_text ≡ m)
      (served : process_request p al (v.objects w) m ≡ ok (o', message p code a d params')) where
    pub pipe_received :
        (c : RpcClient)
        → (w' : W) × (invoke
              (pipe_connection client threads)
              request
              empty_marshaller
              false
              no_callback
              c
              w
            ≡ ok (code, message p code a d params', c, w'))
          × (v.objects w' ≡ o')
    unfolding invoke invoke_sync pipe_connection send_over_pipe text respond
    pipe_received c =
        let reply = text p a code d params' hc ha hd compact' in
        let (w', sent, same) =
          send_request-respond p al client server threads v h handler others link new_handler
            request empty_marshaller w sent_text reply o' written fits
            (rw (
              read,
              served,
              get_wire p code a d params' hc ha hd (IsCompact-Transmits p params' compact'),
            ))
            (text-Fits p a code d params' hc ha hd compact') in
        let back : set_wire_format empty_marshaller reply ≡ message p code a d params' =
          set_wire_format-of_text reply
          ∙ of_wire p code a d params' hc ha hd (IsCompact-Transmits p params' compact') in
        (
          threads.close_thread w' 0,
          rw (
            sent,
            destroy_closed client threads w',
            back,
            get_error_code-message p code a d params' hc,
          ),
          link.thread_closed w' 0 ∙ same,
        )

  module _ (stub : ClientStub) (w : W) (linked : IsConnected stub (v.objects w)) where
    -- Over the pipe, on a stub whose object is a live `Calculator` of the server, `Add` of two `int`s
    -- returns success and their sum, if that is an `int`, whatever `int` the result variable held
    -- before; the server's objects and the client stay as they were.
    pub pipe_add :
        (x y z : ℤ)
        → IsInt x
        → IsInt y
        → IsInt z
        → IsInt (x +ℤ y)
        → (w' : W) × (add p (pipe_connection client threads) stub x y z w
            ≡ ok (error_success, x +ℤ y, stub, w'))
          × (v.objects w' ≡ v.objects w)
    pipe_add x y z hx hy hz hs =
        let (w', answered, same) =
          pipe_invoke w (v.objects w) stub.remote_proxy_object error_success add_disp_id
            (print_int x ∷ print_int y ∷ print_int z ∷ [])
            (print_int x ∷ print_int y ∷ print_int (x +ℤ y) ∷ []) linked.in_range (omega arith)
            (omega arith) (IsCompact-ints x y z hx hy hz) (IsCompact-ints x y (x +ℤ y) hx hy hs)
            (add_served p al stub (v.objects w) linked x y z hx hy hz hs) stub.rpc_client in
        (
          w',
          add_answered p (pipe_connection client threads) stub w w' x y z linked.not_null hx hy hs
              answered,
          same,
        )

    -- Over the pipe, `ReverseName` returns success and the reversed text, for a text of up to 450
    -- bytes with no question mark and no zero byte; the server's objects and the client stay as they
    -- were.
    pub pipe_reverse_name :
        (s : Bytes)
        → Lacks wire_delimiter s
        → Lacks 0 s
        → length s ≤ 450
        → (w' : W) × (reverse_name p (pipe_connection client threads) stub s w
            ≡ ok (error_success, reverse s, stub, w'))
          × (v.objects w' ≡ v.objects w)
    pipe_reverse_name s lacks clean short =
        let (w', answered, same) =
          pipe_invoke w (v.objects w) stub.remote_proxy_object error_success reverse_name_disp_id
            (s ∷ []) (reverse s ∷ []) linked.in_range (omega arith) (omega arith)
            (record { undelimited = (lacks, tt); clean = (clean, tt); short = omega arith })
            (record {
              undelimited = (reverse-Lacks wire_delimiter s lacks, tt);
              clean = (reverse-Lacks 0 s clean, tt);
              short = omega (arith, length-reverse s);
            })
            (reverse_name_served p al stub (v.objects w) linked s) stub.rpc_client in
        (
          w',
          reverse_name_answered p (pipe_connection client threads) stub w w' s (reverse s)
              linked.not_null answered,
          same,
        )
