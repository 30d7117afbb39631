-- ===== src/Remote/Send.antt =====
-- A request that is sent over the direct connection, and its response.
use dcom.ClientMessageHandler.{no_callback}
use dcom.Base.{
  ℕ, ◌+◌, ◌-◌, ◌<◌, ◌≤◌, ◌≡◌, ◌≢◌, some, refl, ap, ◌∙◌, true, false, List, Bytes, length, All,
  Lacks, arith, ℤ, pos, IsInt, ok,
}
use dcom.Calculator.{calculator}
use dcom.ClientStub.{ClientStub}
use dcom.Connection.{respond, send_direct, direct}
use dcom.Constants.{error_success, npos, handle_count}
use dcom.Format.{Platform}
use dcom.Marshaller.Wire.{get_wire_format-join}
use dcom.Marshaller.{Marshaller, empty_marshaller, of_text, set_wire_format, get_wire_format}
use dcom.ObjectManager.{Allocator, ObjectManager, contains, load, process_request}
use dcom.Protocol.{message, of_text-message, get_error_code-message}
use dcom.RpcClient.{RpcClient, invoke, invoke_sync}
use dcom.ServerStub.{custom}
use dcom.Stream.RoundTrip.{length-print_int}
use dcom.Tokenize.Split.{join, total_length, length-join}
use dcom.Tokenize.{wire_delimiter}

module _ (p : Platform) where
  -- The parameters can stand on the wire: no delimiter in them, and the text is no longer than a
  -- string can be.
  pub record Transmits (params : List Bytes) : Type 0 where
    pub undelimited : All (Lacks wire_delimiter) params
    pub short : total_length params < npos - 100

  module _ (code : ℤ) (a : ℕ) (d : ℤ) (params : List Bytes) (hc : IsInt code)
      (ha : a < handle_count) (hd : IsInt d) (t : Transmits params) where
    -- The wire format of a message.
    abbrev pub wire_text : Bytes
    wire_text = join (message p code a d params).all_parameters

    pub get_wire : get_wire_format (message p code a d params) ≡ ok wire_text
    get_wire = get_wire_format-join (message p code a d params) refl

    pub wire_short : length wire_text ≤ total_length params + 60
    wire_short = omega (
      arith,
      length-join (message p code a d params).all_parameters,
      length-print_int code hc,
      length-print_int d hd,
      p.handle_short a ha,
    )

    pub of_wire : of_text wire_text ≡ message p code a d params
    of_wire =
        of_text-message p code a d params wire_text ha t.undelimited get_wire
          (omega (arith, wire_short, t.short))

module _ (p : Platform) (al : Allocator) (o o' : ObjectManager) (a : ℕ) (code d : ℤ)
    (params params' : List Bytes) where
  -- The server reads some message from the client's text, and what it answers is what the client's
  -- `Invoke` returns.
  pub invoke_received :
      (c : RpcClient) (request m : Marshaller) (text : Bytes)
      → a < handle_count
      → IsInt code
      → IsInt d
      → Transmits p params'
      → get_wire_format request ≡ ok text
      → of_text text ≡ m
      → process_request p al o m ≡ ok (o', message p code a d params')
      → invoke (direct p al) request empty_marshaller false no_callback c o
        ≡ ok (code, message p code a d params', c, o')
  invoke_received c request m text ha hc hd t' written read served =
      unfold invoke invoke_sync direct in rw (sent, get_error_code-message p code a d params' hc)
    where
      of_wire_again : (s : Bytes) → set_wire_format empty_marshaller s ≡ of_text s
      of_wire_again s = unfold set_wire_format of_text in refl

      sent :
          send_direct p al request empty_marshaller o
          ≡ ok (error_success, message p code a d params', o')
      sent =
          unfold send_direct respond in
          rw (written, read, served, get_wire p code a d params' hc ha hd t')
            (ap (λ m. ok (error_success, m, o'))
              (of_wire_again (wire_text p code a d params' hc ha hd t')
                ∙ of_wire p code a d params' hc ha hd t'))

  -- A request with no delimiter in its parameters is read as it was written.
  pub invoke-direct :
      (c : RpcClient)
      → a < handle_count
      → IsInt code
      → IsInt d
      → Transmits p params
      → Transmits p params'
      → process_request p al o (message p (pos 0) a d params) ≡ ok (o', message p code a d params')
      → invoke (direct p al) (message p (pos 0) a d params) empty_marshaller false no_callback c o
        ≡ ok (code, message p code a d params', c, o')
  invoke-direct c ha hc hd t t' served =
      invoke_received c (message p (pos 0) a d params) (message p (pos 0) a d params)
        (wire_text p (pos 0) a d params (omega arith) ha hd t) ha hc hd t'
        (get_wire p (pos 0) a d params (omega arith) ha hd t)
        (of_wire p (pos 0) a d params (omega arith) ha hd t) served

-- The stub's object is a live `Calculator` of the server.
pub record IsConnected (stub : ClientStub) (o : ObjectManager) : Type 0 where
  pub not_null : stub.remote_proxy_object ≢ 0
  pub in_range : stub.remote_proxy_object < handle_count
  pub known : contains stub.remote_proxy_object o.all_objects ≡ true
  pub live : load stub.remote_proxy_object o.heap ≡ some (custom (some calculator))
