-- ===== src/Tests/Link.antt =====
-- Requests and calls over the pipe between the two processes.
use dcom.Base.{ℤ, ℕ, ◌∷◌, ◌≡◌, refl, [], some, none, codes, arith, pos, negsuc, ◌+ℤ◌, ok}
use dcom.ClientStub.{add, reverse_name}
use dcom.Connection.{pipe_connection, send_over_pipe, send_direct}
use dcom.Constants.{error_success}
use dcom.Marshaller.{empty_marshaller, set_wire_format, of_text}
use dcom.Remote.Async.{asking, async_int_kept}
use dcom.Remote.Primitives.{grown}
use dcom.RpcClient.{int_type, send_primitive_data_async}
use dcom.ServerStub.{primitive_int}
use dcom.Format.{int_format}
use dcom.ClientMessageHandler.{ThreadData, handle_async_request}
use dcom.Remote.Calls.{pipe_add, pipe_reverse_name}
use dcom.Remote.Pipe.{send_over_pipe-direct}
use dcom.Marshaller.Wire.{wire-of_text}
use dcom.Tests.Exchange.{call_text, answer_text, call_answered}
use dcom.Tests.Safety.{two_live}
use dcom.Tests.Machine.{windows, allocator}
use dcom.Tests.Objects.{shop, proxy, connected, allocated}
use dcom.Tests.Net.{
  Net, net_view, server_api, client_api, net_handler, others, net_threads, net-Link, shop_net,
}

pipe_add_example :
    (w' : Net) × (add windows
        (pipe_connection client_api net_threads)
        proxy
        (pos 3)
        (negsuc 4)
        (pos 9)
        shop_net
      ≡ ok (error_success, pos 3 +ℤ negsuc 4, proxy, w'))
    × (w'.manager ≡ shop)
unfolding ◌+ℤ◌
pipe_add_example =
    pipe_add windows allocator client_api server_api net_threads net_view 4 net_handler others
      net-Link proxy shop_net connected (pos 3) (negsuc 4) (pos 9) (omega arith) (omega arith)
      (omega arith) (omega arith)

reversed_over_the_pipe :
    (w' : Net) × (reverse_name windows
        (pipe_connection client_api net_threads)
        proxy
        (codes "abc")
        shop_net
      ≡ ok (error_success, codes "cba", proxy, w'))
    × (w'.manager ≡ shop)
reversed_over_the_pipe =
    pipe_reverse_name windows allocator client_api server_api net_threads net_view 4 net_handler
      others net-Link proxy shop_net connected (codes "abc") (omega arith) (omega arith)
      (omega arith)

abbrev live_net : Net
live_net = record {
  manager = two_live;
  to_server = none;
  to_client = none;
  threads_started = 0;
  handles = λ a. 0;
  values = λ a. pos 0;
  texts = λ a. [];
}

send_over_pipe-direct_example :
    (w' : Net) × (send_over_pipe client_api net_threads
        (of_text call_text)
        empty_marshaller
        live_net
      ≡ ok (error_success, set_wire_format empty_marshaller answer_text, w'))
    × (send_direct windows allocator (of_text call_text) empty_marshaller two_live
        ≡ ok (error_success, set_wire_format empty_marshaller answer_text, w'.manager))
send_over_pipe-direct_example =
    send_over_pipe-direct windows allocator client_api server_api net_threads net_view 4 net_handler
      others net-Link (of_text call_text) empty_marshaller live_net call_text answer_text two_live
      (wire-of_text call_text (omega arith)) (omega arith, omega arith) call_answered
      (omega arith, omega arith)

-- The callback leaves the handle that it was told where the client can see it.
abbrev note_handle : ℕ → ℤ → ℕ → ℕ → ℕ → Net → Net
note_handle fn code r object_id cb_data w = record w {
  to_client = some (windows.handle_format.print r);
}

abbrev note_data : ThreadData
note_data = record { cb_fn = 1200; cb_data = 500 }

async_int_kept_example :
    (send_primitive_data_async windows
        (pipe_connection client_api net_threads)
        int_type
        int_format
        (pos 94087)
        note_data
        proxy.rpc_client
        shop_net
      ≡ ok (
        error_success,
        none,
        record proxy.rpc_client {
          async_message_handlers = asking windows 8 note_data (pos 94087) ∷ [];
        },
        shop_net,
      ))
    × ((w' : Net) × (handle_async_request client_api net_threads windows windows.handle_format 0
            note_handle
            (asking windows 8 note_data (pos 94087))
            shop_net
          ≡ ok (
            error_success,
            record (asking windows 8 note_data (pos 94087)) { thread_data = none },
            note_handle 1200 error_success 4112 0 500 w',
          ))
        × (w'.manager ≡ grown shop 4112 (primitive_int (pos 94087))))
async_int_kept_example =
    async_int_kept windows allocator client_api server_api net_threads net_view 4 net_handler others
      net-Link proxy.rpc_client (pos 94087) 8 shop_net shop_net shop_net 4112 note_data note_handle
      refl (λ e. absurd (omega arith)) refl (omega arith) allocated refl
