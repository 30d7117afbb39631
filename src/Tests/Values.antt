-- ===== src/Tests/Values.antt =====
-- Numbers and strings that are kept and read over the pipe.
use dcom.Base.{◌≡◌, refl, true, some, [], ok, codes, pos, arith}
use dcom.ClientProgram.Transcript.{transcript, synchronous_tests}
use dcom.ClientProgram.{send_and_receive}
use dcom.Connection.{pipe_connection}
use dcom.Constants.{error_success}
use dcom.Format.{int_format, string_format}
use dcom.Remote.Primitives.{grown}
use dcom.Remote.Strings.{remote_string, remote_string_cut}
use dcom.RpcClient.{int_type, string_type, send_primitive_data, get_primitive_data}
use dcom.ServerStub.{primitive_int, primitive_string}
use dcom.Tests.Machine.{windows, allocator, allocate}
use dcom.Tests.Net.{
  Net, net_view, server_api, client_api, net_handler, others, net_threads, net-Link, shop_net,
}
use dcom.Tests.Objects.{shop, proxy, allocated}

remote_string_example :
    (w₁ w₂ : Net) × (send_primitive_data windows
        (pipe_connection client_api net_threads)
        string_type
        string_format
        (codes "This is a test")
        proxy.rpc_client
        shop_net
      ≡ ok (error_success, some 4112, proxy.rpc_client, w₁))
    × (get_primitive_data windows
          (pipe_connection client_api net_threads)
          string_type
          string_format
          4112
          []
          proxy.rpc_client
          w₁
        ≡ ok (error_success, some (codes "This is a test"), proxy.rpc_client, w₂))
    × (w₂.manager ≡ grown shop 4112 (primitive_string (codes "This is a test")))
remote_string_example =
    remote_string windows allocator client_api server_api net_threads net_view 4 net_handler others
      net-Link shop_net 4112 allocated (codes "This is a test") [] proxy.rpc_client (omega arith)
      (omega arith) (omega arith)

remote_string_cut_example :
    (w₁ w₂ : Net) × (send_primitive_data windows
        (pipe_connection client_api net_threads)
        string_type
        string_format
        (codes "why?me")
        proxy.rpc_client
        shop_net
      ≡ ok (error_success, some 4112, proxy.rpc_client, w₁))
    × (get_primitive_data windows
          (pipe_connection client_api net_threads)
          string_type
          string_format
          4112
          []
          proxy.rpc_client
          w₁
        ≡ ok (error_success, some (codes "why"), proxy.rpc_client, w₂))
    × (w₂.manager ≡ grown shop 4112 (primitive_string (codes "why")))
remote_string_cut_example =
    remote_string_cut windows allocator client_api server_api net_threads net_view 4 net_handler
      others net-Link shop_net 4112 allocated (codes "why") (codes "me") [] proxy.rpc_client
      (omega arith) (omega arith) (omega arith)

allocated_next : allocate (grown shop 4112 (primitive_int (pos 94087))).heap ≡ some 4128
unfolding allocate
allocated_next = refl

synchronous_tests_example :
    (w₁ w₂ : Net) × (send_and_receive windows
        (pipe_connection client_api net_threads)
        int_type
        int_format
        (pos 94087)
        (pos 0)
        true
        shop_net
      ≡ ok (transcript windows int_type int_format (pos 94087) 4112, some w₁))
    × (send_and_receive windows
          (pipe_connection client_api net_threads)
          string_type
          string_format
          (codes "This is a test")
          []
          true
          w₁
        ≡ ok (transcript windows string_type string_format (codes "This is a test") 4128, some w₂))
    × (w₂.manager
        ≡ grown
            (grown shop 4112 (primitive_int (pos 94087)))
            4128
            (primitive_string (codes "This is a test")))
synchronous_tests_example =
    synchronous_tests windows allocator client_api server_api net_threads net_view 4 net_handler
      others net-Link shop_net 4112 4128 (pos 94087) (pos 0) (codes "This is a test") [] true
      (omega arith) (omega arith) (omega arith) (omega arith) allocated allocated_next
