-- ===== src/Tests/Objects.antt =====
-- The server's objects, and the client's view of them, at concrete inputs.
use dcom.ClientMessageHandler.{no_callback}
use dcom.Base.{◌≡◌, refl, true, false, [], ◌∷◌, some, codes, arith, pos, negsuc, ◌+ℤ◌, ok}
use dcom.Calculator.{calculator}
use dcom.ClientStub.{ClientStub, add, reverse_name, long_operation}
use dcom.Connection.{direct}
use dcom.Constants.{error_success}
use dcom.Format.{int_format}
use dcom.ObjectManager.{load, contains, ObjectManager}
use dcom.Remote.Add.{remote_add}
use dcom.Remote.Primitives.{grown, remote_int}
use dcom.Remote.Send.{IsConnected}
use dcom.Remote.Texts.{remote_reverse_name, remote_long_operation}
use dcom.RpcClient.{int_type, send_primitive_data, get_primitive_data}
use dcom.ServerStub.{custom, primitive_int}
use dcom.Tests.Machine.{windows, allocator, allocate}

-- A server with one calculator, at address 4096, and the client's stub for it.
abbrev pub shop : ObjectManager
shop = record { all_objects = 4096 ∷ []; heap = (4096, custom (some calculator)) ∷ [] }

abbrev pub proxy : ClientStub
proxy = record {
  rpc_client = record { async_message_handlers = []; critical_section_initialized = true };
  remote_proxy_object = 4096;
}

pub shop_known : contains 4096 shop.all_objects ≡ true
unfolding contains
shop_known = refl

pub shop_live : load 4096 shop.heap ≡ some (custom (some calculator))
unfolding load
shop_live = refl

pub connected : IsConnected proxy shop
connected = record {
  not_null = λ e. absurd (omega arith);
  in_range = omega arith;
  known = shop_known;
  live = shop_live;
}

remote_add_example :
    add windows (direct windows allocator) proxy (pos 3) (negsuc 4) (pos 9) shop
    ≡ ok (error_success, negsuc 1, proxy, shop)
unfolding ◌+ℤ◌
remote_add_example =
    remote_add windows allocator proxy shop connected (pos 3) (negsuc 4) (pos 9) (omega arith)
      (omega arith) (omega arith) (omega arith)

name_came_back :
    reverse_name windows (direct windows allocator) proxy (codes "abc") shop
    ≡ ok (error_success, codes "cba", proxy, shop)
name_came_back =
    remote_reverse_name windows allocator proxy shop connected (codes "abc") (omega arith)
      (omega arith)

greeting_came_back :
    long_operation windows (direct windows allocator) proxy 5000 [] false no_callback shop
    ≡ ok (error_success, codes "Hello from server!!!", proxy, shop)
greeting_came_back =
    remote_long_operation windows allocator proxy shop connected 5000 [] no_callback (omega arith)
      tt (omega arith)

pub allocated : allocate shop.heap ≡ some 4112
unfolding allocate
allocated = refl

remote_int_example :
    (send_primitive_data windows
        (direct windows allocator)
        int_type
        int_format
        (pos 94087)
        proxy.rpc_client
        shop
      ≡ ok
          (error_success, some 4112, proxy.rpc_client, grown shop 4112 (primitive_int (pos 94087))))
    × (get_primitive_data windows
          (direct windows allocator)
          int_type
          int_format
          4112
          (pos 0)
          proxy.rpc_client
          (grown shop 4112 (primitive_int (pos 94087)))
        ≡ ok (
          error_success,
          some (pos 94087),
          proxy.rpc_client,
          grown shop 4112 (primitive_int (pos 94087)),
        ))
remote_int_example =
    remote_int windows allocator shop 4112 allocated (pos 94087) (omega arith) proxy.rpc_client
      (pos 0)
