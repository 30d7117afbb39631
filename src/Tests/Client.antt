-- ===== src/Tests/Client.antt =====
-- The asynchronous test of the client over a pipe, with threads that run while it sleeps.
use dcom.Base.{ℕ, suc, ℤ, pos, ◌==◌, if◌then◌else◌}
use dcom.ClientMessageHandler.{ThreadData}
use dcom.ClientProgram.AsyncTest.{Statics}
use dcom.Remote.Primitives.{grown}
use dcom.ServerStub.{primitive_int}
use dcom.Tests.Net.{Net, shop_net}
use dcom.Tests.Objects.{shop}
use dcom.Tests.Windows.{idle_threads}
use dcom.ThreadUtils.{ThreadApi}

abbrev write_handle : ℕ → ℕ → Net → Net
write_handle a handle w = record w { handles = λ b. if b == a then handle else w.handles b }

abbrev write_value : ℕ → ℤ → Net → Net
write_value a value w = record w { values = λ b. if b == a then value else w.values b }

-- What the threads have done when the client wakes up: the first has the number kept, and the second
-- reads it.
abbrev woken_up : Net → Net
woken_up w =
    if w.threads_started == 1
    then write_handle 500 4112 (record w { manager = grown shop 4112 (primitive_int (pos 94087)) })
    else write_value 600 (pos 94087) w

abbrev busy_threads : ThreadApi Net
busy_threads = record (idle_threads {W = Net}) {
  create_thread = λ w. (8, record w { threads_started = suc w.threads_started });
  sleep = λ w time. woken_up w;
}

abbrev first_net : Net
first_net = record shop_net { threads_started = 1 }

abbrev statics : Statics Net ℤ
statics = record {
  print_id = 1200;
  print_result = 1300;
  remote_object_id_at = 500;
  opresult_at = 600;
  ids = λ w. w.handles;
  results = λ w. w.values;
}

abbrev sending : ThreadData
sending = record { cb_fn = 1200; cb_data = 500 }

abbrev fetching : ThreadData
fetching = record { cb_fn = 1300; cb_data = 600 }

-- No other function of the program is called.
abbrev elsewhere : {T : Type 0} → ℕ → ℤ → T → ℕ → ℕ → Net → Net
elsewhere fn code output object_id address w = w

abbrev second_net : Net
second_net = record shop_net {
  manager = grown shop 4112 (primitive_int (pos 94087));
  threads_started = 2;
  handles = λ b. if b == 500 then 4112 else 0;
}
