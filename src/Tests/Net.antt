-- ===== src/Tests/Net.antt =====
-- A world with one pipe, a server at its end, and a client that waits for the server.
use dcom.Base.{
  ℤ, ℕ, ◌≡◌, refl, sym, ap, ◌∙◌, true, false, Bool, [], Option, some, none, Option-cases, inl, inr,
  arith, pos, ok, err, Bytes, Outcome,
}
use dcom.NamedPipe.{PipeApi, is_closed}
use dcom.ObjectManager.{ObjectManager}
use dcom.Remote.Link.{View, Same, Link}
use dcom.ServerMessageHandler.{ServerMessageHandler, handle_request}
use dcom.Tests.Machine.{windows, allocator}
use dcom.Tests.Objects.{shop}
use dcom.Tests.Windows.{idle_threads, plain_pipe}
use dcom.ThreadUtils.{ThreadApi}

-- The server's objects, the message on its way to the server and to the client, how many threads the
-- client made, and the memory of the client.
pub record Net : Type 0 where
  pub manager : ObjectManager
  pub to_server : Option Bytes
  pub to_client : Option Bytes
  pub threads_started : ℕ
  pub handles : ℕ → ℕ
  pub values : ℕ → ℤ
  pub texts : ℕ → Bytes

abbrev pub net_view : View Net
net_view = record {
  objects = λ w. w.manager;
  at_server = λ w. w.to_server;
  at_client = λ w. w.to_client;
}

-- What both ends do alike.
abbrev plain_api : PipeApi Net
plain_api = record (plain_pipe {W = Net}) {
  create_named_pipe = λ w name. (6, w);
  create_file = λ w name. (4, record w { to_client = none });
  read_file = λ w h size. (false, [], w);
  write_file = λ w h bytes. (false, w);
}

abbrev take_at_server : Net → Bool × Bytes × Net
take_at_server w = elim w.to_server [
  | none ↦ (false, [], w)
  | some bytes ↦ (true, bytes, record w { to_server = none })
]

abbrev take_at_client : Net → Bool × Bytes × Net
take_at_client w = elim w.to_client [
  | none ↦ (false, [], w)
  | some bytes ↦ (true, bytes, record w { to_client = none })
]

abbrev pub server_api : PipeApi Net
server_api = record plain_api {
  read_file = λ w h size. take_at_server w;
  write_file = λ w h bytes. (true, record w { to_client = some bytes });
}

abbrev pub net_handler : ServerMessageHandler
net_handler = record { message_thread_handle = 8; pipe = record { pipe = 6 } }

-- The request is gone when the handler is done with it.
abbrev settle : Net → Outcome (ObjectManager × Net) → Net
settle w (ok (o, w')) = record w' { manager = o; to_server = none }
settle w (err fault) = record w { to_server = none }

abbrev pub others : Net → Net
others w = settle w (handle_request windows allocator server_api net_handler w.manager w)

abbrev awaited : Net → Option Bytes → Net
awaited w none = w
awaited w (some bytes) = others w

abbrev client_read : Option Bytes → Net → Bool × Bytes × Net
client_read none w = take_at_client (awaited w w.to_server)
client_read (some bytes) w = take_at_client w

abbrev pub client_api : PipeApi Net
client_api = record plain_api {
  read_file = λ w h size. client_read w.to_client w;
  write_file = λ w h bytes. (true, record w { to_server = some bytes });
}

abbrev pub net_threads : ThreadApi Net
net_threads = idle_threads

Same-refl : (w : Net) → Same net_view w w
Same-refl w = record { objects_kept = refl; server_kept = refl; client_kept = refl }

settled : (w : Net) (r : Outcome (ObjectManager × Net)) → (settle w r).to_server ≡ none
settled w (ok (o, w')) = refl
settled w (err fault) = refl

read_at_server :
    (w : Net) (bytes : Bytes)
    → w.to_server ≡ some bytes
    → take_at_server w ≡ (true, bytes, record w { to_server = none })
read_at_server w bytes e = rw e refl

read_at_client :
    (w : Net) (bytes : Bytes)
    → w.to_client ≡ some bytes
    → client_read w.to_client w ≡ (true, bytes, record w { to_client = none })
read_at_client w bytes e = rw e refl

read_settled : (w : Net) → w.to_server ≡ none → client_read w.to_client w ≡ take_at_client w
read_settled w e = elim (Option-cases w.to_client) [
  | inl quiet ↦ rw (quiet, e) refl
  | inr (bytes, sent) ↦ rw sent refl
]

read_awaited :
    (w : Net) (bytes : Bytes)
    → w.to_server ≡ some bytes
    → w.to_client ≡ none
    → client_read w.to_client w ≡ take_at_client (others w)
read_awaited w bytes e quiet =
    ap (λ q. client_read q w) quiet ∙ ap (λ q. take_at_client (awaited w q)) e

pub Link-over_threads :
    (threads : ThreadApi Net)
    → ((w : Net) (t : ℕ) → (threads.close_thread w t).manager ≡ w.manager)
    → Link windows allocator client_api server_api threads net_view 4 net_handler others
unfolding is_closed
Link-over_threads threads closes = record {
  client_end = record {
    memory = λ w. (
      4096,
      w,
      record {
        is_open = refl;
        has_heap = λ e. absurd (omega arith);
        allocates = refl;
        has_buffer = λ e. absurd (omega arith);
      },
      Same-refl w,
    );
    freed = λ w buffer. Same-refl w;
  };
  server_end = record {
    memory = λ w. (
      4096,
      w,
      record {
        is_open = refl;
        has_heap = λ e. absurd (omega arith);
        allocates = refl;
        has_buffer = λ e. absurd (omega arith);
      },
      Same-refl w,
    );
    freed = λ w buffer. Same-refl w;
  };
  valid = refl;
  opens = λ w. (record w { to_client = none }, refl, refl, refl);
  client_writes = λ w bytes. (record w { to_server = some bytes }, refl, refl, refl, refl);
  server_writes = λ w bytes. (record w { to_client = some bytes }, refl, refl);
  server_reads = λ w bytes e. (record w { to_server = none }, read_at_server w bytes e, refl);
  client_reads = λ w bytes e. (record w { to_client = none }, read_at_client w bytes e, refl);
  flushed = λ w. refl;
  waits = λ w bytes e quiet.
      read_awaited w bytes e quiet
      ∙ sym (
          read_settled (others w)
            (settled w (handle_request windows allocator server_api net_handler w.manager w)));
  runs = λ w w' o' e. (ap (λ r. (settle w r).manager) e, ap (λ r. (settle w r).to_client) e);
  closed = λ w. refl;
  thread_closed = closes;
}

pub net-Link :
    Link windows allocator client_api server_api net_threads net_view 4 net_handler others
net-Link = Link-over_threads net_threads (λ w t. refl)

abbrev pub shop_net : Net
shop_net = record {
  manager = shop;
  to_server = none;
  to_client = none;
  threads_started = 0;
  handles = λ a. 0;
  values = λ a. pos 0;
  texts = λ a. [];
}
