-- ===== src/Net/TcpServer/Tests.antt =====
-- Runs of net/TcpServer.cpp.
use azh_lid.Prelude.{◌≡◌, refl, true, false, none, some, List, [], ◌∷◌, pos, lookup, insert, int_eq}
use azh_lid.Threads.EventLoopThreadPool.{EventLoopThreadPool}
use azh_lid.Time.ConnectionTimeoutManager.{World}
use azh_lid.Net.TcpServer.{
  begin, make_manager, started_manager, enable_idle_timeout, add_registered, on_connection_active,
  ts_message_cb, TcpServer, listens, start, with_manager, add_new_tcp_conn, remove_tcp_conn,
  erase_locked, logged, ts_close_cb,
}
use azh_lid.Net.TcpServer.Stuck.{ts_close_cb-calls}
use azh_lid.Net.TcpServer.Idle.{IsKept}
use azh_lid.Net.TcpServer.Runs.{
  Call, starts, adds, hears, closes, enables, call, calls, calls-IsKept,
}

abbrev alive : World
alive = record { fd_of = λ c. pos c; is_connected = λ c. true }

abbrev quiet_pool : EventLoopThreadPool
quiet_pool = record {
  thread_count = 2;
  threads = [];
  next_index = 0;
  started = false;
  made = 0;
  stopped = [];
}

abbrev fresh : TcpServer
fresh = record {
  base_loop = 9;
  has_acceptor = false;
  thread_pool = quiet_pool;
  connections = [];
  user_conn_cb = true;
  user_msg_cb = true;
  user_close_cb = true;
  user_data_cb = false;
  idle_manager = none;
  idle_timeout_ms = 300000;
  idle_timeout_enabled = false;
  started = false;
  told = [];
  shutdowns = [];
}

-- The first close of an ordinary server, after a message.
abbrev message_first : List (World × Call)
message_first = (alive, starts listens) ∷ (alive, hears 10 10 5 3) ∷ (alive, closes 6) ∷ []

abbrev with_five : TcpServer
with_five = add_new_tcp_conn alive 0 0 0 (some 5) fresh

after_message : TcpServer
after_message = elim (calls message_first with_five) [ none ↦ fresh | some s ↦ s ]

message_returns : calls message_first with_five ≡ some after_message
unfolding after_message calls call start begin add_new_tcp_conn add_registered with_manager
    ts_message_cb on_connection_active ts_close_cb remove_tcp_conn erase_locked logged lookup insert
message_returns = refl

ts_close_cb-calls_example : ts_close_cb alive 5 after_message ≡ none
ts_close_cb-calls_example =
    ts_close_cb-calls alive alive 0 0 0 5 message_first fresh after_message refl refl
      (tt, (tt, (tt, tt))) message_returns

abbrev script : List (World × Call)
script =
    (alive, enables true)
    ∷ (alive, starts listens)
    ∷ (alive, adds 0 0 0 (some 5))
    ∷ (alive, hears 10 10 5 3)
    ∷ (alive, closes 6)
    ∷ []

after_script : TcpServer
after_script = elim (calls script fresh) [ none ↦ fresh | some s ↦ s ]

script_returns : calls script fresh ≡ some after_script
unfolding after_script calls call enable_idle_timeout start begin add_new_tcp_conn add_registered
    with_manager ts_message_cb on_connection_active ts_close_cb remove_tcp_conn erase_locked logged
    make_manager started_manager lookup insert
script_returns = refl

calls-IsKept_example : IsKept after_script
calls-IsKept_example = calls-IsKept script fresh after_script script_returns refl
