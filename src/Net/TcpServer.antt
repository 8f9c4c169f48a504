-- ===== src/Net/TcpServer.antt =====
-- net/TcpServer.hpp and net/TcpServer.cpp: the table of connections, the idle timeout, the callbacks.
-- A connection is a number, and what it answers is an argument (`World`), as in the module of the
-- timeout manager. A result of `none` is a thread that waits for a mutex it holds itself, and never returns.
pub mod Idle
pub mod Conns
pub mod Managers
pub mod Runs
pub mod Close
pub mod Register
pub mod Stuck
pub mod Turns
pub mod Tests
use azh_lid.Prelude.{
  ℕ, zero, suc, ◌+◌, Bool, true, false, Option, none, some, List, [], ◌∷◌, ◌++◌, max, ltb, ◌==◌,
  if◌then◌else◌, ◌&&◌, ℤ, pos, negsuc, is_positive, pos_part, length, map, drop, Map, lookup,
  insert, erase, is_some, int_eq,
}
use azh_lid.Threads.EventLoopThreadPool.{
  EventLoopThreadPool, new_pool, get_next_loop, thread_count_now,
}
use azh_lid.Threads.EventLoopThreadPool as Threads
use azh_lid.Time.ConnectionTimeoutManager.{
  World, Manager, new_manager, add_connection, update_activity, remove_connection, wheel_step,
}
use azh_lid.Time.ConnectionTimeoutManager as Wheel

-- A call of a callback that the user has set.
pub data Told : Type 0 where
  connected : ℕ → Told
  received : ℕ → ℕ → Told
  message : ℕ → Told
  closed : ℕ → Told

-- `shutdowns` are the connections that `shutdown` has been called for, oldest first.
pub record TcpServer : Type 0 where
  pub base_loop : ℕ
  pub has_acceptor : Bool
  pub thread_pool : EventLoopThreadPool
  pub connections : Map ℤ ℕ
  pub user_conn_cb : Bool
  pub user_msg_cb : Bool
  pub user_close_cb : Bool
  pub user_data_cb : Bool
  pub idle_manager : Option Manager
  pub idle_timeout_ms : ℕ
  pub idle_timeout_enabled : Bool
  pub started : Bool
  pub told : List Told
  pub shutdowns : List ℕ

-- The constructor; `none` is its exception, for a null loop or port 0.
pub new_server : ℕ → Option ℕ → ℕ → ℤ → Option TcpServer
new_server processors none port io_thread_count = none
new_server processors (some base_loop) port io_thread_count =
    if port == 0
    then none
    else some (record {
      base_loop = base_loop;
      has_acceptor = false;
      thread_pool = new_pool processors (pos (pos_part io_thread_count));
      connections = [];
      user_conn_cb = false;
      user_msg_cb = false;
      user_close_cb = false;
      user_data_cb = false;
      idle_manager = none;
      idle_timeout_ms = 300000;
      idle_timeout_enabled = false;
      started = false;
      told = [];
      shutdowns = [];
    })

started_manager : Bool → Option Manager → Option Manager
started_manager on none = none
started_manager on (some m) = some (if on then Wheel.start m else m)

-- A new manager with the server's timeout, and started if `on` is true.
pub make_manager : Bool → TcpServer → Option Manager
unfolding started_manager
make_manager on s = started_manager on (new_manager (pos s.idle_timeout_ms) (pos 60) (pos 1000))

-- How far `start` comes: the Acceptor's constructor or its `listen` may throw.
pub data Listens : Type 0 where
  listens : Listens
  not_made : Listens
  not_listening : Listens

begin : TcpServer → TcpServer
begin s = record s {
  started = true;
  idle_manager = if s.idle_timeout_enabled then make_manager true s else s.idle_manager;
  thread_pool = Threads.start s.thread_pool;
}

-- `start`, and whether it returns without an exception.
pub start : Listens → TcpServer → TcpServer × Bool
unfolding begin
start r s = if s.started then (s, true) else elim r [
  | listens ↦ (record (begin s) { has_acceptor = true }, true)
  | not_made ↦ (begin s, false)
  | not_listening ↦ (record (begin s) { has_acceptor = true }, false)
]

conn_of : ℤ × ℕ → ℕ
conn_of (fd, conn) = conn

pub stop : TcpServer → TcpServer
unfolding conn_of
stop s =
    if s.started
    then record s {
      started = false;
      idle_manager = none;
      has_acceptor = false;
      connections = [];
      shutdowns = s.shutdowns ++ map conn_of s.connections;
      thread_pool = Threads.stop s.thread_pool;
    }
    else s

or_base : TcpServer → Option ℕ × EventLoopThreadPool → ℕ × TcpServer
or_base s (none, p) = (s.base_loop, record s { thread_pool = p })
or_base s (some loop, p) = (loop, record s { thread_pool = p })

pub get_next_loop_or_base : TcpServer → ℕ × TcpServer
unfolding or_base
get_next_loop_or_base s =
    if thread_count_now s.thread_pool == 0
    then (s.base_loop, s)
    else or_base s (get_next_loop s.thread_pool)

-- A change of the idle manager, where there is one and the idle timeout is enabled.
pub with_manager : (Manager → Manager) → TcpServer → TcpServer
with_manager f s =
    if s.idle_timeout_enabled
    then record s { idle_manager = elim s.idle_manager [ none ↦ none | some m ↦ some (f m) ] }
    else s

add_registered : World → ℕ → ℕ → ℕ → ℕ → TcpServer → TcpServer
add_registered w now later made conn s =
    if is_some (lookup (w.fd_of conn) s.connections)
    then s
    else with_manager (add_connection w now later made (some conn))
        (record s { connections = insert (w.fd_of conn) conn s.connections })

-- `none` is a null pointer. The times are those that `add_connection` reads.
pub add_new_tcp_conn : World → ℕ → ℕ → ℕ → Option ℕ → TcpServer → TcpServer
unfolding add_registered
add_new_tcp_conn w now later made none s = s
add_new_tcp_conn w now later made (some conn) s =
    if is_positive (w.fd_of conn) then add_registered w now later made conn s else s

-- The lock of `conn_mutex_`, which is not recursive, by whether the calling thread holds it already;
-- `none` is a call that never returns.
abbrev lock : Bool → Option Bool
lock true = none
lock false = some true

-- `connection_count`, by whether the calling thread holds `conn_mutex_`.
abbrev pub connection_count : Bool → TcpServer → Option ℕ
connection_count holds s = elim (lock holds) [ none ↦ none | some _ ↦ some (length s.connections) ]

-- The line that logs the removal needs the count.
logged : Option ℕ → TcpServer → Option TcpServer
logged none s = none
logged (some n) s = some s

-- The part of `remove_tcp_conn` in which `conn_mutex_` is held, as `holds` says.
pub erase_locked : Bool → ℤ → TcpServer → Option TcpServer
unfolding logged
erase_locked holds fd s =
    let erased = record s { connections = erase fd s.connections } in
    if is_some (lookup fd s.connections)
    then logged (connection_count holds erased) erased
    else some s

pub remove_tcp_conn : World → Option ℕ → TcpServer → Option TcpServer
unfolding erase_locked
remove_tcp_conn w none s = some s
remove_tcp_conn w (some conn) s =
    let s' = with_manager (remove_connection (w.fd_of conn)) s in
    elim (lock false) [ none ↦ none | some holds ↦ erase_locked holds (w.fd_of conn) s' ]

pub idle_connection_count : TcpServer → ℕ
idle_connection_count s = elim s.idle_manager [ none ↦ 0 | some m ↦ m.idle_connections ]

pub set_idle_timeout : ℤ → TcpServer → TcpServer
set_idle_timeout timeout_ms s =
    let ms = max 1000 (pos_part timeout_ms) in
    record s {
      idle_timeout_ms = ms;
      idle_manager = elim s.idle_manager [
        | none ↦ none
        | some m ↦ some (Wheel.set_idle_timeout (pos ms) m)
      ];
    }

disable : TcpServer → TcpServer
disable s = record s { idle_timeout_enabled = false; idle_manager = none }

pub enable_idle_timeout : Bool → TcpServer → TcpServer
unfolding disable
enable_idle_timeout true s = if s.idle_timeout_enabled then s else record s {
  idle_timeout_enabled = true;
  idle_manager = elim s.idle_manager [ none ↦ make_manager s.started s | some m ↦ some m ];
}
enable_idle_timeout false s = if s.idle_timeout_enabled then disable s else s

-- Also `update_connection_activity`.
pub on_connection_active : World → ℕ → ℕ → Option ℕ → TcpServer → TcpServer
on_connection_active w now later none s = s
on_connection_active w now later (some conn) s =
    with_manager (update_activity now later (w.fd_of conn)) s

pub on_connection_idle_timeout : Option ℕ → TcpServer → TcpServer
on_connection_idle_timeout none s = s
on_connection_idle_timeout (some conn) s = record s { shutdowns = s.shutdowns ++ conn ∷ [] }

abbrev tell : Bool → Told → TcpServer → TcpServer
tell set t s = record s { told = s.told ++ (if set then t ∷ [] else []) }

-- The callbacks of `setup_default_callbacks`. An exception of a user's callback is caught.
pub ts_close_cb : World → ℕ → TcpServer → Option TcpServer
ts_close_cb w conn s = elim (remove_tcp_conn w (some conn) s) [
  | none ↦ none
  | some s' ↦
      some
        (tell s'.user_close_cb (closed conn) (with_manager (remove_connection (w.fd_of conn)) s'))
]

unfoldable pub ts_connected_cb : ℕ → TcpServer → TcpServer
ts_connected_cb conn s = tell s.user_conn_cb (connected conn) s

-- `readable` is the length of the buffer.
pub ts_message_cb : World → ℕ → ℕ → ℕ → ℕ → TcpServer → TcpServer
ts_message_cb w now later conn readable s =
    let s' = on_connection_active w now later (some conn) s in
    let s'' = tell (s'.user_data_cb && ltb 0 readable) (received conn readable) s' in
    tell s''.user_msg_cb (message conn) s''

idle_each : List ℕ → TcpServer → TcpServer
idle_each [] s = s
idle_each (conn ∷ conns) s = idle_each conns (on_connection_idle_timeout (some conn) s)

timed_conns : Manager → Manager → List ℕ
timed_conns before after =
    map (λ id. (Wheel.entry_at id after.heap).conn) (drop (length before.timed_out) after.timed_out)

round_of : World → ℕ → Option Manager → TcpServer → TcpServer
round_of w now none s = s
round_of w now (some m) s =
    idle_each (timed_conns m (wheel_step w now m))
      (record s { idle_manager = some (wheel_step w now m) })

-- A round of the manager's wheel, whose timeout callback is `on_connection_idle_timeout`.
pub wheel_round : World → ℕ → TcpServer → TcpServer
unfolding idle_each timed_conns round_of
wheel_round w now s = round_of w now s.idle_manager s
