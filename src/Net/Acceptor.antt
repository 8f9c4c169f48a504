-- ===== src/Net/Acceptor.antt =====
-- net/Acceptor.hpp and net/Acceptor.cpp: the listening socket, and what is done with new connections.
-- The answers of the kernel are arguments. `get_next_loop` never returns a null pointer, as the base
-- loop is none, so that the test for one is left out; no connection is closed while it is being set up. The accept
-- loop runs in the thread of the base loop.
pub mod Loops
pub mod Registered
pub mod Descriptors
pub mod Tests
use azh_lid.Prelude.{
  ℕ, zero, suc, ◌+◌, Bool, true, false, Option, none, some, List, [], ◌∷◌, ◌++◌, ◌||◌, ◌==◌,
  if◌then◌else◌, ℤ, pos, negsuc, length, get_or,
}
use azh_lid.Time.ConnectionTimeoutManager.{World}
use azh_lid.Net.TcpServer.{TcpServer, get_next_loop_or_base, add_new_tcp_conn, ts_connected_cb}

-- What socket, open of /dev/null, inet_pton and bind answer.
pub record Answers : Type 0 where
  pub socket : Option ℕ
  pub open_null : Option ℕ
  pub address_fits : Bool
  pub bind_works : Bool

pub record Acceptor : Type 0 where
  pub listen_fd : ℕ
  pub idle_fd : Option ℕ
  pub listening : Bool
  pub reads : Bool

-- The constructor: what it makes, unless it throws, and the descriptors that it has closed.
pub new_acceptor : Answers → Option Acceptor × List ℕ
new_acceptor k = elim k.socket [
  | none ↦ (none, [])
  | some fd ↦
      if k.address_fits
      then (if k.bind_works
          then (
            some (record {
              listen_fd = fd;
              idle_fd = k.open_null;
              listening = false;
              reads = false;
            }),
            [],
          )
          else (none, fd ∷ []))
      else (none, fd ∷ [])
]

opened : Option ℕ → List ℕ
opened none = []
opened (some fd) = fd ∷ []

-- The destructor: the descriptors that it closes.
pub close_all : Acceptor → List ℕ
unfolding opened
close_all a = a.listen_fd ∷ opened a.idle_fd

-- `works` is what `listen` answers; `none` is the exception.
pub listen : Bool → Acceptor → Option Acceptor
listen works a =
    if a.listening
    then some a
    else if works
    then some (record a { listening = true; reads = true })
    else none

-- The connections that have been made; a connection is its place in the list.
pub record Conn : Type 0 where
  pub fd : ℤ
  pub loop : ℕ

-- `queued` are the calls of `connect_established` that other loops are to run, `established` the
-- connections whose call has run at once, and `closed` the descriptors closed.
pub record Accepting : Type 0 where
  pub server : TcpServer
  pub acceptor : Acceptor
  pub conns : List Conn
  pub queued : List (ℕ × ℕ)
  pub established : List ℕ
  pub closed : List ℕ

-- What accept answers, and where there is a connection, the times that its registration reads. With no
-- descriptor left, a second accept follows the close of the idle one, and then an open of /dev/null.
pub data Accept : Type 0 where
  accepts : (fd now later made : ℕ) → Accept
  interrupted : Accept
  would_block : Accept
  out_of_files : (tmp reopened : Option ℕ) → Accept
  fails : Accept

abbrev pub no_conn : Conn
no_conn = record { fd = negsuc 0; loop = 0 }

abbrev pub world : List Conn → World
world conns = record { fd_of = λ c. (get_or conns c no_conn).fd; is_connected = λ c. true }

-- `runInLoop` of `connect_established`, which calls the server's `ts_connected_cb`.
pub run_in_loop : ℕ → ℕ → Accepting → Accepting
run_in_loop loop conn a =
    if loop == a.server.base_loop
    then record a {
      server = ts_connected_cb conn a.server;
      established = a.established ++ conn ∷ [];
    }
    else record a { queued = a.queued ++ (loop, conn) ∷ [] }

-- A new TcpConnection goes to a loop, and then into the server's table.
pub take_conn : ℕ → ℕ → ℕ → ℕ → Accepting → Accepting
take_conn fd now later made a =
    let (loop, server') = get_next_loop_or_base a.server in
    let conns' = a.conns ++ record { fd = pos fd; loop = loop } ∷ [] in
    let a' = run_in_loop loop (length a.conns) (record a { server = server'; conns = conns' }) in
    record a' {
      server = add_new_tcp_conn (world conns') now later made (some (length a.conns)) a'.server;
    }

-- The idle descriptor makes room for a connection that is closed at once.
pub turn_away : Option ℕ → Option ℕ → Accepting → Accepting
unfolding opened
turn_away tmp reopened a = record a {
  acceptor = record a.acceptor { idle_fd = reopened };
  closed = a.closed ++ opened a.acceptor.idle_fd ++ opened tmp;
}

-- The loop over `accept`.
pub do_accept : List Accept → Accepting → Accepting
do_accept [] a = a
do_accept (accepts fd now later made ∷ answers) a =
    do_accept answers (take_conn fd now later made a)
do_accept (interrupted ∷ answers) a = do_accept answers a
do_accept (would_block ∷ answers) a = a
do_accept (out_of_files tmp reopened ∷ answers) a = do_accept answers (turn_away tmp reopened a)
do_accept (fails ∷ answers) a = a

-- The callback of the listening channel, by whether the event has EPOLLIN, EPOLLERR and EPOLLHUP.
pub on_event : Bool → Bool → Bool → List Accept → Accepting → Accepting
on_event in_event err_event hup_event answers a =
    if in_event || (err_event || hup_event) then do_accept answers a else a
