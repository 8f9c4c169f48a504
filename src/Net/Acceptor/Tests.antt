-- ===== src/Net/Acceptor/Tests.antt =====
-- Runs of net/Acceptor.cpp.
use azh_lid.Prelude.{◌+◌, ◌≡◌, refl, true, false, none, some, List, [], ◌∷◌, ℤ, pos, lookup, int_eq}
use azh_lid.Threads.EventLoopThreadPool.{EventLoopThreadPool, get_next_loop, thread_count_now}
use azh_lid.Time.ConnectionTimeoutManager.Valid.{times}
use azh_lid.Net.TcpServer.{TcpServer}
use azh_lid.Net.TcpServer.Turns.{next_loops}
use azh_lid.Threads.EventLoopThreadPool.Turns.{turns}
use azh_lid.Net.Acceptor.{
  new_acceptor, Accept, accepts, interrupted, would_block, out_of_files, Accepting, do_accept,
}
use azh_lid.Net.Acceptor.Loops.{placed, elsewhere, on_base}
use azh_lid.Net.Acceptor.Registered.{registered, do_accept_lem}
use azh_lid.Net.Acceptor.Descriptors.{obtained, known, known-do_accept}

-- Two loops, 5 and 6; the second is next.
abbrev two_loops : EventLoopThreadPool
two_loops = record {
  thread_count = 2;
  threads = record { loop = 5; running = true } ∷ record { loop = 6; running = true } ∷ [];
  next_index = 1;
  started = true;
  made = 7;
  stopped = [];
}

abbrev serving : TcpServer
serving = record {
  base_loop = 9;
  has_acceptor = true;
  thread_pool = two_loops;
  connections = [];
  user_conn_cb = false;
  user_msg_cb = false;
  user_close_cb = false;
  user_data_cb = false;
  idle_manager = none;
  idle_timeout_ms = 300000;
  idle_timeout_enabled = false;
  started = true;
  told = [];
  shutdowns = [];
}

abbrev waiting : Accepting
waiting = record {
  server = serving;
  acceptor = record { listen_fd = 3; idle_fd = some 4; listening = true; reads = true };
  conns = [];
  queued = [];
  established = [];
  closed = [];
}

abbrev burst : List Accept
burst =
    accepts 10 0 0 0
    ∷ interrupted
    ∷ accepts 11 0 0 0
    ∷ out_of_files (some 4) (some 4)
    ∷ would_block
    ∷ accepts 12 0 0 0
    ∷ []

do_accept_lem_example :
    ((do_accept burst waiting).conns ≡ placed (10 ∷ 11 ∷ []) (next_loops 2 serving))
    × ((do_accept burst waiting).queued ≡ elsewhere 9 0 (next_loops 2 serving))
    × ((do_accept burst waiting).established ≡ on_base 9 0 (next_loops 2 serving))
    × ((k : ℤ)
        → lookup k (do_accept burst waiting).server.connections
          ≡ registered k 0 (10 ∷ 11 ∷ []) (lookup k serving.connections))
do_accept_lem_example = do_accept_lem burst waiting

burst_loops : next_loops 2 serving ≡ 6 ∷ 5 ∷ []
unfolding thread_count_now turns get_next_loop
burst_loops = refl

second_at_one : registered (pos 11) 0 (10 ∷ 11 ∷ []) none ≡ some 1
second_at_one = refl

-- Without threads the connections are on the base loop, and established at once.
abbrev no_loops : Accepting
no_loops = record waiting {
  server = record serving { thread_pool = record two_loops { threads = [] } };
}

at_once : (do_accept burst no_loops).established ≡ 0 ∷ 1 ∷ []
unfolding thread_count_now
at_once = (do_accept_lem burst no_loops).2

known-do_accept_example :
    known 4 (do_accept burst waiting) ≡ known 4 waiting + times 4 (obtained burst)
known-do_accept_example = known-do_accept 4 burst waiting

-- Where bind fails, the listening socket is closed and the idle descriptor is not.
idle_leaks :
    new_acceptor
      (record { socket = some 3; open_null = some 4; address_fits = true; bind_works = false })
    ≡ (none, 3 ∷ [])
unfolding new_acceptor
idle_leaks = refl
