-- ===== src/Threads/EventLoopThreadPool/Tests.antt =====
-- Runs of thread_pool/EventLoopThreadPool.cpp.
use azh_lid.Prelude.{◌*◌, ◌≡◌, refl, true, false, none, [], ◌∷◌, ◌++◌, arith, pos, take, drop}
use azh_lid.Threads.EventLoopThreadPool.{
  EventLoopThreadPool, new_pool, start, get_all_loops, get_next_loop,
}
use azh_lid.Threads.EventLoopThreadPool.Turns.{turns, rounds, turns-get_all_loops}

-- Two threads, of which the second is next.
abbrev two : EventLoopThreadPool
two = record {
  thread_count = 2;
  threads = record { loop = 5; running = true } ∷ record { loop = 6; running = true } ∷ [];
  next_index = 1;
  started = true;
  made = 7;
  stopped = [];
}

turns-get_all_loops_example : turns (2 * 2) two ≡ (
  rounds 2 (drop 1 (get_all_loops two) ++ take 1 (get_all_loops two)),
  record two { next_index = 5 },
)
turns-get_all_loops_example = turns-get_all_loops 2 two (omega arith) (omega arith)

alternates : (turns 4 two).0 ≡ 6 ∷ 5 ∷ 6 ∷ 5 ∷ []
unfolding turns get_next_loop
alternates = refl

idle : EventLoopThreadPool
idle = record {
  thread_count = 3;
  threads = [];
  next_index = 0;
  started = false;
  made = 4;
  stopped = [];
}

-- A pool that is asked for no threads has one for each processor.
no_threads_asked : (new_pool 8 (pos 0)).thread_count ≡ 8
unfolding new_pool
no_threads_asked = refl

-- Where the number of processors is not known, it has none.
no_threads_known : (get_next_loop (start (new_pool 0 (pos 0)))).0 ≡ none
unfolding new_pool start get_next_loop
no_threads_known = refl
