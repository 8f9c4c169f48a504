-- ===== src/Threads/EventLoopThreadPool/Life.antt =====
-- The threads of thread_pool/EventLoopThreadPool.cpp from start to stop.
use azh_lid.Prelude.{ℕ, zero, suc, ◌+◌, true, List, [], ◌∷◌}
use azh_lid.Threads.EventLoopThreadPool.{EventLoopThreadPool, new_threads}

-- The numbers from `first` on.
abbrev pub from_count : ℕ → ℕ → List ℕ
from_count first zero = []
from_count first (suc n) = first ∷ from_count (suc first) n

abbrev begun : EventLoopThreadPool → EventLoopThreadPool
begun p = record p {
  started = true;
  threads = new_threads p.made p.thread_count;
  made = p.made + p.thread_count;
}
