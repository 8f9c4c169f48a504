-- ===== src/Threads/EventLoopThreadPool.antt =====
-- thread_pool/EventLoopThreadPool.hpp and .cpp: threads that run one event loop each, handed out in turn.
-- A loop is a number. The processors that the machine reports are an argument.
pub mod Turns
pub mod Life
pub mod Tests
use azh_lid.Prelude.{
  ℕ, zero, suc, ◌+◌, ◌%◌, Bool, true, false, Option, none, some, List, [], ◌∷◌, ◌++◌, ltb, leb,
  ◌==◌, if◌then◌else◌, ℤ, is_positive, pos_part, length, get_or, map, add_size,
}

pub record ThreadData : Type 0 where
  pub loop : ℕ
  pub running : Bool

-- `made` counts the loops that have been created, and `stopped` are those that have been told to stop.
pub record EventLoopThreadPool : Type 0 where
  pub thread_count : ℕ
  pub threads : List ThreadData
  pub next_index : ℕ
  pub started : Bool
  pub made : ℕ
  pub stopped : List ℕ

-- The constructor; the count is one of threads if it is positive, else the number of processors.
pub new_pool : ℕ → ℤ → EventLoopThreadPool
new_pool processors thread_count = record {
  thread_count = if is_positive thread_count then pos_part thread_count else processors;
  threads = [];
  next_index = 0;
  started = false;
  made = 0;
  stopped = [];
}

-- `n` new threads with loops from `first` on.
pub new_threads : ℕ → ℕ → List ThreadData
new_threads first zero = []
new_threads first (suc n) = record { loop = first; running = true } ∷ new_threads (suc first) n

unfoldable pub start : EventLoopThreadPool → EventLoopThreadPool
start p =
    if p.started
    then p
    else if leb p.thread_count 0
    then record p { started = true }
    else record p {
      started = true;
      threads = p.threads ++ new_threads p.made p.thread_count;
      made = p.made + p.thread_count;
    }

pub loop_of : ThreadData → ℕ
loop_of t = t.loop

unfoldable pub get_all_loops : EventLoopThreadPool → List ℕ
unfolding loop_of
get_all_loops p = map loop_of p.threads

-- Each loop is told to stop and its thread awaited.
unfoldable pub stop : EventLoopThreadPool → EventLoopThreadPool
stop p =
    if p.started
    then record p { started = false; stopped = p.stopped ++ get_all_loops p; threads = [] }
    else p

abbrev pub no_thread : ThreadData
no_thread = record { loop = 0; running = false }

unfoldable pub get_next_loop : EventLoopThreadPool → Option ℕ × EventLoopThreadPool
get_next_loop p = if length p.threads == 0 then (none, p) else (
  some (get_or p.threads (p.next_index % length p.threads) no_thread).loop,
  record p { next_index = add_size p.next_index 1 },
)

pub get_loop : ℕ → EventLoopThreadPool → Option ℕ
get_loop index p =
    if leb (length p.threads) index then none else some (get_or p.threads index no_thread).loop

unfoldable pub thread_count_now : EventLoopThreadPool → ℕ
thread_count_now p = length p.threads
