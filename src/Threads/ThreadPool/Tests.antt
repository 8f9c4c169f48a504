-- ===== src/Threads/ThreadPool/Tests.antt =====
-- A pool of thread_pool/ThreadPool.hpp with one thread and one task, stopped while it executes it.
use azh_lid.Prelude.{◌≡◌, refl, true, false, none, [], ◌∷◌, arith}
use azh_lid.Threads.ThreadPool.{
  returned, ThreadPool, add_threads, post_task, wake, wake_with, complete, stop,
}
use azh_lid.Threads.ThreadPool.Drain.{
  System, posts, wakes, completes, stops, Reach, here, next, occurs, all_tasks_finish,
}

-- Before the post, while the task is queued, while it is executed, and after it.
abbrev at_start : ThreadPool
at_start = record { tp_tasks = []; tp_run = true; tp_idle_count = 1; posted = []; finished = [] }

abbrev queued : ThreadPool
queued = record at_start { tp_tasks = 5 ∷ []; posted = 5 ∷ [] }

abbrev busy : ThreadPool
busy = record at_start { tp_idle_count = 0; posted = 5 ∷ [] }

abbrev closed : ThreadPool
closed = record at_start { tp_run = false; posted = 5 ∷ []; finished = 5 ∷ [] }

abbrev at_end : System
at_end = record { pool = closed; workers = returned ∷ [] }

one_run : let (p, ws) = add_threads 1 in Reach (record { pool = p; workers = ws }) at_end
unfolding add_threads post_task wake wake_with stop complete
one_run =
    next
      (next
        (next
          (next (next here (posts 5 {p = at_start} {p' = queued} refl))
            (wakes [] [] {p = queued} {p' = busy} refl))
          (stops {p = busy}))
        (completes [] [] 5))
      (wakes [] [] {p = closed} {p' = closed} refl)

refuses_after_stop : post_task 6 closed ≡ none
unfolding post_task
refuses_after_stop = refl

all_tasks_finish_example :
    (at_end.pool.tp_run ≡ false)
    × (at_end.pool.tp_tasks ≡ [])
    × (occurs 5 at_end.pool.finished ≡ occurs 5 at_end.pool.posted)
all_tasks_finish_example = all_tasks_finish 1 1 5 at_end (omega arith) one_run refl
