-- ===== src/Threads/ThreadPool.antt =====
-- thread_pool/ThreadPool.hpp: a queue of tasks and the threads that execute them.
-- Each block under the lock, and each execution of a task, is one function. A task is a number. How
-- the steps of the threads interleave is a step relation, see Drain.
pub mod Drain
pub mod Tests
use azh_lid.Prelude.{
  ℕ, ◌+◌, ◌-◌, Bool, true, false, Option, none, some, List, [], ◌∷◌, ◌++◌, if◌then◌else◌, replicate,
}

-- Where a thread is: before the wait of its loop, in a task, or past the loop.
pub data Worker : Type 0 where
  waiting : Worker
  executing : ℕ → Worker
  returned : Worker

-- `posted` and `finished` are the tasks that were accepted and executed, oldest first.
pub record ThreadPool : Type 0 where
  pub tp_tasks : List ℕ
  pub tp_run : Bool
  pub tp_idle_count : ℕ
  pub posted : List ℕ
  pub finished : List ℕ

-- The pool of a constructor that adds `n` threads, at most the limit, and its threads.
pub add_threads : ℕ → ThreadPool × List Worker
add_threads n = (
  record { tp_tasks = []; tp_run = true; tp_idle_count = n; posted = []; finished = [] },
  replicate n waiting,
)

-- `post_task`; `none` is the exception of a pool that has been stopped.
pub post_task : ℕ → ThreadPool → Option ThreadPool
post_task task p =
    if p.tp_run
    then some (record p { tp_tasks = p.tp_tasks ++ task ∷ []; posted = p.posted ++ task ∷ [] })
    else none

wake_with : ThreadPool → List ℕ → Option (Worker × ThreadPool)
wake_with p [] = if p.tp_run then none else some (returned, p)
wake_with p (task ∷ rest) =
    some (executing task, record p { tp_tasks = rest; tp_idle_count = p.tp_idle_count - 1 })

-- The block of `thread_worker` under the lock: what becomes of the thread. `none`: it waits on.
pub wake : ThreadPool → Option (Worker × ThreadPool)
unfolding wake_with
wake p = wake_with p p.tp_tasks

-- The end of the execution of a task.
pub complete : ℕ → ThreadPool → ThreadPool
complete task p = record p {
  finished = p.finished ++ task ∷ [];
  tp_idle_count = p.tp_idle_count + 1;
}

-- `stop`, up to the joins. A pool that has been stopped stays as it is.
pub stop : ThreadPool → ThreadPool
stop p = record p { tp_run = false }
