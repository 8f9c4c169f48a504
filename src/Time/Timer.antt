-- ===== src/Time/Timer.antt =====
-- time/Timer.hpp and time/Timer.cpp: tasks that run once, for ever, or a number of times.
-- An iteration of `timer_loop` has up to two steps, between which it does not hold the lock: `tick`
-- under it, at the time that it reads, and the post of the task that it took. The time it waits is
-- not modelled, a step may come at any time. The priority queue is a list, of which the task with
-- the earliest time is taken. A task id, an `int`, is its 32-bit pattern. Times are milliseconds.
pub mod Count
pub mod Cancel
pub mod Progress
pub mod Tests
use azh_lid.Prelude.{
  ℕ, ◌+◌, ◌-◌, ◌%◌, Bool, true, false, List, [], ◌∷◌, ◌++◌, Option, none, some, ◌&&◌, ◌||◌, not,
  ltb, ◌==◌, if◌then◌else◌, ℤ, negsuc, is_positive, pos_part, to_int, length,
}

-- `callback` stands for the closure.
pub record TimerTask : Type 0 where
  pub expire_time : ℕ
  pub callback : ℕ
  pub task_id : ℕ
  pub repeat_count : ℕ
  pub interval : ℕ
  pub is_periodic : Bool
  pub is_repeat : Bool

-- `in_hand` is the task that the loop has taken and not posted yet, `posted` are the tasks that went
-- to the thread pool, oldest first. `pool_runs` is whether the pool still takes tasks.
pub record Timer : Type 0 where
  pub task_queue : List TimerTask
  pub cancelled_tasks : List ℕ
  pub is_running : Bool
  pub should_stop : Bool
  pub next_task_id : ℕ
  pub in_hand : Option TimerTask
  pub pool_runs : Bool
  pub posted : List TimerTask

abbrev pub new_timer : Timer
new_timer = record {
  task_queue = [];
  cancelled_tasks = [];
  is_running = false;
  should_stop = false;
  next_task_id = 0;
  in_hand = none;
  pool_runs = true;
  posted = [];
}

-- `start`, where `std::thread` starts or throws.
pub start : Bool → Timer → Bool × Timer
start granted t =
    if t.is_running
    then (false, t)
    else (granted, record t { is_running = granted; should_stop = false })

-- `post_task`, whose exception of a pool that is stopped is caught.
post_task : TimerTask → Timer → Timer
post_task task t = if t.pool_runs then record t { posted = t.posted ++ task ∷ [] } else t

post_held : Option TimerTask → Timer → Timer
post_held none t = t
post_held (some task) t = post_task task (record t { in_hand = none })

-- The loop's post after it has released the lock.
pub post : Timer → Timer
unfolding post_task post_held
post t = post_held t.in_hand t

-- `stop`; the loop's thread posts what it has in hand before it is joined.
pub stop : Timer → Timer
stop t =
    if t.is_running
    then record (post t) {
      task_queue = [];
      cancelled_tasks = [];
      is_running = false;
      should_stop = true;
      pool_runs = false;
    }
    else t

pub pending_tasks : Timer → ℕ
pending_tasks t = length t.task_queue

pub contains : ℕ → List ℕ → Bool
contains id [] = false
contains id (x ∷ xs) = if x == id then true else contains id xs

-- `cancelled_tasks_.erase(task_id)`
pub erase : ℕ → List ℕ → List ℕ
erase id [] = []
erase id (x ∷ xs) = if x == id then xs else x ∷ erase id xs

pub cancel : ℕ → Timer → Bool × Timer
cancel id t =
    if contains id t.cancelled_tasks
    then (false, t)
    else (true, record t { cancelled_tasks = id ∷ t.cancelled_tasks })

-- `generate_task_id` and `add_task`, for a task that gets the new id.
pub add_new_task : TimerTask → Timer → ℤ × Timer
add_new_task task t = (
  to_int t.next_task_id,
  record t {
    task_queue = record task { task_id = t.next_task_id } ∷ t.task_queue;
    next_task_id = (t.next_task_id + 1) % 4294967296;
  },
)

pub schedule_once : ℕ → ℤ → ℕ → Timer → ℤ × Timer
schedule_once now delay_ms func t =
    if not (is_positive delay_ms) || not t.is_running
    then (negsuc 0, t)
    else add_new_task
        (record {
          expire_time = now + pos_part delay_ms;
          callback = func;
          task_id = 0;
          repeat_count = 0;
          interval = pos_part delay_ms;
          is_periodic = false;
          is_repeat = false;
        })
        t

pub schedule_periodic : ℕ → ℤ → ℕ → Timer → ℤ × Timer
schedule_periodic now interval_ms func t =
    if not (is_positive interval_ms) || not t.is_running
    then (negsuc 0, t)
    else add_new_task
        (record {
          expire_time = now + pos_part interval_ms;
          callback = func;
          task_id = 0;
          repeat_count = 0;
          interval = pos_part interval_ms;
          is_periodic = true;
          is_repeat = false;
        })
        t

pub schedule_repeat : ℕ → ℤ → ℤ → ℕ → Timer → ℤ × Timer
schedule_repeat now interval_ms count func t =
    if not (is_positive interval_ms) || not (is_positive count) || not t.is_running
    then (negsuc 0, t)
    else add_new_task
        (record {
          expire_time = now + pos_part interval_ms;
          callback = func;
          task_id = 0;
          repeat_count = pos_part count;
          interval = pos_part interval_ms;
          is_periodic = false;
          is_repeat = true;
        })
        t

-- The top of the queue whose first task is `t`, and the queue without it.
pub earliest : TimerTask → List TimerTask → TimerTask × List TimerTask
earliest t [] = (t, [])
earliest t (u ∷ q) =
    let (m, r) = earliest u q in if ltb m.expire_time t.expire_time then (m, t ∷ r) else (t, u ∷ q)

-- Whether a task has a further execution.
pub has_next : TimerTask → Bool
has_next task = task.is_periodic || (task.is_repeat && ltb 1 task.repeat_count)

pub next_task : ℕ → TimerTask → TimerTask
next_task now task = record task {
  expire_time = now + task.interval;
  repeat_count = (if task.is_repeat then task.repeat_count - 1 else task.repeat_count);
}

-- A task that is due and not cancelled goes back to the queue if it has a further execution, and is
-- to be posted.
pub execute : ℕ → TimerTask → Timer → Timer
execute now task t = record t {
  task_queue = (if has_next task then next_task now task ∷ t.task_queue else t.task_queue);
  in_hand = some task;
}

-- What becomes of a due task that has been taken out of the queue.
pub finish : ℕ → TimerTask → Timer → Timer
finish now task t =
    if contains task.task_id t.cancelled_tasks
    then record t { cancelled_tasks = erase task.task_id t.cancelled_tasks }
    else execute now task t

pub take_due : ℕ → List TimerTask → Timer → Timer
take_due now [] t = t
take_due now (x ∷ xs) t =
    let (task, rest) = earliest x xs in
    if ltb now task.expire_time then t else finish now task (record t { task_queue = rest })

-- The part of an iteration of `timer_loop` under the lock.
pub tick : ℕ → Timer → Timer
tick now t = if t.should_stop then t else take_due now t.task_queue t

held_step : Option TimerTask → ℕ → Timer → Timer
held_step none now t = tick now t
held_step (some task) now t = post t

-- The next step of the loop's thread, at the given time.
pub step : ℕ → Timer → Timer
unfolding held_step
step now t = held_step t.in_hand now t

-- Steps at the given times.
pub timer_loop : List ℕ → Timer → Timer
timer_loop [] t = t
timer_loop (now ∷ nows) t = timer_loop nows (step now t)
