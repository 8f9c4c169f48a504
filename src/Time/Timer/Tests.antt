-- ===== src/Time/Timer/Tests.antt =====
-- The timer of time/Timer.cpp on concrete tasks.
use azh_lid.Prelude.{◌+◌, ◌≤◌, some, ◌≡◌, refl, true, false, [], ◌∷◌, arith, pos, negsuc}
use azh_lid.Time.Timer.{
  TimerTask, Timer, new_timer, cancel, contains, schedule_once, schedule_repeat, add_new_task, stop,
  start, timer_loop, step, held_step, tick, post, post_held, post_task, take_due, earliest, finish,
  execute, has_next, next_task,
}
use azh_lid.Time.Timer.Count.{count, held, owed, schedule_repeat_lem}
use azh_lid.Time.Timer.Cancel.{cancel_stops}
use azh_lid.Time.Timer.Progress.{loop_posts, twice}

abbrev running : Timer
running = record new_timer { is_running = true }

-- Three executions, 10 ms apart, and first due at 10.
abbrev repeated : TimerTask
repeated = record {
  expire_time = 10;
  callback = 4;
  task_id = 0;
  repeat_count = 3;
  interval = 10;
  is_periodic = false;
  is_repeat = true;
}

abbrev loaded : Timer
loaded = record running { task_queue = repeated ∷ []; next_task_id = 1 }

scheduled : schedule_repeat 0 (pos 10) (pos 3) 4 running ≡ (pos 0, loaded)
unfolding schedule_repeat add_new_task
scheduled = refl

refused : schedule_once 0 (negsuc 4) 4 running ≡ (negsuc 0, running)
unfolding schedule_once
refused = refl

-- An early iteration posts nothing; the third due one empties the queue.
three_posts : count 0 (timer_loop (5 ∷ twice (10 ∷ 20 ∷ 30 ∷ 40 ∷ [])) loaded).posted ≡ 3
unfolding timer_loop step held_step tick take_due earliest finish contains execute has_next
    next_task post post_held post_task
three_posts = refl

-- The thread pool of a timer that is started again after stop takes no task.
nothing_posted :
    (timer_loop
      (twice (10 ∷ []))
      (schedule_repeat 0 (pos 10) (pos 3) 4 (start true (stop running)).1).1).posted
    ≡ []
unfolding start stop schedule_repeat add_new_task timer_loop step held_step tick take_due earliest
    finish contains execute has_next next_task post post_held post_task
nothing_posted = refl

schedule_repeat_example :
    let t' = timer_loop (5 ∷ 10 ∷ 10 ∷ 20 ∷ []) (schedule_repeat 0 (pos 10) (pos 3) 4 running).1 in
    count 0 t'.posted + count 0 (held t'.in_hand) + owed 0 t'.task_queue ≡ 3
unfolding contains
schedule_repeat_example =
    schedule_repeat_lem 0 10 3 4 (5 ∷ 10 ∷ 10 ∷ 20 ∷ []) running (omega arith) (omega arith) refl
      refl refl refl

-- The loop has taken the first execution when the task is cancelled.
abbrev taken : Timer
taken = record loaded {
  task_queue = record repeated { expire_time = 20; repeat_count = 2 } ∷ [];
  in_hand = some repeated;
}

cancel_stops_example : count 0 (timer_loop (10 ∷ 20 ∷ 20 ∷ []) (cancel 0 taken).1).posted ≤ 0 + 1
cancel_stops_example = cancel_stops 0 (10 ∷ 20 ∷ 20 ∷ []) taken (omega arith)

loop_posts_example : count 0 (timer_loop (twice (10 ∷ 21 ∷ 35 ∷ [])) loaded).posted ≡ 3
unfolding contains
loop_posts_example =
    loop_posts (10 ∷ 21 ∷ 35 ∷ []) repeated loaded refl refl refl refl refl refl (omega arith)
      (omega arith, (omega arith, (omega arith, tt)))
