-- ===== src/Time/Timer/Progress.antt =====
-- When the loop of time/Timer.cpp posts a repeated task.
use azh_lid.Prelude.{
  ℕ, ◌+◌, ◌≤◌, ◌≡◌, refl, ap, ◌∙◌, Bool, true, false, Option, none, List, [], ◌∷◌, ◌++◌, ltb,
  if◌then◌else◌, length, arith,
}
use azh_lid.Time.Timer.{
  TimerTask, Timer, contains, erase, earliest, has_next, next_task, execute, finish, take_due, tick,
  post, post_held, post_task, held_step, step, timer_loop,
}
use azh_lid.Time.Timer.Count.{count, count-append}

-- Times of which the first is not before `expire`, and each other not before the one before it and
-- `interval` more.
abbrev pub OnTime : ℕ → ℕ → List ℕ → Type 0
OnTime expire interval [] = Unit
OnTime expire interval (now ∷ nows) = (expire ≤ now) × OnTime (now + interval) interval nows

-- Each time for both steps of an iteration.
abbrev pub twice : List ℕ → List ℕ
twice [] = []
twice (now ∷ nows) = now ∷ now ∷ twice nows

-- An iteration at a time at which the only task of the queue is due.
iteration_due :
    (now : ℕ) (task : TimerTask) (t : Timer)
    → t.should_stop ≡ false
    → t.in_hand ≡ none
    → t.pool_runs ≡ true
    → t.task_queue ≡ task ∷ []
    → contains task.task_id t.cancelled_tasks ≡ false
    → task.expire_time ≤ now
    → step now (step now t) ≡ record (execute now task (record t { task_queue = [] })) {
      in_hand = none;
      posted = t.posted ++ task ∷ [];
    }
unfolding step held_step tick take_due earliest finish execute post post_held post_task
iteration_due now task t going free takes alone kept late =
    ap (λ (u : Timer). step now u)
      (ap (λ (o : Option TimerTask). held_step o now t) free
        ∙ ap (λ (b : Bool). if b then t else take_due now t.task_queue t) going
        ∙ ap (λ (q : List TimerTask). take_due now q t) alone
        ∙ ap (λ (b : Bool). if b then t else finish now task (record t { task_queue = [] }))
            {x = ltb now task.expire_time} {y = false} (ground arith)
        ∙ ap
            (λ (b : Bool).
              if b
              then record t {
                task_queue = [];
                cancelled_tasks = erase task.task_id t.cancelled_tasks;
              }
              else execute now task (record t { task_queue = [] }))
            kept)
    ∙ ap
        (λ (b : Bool).
          if b
          then record (execute now task (record t { task_queue = [] })) {
            in_hand = none;
            posted = t.posted ++ task ∷ [];
          }
          else record (execute now task (record t { task_queue = [] })) { in_hand = none })
        takes

-- A repeated task that is alone in the queue of a timer that is not stopping, whose thread pool has
-- not been stopped and whose loop has no task in hand, and that is not cancelled, is posted once in
-- each iteration of the loop, if at each it is due and they are no more than its remaining count.
pub loop_posts :
    (nows : List ℕ) (task : TimerTask) (t : Timer)
    → t.should_stop ≡ false
    → t.in_hand ≡ none
    → t.pool_runs ≡ true
    → t.task_queue ≡ task ∷ []
    → contains task.task_id t.cancelled_tasks ≡ false
    → task.is_repeat ≡ true
    → length nows ≤ task.repeat_count
    → OnTime task.expire_time task.interval nows
    → count task.task_id (timer_loop (twice nows) t).posted
      ≡ count task.task_id t.posted + length nows
unfolding timer_loop execute has_next next_task
loop_posts [] task t going free takes alone kept repeats enough late = omega arith
loop_posts (now ∷ []) task t going free takes alone kept repeats enough late =
    ap (λ (u : Timer). count task.task_id u.posted)
      (iteration_due now task t going free takes alone kept late.0)
    ∙ posted_once
  where
    posted_once : count task.task_id (t.posted ++ task ∷ []) ≡ count task.task_id t.posted + 1
    posted_once = ground (arith, count-append task.task_id t.posted (task ∷ []))
loop_posts (now ∷ now' ∷ nows) task t going free takes alone kept repeats enough late =
    ap (λ (u : Timer). count task.task_id (timer_loop (twice (now' ∷ nows)) u).posted)
      (iteration_due now task t going free takes alone kept late.0)
    ∙ loop_posts (now' ∷ nows) (next_task now task) after going refl takes again kept repeats left
        late.1
    ∙ posted_once
  where
    after : Timer
    after = record (execute now task (record t { task_queue = [] })) {
      in_hand = none;
      posted = t.posted ++ task ∷ [];
    }

    again : after.task_queue ≡ next_task now task ∷ []
    again = ground arith

    left : length (now' ∷ nows) ≤ (next_task now task).repeat_count
    left = ground arith

    posted_once :
        count task.task_id (t.posted ++ task ∷ []) + length (now' ∷ nows)
        ≡ count task.task_id t.posted + length (now ∷ now' ∷ nows)
    posted_once = ground (arith, count-append task.task_id t.posted (task ∷ []))
