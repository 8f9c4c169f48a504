-- ===== src/Time/Timer/Count.antt =====
-- How often time/Timer.cpp posts a task.
use azh_lid.Prelude.{
  ℕ, ◌+◌, ◌<◌, ◌≡◌, ◌⊎◌, inl, inr, refl, ap, ◌∙◌, Bool, true, false, Option, none, some, List, [],
  ◌∷◌, ◌++◌, ltb, ◌==◌, if◌then◌else◌, Bool-cases, ==_iff, arith, subst, pos, lt→ltb,
}
use azh_lid.Time.Timer.{
  schedule_repeat, add_new_task, TimerTask, Timer, contains, erase, earliest, has_next, next_task,
  execute, finish, take_due, tick, post, post_held, post_task, held_step, step, timer_loop,
}

-- How many more times the execution of a task is owed.
abbrev pub due : TimerTask → ℕ
due task = if task.is_repeat then task.repeat_count else 1

-- The executions that the tasks of a queue with the id owe, and how many tasks have it.
abbrev pub owed : ℕ → List TimerTask → ℕ
owed id [] = 0
owed id (x ∷ q) = (if x.task_id == id then due x else 0) + owed id q

abbrev pub count : ℕ → List TimerTask → ℕ
count id [] = 0
count id (x ∷ q) = (if x.task_id == id then 1 else 0) + count id q

-- The tasks of the queue with the id are not periodic, and owe an execution.
abbrev pub IsFinite : TimerTask → Type 0
IsFinite task = (task.is_periodic ≡ false) × (0 < due task)

abbrev pub AllFinite : ℕ → List TimerTask → Type 0
AllFinite id [] = Unit
AllFinite id (x ∷ q) = (((x.task_id == id) ≡ false) ⊎ IsFinite x) × AllFinite id q

earliest-owed :
    (id : ℕ) (x : TimerTask) (q : List TimerTask)
    → let (m, r) = earliest x q in owed id (m ∷ r) ≡ owed id (x ∷ q)
unfolding earliest
earliest-owed id x [] = refl
earliest-owed id x (u ∷ q) = elim (Bool-cases (ltb (earliest u q).0.expire_time x.expire_time)) [
  | inl t ↦ rw t (omega (arith, earliest-owed id u q))
  | inr t ↦ rw t refl
]

pub earliest-count :
    (id : ℕ) (x : TimerTask) (q : List TimerTask)
    → let (m, r) = earliest x q in count id (m ∷ r) ≡ count id (x ∷ q)
unfolding earliest
earliest-count id x [] = refl
earliest-count id x (u ∷ q) = elim (Bool-cases (ltb (earliest u q).0.expire_time x.expire_time)) [
  | inl t ↦ rw t (omega (arith, earliest-count id u q))
  | inr t ↦ rw t refl
]

earliest-AllFinite :
    (id : ℕ) (x : TimerTask) (q : List TimerTask)
    → AllFinite id (x ∷ q)
    → let (m, r) = earliest x q in AllFinite id (m ∷ r)
unfolding earliest
earliest-AllFinite id x [] v = v
earliest-AllFinite id x (u ∷ q) v =
    elim (Bool-cases (ltb (earliest u q).0.expire_time x.expire_time)) [
      | inl t ↦ rw t (let (a, b) = earliest-AllFinite id u q v.1 in (a, (v.0, b)))
      | inr t ↦ rw t v
    ]

pub count-append :
    (id : ℕ) (xs ys : List TimerTask) → count id (xs ++ ys) ≡ count id xs + count id ys
count-append id [] ys = omega arith
count-append id (x ∷ xs) ys = omega (arith, count-append id xs ys)

abbrev pub held : Option TimerTask → List TimerTask
held none = []
held (some task) = task ∷ []

-- What is to stay the same: the executions of the id so far, the one in hand, and those it is owed.
abbrev pub share : ℕ → Timer → ℕ
share id t = count id t.posted + count id (held t.in_hand) + owed id t.task_queue

record IsDue (id : ℕ) (t : Timer) : Type 0 where
  takes : t.pool_runs ≡ true
  finite : AllFinite id t.task_queue
  kept : contains id t.cancelled_tasks ≡ false

execute_lem :
    (id now : ℕ) (task : TimerTask) (t : Timer)
    → ((task.task_id == id) ≡ false) ⊎ IsFinite task
    → IsDue id t
    → t.in_hand ≡ none
    → IsDue id (execute now task t)
      × (share id (execute now task t) ≡ (if task.task_id == id then due task else 0) + share id t)
unfolding execute has_next next_task
execute_lem id now task t (inl other) v free =
    (record { takes = v.takes; finite = ground arith; kept = v.kept }, ground (arith, ap held free))
execute_lem id now task t (inr (once, some_due)) v free =
    (record { takes = v.takes; finite = ground arith; kept = v.kept }, ground (arith, ap held free))

erase_misses : (id j : ℕ) (l : List ℕ) → contains id l ≡ false → contains id (erase j l) ≡ false
unfolding contains erase
erase_misses id j [] h = h
erase_misses id j (x ∷ l) h = ground (arith, erase_misses id j l)

finish_lem :
    (id now : ℕ) (task : TimerTask) (t : Timer)
    → ((task.task_id == id) ≡ false) ⊎ IsFinite task
    → IsDue id t
    → t.in_hand ≡ none
    → IsDue id (finish now task t)
      × (share id (finish now task t) ≡ (if task.task_id == id then due task else 0) + share id t)
unfolding finish
finish_lem id now task t guard v free =
    elim (Bool-cases (contains task.task_id t.cancelled_tasks)) [
      | inl e ↦ rw e (elim (Bool-cases (task.task_id == id)) [
        | inl same ↦ absurd (cc (e, v.kept, (==_iff task.task_id id).0 same))
        | inr other ↦ rw other (
          record {
            takes = v.takes;
            finite = v.finite;
            kept = erase_misses id task.task_id t.cancelled_tasks v.kept;
          },
          omega arith,
        )
      ])
      | inr e ↦ rw e (execute_lem id now task t guard v free)
    ]

take_due_lem :
    (id now : ℕ) (q : List TimerTask) (t : Timer)
    → t.task_queue ≡ q
    → IsDue id t
    → t.in_hand ≡ none
    → IsDue id (take_due now q t) × (share id (take_due now q t) ≡ share id t)
unfolding take_due
take_due_lem id now [] t e v free = (v, refl)
take_due_lem id now (x ∷ xs) t e v free =
    let (guard, rest) = earliest-AllFinite id x xs (subst (AllFinite id) e v.finite) in
    let task = (earliest x xs).0 in
    let t' = record t { task_queue = (earliest x xs).1 } in
    elim (Bool-cases (ltb now task.expire_time)) [
      | inl early ↦ rw early (v, refl)
      | inr late ↦ rw late (
          let (v', same) =
            finish_lem id now task t' guard
              (record { takes = v.takes; finite = rest; kept = v.kept }) free in
          (v', omega (arith, same, earliest-owed id x xs, ap (owed id) e)))
    ]

tick_lem :
    (id now : ℕ) (t : Timer)
    → IsDue id t
    → t.in_hand ≡ none
    → IsDue id (tick now t) × (share id (tick now t) ≡ share id t)
unfolding tick
tick_lem id now t v free = by_flag t.should_stop
  where
    by_flag :
        (b : Bool)
        → let t' = (if b then t else take_due now t.task_queue t) in
          IsDue id t' × (share id t' ≡ share id t)
    by_flag true = (v, refl)
    by_flag false = take_due_lem id now t.task_queue t refl v free

post_held_lem :
    (id : ℕ) (o : Option TimerTask) (t : Timer)
    → t.in_hand ≡ o
    → IsDue id t
    → IsDue id (post_held o t) × (share id (post_held o t) ≡ share id t)
unfolding post_held post_task
post_held_lem id none t e v = (v, refl)
post_held_lem id (some task) t e v = by_pool t.pool_runs v.takes
  where
    by_pool :
        (b : Bool)
        → b ≡ true
        → let free = record t { in_hand = none } in
          let t' = if b then record free { posted = t.posted ++ task ∷ [] } else free in
          IsDue id t' × (share id t' ≡ share id t)
    by_pool true h = (
      record { takes = v.takes; finite = v.finite; kept = v.kept },
      omega (arith, count-append id t.posted (task ∷ []), ap (λ o. count id (held o)) e),
    )
    by_pool false h = absurd (ground (arith, h))

step_lem :
    (id now : ℕ) (t : Timer)
    → IsDue id t
    → IsDue id (step now t) × (share id (step now t) ≡ share id t)
unfolding step held_step post
step_lem id now t v = go t.in_hand refl
  where
    go :
        (o : Option TimerTask)
        → t.in_hand ≡ o
        → IsDue id (held_step o now t) × (share id (held_step o now t) ≡ share id t)
    go none free = tick_lem id now t v free
    go (some task) taken = post_held_lem id t.in_hand t refl v

loop_share :
    (id : ℕ) (nows : List ℕ) (t : Timer) → IsDue id t → share id (timer_loop nows t) ≡ share id t
unfolding timer_loop
loop_share id [] t v = refl
loop_share id (now ∷ nows) t v =
    let (v', same) = step_lem id now t v in loop_share id nows (step now t) v' ∙ same

no_tasks : (id : ℕ) (q : List TimerTask) → count id q ≡ 0 → AllFinite id q × (owed id q ≡ 0)
no_tasks id [] h = (tt, refl)
no_tasks id (x ∷ q) h = ground (arith, no_tasks id q)

-- A task that schedule_repeat takes on a running timer whose thread pool has not been stopped, with
-- a positive interval and a positive count, under an id that is not used and not cancelled: after any
-- steps of the loop, the executions that have been posted, the one that the loop has taken and not
-- posted yet, and those still owed are its count together.
pub schedule_repeat_lem :
    (now interval n func : ℕ) (nows : List ℕ) (t : Timer)
    → 0 < interval
    → 0 < n
    → t.is_running ≡ true
    → t.pool_runs ≡ true
    → count t.next_task_id t.task_queue
        + (count t.next_task_id t.posted + count t.next_task_id (held t.in_hand))
      ≡ 0
    → contains t.next_task_id t.cancelled_tasks ≡ false
    → let t' = timer_loop nows (schedule_repeat now (pos interval) (pos n) func t).1 in
      count t.next_task_id t'.posted
        + count t.next_task_id (held t'.in_hand)
        + owed t.next_task_id t'.task_queue
      ≡ n
unfolding schedule_repeat add_new_task
schedule_repeat_lem now interval n func nows t interval_pos n_pos running takes none_yet kept =
    let (finite, nothing) = no_tasks t.next_task_id t.task_queue (omega arith) in
    rw (lt→ltb 0 interval interval_pos, lt→ltb 0 n n_pos, running)
      (loop_share t.next_task_id nows _
          (record { takes = takes; finite = (inr (refl, n_pos), finite); kept = kept })
        ∙ ground arith)
