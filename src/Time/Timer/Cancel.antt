-- ===== src/Time/Timer/Cancel.antt =====
-- What time/Timer.cpp posts of a task that is cancelled.
use azh_lid.Prelude.{
  ℕ, ◌+◌, ◌≤◌, ◌≡◌, ◌⊎◌, inl, inr, refl, sym, ap, ◌∙◌, Bool, true, false, Option, none, some, ◌++◌,
  List, [], ◌∷◌, ltb, ◌==◌, if◌then◌else◌, Bool-cases, ==_iff, arith, subst,
}
use azh_lid.Time.Timer.{
  TimerTask, Timer, contains, erase, cancel, earliest, next_task, execute, finish, take_due, tick,
  post, post_held, post_task, held_step, step, timer_loop,
}
use azh_lid.Time.Timer.Count.{held, count, count-append, earliest-count}

erase_keeps :
    (id j : ℕ) (l : List ℕ)
    → (j == id) ≡ false
    → contains id l ≡ true
    → contains id (erase j l) ≡ true
unfolding contains erase
erase_keeps id j [] ne h = h
erase_keeps id j (x ∷ l) ne h = ground (arith, erase_keeps id j l)

-- Nothing more will be posted under the id: no task has it, or one has and it is cancelled.
IsStopped : ℕ → Timer → Type 0
IsStopped id t =
    (count id t.task_queue ≡ 0)
    ⊎ ((count id t.task_queue ≤ 1) × (contains id t.cancelled_tasks ≡ true))

-- The executions of the id so far, and the one in hand.
abbrev reached : ℕ → Timer → ℕ
reached id t = count id t.posted + count id (held t.in_hand)

-- Nothing more is taken under the id, and at most what is in hand is posted.
abbrev Stays : ℕ → Timer → Timer → Type 0
Stays id t t' = IsStopped id t' × (reached id t' ≤ reached id t)

module _ (id now : ℕ) where
  execute-IsStopped :
      (task : TimerTask) (t : Timer)
      → (task.task_id == id) ≡ false
      → IsStopped id t
      → Stays id t (execute now task t)
  unfolding execute next_task IsStopped
  execute-IsStopped task t other v = (ground arith, ground arith)

  -- A task that is taken out of a queue in which the id is stopped.
  finish-IsStopped :
      (task : TimerTask) (t : Timer)
      → ((if task.task_id == id then 1 else 0) + count id t.task_queue ≡ 0)
        ⊎ (((if task.task_id == id then 1 else 0) + count id t.task_queue ≤ 1)
            × (contains id t.cancelled_tasks ≡ true))
      → Stays id t (finish now task t)
  unfolding finish IsStopped
  finish-IsStopped task t v = elim (Bool-cases (task.task_id == id)) [
    | inl same ↦ elim v [
      | inl zero_held ↦ absurd (ground arith)
      | inr (one, off) ↦
          rw
            (subst (λ k. contains k t.cancelled_tasks ≡ true)
              (sym ((==_iff task.task_id id).0 same)) off)
            (inl (ground arith), omega arith)
    ]
    | inr other ↦ elim (Bool-cases (contains task.task_id t.cancelled_tasks)) [
      | inl e ↦
          rw e (ground (arith, erase_keeps id task.task_id t.cancelled_tasks other), omega arith)
      | inr e ↦ rw e (execute-IsStopped task t other (ground arith))
    ]
  ]

  take_due-IsStopped :
      (q : List TimerTask) (t : Timer)
      → t.task_queue ≡ q
      → IsStopped id t
      → Stays id t (take_due now q t)
  unfolding take_due IsStopped
  take_due-IsStopped [] t e v = (v, omega arith)
  take_due-IsStopped (x ∷ xs) t e v =
      let task = (earliest x xs).0 in
      let t' = record t { task_queue = (earliest x xs).1 } in
      let moved : count id t.task_queue
          ≡ (if task.task_id == id then 1 else 0) + count id t'.task_queue =
        ap (count id) e ∙ sym (earliest-count id x xs) in
      elim (Bool-cases (ltb now task.expire_time)) [
        | inl early ↦ rw early (v, omega arith)
        | inr late ↦ rw late (
            finish-IsStopped task t' (elim v [
              | inl zero_held ↦ inl (sym moved ∙ zero_held)
              | inr (one, off) ↦ inr (omega (arith, moved), off)
            ]))
      ]

  tick-IsStopped : (t : Timer) → IsStopped id t → Stays id t (tick now t)
  unfolding tick
  tick-IsStopped t v = by_flag t.should_stop
    where
      by_flag : (b : Bool) → Stays id t (if b then t else take_due now t.task_queue t)
      by_flag true = (v, omega arith)
      by_flag false = take_due-IsStopped t.task_queue t refl v

  post_held-IsStopped :
      (o : Option TimerTask) (t : Timer)
      → t.in_hand ≡ o
      → IsStopped id t
      → Stays id t (post_held o t)
  unfolding post_held post_task IsStopped
  post_held-IsStopped none t e v = (v, omega arith)
  post_held-IsStopped (some task) t e v = by_pool t.pool_runs
    where
      free : Timer
      free = record t { in_hand = none }

      by_pool :
          (b : Bool)
          → Stays id t (if b then record free { posted = t.posted ++ task ∷ [] } else free)
      by_pool true =
          (v, omega (arith, count-append id t.posted (task ∷ []), ap (λ o. count id (held o)) e))
      by_pool false = (v, omega arith)

  step-IsStopped : (t : Timer) → IsStopped id t → Stays id t (step now t)
  unfolding step held_step post
  step-IsStopped t v = by_hand t.in_hand
    where
      by_hand : (o : Option TimerTask) → Stays id t (held_step o now t)
      by_hand none = tick-IsStopped t v
      by_hand (some task) = post_held-IsStopped t.in_hand t refl v

loop_stopped :
    (id : ℕ) (nows : List ℕ) (t : Timer)
    → IsStopped id t
    → reached id (timer_loop nows t) ≤ reached id t
unfolding timer_loop
loop_stopped id [] t v = omega arith
loop_stopped id (now ∷ nows) t v =
    let (v', less) = step-IsStopped id now t v in
    omega (arith, less, loop_stopped id nows (step now t) v')

-- After cancel of a task that is the only one of its id in the queue, whatever steps the loop takes:
-- of the id's executions nothing is posted but one that the loop had taken and not posted yet.
pub cancel_stops :
    (id : ℕ) (nows : List ℕ) (t : Timer)
    → count id t.task_queue ≤ 1
    → count id (timer_loop nows (cancel id t).1).posted
      ≤ count id t.posted + count id (held t.in_hand)
unfolding cancel contains IsStopped
cancel_stops id nows t once = elim (Bool-cases (contains id t.cancelled_tasks)) [
  | inl e ↦ rw e (omega (arith, loop_stopped id nows t (inr (once, e))))
  | inr e ↦ rw e (
      omega (
        arith,
        loop_stopped id nows (record t { cancelled_tasks = id ∷ t.cancelled_tasks })
            (inr (once, found)),
      ))
]
  where
    found : contains id (id ∷ t.cancelled_tasks) ≡ true
    found = rw ((==_iff id id).1 refl) refl
