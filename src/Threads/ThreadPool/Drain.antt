-- ===== src/Threads/ThreadPool/Drain.antt =====
-- Every task that thread_pool/ThreadPool.hpp accepts is executed once by the time the threads have
-- returned, in any interleaving.
use azh_lid.Prelude.{
  ℕ, zero, suc, ◌+◌, ◌<◌, ◌≡◌, ◌⊎◌, inl, inr, refl, sym, ap, ◌∙◌, subst, Bool, true, false, Option,
  none, some, List, [], ◌∷◌, ◌++◌, arith, ◌==◌, if◌then◌else◌, Bool-cases, replicate,
}
use azh_lid.Threads.ThreadPool.{
  Worker, waiting, executing, returned, ThreadPool, add_threads, post_task, wake_with, wake,
  complete, stop,
}

pub record System : Type 0 where
  pub pool : ThreadPool
  pub workers : List Worker

-- One step: a call of `post_task` or `stop`, or a step of one thread.
pub data Step : System → System → Type 0 where
  posts :
      (task : ℕ) {p p' : ThreadPool} {ws : List Worker}
      → post_task task p ≡ some p'
      → Step (record { pool = p; workers = ws }) (record { pool = p'; workers = ws })
  wakes :
      (xs ys : List Worker) {w : Worker} {p p' : ThreadPool}
      → wake p ≡ some (w, p')
      → Step
          (record { pool = p; workers = xs ++ waiting ∷ ys })
          (record { pool = p'; workers = xs ++ w ∷ ys })
  completes :
      (xs ys : List Worker) (task : ℕ) {p : ThreadPool}
      → Step
          (record { pool = p; workers = xs ++ executing task ∷ ys })
          (record { pool = complete task p; workers = xs ++ waiting ∷ ys })
  stops :
      {p : ThreadPool} {ws : List Worker}
      → Step (record { pool = p; workers = ws }) (record { pool = stop p; workers = ws })

pub data Reach (s : System) : System → Type 0 where
  here : Reach s s
  next : {t u : System} → Reach s t → Step t u → Reach s u

-- How often a task is in a list, and how many threads execute it.
abbrev pub occurs : ℕ → List ℕ → ℕ
occurs id [] = 0
occurs id (x ∷ xs) = (if x == id then 1 else 0) + occurs id xs

abbrev pub in_hand : ℕ → Worker → ℕ
in_hand id waiting = 0
in_hand id (executing task) = if task == id then 1 else 0
in_hand id returned = 0

abbrev pub in_hands : ℕ → List Worker → ℕ
in_hands id [] = 0
in_hands id (w ∷ ws) = in_hand id w + in_hands id ws

abbrev pub idle_of : Worker → ℕ
idle_of waiting = 1
idle_of (executing task) = 0
idle_of returned = 1

abbrev pub idle : List Worker → ℕ
idle [] = 0
idle (w ∷ ws) = idle_of w + idle ws

abbrev pub gone_of : Worker → ℕ
gone_of waiting = 0
gone_of (executing task) = 0
gone_of returned = 1

-- The threads that have returned.
abbrev pub gone : List Worker → ℕ
gone [] = 0
gone (w ∷ ws) = gone_of w + gone ws

occurs-append : (id : ℕ) (xs ys : List ℕ) → occurs id (xs ++ ys) ≡ occurs id xs + occurs id ys
occurs-append id [] ys = omega arith
occurs-append id (x ∷ xs) ys = omega (arith, occurs-append id xs ys)

in_hands-append :
    (id : ℕ) (xs ys : List Worker) → in_hands id (xs ++ ys) ≡ in_hands id xs + in_hands id ys
in_hands-append id [] ys = omega arith
in_hands-append id (x ∷ xs) ys = omega (arith, in_hands-append id xs ys)

idle-append : (xs ys : List Worker) → idle (xs ++ ys) ≡ idle xs + idle ys
idle-append [] ys = omega arith
idle-append (x ∷ xs) ys = omega (arith, idle-append xs ys)

gone-append : (xs ys : List Worker) → gone (xs ++ ys) ≡ gone xs + gone ys
gone-append [] ys = omega arith
gone-append (x ∷ xs) ys = omega (arith, gone-append xs ys)

-- Each task posted is queued, in a thread's hands, or finished; the idle count is right; and a thread has
-- returned only if the pool is stopped and its queue empty.
pub record IsAccounted (s : System) : Type 0 where
  pub once :
      (id : ℕ)
      → occurs id s.pool.posted
        ≡ occurs id s.pool.tp_tasks + in_hands id s.workers + occurs id s.pool.finished
  pub idle_count : s.pool.tp_idle_count ≡ idle s.workers
  pub left : (gone s.workers ≡ 0) ⊎ ((s.pool.tp_run ≡ false) × (s.pool.tp_tasks ≡ []))

posts-IsAccounted :
    (task : ℕ) (p : ThreadPool) (ws : List Worker)
    → p.tp_run ≡ true
    → IsAccounted (record { pool = p; workers = ws })
    → IsAccounted (record {
      pool = record p { tp_tasks = p.tp_tasks ++ task ∷ []; posted = p.posted ++ task ∷ [] };
      workers = ws;
    })
posts-IsAccounted task p ws running v = record {
  once = λ id. omega (
    arith,
    v.once id,
    occurs-append id p.posted (task ∷ []),
    occurs-append id p.tp_tasks (task ∷ []),
  );
  idle_count = v.idle_count;
  left = elim v.left [ inl g ↦ inl g | inr (stopped, _) ↦ absurd (cc) ];
}

module _ (xs ys : List Worker) (p : ThreadPool) where
  -- The result of a thread's turn, if it does not wait on.
  Woken? : Option (Worker × ThreadPool) → Type 0
  Woken? none = Unit
  Woken? (some (w, p')) = IsAccounted (record { pool = p'; workers = xs ++ w ∷ ys })

  wake_with-Woken :
      (tasks : List ℕ)
      → p.tp_tasks ≡ tasks
      → IsAccounted (record { pool = p; workers = xs ++ waiting ∷ ys })
      → Woken? (wake_with p tasks)
  unfolding wake_with Woken?
  wake_with-Woken [] e v = elim (Bool-cases p.tp_run) [
    | inl running ↦ rw running tt
    | inr stopped ↦
        subst Woken? (ap (λ (b : Bool). if b then none else some (returned, p)) (sym stopped))
          (record {
            once = λ id. omega (
              arith,
              v.once id,
              in_hands-append id xs (waiting ∷ ys),
              in_hands-append id xs (returned ∷ ys),
            );
            idle_count = omega (
              arith,
              v.idle_count,
              idle-append xs (waiting ∷ ys),
              idle-append xs (returned ∷ ys),
            );
            left = inr (stopped, e);
          })
  ]
  wake_with-Woken (task ∷ rest) e v = record {
    once = λ id. omega (
      arith,
      v.once id,
      ap (occurs id) e,
      in_hands-append id xs (waiting ∷ ys),
      in_hands-append id xs (executing task ∷ ys),
    );
    idle_count =
        omega (
          arith,
          v.idle_count,
          idle-append xs (waiting ∷ ys),
          idle-append xs (executing task ∷ ys),
        );
    left = elim v.left [
      | inl none_gone ↦ inl (
          omega
            (arith, none_gone, gone-append xs (waiting ∷ ys), gone-append xs (executing task ∷ ys)))
      | inr (stopped, empty) ↦ absurd (cc (empty, e))
    ];
  }

  completes-IsAccounted :
      (task : ℕ)
      → IsAccounted (record { pool = p; workers = xs ++ executing task ∷ ys })
      → IsAccounted (record { pool = complete task p; workers = xs ++ waiting ∷ ys })
  unfolding complete
  completes-IsAccounted task v = record {
    once = λ id. omega (
      arith,
      v.once id,
      occurs-append id p.finished (task ∷ []),
      in_hands-append id xs (waiting ∷ ys),
      in_hands-append id xs (executing task ∷ ys),
    );
    idle_count =
        omega (
          arith,
          v.idle_count,
          idle-append xs (waiting ∷ ys),
          idle-append xs (executing task ∷ ys),
        );
    left = elim v.left [
      | inl none_gone ↦ inl (
          omega
            (arith, none_gone, gone-append xs (waiting ∷ ys), gone-append xs (executing task ∷ ys)))
      | inr stopped ↦ inr stopped
    ];
  }

-- The result of `post_task`, if it accepts the task.
Posted? : List Worker → Option ThreadPool → Type 0
Posted? ws none = Unit
Posted? ws (some p) = IsAccounted (record { pool = p; workers = ws })

post_task-Posted :
    (task : ℕ) (p : ThreadPool) (ws : List Worker)
    → IsAccounted (record { pool = p; workers = ws })
    → Posted? ws (post_task task p)
unfolding post_task Posted?
post_task-Posted task p ws v = elim (Bool-cases p.tp_run) [
  | inl running ↦
      subst (Posted? ws)
        (ap
          (λ (b : Bool).
            if b
            then some
                (record p { tp_tasks = p.tp_tasks ++ task ∷ []; posted = p.posted ++ task ∷ [] })
            else none)
          (sym running))
        (posts-IsAccounted task p ws running v)
  | inr stopped ↦ rw stopped tt
]

Step-IsAccounted : {s t : System} → Step s t → IsAccounted s → IsAccounted t
unfolding wake Woken? Posted? stop
Step-IsAccounted (posts task {p} {ws = ws} e) v =
    subst (Posted? ws) e (post_task-Posted task p ws v)
Step-IsAccounted (wakes xs ys {p = p} e) v =
    subst (Woken? xs ys p) e (wake_with-Woken xs ys p p.tp_tasks refl v)
Step-IsAccounted (completes xs ys task {p}) v = completes-IsAccounted xs ys p task v
Step-IsAccounted stops v = record {
  once = v.once;
  idle_count = v.idle_count;
  left = elim v.left [ inl none_gone ↦ inl none_gone | inr (stopped, empty) ↦ inr (refl, empty) ];
}

Reach-IsAccounted_tasks : {s t : System} → IsAccounted s → Reach s t → IsAccounted t
Reach-IsAccounted_tasks v here = v
Reach-IsAccounted_tasks v (next r st) = Step-IsAccounted st (Reach-IsAccounted_tasks v r)

new-IsAccounted :
    (n : ℕ) → let (p, ws) = add_threads n in IsAccounted (record { pool = p; workers = ws })
unfolding add_threads
new-IsAccounted n = record {
  once = λ id. omega (arith, (fresh_workers id n).0);
  idle_count = omega (arith, (fresh_workers 0 n).1);
  left = inl (fresh_workers 0 n).2;
}
  where
    fresh_workers :
        (id n : ℕ)
        → (in_hands id (replicate n waiting) ≡ 0)
          × (idle (replicate n waiting) ≡ n)
          × (gone (replicate n waiting) ≡ 0)
    fresh_workers id zero = (refl, refl, refl)
    fresh_workers id (suc n) = omega (arith, fresh_workers id n)

all_gone :
    (ws : List Worker) (id n : ℕ) → ws ≡ replicate n returned → (gone ws ≡ n) × (in_hands id ws ≡ 0)
all_gone ws id n e =
    (ap gone e ∙ (returned_workers n).0, ap (in_hands id) e ∙ (returned_workers n).1)
  where
    returned_workers :
        (n : ℕ) → (gone (replicate n returned) ≡ n) × (in_hands id (replicate n returned) ≡ 0)
    returned_workers zero = (refl, refl)
    returned_workers (suc n) = omega (arith, returned_workers n)

-- In any interleaving of post_task, stop and the steps of the threads, once all of at least one
-- thread have returned, the pool is stopped, its queue is empty, and every task has been executed
-- as often as it was accepted.
pub all_tasks_finish :
    (n m task : ℕ) (s : System)
    → 0 < m
    → let (p, ws) = add_threads n in
      Reach (record { pool = p; workers = ws }) s
      → s.workers ≡ replicate m returned
      → (s.pool.tp_run ≡ false)
        × (s.pool.tp_tasks ≡ [])
        × (occurs task s.pool.finished ≡ occurs task s.pool.posted)
all_tasks_finish n m task s some_threads r e =
    let v = Reach-IsAccounted_tasks (new-IsAccounted n) r in
    elim v.left [
      | inl none_gone ↦ absurd (omega (arith, none_gone, (all_gone s.workers 0 m e).0))
      | inr (stopped, empty) ↦ (
        stopped,
        empty,
        omega (arith, v.once task, (all_gone s.workers task m e).1, ap (occurs task) empty),
      )
    ]
