-- ===== src/Net/TcpServer/Turns.antt =====
-- The loops that net/TcpServer.cpp gives to new connections.
use azh_lid.Prelude.{
  ℕ, suc, ◌%◌, add_size, ◌≡◌, refl, sym, ap, ◌∙◌, Bool, true, false, Option, none, some, List, [],
  ◌∷◌, arith, ◌==◌, if◌then◌else◌, length, get_or, replicate,
}
use azh_lid.Threads.EventLoopThreadPool.{
  ThreadData, EventLoopThreadPool, thread_count_now, get_next_loop, no_thread,
}
use azh_lid.Threads.EventLoopThreadPool.Turns.{turns, turn}
use azh_lid.Net.TcpServer.{TcpServer, get_next_loop_or_base, or_base}

-- The loops of the next `n` connections: the pool's in turn, or the base loop if it has none.
abbrev pub next_loops : ℕ → TcpServer → List ℕ
next_loops n s =
    if thread_count_now s.thread_pool == 0
    then replicate n s.base_loop
    else (turns n s.thread_pool).0

nonzero : (k : ℕ) → (suc k == 0) ≡ false
nonzero k = ground arith

-- A pool with the given threads, the first of them at least.
module _ (s : TcpServer) (t : ThreadData) (ts : List ThreadData) where
  abbrev pool : EventLoopThreadPool
  pool = record s.thread_pool { threads = t ∷ ts }

  abbrev server : TcpServer
  server = record s { thread_pool = pool }

  abbrev next : EventLoopThreadPool
  next = record pool { next_index = add_size pool.next_index 1 }

  abbrev loop : ℕ
  loop = (get_or pool.threads (pool.next_index % length pool.threads) no_thread).loop

  get_next_loop-some : get_next_loop pool ≡ (some loop, next)
  unfolding get_next_loop
  get_next_loop-some = rw (nonzero (length ts)) refl

  get_next_loop_or_base_some :
      get_next_loop_or_base server ≡ (loop, record server { thread_pool = next })
  unfolding get_next_loop_or_base or_base thread_count_now
  get_next_loop_or_base_some = rw (nonzero (length ts)) (ap (or_base server) get_next_loop-some)

  next_loops-turns :
      (n : ℕ) (p : EventLoopThreadPool)
      → p.threads ≡ t ∷ ts
      → next_loops n (record server { thread_pool = p }) ≡ (turns n p).0
  unfolding thread_count_now
  next_loops-turns n p h = rw h (rw (nonzero (length ts)) refl)

  next_loops-suc_some :
      (n : ℕ)
      → next_loops (suc n) server
        ≡ (get_next_loop_or_base server).0 ∷ next_loops n (get_next_loop_or_base server).1
  next_loops-suc_some n =
      next_loops-turns (suc n) pool refl
      ∙ ap (λ (r : List ℕ × EventLoopThreadPool). r.0) (turn n pool next loop get_next_loop-some)
      ∙ ap (λ (l : List ℕ). loop ∷ l) (sym (next_loops-turns n next refl))
      ∙ ap (λ (r : ℕ × TcpServer). r.0 ∷ next_loops n r.1) (sym get_next_loop_or_base_some)

pub next_loops-suc :
    (n : ℕ) (s : TcpServer)
    → next_loops (suc n) s ≡ (get_next_loop_or_base s).0 ∷ next_loops n (get_next_loop_or_base s).1
unfolding get_next_loop_or_base thread_count_now
next_loops-suc n s = go s.thread_pool.threads
  where
    go :
        (ts : List ThreadData)
        → let s' = record s { thread_pool = record s.thread_pool { threads = ts } } in
          next_loops (suc n) s'
          ≡ (get_next_loop_or_base s').0 ∷ next_loops n (get_next_loop_or_base s').1
    go [] = refl
    go (t ∷ ts) = next_loops-suc_some s t ts n

pub next_loops_zero : (s : TcpServer) → next_loops 0 s ≡ []
unfolding turns
next_loops_zero s = either (thread_count_now s.thread_pool == 0)
  where
    either : (b : Bool) → (if◌then◌else◌ {A = List ℕ} b [] []) ≡ []
    either true = refl
    either false = refl

-- What handing out a loop leaves alone.
pub get_next_loop_or_base-field {ℓ} :
    {B : Type ℓ} (g : TcpServer → B)
    → ((s : TcpServer) (p : EventLoopThreadPool) → g (record s { thread_pool = p }) ≡ g s)
    → (s : TcpServer) → g (get_next_loop_or_base s).1 ≡ g s
unfolding get_next_loop_or_base or_base
get_next_loop_or_base-field g same s =
    either (thread_count_now s.thread_pool == 0) (get_next_loop s.thread_pool)
  where
    either :
        (b : Bool) (r : Option ℕ × EventLoopThreadPool)
        → g (if b then (s.base_loop, s) else or_base s r).1 ≡ g s
    either true r = refl
    either false (none, p) = same s p
    either false (some l, p) = same s p
