-- ===== src/Net/EventLoop/Dispatch.antt =====
-- The turns of the loop of net/EventLoop.cpp: what holds from its start to its end.
use azh_lid.Prelude.{
  ℕ, ◌≡◌, subst, Bool, true, false, Option, none, some, List, [], ◌∷◌, ◌++◌, if◌then◌else◌, ◌&&◌,
  not, ◌||◌, ℤ, lookup, int_eq,
}
use azh_lid.Net.TcpConnection.{Interest}
use azh_lid.Net.EventLoop.{
  Kernel, Act, EventLoop, channel_at, act, act_all, reacts, run_in_loop, run_each,
  do_pending_functors, handle_event, found, dispatch, turn, turns, loop,
}
use azh_lid.Net.EventLoop.Watched.{Obeys, InStep, act-InStep}

abbrev pub AllActs : (Act → Type 0) → List Act → Type 0
AllActs q [] = Unit
AllActs q (a ∷ acts) = q a × AllActs q acts

-- A property that the acts of the callbacks and the tasks keep, and that is not about the queues.
module _ {S : Type 0} (k : Kernel S) (on_event : ℕ → ℕ → List Act × List ℕ)
    (on_task : ℕ → List Act × List ℕ) (P : EventLoop S → Type 0) (Q : Act → Type 0)
    (stable : (l : EventLoop S) (running : Bool) (pending : List ℕ) (handled : List (ℕ × ℕ))
        (ran : List ℕ)
      → P l
      → P (record l {
        running = running;
        pending_functors = pending;
        handled = handled;
        ran = ran;
      }))
    (acts : (a : Act) (l : EventLoop S) → Q a → P l → P (act k a l))
    (events_fit : (c revents : ℕ) → AllActs Q (on_event c revents).0)
    (tasks_fit : (task : ℕ) → AllActs Q (on_task task).0) where
  act_all-P : (todo : List Act) (l : EventLoop S) → AllActs Q todo → P l → P (act_all k todo l)
  unfolding act_all
  act_all-P [] l q v = v
  act_all-P (a ∷ todo) l q v = act_all-P todo (act k a l) q.1 (acts a l q.0 v)

  reacts-P :
      (r : List Act × List ℕ) (l : EventLoop S)
      → AllActs Q r.0
      → P l
      → P (reacts k on_event on_task r l)
  unfolding reacts
  reacts-P (todo, tasks) l q v = stable _ _ _ _ _ (act_all-P todo l q v)

  run_each-P : (tasks : List ℕ) (l : EventLoop S) → P l → P (run_each k on_event on_task tasks l)
  unfolding run_each run_in_loop
  run_each-P [] l v = v
  run_each-P (task ∷ tasks) l v = run_each-P tasks _ (
      reacts-P (on_task task) (record l { ran = l.ran ++ task ∷ [] }) (tasks_fit task)
        (stable l _ _ _ _ v))

  pub do_pending_functors-P : (l : EventLoop S) → P l → P (do_pending_functors k on_event on_task l)
  unfolding do_pending_functors
  do_pending_functors-P l v = run_each-P l.pending_functors _ (stable l _ _ _ _ v)

  handle_event-P :
      (c revents : ℕ) (l : EventLoop S) → P l → P (handle_event k on_event on_task c revents l)
  unfolding handle_event
  handle_event-P c revents l v =
      either
        ((not (channel_at k c l).tied || (channel_at k c l).tie_alive) && (channel_at k c l).has_cb)
    where
      heard : EventLoop S
      heard = record l { handled = l.handled ++ (c, revents) ∷ [] }

      either :
          (b : Bool) → P (if b then reacts k on_event on_task (on_event c revents) heard else l)
      either true = reacts-P (on_event c revents) heard (events_fit c revents) (stable l _ _ _ _ v)
      either false = v

  pub found-P :
      (revents : ℕ) (o : Option ℕ) (l : EventLoop S)
      → P l
      → P (found k on_event on_task revents o l)
  unfolding found
  found-P revents none l v = v
  found-P revents (some c) l v = either (channel_at k c l).alive
    where
      either : (b : Bool) → P (if b then handle_event k on_event on_task c revents l else l)
      either true = handle_event-P c revents l v
      either false = v

  -- A state that is there has the property.
  abbrev pub IfSome : Option (EventLoop S) → Type 0
  IfSome none = Unit
  IfSome (some l) = P l

  pub dispatch-P :
      (events : List (ℕ × ℕ)) (l : EventLoop S)
      → P l
      → IfSome (dispatch k on_event on_task events l)
  unfolding dispatch
  dispatch-P [] l v = v
  dispatch-P ((c, revents) ∷ events) l v =
      either _ (channel_at k c l).alive
        (dispatch-P events _ (found-P revents (lookup (channel_at k c l).fd l.channels) l v))
    where
      either : (o : Option (EventLoop S)) (b : Bool) → IfSome o → IfSome (if b then o else none)
      either o true h = h
      either o false h = tt

  pub turn-P :
      (events : List (ℕ × ℕ)) (l : EventLoop S) → P l → IfSome (turn k on_event on_task events l)
  unfolding turn
  turn-P events l v =
      go (dispatch k on_event on_task events (do_pending_functors k on_event on_task l))
        (dispatch-P events _ (do_pending_functors-P l v))
    where
      go :
          (o : Option (EventLoop S))
          → IfSome o
          → IfSome
              (elim o [ none ↦ none | some l' ↦ some (do_pending_functors k on_event on_task l') ])
      go none h = tt
      go (some l') h = do_pending_functors-P l' h

  turns-P :
      (polls : List (List (ℕ × ℕ))) (l : EventLoop S)
      → P l
      → IfSome (turns k on_event on_task polls l)
  unfolding turns
  turns-P [] l v = v
  turns-P (events ∷ polls) l v =
      either _ l.running
        (go (turn k on_event on_task events l) (turn-P events l v) (λ l' h. turns-P polls l' h))
    where
      go :
          (o : Option (EventLoop S))
          → IfSome o
          → ((l' : EventLoop S) → P l' → IfSome (turns k on_event on_task polls l'))
          → IfSome (elim o [ none ↦ none | some l' ↦ turns k on_event on_task polls l' ])
      go none h rest = tt
      go (some l') h rest = rest l' h

      either : (o : Option (EventLoop S)) (b : Bool) → IfSome o → IfSome (if b then o else some l)
      either o true h = h
      either o false h = v

  pub loop-P :
      (polls : List (List (ℕ × ℕ))) (l l' : EventLoop S)
      → loop k on_event on_task polls l ≡ some l'
      → P l
      → P l'
  unfolding loop
  loop-P polls l l' e v = subst IfSome e (turns-P polls _ (stable l _ _ _ _ v))

-- If the kernel answers epoll_ctl as its manual says, and a run of the loop over some polls, with
-- any callbacks and tasks, comes to its end without reading a channel that is gone, then the
-- kernel watches exactly the descriptors of the loop's table, and each registration has the
-- pointer of a channel of its descriptor, at the end if they did so at the start.
pub loop-InStep :
    {S : Type 0} (k : Kernel S) (watched : S → ℤ → Option (Interest × ℕ))
    → Obeys k watched
    → (on_event : ℕ → ℕ → List Act × List ℕ) (on_task : ℕ → List Act × List ℕ)
      (polls : List (List (ℕ × ℕ))) (l l' : EventLoop S)
    → loop k on_event on_task polls l ≡ some l'
    → InStep k watched l
    → InStep k watched l'
loop-InStep k watched laws on_event on_task =
    loop-P k on_event on_task (InStep k watched) (λ a. Unit) (λ l running pending handled ran v. v)
      (λ a l _ v. act-InStep k watched laws a l v) (λ c revents. any (on_event c revents).0)
      (λ task. any (on_task task).0)
  where
    any : (todo : List Act) → AllActs (λ a. Unit) todo
    any [] = tt
    any (a ∷ todo) = (tt, any todo)
