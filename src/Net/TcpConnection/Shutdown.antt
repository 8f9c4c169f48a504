-- ===== src/Net/TcpConnection/Shutdown.antt =====
-- What `shutdown` of net/TcpConnection.cpp leads to: a connection that is disconnecting never
-- becomes disconnected.
use azh_lid.Prelude.{
  ◌≡◌, inl, inr, subst, Bool, false, Option, none, some, List, [], ◌∷◌, ◌||◌, Bool-cases,
  if◌then◌else◌, ℤ, is_positive, is_negative,
}
use mathlib.Core.Option
use azh_lid.Memory.Buffer.{Buffer, buffer_length}
use azh_lid.Net.TcpConnection.{
  disconnecting, Interest, Connection, Callbacks, Io, Events, invoke, is_state_connected,
  handle_close, handle_error, after_read, handle_read, set_writing, register, finish_write,
  shut_after, shut_if_disconnecting, after_write, handle_write, handle_event, send, post,
  send_in_loop, shutdown, shutdown_in_loop, Task, sends, shuts_down, run_task, run_all,
  do_pending_functors, is_zero, Input, arrives, works, asks_send, asks_shutdown, step, run,
  is_state_disconnecting,
}
use azh_lid.Net.TcpConnection.Handlers.{run-Living}
use azh_lid.Net.TcpConnection.Life.{IsLiving, IsTame, Living?, closings, LifeAt}

-- The result of a handler that does not crash is still disconnecting.
abbrev pub Stuck? : Option Connection → Type 0
Stuck? none = Unit
Stuck? (some c) = c.state ≡ disconnecting

not_connected : (c : Connection) → c.state ≡ disconnecting → is_state_connected c.state ≡ false
unfolding is_state_connected
not_connected c s = rw s

set_writing-Stuck :
    (on : Bool) (o : Option Interest) (c : Connection)
    → c.state ≡ disconnecting
    → Stuck? (set_writing on o c)
unfolding set_writing register
set_writing-Stuck on none c s = tt
set_writing-Stuck on (some i) c s = s

shut_after-Stuck : (o : Option Connection) → Stuck? o → Stuck? (shut_after o)
unfolding shut_after shut_if_disconnecting
shut_after-Stuck none s = tt
shut_after-Stuck (some d) s = elim (Bool-cases (is_state_disconnecting d.state)) [
  | inl t ↦ rw t s
  | inr t ↦ rw t s
]

module _ (cbs : Callbacks)
    (message_stuck : (c : Connection)
      → c.state ≡ disconnecting
      → (invoke cbs.message_cb c).state ≡ disconnecting) where
  handle_close_stuck :
      (c : Connection) → c.state ≡ disconnecting → (handle_close cbs c).state ≡ disconnecting
  unfolding handle_close
  handle_close_stuck c s = rw (not_connected c s) s

  after_read_stuck :
      (c : Connection) (r : ℤ × Buffer)
      → c.state ≡ disconnecting
      → (after_read cbs c r).state ≡ disconnecting
  unfolding after_read handle_error
  after_read_stuck c (n, b) s = elim (Bool-cases (is_positive n)) [
    | inl t ↦ rw t (message_stuck _ s)
    | inr t ↦ rw t (elim (Bool-cases (is_negative n)) [
      | inl u ↦ rw u (handle_close_stuck _ s)
      | inr u ↦ rw u (handle_close_stuck _ s)
    ])
  ]

  after_write-Stuck :
      (c : Connection) (r : Option (ℤ × Buffer))
      → c.state ≡ disconnecting
      → Stuck? (after_write cbs c r)
  unfolding after_write handle_error finish_write
  after_write-Stuck c none s = tt
  after_write-Stuck c (some (n, b)) s = elim (Bool-cases (is_negative n)) [
    | inl t ↦ rw t (handle_close_stuck _ s)
    | inr t ↦ rw t (elim (Bool-cases (is_zero (buffer_length b))) [
      | inl u ↦ rw u (shut_after-Stuck _ (set_writing-Stuck false c.channel _ s))
      | inr u ↦ rw u s
    ])
  ]

  read_stage_stuck :
      (io : Io) (e : Events) (c : Connection)
      → c.state ≡ disconnecting
      → (if e.readable then handle_read cbs io c else c).state ≡ disconnecting
  unfolding handle_read
  read_stage_stuck io e c s = elim (Bool-cases e.readable) [
    | inl t ↦ rw t (after_read_stuck c _ s)
    | inr t ↦ rw t s
  ]

  handle_event-Stuck :
      (io : Io) (e : Events) (c : Connection)
      → c.state ≡ disconnecting
      → Stuck? (handle_event cbs io e c)
  unfolding handle_event handle_write handle_error
  handle_event-Stuck io e c s = elim (Bool-cases (e.err || e.hup)) [
    | inl t ↦ rw t (handle_close_stuck c s)
    | inr t ↦ rw t (elim (Bool-cases e.rdhup) [
      | inl u ↦ rw u (handle_close_stuck c s)
      | inr u ↦ rw u (elim (Bool-cases e.writable) [
        | inl w ↦ rw w (after_write-Stuck _ _ (read_stage_stuck io e c s))
        | inr w ↦ rw w (read_stage_stuck io e c s)
      ])
    ])
  ]

  run_all-Stuck :
      (io : Io) (ts : List Task) (c : Connection)
      → c.state ≡ disconnecting
      → Stuck? (run_all cbs io ts c)
  unfolding run_all run_task send_in_loop shutdown_in_loop Option.bind
  run_all-Stuck io [] c s = s
  run_all-Stuck io (sends bytes ∷ ts) c s = rw (not_connected c s) (run_all-Stuck io ts c s)
  run_all-Stuck io (shuts_down ∷ ts) c s = rw (not_connected c s) (run_all-Stuck io ts c s)

  step-Stuck : (i : Input) (c : Connection) → c.state ≡ disconnecting → Stuck? (step cbs i c)
  unfolding step do_pending_functors send post shutdown
  step-Stuck (arrives io e) c s = handle_event-Stuck io e c s
  step-Stuck (works io) c s = run_all-Stuck io c.tasks _ s
  step-Stuck (asks_send io in_loop bytes) c s = rw (not_connected c s) s
  step-Stuck (asks_shutdown in_loop) c s = rw (not_connected c s) s

  run-Stuck : (is : List Input) (c : Connection) → c.state ≡ disconnecting → Stuck? (run cbs is c)
  unfolding run Option.bind
  run-Stuck [] c s = s
  run-Stuck (i ∷ is) c s = resume (step cbs i c) (step-Stuck i c s) (run-Stuck is)
    where
      resume :
          (o : Option Connection)
          → Stuck? o
          → ((d : Connection) → d.state ≡ disconnecting → Stuck? (run cbs is d))
          → Stuck? (Option.bind o (run cbs is))
      resume none w rest = tt
      resume (some d) w rest = rest d w

  -- With tame callbacks and a message callback that leaves the state disconnecting, a living
  -- connection that is disconnecting stays so in every run that does not crash, and its descriptor
  -- is never closed.
  pub disconnecting_never_closes :
      (tame : IsTame cbs) (is : List Input) (c d : Connection)
      → IsLiving c
      → c.state ≡ disconnecting
      → run cbs is c ≡ some d
      → (d.state ≡ disconnecting) × (closings d.log ≡ 0) × (is_negative d.connfd ≡ false)
  disconnecting_never_closes tame is c d v s e =
      let stuck = subst Stuck? e (run-Stuck is c s) in
      let living = subst Living? e (run-Living cbs tame is c v) in
      let (ch, fd, unclosed) = subst (λ t. LifeAt t d.channel d.connfd d.log) stuck living in
      (stuck, unclosed.no_closing, fd)
