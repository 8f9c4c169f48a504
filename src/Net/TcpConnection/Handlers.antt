-- ===== src/Net/TcpConnection/Handlers.antt =====
-- Every handler and call of net/TcpConnection.cpp keeps a connection living.
use azh_lid.Prelude.{
  ℕ, ◌≡◌, inl, inr, refl, ap, ◌∙◌, subst, true, false, Option, none, some, List, [], ◌∷◌, ◌++◌,
  ◌||◌, arith, Bool-cases, if◌then◌else◌, ℤ, is_positive, is_negative, ltb, length,
}
use mathlib.Core.Option
use azh_lid.Memory.Buffer.{
  Buffer, WriteAnswer, wrote, would_block, failed, interrupted, buffer_length,
}
use azh_lid.Net.TcpConnection.{
  State, connecting, connected, disconnecting, disconnected, Interest, registers, connects,
  delivers, shuts_write, Task, sends, shuts_down, Connection, Callbacks, Io, Events, register,
  is_state_connected, connect_established, handle_close, handle_error, after_read, handle_read,
  after_write, handle_write, handle_event, buffer_rest, after_direct, send_in_loop, send, post,
  shutdown_in_loop, shutdown, run_task, run_all, do_pending_functors, is_zero, Input, arrives,
  works, asks_send, asks_shutdown, step, run,
}
use azh_lid.Memory.Pool.{Pool}
use azh_lid.Prelude.{pos, ◌⊎◌, inl, inr, ◌≡◌, refl, ap}
use azh_lid.Net.TcpConnection.{new_connection}
use azh_lid.Net.TcpConnection.Life.{
  notices-append, closings-append, LifeAt, IsLiving, IsTame, Living?, notices, closings,
  note-LifeAt, connected_of, set_writing-Living, dropped, closed, finish_write-Living,
}

module _ (cbs : Callbacks) (tame : IsTame cbs) where
  handle_close-IsLiving : (c : Connection) → IsLiving c → IsLiving (handle_close cbs c)
  unfolding handle_close
  handle_close-IsLiving c v = elim (Bool-cases (is_state_connected c.state)) [
    | inr t ↦ rw t v
    | inl t ↦ rw t (
        let (open_channel, fd, unclosed) =
          subst (λ s. LifeAt s c.channel c.connfd c.log) (connected_of c.state t) v in
        let (s, ch, n, m) = dropped c c.channel open_channel unclosed in
        let (s', ch', fd', l') = tame.close_tame _ s in
        closed _ (s' ∙ s) (ch' ∙ ch) (ap notices l' ∙ n) (ap closings l' ∙ m))
  ]

  after_read-IsLiving :
      (c : Connection) (r : ℤ × Buffer) → IsLiving c → IsLiving (after_read cbs c r)
  unfolding after_read handle_error
  after_read-IsLiving c (n, b) v = elim (Bool-cases (is_positive n)) [
    | inl t ↦
        rw t (
          tame.message_tame _
            (note-LifeAt c.state c.channel c.connfd c.log delivers (refl, refl) v))
    | inr t ↦ rw t (elim (Bool-cases (is_negative n)) [
      | inl u ↦ rw u (handle_close-IsLiving _ v)
      | inr u ↦ rw u (handle_close-IsLiving _ v)
    ])
  ]

  after_write-Living :
      (c : Connection) (r : Option (ℤ × Buffer)) → IsLiving c → Living? (after_write cbs c r)
  unfolding after_write handle_error
  after_write-Living c none v = tt
  after_write-Living c (some (n, b)) v = elim (Bool-cases (is_negative n)) [
    | inl t ↦ rw t (handle_close-IsLiving _ v)
    | inr t ↦ rw t (elim (Bool-cases (is_zero (buffer_length b))) [
      | inl u ↦ rw u (finish_write-Living _ v)
      | inr u ↦ rw u v
    ])
  ]

  read_stage :
      (io : Io) (e : Events) (c : Connection)
      → IsLiving c
      → IsLiving (if e.readable then handle_read cbs io c else c)
  unfolding handle_read
  read_stage io e c v = elim (Bool-cases e.readable) [
    | inl t ↦ rw t (after_read-IsLiving c _ v)
    | inr t ↦ rw t v
  ]

  -- A ready event of any kind, whatever the kernel answers, leaves a living connection living, or
  -- crashes.
  handle_event-Living :
      (io : Io) (e : Events) (c : Connection) → IsLiving c → Living? (handle_event cbs io e c)
  unfolding handle_event handle_write handle_error
  handle_event-Living io e c v = elim (Bool-cases (e.err || e.hup)) [
    | inl t ↦ rw t (handle_close-IsLiving c v)
    | inr t ↦ rw t (elim (Bool-cases e.rdhup) [
      | inl u ↦ rw u (handle_close-IsLiving c v)
      | inr u ↦ rw u (elim (Bool-cases e.writable) [
        | inl w ↦ rw w (after_write-Living _ _ (read_stage io e c v))
        | inr w ↦ rw w (read_stage io e c v)
      ])
    ])
  ]

  -- A connection becomes connected at most once: it is set up in the state connecting.
  connect_established-IsLiving :
      (c : Connection) → c.state ≡ connecting → IsLiving c → IsLiving (connect_established cbs c)
  unfolding connect_established register
  connect_established-IsLiving c s v =
      let (ch, fd, u) = subst (λ t. LifeAt t c.channel c.connfd c.log) s v in
      let i : Interest = record { reading = true; writing = false } in
      tame.connected_tame _ (
        λ h. cc,
        fd,
        omega (
          arith,
          u.no_notice,
          u.no_closing,
          notices-append (c.log ++ registers i ∷ []) (connects ∷ []),
          notices-append c.log (registers i ∷ []),
          closings-append (c.log ++ registers i ∷ []) (connects ∷ []),
          closings-append c.log (registers i ∷ []),
        ),
      )

  buffer_rest-Living :
      (io : Io) (n : ℕ) (bytes : List ℕ) (c : Connection)
      → IsLiving c
      → Living? (buffer_rest cbs io n bytes c)
  unfolding buffer_rest
  buffer_rest-Living io n bytes c v = elim (Bool-cases (ltb n (length bytes))) [
    | inl t ↦ rw t (set_writing-Living true _ c.channel refl v)
    | inr t ↦ rw t v
  ]

  after_direct-Living :
      (io : Io) (bytes : List ℕ) (c : Connection) (a : WriteAnswer)
      → IsLiving c
      → Living? (after_direct cbs io bytes c a)
  unfolding after_direct handle_error
  after_direct-Living io bytes c (wrote n) v = buffer_rest-Living io n bytes c v
  after_direct-Living io bytes c would_block v = buffer_rest-Living io 0 bytes c v
  after_direct-Living io bytes c failed v = handle_close-IsLiving c v
  after_direct-Living io bytes c (interrupted a) v = handle_close-IsLiving c v

  send_in_loop-Living :
      (io : Io) (bytes : List ℕ) (c : Connection)
      → IsLiving c
      → Living? (send_in_loop cbs io bytes c)
  unfolding send_in_loop
  send_in_loop-Living io bytes c v = elim (Bool-cases (is_state_connected c.state)) [
    | inr t ↦ rw t v
    | inl t ↦
        rw t
          (elim (Bool-cases
            (is_zero (buffer_length (record { pool = c.pool; data_buf = c.output })))) [
              | inl u ↦ rw u (after_direct-Living io bytes c (io.direct bytes) v)
              | inr u ↦ rw u (buffer_rest-Living io 0 bytes c v)
            ])
  ]

  shutdown_in_loop-IsLiving : (c : Connection) → IsLiving c → IsLiving (shutdown_in_loop cbs c)
  unfolding shutdown_in_loop
  shutdown_in_loop-IsLiving c v = elim (Bool-cases (is_state_connected c.state)) [
    | inr t ↦ rw t v
    | inl t ↦ rw t (
        let w = subst (λ s. LifeAt s c.channel c.connfd c.log) (connected_of c.state t) v in
        elim (Bool-cases
          (is_zero (buffer_length (record { pool = c.pool; data_buf = c.output })))) [
            | inl u ↦ rw u (
                note-LifeAt disconnecting c.channel c.connfd c.log (shuts_write c.connfd)
                  (refl, refl) w)
            | inr u ↦ rw u w
          ])
  ]

  run_all-Living :
      (io : Io) (ts : List Task) (c : Connection) → IsLiving c → Living? (run_all cbs io ts c)
  unfolding run_all Option.bind
  run_all-Living io [] c v = v
  run_all-Living io (t ∷ ts) c v = resume (run_task cbs io t c) (one t) (run_all-Living io ts)
    where
      one : (s : Task) → Living? (run_task cbs io s c)
      one (sends bytes) = unfold run_task in send_in_loop-Living io bytes c v
      one shuts_down = unfold run_task in shutdown_in_loop-IsLiving c v

      resume :
          (o : Option Connection)
          → Living? o
          → ((d : Connection) → IsLiving d → Living? (run_all cbs io ts d))
          → Living? (Option.bind o (run_all cbs io ts))
      resume none w rest = tt
      resume (some d) w rest = rest d w

  step-Living : (i : Input) (c : Connection) → IsLiving c → Living? (step cbs i c)
  unfolding step do_pending_functors send post shutdown
  step-Living (arrives io e) c v = handle_event-Living io e c v
  step-Living (works io) c v = run_all-Living io c.tasks _ v
  step-Living (asks_send io in_loop bytes) c v = elim (Bool-cases (is_state_connected c.state)) [
    | inr t ↦ rw t v
    | inl t ↦ rw t (elim (Bool-cases in_loop) [
      | inl u ↦ rw u (send_in_loop-Living io bytes c v)
      | inr u ↦ rw u v
    ])
  ]
  step-Living (asks_shutdown in_loop) c v = elim (Bool-cases (is_state_connected c.state)) [
    | inr t ↦ rw t v
    | inl t ↦ rw t (elim (Bool-cases in_loop) [
      | inl u ↦ rw u (shutdown_in_loop-IsLiving c v)
      | inr u ↦ rw u v
    ])
  ]

  -- Whatever events, tasks and calls a connection meets, and whatever the kernel and the allocator
  -- answer, it stays living unless it crashes: while it is open it has its channel and descriptor
  -- and has closed nothing, and once it is disconnected it has neither, and has called the close
  -- callback and closed the descriptor exactly once each.
  pub run-Living : (is : List Input) (c : Connection) → IsLiving c → Living? (run cbs is c)
  unfolding run Option.bind
  run-Living [] c v = v
  run-Living (i ∷ is) c v = resume (step cbs i c) (step-Living i c v) (run-Living is)
    where
      resume :
          (o : Option Connection)
          → Living? o
          → ((d : Connection) → IsLiving d → Living? (run cbs is d))
          → Living? (Option.bind o (run cbs is))
      resume none w rest = tt
      resume (some d) w rest = rest d w

  -- From its construction and connect_established on, whatever events, tasks and calls a
  -- connection meets and whatever the kernel and the allocator answer, if its callbacks are tame
  -- and it does not crash, it has called the close callback and closed its descriptor either
  -- never, and has a descriptor, or exactly once each, and has neither descriptor nor channel.
  pub whole_life :
      (fd : ℕ) (pool : Pool) (is : List Input) (d : Connection)
      → run cbs is (connect_established cbs (new_connection (pos fd) pool)) ≡ some d
      → ((notices d.log ≡ 0) × (closings d.log ≡ 0) × (is_negative d.connfd ≡ false))
        ⊎ ((notices d.log ≡ 1)
            × (closings d.log ≡ 1)
            × (is_negative d.connfd ≡ true)
            × (d.channel ≡ none))
  unfolding new_connection
  whole_life fd pool is d e =
      let start : IsLiving (new_connection (pos fd) pool) =
        (refl, refl, record { no_notice = refl; no_closing = refl }) in
      of_state d.state
        (subst Living? e (run-Living is _ (connect_established-IsLiving _ refl start)))
    where
      of_state :
          (s : State)
          → LifeAt s d.channel d.connfd d.log
          → ((notices d.log ≡ 0) × (closings d.log ≡ 0) × (is_negative d.connfd ≡ false))
            ⊎ ((notices d.log ≡ 1)
                × (closings d.log ≡ 1)
                × (is_negative d.connfd ≡ true)
                × (d.channel ≡ none))
      of_state connecting (a, b, v) = inl (v.no_notice, v.no_closing, b)
      of_state connected (a, b, v) = inl (v.no_notice, v.no_closing, b)
      of_state disconnecting (a, b, v) = inl (v.no_notice, v.no_closing, b)
      of_state disconnected (a, b, n, m) = inr (n, m, ap is_negative b, a)
