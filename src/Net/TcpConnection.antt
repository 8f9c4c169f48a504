-- ===== src/Net/TcpConnection.antt =====
-- net/TcpConnection.hpp and net/TcpConnection.cpp: one connection and its life.
-- The connection has the mask of its Channel (net/Channel.cpp), its buffers over the shared pool,
-- the tasks that other threads have queued for it in its EventLoop, and a log of what it does to the
-- outside, oldest first. Every handler runs in the loop's thread. `none` is a crash: a failed
-- assertion in the output buffer, or a use of a null channel.
pub mod Life
pub mod Handlers
pub mod Shutdown
pub mod Tests
use azh_lid.Prelude.{
  ℕ, ◌-◌, Bool, true, false, Option, none, some, List, [], ◌∷◌, ◌++◌, ◌||◌, ltb, leb, ◌==◌,
  if◌then◌else◌, ℤ, pos, negsuc, is_positive, is_negative, length, drop, take, to_int,
}
use mathlib.Core.Option
use azh_lid.Memory.Chunk.{Chunk}
use azh_lid.Memory.Pool.{Pool}
use azh_lid.Memory.Buffer.{
  Env, Buffer, ReadAnswer, WriteAnswer, interrupted, wrote, would_block, failed, read_from_fd,
  write_to_buf, write_to_fd, buffer_length,
}

pub data State : Type 0 where
  connecting connected disconnecting disconnected : State

-- The event mask of a channel: EPOLLIN with EPOLLRDHUP, and EPOLLOUT.
pub record Interest : Type 0 where
  pub reading : Bool
  pub writing : Bool

-- What a connection does to the outside.
pub data Effect : Type 0 where
  registers : Interest → Effect
  connects : Effect
  delivers : Effect
  closes : Effect
  shuts_write : ℤ → Effect
  closes_fd : ℤ → Effect

-- What other threads have queued with `queueInLoop`.
pub data Task : Type 0 where
  sends : List ℕ → Task
  shuts_down : Task

pub record Connection : Type 0 where
  pub state : State
  pub connfd : ℤ
  pub channel : Option Interest
  pub pool : Pool
  pub input : Option Chunk
  pub output : Option Chunk
  pub tasks : List Task
  pub log : List Effect

-- The three callbacks; `none` is one that is not set.
pub record Callbacks : Type 0 where
  pub connected_cb : Option (Connection → Connection)
  pub message_cb : Option (Connection → Connection)
  pub close_cb : Option (Connection → Connection)

-- What the environment does in one handler: the allocator, and the answers of the kernel to `read`,
-- to the `write` of the output buffer, and to the direct `write` of `sendInLoop`.
pub record Io : Type 0 where
  pub env : Env
  pub read : ℕ → ReadAnswer
  pub write : List ℕ → WriteAnswer
  pub direct : List ℕ → WriteAnswer

-- The bits of a ready event.
pub record Events : Type 0 where
  pub err : Bool
  pub hup : Bool
  pub rdhup : Bool
  pub readable : Bool
  pub writable : Bool

abbrev pub note : Effect → Connection → Connection
note e c = record c { log = c.log ++ e ∷ [] }

abbrev pub invoke : Option (Connection → Connection) → Connection → Connection
invoke none c = c
invoke (some cb) c = cb c

-- `channel_->update()` with the new mask, on a channel that is there.
pub register : Interest → Connection → Connection
register i c = note (registers i) (record c { channel = some i })

-- `enable_write()` and `disable_write()` of the channel.
pub set_writing : Bool → Option Interest → Connection → Option Connection
set_writing on none c = none
set_writing on (some i) c = some (register (record i { writing = on }) c)

pub new_connection : ℤ → Pool → Connection
new_connection fd pool = record {
  state = connecting;
  connfd = fd;
  channel = none;
  pool = pool;
  input = none;
  output = none;
  tasks = [];
  log = [];
}

pub is_state_connected : State → Bool
is_state_connected connected = true
is_state_connected connecting = false
is_state_connected disconnecting = false
is_state_connected disconnected = false

pub is_state_disconnecting : State → Bool
is_state_disconnecting disconnecting = true
is_state_disconnecting connecting = false
is_state_disconnecting connected = false
is_state_disconnecting disconnected = false

abbrev pub no_interest : Interest
no_interest = record { reading = false; writing = false }

-- `disable_all()` and `reset()` of the channel, if it is there.
pub drop_channel : Option Interest → Connection → Connection
drop_channel none c = c
drop_channel (some i) c = record (note (registers no_interest) c) { channel = none }

-- `::close(connfd_); connfd_ = -1`
pub close_fd : Connection → Connection
close_fd c = record (note (closes_fd c.connfd) c) { connfd = negsuc 0 }

pub is_zero : ℤ → Bool
is_zero (pos n) = n == 0
is_zero (negsuc n) = false

-- A connection that is being shut down shuts its write side, once nothing is left to write.
pub shut_if_disconnecting : Connection → Connection
shut_if_disconnecting d =
    if is_state_disconnecting d.state then note (shuts_write d.connfd) d else d

pub shut_after : Option Connection → Option Connection
shut_after none = none
shut_after (some d) = some (shut_if_disconnecting d)

-- With nothing left to write, EPOLLOUT is taken off.
pub finish_write : Connection → Option Connection
finish_write c = shut_after (set_writing false c.channel c)

module _ (cbs : Callbacks) where
  pub connect_established : Connection → Connection
  connect_established c =
      let c' = register (record { reading = true; writing = false }) c in
      invoke cbs.connected_cb (note connects (record c' { state = connected }))

  pub handle_close : Connection → Connection
  handle_close c =
      if is_state_connected c.state
      then close_fd (
          invoke cbs.close_cb
            (note closes (drop_channel c.channel (record c { state = disconnected }))))
      else c

  pub handle_error : Connection → Connection
  handle_error c = handle_close c

  pub after_read : Connection → ℤ × Buffer → Connection
  after_read c (n, b) =
      let c' = record c { pool = b.pool; input = b.data_buf } in
      if is_positive n
      then invoke cbs.message_cb (note delivers c')
      else (if is_negative n then handle_error c' else handle_close c')

  pub handle_read : Io → Connection → Connection
  handle_read io c =
      after_read c
        (read_from_fd io.env io.read c.connfd (record { pool = c.pool; data_buf = c.input }))

  pub after_write : Connection → Option (ℤ × Buffer) → Option Connection
  after_write c none = none
  after_write c (some (n, b)) =
      let c' = record c { pool = b.pool; output = b.data_buf } in
      if is_negative n
      then some (handle_error c')
      else (if is_zero (buffer_length b) then finish_write c' else some c')

  pub handle_write : Io → Connection → Option Connection
  handle_write io c =
      after_write c (write_to_fd io.write c.connfd (record { pool = c.pool; data_buf = c.output }))

  pub handle_event : Io → Events → Connection → Option Connection
  handle_event io e c =
      if e.err || e.hup
      then some (handle_error c)
      else (if e.rdhup
          then some (handle_close c)
          else (let c' = (if e.readable then handle_read io c else c) in
              if e.writable then handle_write io c' else some c'))

  -- The rest of the data after a direct write of `n` bytes goes to the output buffer. The result of
  -- `write_to_buf` is not looked at.
  pub buffer_rest : Io → ℕ → List ℕ → Connection → Option Connection
  buffer_rest io n bytes c =
      if ltb n (length bytes)
      then (let (r, b) =
            write_to_buf io.env (some (drop n bytes)) (to_int (length bytes - n))
              (record { pool = c.pool; data_buf = c.output }) in
          let c' = record c { pool = b.pool; output = b.data_buf } in
          set_writing true c'.channel c')
      else some c

  -- `::write(connfd_, data, len)`; EINTR is an error like others.
  pub after_direct : Io → List ℕ → Connection → WriteAnswer → Option Connection
  after_direct io bytes c (wrote n) = buffer_rest io n bytes c
  after_direct io bytes c would_block = buffer_rest io 0 bytes c
  after_direct io bytes c failed = some (handle_error c)
  after_direct io bytes c (interrupted a) = some (handle_error c)

  pub send_in_loop : Io → List ℕ → Connection → Option Connection
  send_in_loop io bytes c =
      if is_state_connected c.state
      then (if is_zero (buffer_length (record { pool = c.pool; data_buf = c.output }))
          then after_direct io bytes c (io.direct bytes)
          else buffer_rest io 0 bytes c)
      else some c

  -- `send`, from the loop's thread or from another: its result, and what becomes of the connection.
  pub post : Io → Bool → List ℕ → Connection → Option Connection
  post io in_loop bytes c =
      if is_state_connected c.state
      then (if in_loop
          then send_in_loop io bytes c
          else some (record c { tasks = c.tasks ++ sends bytes ∷ [] }))
      else some c

  pub send : Io → Bool → List ℕ → Connection → Bool × Option Connection
  send io in_loop bytes c = (is_state_connected c.state, post io in_loop bytes c)

  pub shutdown_in_loop : Connection → Connection
  shutdown_in_loop c =
      if is_state_connected c.state
      then (let c' = record c { state = disconnecting } in
          if is_zero (buffer_length (record { pool = c.pool; data_buf = c.output }))
          then note (shuts_write c.connfd) c'
          else c')
      else c

  pub shutdown : Bool → Connection → Connection
  shutdown in_loop c =
      if is_state_connected c.state
      then (if in_loop then shutdown_in_loop c else record c { tasks = c.tasks ++ shuts_down ∷ [] })
      else c

  pub run_task : Io → Task → Connection → Option Connection
  run_task io (sends bytes) c = send_in_loop io bytes c
  run_task io shuts_down c = some (shutdown_in_loop c)

  pub run_all : Io → List Task → Connection → Option Connection
  run_all io [] c = some c
  run_all io (t ∷ ts) c = Option.bind (run_task io t c) (run_all io ts)

  -- `do_pending_functors`: the queue is swapped out first, so a task that is queued meanwhile waits.
  pub do_pending_functors : Io → Connection → Option Connection
  do_pending_functors io c = run_all io c.tasks (record c { tasks = [] })

-- What the loop of a connection's thread meets: a ready event, its queued tasks, and the calls that
-- the upper layer makes of `send` and `shutdown`, in the loop's thread or in another.
pub data Input : Type 0 where
  arrives : Io → Events → Input
  works : Io → Input
  asks_send : Io → Bool → List ℕ → Input
  asks_shutdown : Bool → Input

module _ (cbs : Callbacks) where
  pub step : Input → Connection → Option Connection
  step (arrives io e) c = handle_event cbs io e c
  step (works io) c = do_pending_functors cbs io c
  step (asks_send io in_loop bytes) c = (send cbs io in_loop bytes c).1
  step (asks_shutdown in_loop) c = some (shutdown cbs in_loop c)

  pub run : List Input → Connection → Option Connection
  run [] c = some c
  run (i ∷ is) c = Option.bind (step i c) (run is)
