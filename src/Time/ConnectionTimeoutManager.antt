-- ===== src/Time/ConnectionTimeoutManager.antt =====
-- time/ConnectionTimeoutManager.hpp and .cpp: the wheel of slots that closes idle connections.
-- The entries are shared between the table and the slots: they stand in `heap`, and an entry's index
-- there is its address. A connection is a number, and what it answers is an argument (`World`); so is
-- each reading of the clock, in milliseconds. One round of `time_wheel_loop` is `wheel_step`.
pub mod Valid
pub mod Places
pub mod Moves
pub mod Scan
pub mod Rounds
pub mod OneRound
pub mod Delay
pub mod Activity
pub mod Table
pub mod Cleanup
pub mod Runs
pub mod Tests
use azh_lid.Prelude.{
  ℕ, ◌+◌, ◌-◌, ◌/◌, ◌%◌, Bool, true, false, Option, none, some, List, [], ◌∷◌, ◌++◌, ◌||◌, not, ltb,
  leb, ◌==◌, if◌then◌else◌, ℤ, pos, negsuc, is_positive, is_negative, pos_part, length, get_or, set,
  replicate, map, add_size, size_mod, Map, lookup, insert, erase, is_some, int_eq, int_beq,
}

pub record World : Type 0 where
  pub fd_of : ℕ → ℤ
  pub is_connected : ℕ → Bool

pub record ConnectionEntry : Type 0 where
  pub conn : ℕ
  pub slot_position : ℕ
  pub remaining_ticks : ℕ
  pub last_activity_time : ℕ

-- `timed_out` are the entries that the timeout callback has been called for, oldest first.
pub record Manager : Type 0 where
  pub idle_timeout_ms : ℕ
  pub wheel_size : ℕ
  pub tick_interval_ms : ℕ
  pub time_wheel : List (List ℕ)
  pub current_slot : ℕ
  pub heap : List ConnectionEntry
  pub connections : Map ℤ ℕ
  pub running : Bool
  pub should_stop : Bool
  pub cleanup_running : Bool
  pub total_connections : ℕ
  pub idle_connections : ℕ
  pub timed_out : List ℕ

-- A setting that is not positive takes its default.
abbrev pub or_default : ℤ → ℕ → ℕ
or_default n d = if is_positive n then pos_part n else d

-- The constructor. The wheel is made with the argument before its default is put in its place;
-- `none` is the exception of a vector of negative size.
unfoldable pub new_manager : ℤ → ℤ → ℤ → Option Manager
new_manager idle_timeout wheel tick =
    if is_negative wheel
    then none
    else some (record {
      idle_timeout_ms = or_default idle_timeout 300000;
      wheel_size = or_default wheel 60;
      tick_interval_ms = or_default tick 1000;
      time_wheel = replicate (pos_part wheel) [];
      current_slot = 0;
      heap = [];
      connections = [];
      running = false;
      should_stop = false;
      cleanup_running = false;
      total_connections = 0;
      idle_connections = 0;
      timed_out = [];
    })

unfoldable pub start : Manager → Manager
start m =
    if m.running
    then m
    else record m { running = true; should_stop = false; cleanup_running = true }

unfoldable pub stop : Manager → Manager
stop m =
    if m.running
    then record m {
      running = false;
      should_stop = true;
      cleanup_running = false;
      connections = [];
      total_connections = 0;
      idle_connections = 0;
    }
    else m

abbrev pub blank : ConnectionEntry
blank = record { conn = 0; slot_position = 0; remaining_ticks = 0; last_activity_time = 0 }

abbrev pub entry_at : ℕ → List ConnectionEntry → ConnectionEntry
entry_at id heap = get_or heap id blank

abbrev pub slot_at : ℕ → List (List ℕ) → List ℕ
slot_at s wheel = get_or wheel s []

-- `calculate_slot`, at the time `now`.
pub calculate_slot : ℕ → ℕ → Manager → ℕ
calculate_slot now last_activity m =
    (m.current_slot + (m.idle_timeout_ms - (now - last_activity)) / m.tick_interval_ms)
    % m.wheel_size

pub ticks_needed : Manager → ℕ
ticks_needed m = m.idle_timeout_ms / m.tick_interval_ms

-- The slot with an entry pushed behind the others, and with an entry taken out.
pub push_entry : ℕ → ℕ → List (List ℕ) → List (List ℕ)
push_entry s id wheel = set wheel s (slot_at s wheel ++ id ∷ [])

pub without : ℕ → List ℕ → List ℕ
without id [] = []
without id (x ∷ xs) = if x == id then without id xs else x ∷ without id xs

pub take_entry : ℕ → ℕ → List (List ℕ) → List (List ℕ)
unfolding without
take_entry s id wheel = set wheel s (without id (slot_at s wheel))

-- The block of `add_connection` under the lock.
pub add_entry : ℤ → ConnectionEntry → Manager → Manager
add_entry fd entry m = if is_some (lookup fd m.connections) then m else record m {
  heap = m.heap ++ entry ∷ [];
  connections = insert fd (length m.heap) m.connections;
  total_connections = add_size m.total_connections 1;
  time_wheel = push_entry entry.slot_position (length m.heap) m.time_wheel;
}

-- `add_connection`; `none` is a null pointer. The clock is read three times.
pub add_connection : World → ℕ → ℕ → ℕ → Option ℕ → Manager → Manager
add_connection w now later made none m = m
add_connection w now later made (some conn) m =
    if is_positive (w.fd_of conn)
    then add_entry (w.fd_of conn)
        (record {
          conn = conn;
          slot_position = calculate_slot later now m;
          remaining_ticks = ticks_needed m;
          last_activity_time = made;
        })
        m
    else m

abbrev pub set_entry : ℕ → ConnectionEntry → Manager → Manager
set_entry id entry m = record m { heap = set m.heap id entry }

-- `entry->last_activity_time = now`
pub touch : ℕ → ℕ → Manager → Manager
touch now id m = set_entry id (record (entry_at id m.heap) { last_activity_time = now }) m

pub move_to_new_slot : ℕ → ℕ → Manager → Manager
move_to_new_slot later id m =
    let entry = entry_at id m.heap in
    let s = calculate_slot later entry.last_activity_time m in
    if s == entry.slot_position
    then set_entry id (record entry { remaining_ticks = ticks_needed m }) m
    else record (set_entry id (record entry { slot_position = s; remaining_ticks = ticks_needed m })
        m) { time_wheel = push_entry s id (take_entry entry.slot_position id m.time_wheel) }

move_found : ℕ → ℕ → Option ℕ → Manager → Manager
move_found now later none m = m
move_found now later (some id) m = move_to_new_slot later id (touch now id m)

pub update_activity : ℕ → ℕ → ℤ → Manager → Manager
unfolding move_found
update_activity now later fd m = move_found now later (lookup fd m.connections) m

-- `size_t` decrement
abbrev pub decrement : ℕ → ℕ
decrement n = (n + size_mod - 1) % size_mod

pub remove_connection : ℤ → Manager → Manager
remove_connection fd m =
    if is_some (lookup fd m.connections)
    then record m {
      connections = erase fd m.connections;
      total_connections = decrement m.total_connections;
    }
    else m

pub set_idle_timeout : ℤ → Manager → Manager
set_idle_timeout ms m = if is_positive ms then record m { idle_timeout_ms = pos_part ms } else m

pub reset_each : ℕ → ℕ → Map ℤ ℕ → Manager → Manager
reset_each now later [] m = m
reset_each now later ((fd, id) ∷ rest) m =
    reset_each now later rest (move_to_new_slot later id (touch now id m))

pub reset_all : ℕ → ℕ → Manager → Manager
unfolding reset_each
reset_all now later m = reset_each now later m.connections m

-- What a round does to an entry that it meets, and whether it takes the entry out.
pub tick_entry : ConnectionEntry → ConnectionEntry
tick_entry e = record e { remaining_ticks = e.remaining_ticks - 1 }

pub is_expired : ℕ → ℕ → ConnectionEntry → Bool
is_expired now timeout e =
    if ltb 0 e.remaining_ticks then false else leb timeout (now - e.last_activity_time)

-- The loop over a slot: the entries that stay, those that have expired, and the heap.
pub scan : ℕ → ℕ → List ℕ → List ConnectionEntry → List ℕ × List ℕ × List ConnectionEntry
scan now timeout [] heap = ([], [], heap)
scan now timeout (id ∷ ids) heap =
    let e = entry_at id heap in
    let (kept, expired, heap') = scan now timeout ids (set heap id (tick_entry e)) in
    if is_expired now timeout e then (kept, id ∷ expired, heap') else (id ∷ kept, expired, heap')

-- An entry that has expired leaves the table, and the callback is called.
pub expire : World → ℕ → Manager → Manager
expire w id m = record m {
  connections = erase (w.fd_of (entry_at id m.heap).conn) m.connections;
  total_connections = decrement m.total_connections;
  timed_out = m.timed_out ++ id ∷ [];
}

pub expire_all : World → List ℕ → Manager → Manager
expire_all w [] m = m
expire_all w (id ∷ ids) m = expire_all w ids (expire w id m)

pub process_timeout_connections : World → ℕ → Manager → Manager
process_timeout_connections w now m =
    let (kept, expired, heap') =
      scan now m.idle_timeout_ms (slot_at m.current_slot m.time_wheel) m.heap in
    expire_all w expired
      (record m { time_wheel = set m.time_wheel m.current_slot kept; heap = heap' })

-- One round of `time_wheel_loop`.
pub wheel_step : World → ℕ → Manager → Manager
wheel_step w now m =
    let m' = process_timeout_connections w now m in
    record m' { current_slot = (m'.current_slot + 1) % m'.wheel_size }

-- Rounds at the given times.
pub time_wheel_loop : World → List ℕ → Manager → Manager
time_wheel_loop w [] m = m
time_wheel_loop w (now ∷ nows) m = time_wheel_loop w nows (wheel_step w now m)

pub closed_conns : World → List ConnectionEntry → Map ℤ ℕ → List ℤ
closed_conns w heap [] = []
closed_conns w heap ((fd, id) ∷ rest) =
    if w.is_connected (entry_at id heap).conn
    then closed_conns w heap rest
    else fd ∷ closed_conns w heap rest

pub purge_slot : World → List ConnectionEntry → ℤ → List ℕ → List ℕ
purge_slot w heap fd [] = []
purge_slot w heap fd (id ∷ ids) =
    if int_beq (w.fd_of (entry_at id heap).conn) fd
    then purge_slot w heap fd ids
    else id ∷ purge_slot w heap fd ids

pub cleanup_one : World → ℤ → Manager → Manager
cleanup_one w fd m =
    let m' = remove_connection fd m in
    record m' { time_wheel = map (purge_slot w m'.heap fd) m'.time_wheel }

pub cleanup_each : World → List ℤ → Manager → Manager
cleanup_each w [] m = m
cleanup_each w (fd ∷ fds) m = cleanup_each w fds (cleanup_one w fd m)

pub cleanup_closed_connections : World → Manager → Manager
unfolding cleanup_one cleanup_each
cleanup_closed_connections w m = cleanup_each w (closed_conns w m.heap m.connections) m
