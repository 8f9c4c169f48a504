-- ===== src/Net/TcpServer/Managers.antt =====
-- How net/TcpServer.cpp makes, starts and drops its idle manager.
use azh_lid.Prelude.{
  ℕ, ◌≡◌, refl, ◌∙◌, subst, Bool, true, false, Option, none, some, List, [], ◌∷◌, arith, ltb, max,
  ◌&&◌, if◌then◌else◌, ℤ, pos, pos_part, replicate, Map, lookup, int_eq,
}
use azh_lid.Time.ConnectionTimeoutManager.{
  World, Manager, new_manager, add_connection, update_activity, remove_connection, wheel_step,
}
use azh_lid.Time.ConnectionTimeoutManager as Wheel
use azh_lid.Time.ConnectionTimeoutManager.Valid.{IsValid}
use azh_lid.Time.ConnectionTimeoutManager.Rounds.{wheel_step-IsValid}
use azh_lid.Time.ConnectionTimeoutManager.Cleanup.{
  new_manager-IsValid, set_idle_timeout-IsValid, start-IsValid,
}
use azh_lid.Time.ConnectionTimeoutManager.Table.{
  Within, wheel_step-Within, wheel_step-running, set_idle_timeout-field,
}
use azh_lid.Net.TcpServer.{
  TcpServer, Listens, listens, not_made, not_listening, make_manager, started_manager, begin, start,
  stop, set_idle_timeout, disable, enable_idle_timeout, on_connection_idle_timeout, idle_each,
  timed_conns, round_of, wheel_round,
}
use azh_lid.Net.TcpServer.Idle.{IsKept, HasManager, changed_manager, either_case}

-- The manager that `make_manager` starts from.
abbrev first_manager : ℕ → Manager
first_manager t = record {
  idle_timeout_ms = if ltb 0 t then t else 300000;
  wheel_size = 60;
  tick_interval_ms = 1000;
  time_wheel = replicate 60 [];
  current_slot = 0;
  heap = [];
  connections = [];
  running = false;
  should_stop = false;
  cleanup_running = false;
  total_connections = 0;
  idle_connections = 0;
  timed_out = [];
}

first_manager-IsValid : (t : ℕ) → IsValid (first_manager t)
unfolding new_manager
first_manager-IsValid t =
    new_manager-IsValid (pos t) (pos 60) (pos 1000) (first_manager t) refl refl

Within-empty : (table : Map ℤ ℕ) → Within [] table
unfolding lookup
Within-empty table fd h = absurd (ground arith)

make_manager-HasManager :
    (on : Bool) (s : TcpServer) (table : Map ℤ ℕ) → HasManager on true table (make_manager on s)
unfolding make_manager started_manager new_manager Wheel.start
make_manager-HasManager true s table = (
  refl,
  λ t. refl,
  start-IsValid (first_manager s.idle_timeout_ms) (first_manager-IsValid s.idle_timeout_ms),
  Within-empty table,
)
make_manager-HasManager false s table = (
  refl,
  λ t. absurd (ground (arith, t)),
  first_manager-IsValid s.idle_timeout_ms,
  Within-empty table,
)

manager_for :
    (enabled : Bool) (s : TcpServer)
    → HasManager s.started enabled s.connections s.idle_manager
    → HasManager true enabled s.connections
        (if enabled then make_manager true s else s.idle_manager)
manager_for true s v = make_manager-HasManager true s s.connections
manager_for false s v = turn_on s.idle_manager v
  where
    turn_on :
        (o : Option Manager)
        → HasManager s.started false s.connections o
        → HasManager true false s.connections o
    turn_on none h = refl
    turn_on (some m) h = absurd (ground (arith, h.0))

begin-IsKept : (s : TcpServer) → IsKept s → IsKept (begin s)
unfolding begin
begin-IsKept s v = manager_for s.idle_timeout_enabled s v

either_pair :
    (b : Bool) (x y : TcpServer × Bool) → IsKept x.0 → IsKept y.0 → IsKept (if b then x else y).0
either_pair true x y v w = v
either_pair false x y v w = w

pub start-IsKept : (r : Listens) (s : TcpServer) → IsKept s → IsKept (start r s).0
unfolding start
start-IsKept listens s v = either_pair s.started _ _ v (begin-IsKept s v)
start-IsKept not_made s v = either_pair s.started _ _ v (begin-IsKept s v)
start-IsKept not_listening s v = either_pair s.started _ _ v (begin-IsKept s v)

pub stop-IsKept : (s : TcpServer) → IsKept s → IsKept (stop s)
unfolding stop
stop-IsKept s v = either_case s.started _ s (λ on. refl) (λ off. v)

pub set_idle_timeout-IsKept : (ms : ℤ) (s : TcpServer) → IsKept s → IsKept (set_idle_timeout ms s)
unfolding set_idle_timeout
set_idle_timeout-IsKept ms s v =
    changed_manager (Wheel.set_idle_timeout (pos (max 1000 (pos_part ms)))) s.started
      s.idle_timeout_enabled s.connections s.connections s.idle_manager
      (λ m. (
        set_idle_timeout-field (λ (n : Manager). n.running) (λ n t. refl) new_timeout m,
        set_idle_timeout-IsValid new_timeout m,
        λ within.
            rw (set_idle_timeout-field (λ (n : Manager). n.connections) (λ n t. refl) new_timeout m)
              within,
      ))
      v
  where
    new_timeout : ℤ
    new_timeout = pos (max 1000 (pos_part ms))

enabled_manager :
    (s : TcpServer) (o : Option Manager)
    → HasManager s.started false s.connections o
    → HasManager s.started true s.connections
        (elim o [ none ↦ make_manager s.started s | some m ↦ some m ])
enabled_manager s none h = make_manager-HasManager s.started s s.connections
enabled_manager s (some m) h = absurd (ground (arith, h.0))

pub enable_idle_timeout-IsKept :
    (b : Bool) (s : TcpServer) → IsKept s → IsKept (enable_idle_timeout b s)
unfolding enable_idle_timeout disable
enable_idle_timeout-IsKept true s v =
    either_case s.idle_timeout_enabled s _ (λ on. v)
      (λ off.
        enabled_manager s s.idle_manager
          (subst (λ (b : Bool). HasManager s.started b s.connections s.idle_manager) off v))
enable_idle_timeout-IsKept false s v =
    either_case s.idle_timeout_enabled _ s (λ on. off s.started) (λ off. v)
  where
    off : (b : Bool) → (b && false) ≡ false
    off true = refl
    off false = refl

idle_each-IsKept : (conns : List ℕ) (s : TcpServer) → IsKept s → IsKept (idle_each conns s)
unfolding idle_each on_connection_idle_timeout
idle_each-IsKept [] s v = v
idle_each-IsKept (conn ∷ conns) s v =
    idle_each-IsKept conns (on_connection_idle_timeout (some conn) s) v

pub wheel_round-IsKept :
    (w : World) (now : ℕ) (s : TcpServer) → IsKept s → IsKept (wheel_round w now s)
unfolding wheel_round round_of
wheel_round-IsKept w now s v = go s.idle_manager v
  where
    go :
        (o : Option Manager)
        → HasManager s.started s.idle_timeout_enabled s.connections o
        → IsKept (round_of w now o s)
    go none h = v
    go (some m) (on, runs, valid, within) =
        idle_each-IsKept (timed_conns m (wheel_step w now m))
          (record s { idle_manager = some (wheel_step w now m) })
          (
            on,
            λ t. wheel_step-running w now m ∙ runs t,
            wheel_step-IsValid w now m valid,
            wheel_step-Within w now m s.connections within,
          )
