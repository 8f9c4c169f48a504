-- ===== src/Time/ConnectionTimeoutManager/Tests.antt =====
-- Runs of the wheel of time/ConnectionTimeoutManager.cpp.
use azh_lid.Prelude.{
  ℕ, ◌+◌, ◌-◌, ◌^◌, ◌≡◌, refl, true, false, some, List, [], ◌∷◌, arith, length, replicate, pos,
  lookup, insert, erase, int_eq, ◌*◌,
}
use azh_lid.Time.ConnectionTimeoutManager.{
  World, Manager, new_manager, start, add_connection, add_entry, calculate_slot, push_entry,
  ticks_needed, time_wheel_loop, wheel_step, remove_connection, process_timeout_connections,
  update_activity, move_to_new_slot, move_found, touch, take_entry, scan, tick_entry, is_expired,
  expire_all, expire, entry_at,
}
use azh_lid.Time.ConnectionTimeoutManager.Valid.{times, IsValid}
use azh_lid.Time.ConnectionTimeoutManager.Runs.{
  Call, starts, adds, updates, removes, rounds, call, calls, calls-IsValid,
}
use azh_lid.Time.ConnectionTimeoutManager.Cleanup.{new_manager-IsValid}
use azh_lid.Time.ConnectionTimeoutManager.Delay.{Waits-delay, expires_after-delay}
use azh_lid.Time.ConnectionTimeoutManager.OneRound.{Waits, delay}
use azh_lid.Time.ConnectionTimeoutManager.Activity.{active-delay}

-- Connection 7 has the file descriptor 7.
abbrev alive : World
alive = record { fd_of = λ c. pos c; is_connected = λ c. true }

-- A wheel of three slots, a timeout of two seconds and ticks of one.
abbrev fresh : Manager
fresh = record {
  idle_timeout_ms = 2000;
  wheel_size = 3;
  tick_interval_ms = 1000;
  time_wheel = replicate 3 [];
  current_slot = 0;
  heap = [];
  connections = [];
  running = false;
  should_stop = false;
  cleanup_running = false;
  total_connections = 0;
  idle_connections = 0;
  timed_out = [];
}

fresh-IsValid : IsValid fresh
unfolding new_manager
fresh-IsValid = new_manager-IsValid (pos 2000) (pos 3) (pos 1000) fresh refl refl

abbrev two_joined : List (World × Call)
two_joined =
    (alive, starts)
    ∷ (alive, adds 100 100 100 (some 7))
    ∷ (alive, adds 150 150 150 (some 8))
    ∷ (alive, updates 200 200 (pos 8))
    ∷ []

abbrev joined : Manager
joined = calls two_joined fresh

joined-IsValid : IsValid joined
joined-IsValid = calls-IsValid two_joined fresh fresh-IsValid

calls-IsValid_example : IsValid (calls two_joined fresh)
calls-IsValid_example = calls-IsValid two_joined fresh fresh-IsValid

joined-Waits : Waits 0 joined
unfolding call calls start add_connection add_entry calculate_slot push_entry update_activity
    move_to_new_slot move_found touch lookup insert ticks_needed take_entry
joined-Waits = refl

joined-delay : delay 0 joined ≡ 8
unfolding call calls start add_connection add_entry calculate_slot push_entry update_activity
    move_to_new_slot move_found touch lookup insert ticks_needed take_entry
joined-delay = refl

eight : List ℕ
eight = 1000 ∷ 2000 ∷ 3000 ∷ 4000 ∷ 5000 ∷ 6000 ∷ 7000 ∷ 8000 ∷ []

eight_long : length eight ≡ 8
unfolding eight
eight_long = refl

Waits-delay_example :
    (times 0 (time_wheel_loop alive eight joined).timed_out ≡ times 0 joined.timed_out)
    × Waits 0 (time_wheel_loop alive eight joined)
Waits-delay_example =
    Waits-delay alive 0 eight joined joined-IsValid joined-Waits
      (omega (arith, joined-delay, eight_long))

active_at : (entry_at 0 joined.heap).last_activity_time ≡ 100
unfolding call calls start add_connection add_entry calculate_slot push_entry update_activity
    move_to_new_slot move_found touch lookup insert ticks_needed take_entry
active_at = refl

timeout_at : joined.idle_timeout_ms ≡ 2000
unfolding call calls start add_connection add_entry calculate_slot push_entry update_activity
    move_to_new_slot move_found touch lookup insert ticks_needed take_entry
timeout_at = refl

-- Although the connection was idle for two seconds after 2100 milliseconds.
expires_after-delay_example :
    times 0 (wheel_step alive 9000 (time_wheel_loop alive eight joined)).timed_out
    ≡ times 0 joined.timed_out + 1
expires_after-delay_example =
    expires_after-delay alive 0 9000 eight joined joined-IsValid joined-Waits
      (omega (arith, joined-delay, eight_long)) (omega (arith, active_at, timeout_at))

joined-lookup : lookup (pos 7) joined.connections ≡ some 0
unfolding call calls start add_connection add_entry calculate_slot push_entry update_activity
    move_to_new_slot move_found touch lookup insert ticks_needed take_entry
joined-lookup = refl

ticks_at : ticks_needed joined * joined.wheel_size ≡ 6
unfolding call calls start add_connection add_entry calculate_slot push_entry update_activity
    move_to_new_slot move_found touch lookup insert ticks_needed take_entry
ticks_at = refl

active-delay_example :
    times 0
      (time_wheel_loop alive
        (7000 ∷ 8000 ∷ [])
        (update_activity 6000 6000 (pos 7) joined)).timed_out
    ≡ times 0 joined.timed_out
active-delay_example =
    active-delay alive 6000 6000 (pos 7) 0 (7000 ∷ 8000 ∷ []) joined joined-IsValid joined-lookup
      joined-Waits (omega (arith, ticks_at))

-- A connection that was removed is still counted off when its entry expires: the count wraps.
counts_twice :
    (calls
      ((alive, adds 0 0 0 (some 7))
        ∷ (alive, removes (pos 7))
        ∷ (alive, rounds 3000)
        ∷ (alive, rounds 4000)
        ∷ (alive, rounds 5000)
        ∷ (alive, rounds 6000)
        ∷ (alive, rounds 7000)
        ∷ (alive, rounds 8000)
        ∷ (alive, rounds 9000)
        ∷ (alive, rounds 10000)
        ∷ (alive, rounds 11000)
        ∷ [])
      fresh).total_connections
    ≡ 2 ^ 64 - 1
unfolding call calls start add_connection add_entry calculate_slot push_entry update_activity
    move_to_new_slot move_found touch lookup insert ticks_needed take_entry time_wheel_loop
    wheel_step process_timeout_connections scan tick_entry is_expired expire expire_all
    remove_connection erase
counts_twice = refl

-- A wheel without slots, of a size that is said to be 60.
no_slots :
    new_manager (pos 2000) (pos 0) (pos 1000)
    ≡ some (record fresh { wheel_size = 60; time_wheel = [] })
unfolding new_manager
no_slots = refl
