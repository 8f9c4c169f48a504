-- ===== src/Time/ConnectionTimeoutManager/Runs.antt =====
-- Calls of time/ConnectionTimeoutManager.cpp in any order, as the threads of a server make them.
use azh_lid.Prelude.{ℕ, Option, List, [], ◌∷◌, ℤ, int_eq}
use azh_lid.Time.ConnectionTimeoutManager.{
  World, Manager, start, stop, add_connection, update_activity, remove_connection, set_idle_timeout,
  reset_all, wheel_step, closed_conns, cleanup_closed_connections,
}
use azh_lid.Time.ConnectionTimeoutManager.Valid.{IsValid}
use azh_lid.Time.ConnectionTimeoutManager.Moves.{
  add_connection-IsValid, update_activity-IsValid, remove_connection-IsValid,
}
use azh_lid.Time.ConnectionTimeoutManager.Rounds.{wheel_step-IsValid}
use azh_lid.Time.ConnectionTimeoutManager.Cleanup.{
  set_idle_timeout-IsValid, start-IsValid, stop-IsValid, reset_each-IsValid, cleanup_each-IsValid,
}

-- The calls, with the times that they read from the clock.
pub data Call : Type 0 where
  starts : Call
  stops : Call
  adds : (now later made : ℕ) → Option ℕ → Call
  updates : (now later : ℕ) → ℤ → Call
  removes : ℤ → Call
  sets_timeout : ℤ → Call
  resets : (now later : ℕ) → Call
  rounds : ℕ → Call
  cleans : Call

unfoldable pub call : World → Call → Manager → Manager
call w starts m = start m
call w stops m = stop m
call w (adds now later made c) m = add_connection w now later made c m
call w (updates now later fd) m = update_activity now later fd m
call w (removes fd) m = remove_connection fd m
call w (sets_timeout ms) m = set_idle_timeout ms m
call w (resets now later) m = reset_all now later m
call w (rounds now) m = wheel_step w now m
call w cleans m = cleanup_closed_connections w m

-- What the connections answer may change from call to call.
unfoldable pub calls : List (World × Call) → Manager → Manager
unfolding call
calls [] m = m
calls ((w, c) ∷ cs) m = calls cs (call w c m)

call-IsValid : (w : World) (c : Call) (m : Manager) → IsValid m → IsValid (call w c m)
unfolding call reset_all cleanup_closed_connections
call-IsValid w starts m v = start-IsValid m v
call-IsValid w stops m v = stop-IsValid m v
call-IsValid w (adds now later made c) m v = add_connection-IsValid w now later made c m v
call-IsValid w (updates now later fd) m v = update_activity-IsValid now later fd m v
call-IsValid w (removes fd) m v = remove_connection-IsValid fd m v
call-IsValid w (sets_timeout ms) m v = set_idle_timeout-IsValid ms m v
call-IsValid w (resets now later) m v = reset_each-IsValid now later m.connections m v.table v
call-IsValid w (rounds now) m v = wheel_step-IsValid w now m v
call-IsValid w cleans m v = cleanup_each-IsValid w (closed_conns w m.heap m.connections) m v

-- Over any sequence of the manager's operations and rounds, whatever the connections answer at
-- each: there are as many slots as the size says and the current one is among them, the tick is
-- positive, an entry stands in no slot but the one that it names, which is in the wheel, and
-- there once at most, and the table has addresses of entries only, at the end if it was so at the
-- start.
pub calls-IsValid : (cs : List (World × Call)) (m : Manager) → IsValid m → IsValid (calls cs m)
unfolding calls
calls-IsValid [] m v = v
calls-IsValid ((w, c) ∷ cs) m v = calls-IsValid cs (call w c m) (call-IsValid w c m v)
