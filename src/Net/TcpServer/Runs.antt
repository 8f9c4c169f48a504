-- ===== src/Net/TcpServer/Runs.antt =====
-- Calls of net/TcpServer.cpp in any order.
use azh_lid.Prelude.{ℕ, ◌≡◌, refl, subst, Bool, Option, none, some, List, [], ◌∷◌, arith, ℤ, int_eq}
use azh_lid.Time.ConnectionTimeoutManager.{World}
use azh_lid.Net.TcpServer.{
  TcpServer, Listens, start, stop, add_new_tcp_conn, set_idle_timeout, enable_idle_timeout,
  ts_close_cb, ts_message_cb, wheel_round,
}
use azh_lid.Net.TcpServer.Idle.{IsKept}
use azh_lid.Net.TcpServer.Conns.{
  unwrap, ts_close_cb-IsKept, add_new_tcp_conn-IsKept, ts_message_cb-IsKept,
}
use azh_lid.Net.TcpServer.Managers.{
  start-IsKept, stop-IsKept, set_idle_timeout-IsKept, enable_idle_timeout-IsKept,
  wheel_round-IsKept,
}

-- The calls that threads make on a server, and the rounds of its manager.
pub data Call : Type 0 where
  starts : Listens → Call
  stops : Call
  adds : (now later made : ℕ) → Option ℕ → Call
  hears : (now later conn readable : ℕ) → Call
  closes : ℕ → Call
  sets_timeout : ℤ → Call
  enables : Bool → Call
  rounds : ℕ → Call

unfoldable pub call : World → Call → TcpServer → Option TcpServer
call w (starts r) s = some (start r s).0
call w stops s = some (stop s)
call w (adds now later made c) s = some (add_new_tcp_conn w now later made c s)
call w (hears now later conn readable) s = some (ts_message_cb w now later conn readable s)
call w (closes conn) s = ts_close_cb w conn s
call w (sets_timeout ms) s = some (set_idle_timeout ms s)
call w (enables b) s = some (enable_idle_timeout b s)
call w (rounds now) s = some (wheel_round w now s)

-- Calls one after the other; `none` once one of them does not return.
unfoldable pub calls : List (World × Call) → TcpServer → Option TcpServer
unfolding call
calls [] s = some s
calls ((w, c) ∷ cs) s = elim (call w c s) [ none ↦ none | some s' ↦ calls cs s' ]

call-IsKept :
    (w : World) (c : Call) (s s' : TcpServer) → call w c s ≡ some s' → IsKept s → IsKept s'
unfolding call
call-IsKept w (starts r) s s' h v = subst IsKept (unwrap h) (start-IsKept r s v)
call-IsKept w stops s s' h v = subst IsKept (unwrap h) (stop-IsKept s v)
call-IsKept w (adds now later made c) s s' h v =
    subst IsKept (unwrap h) (add_new_tcp_conn-IsKept w now later made c s v)
call-IsKept w (hears now later conn readable) s s' h v =
    subst IsKept (unwrap h) (ts_message_cb-IsKept w now later conn readable s v)
call-IsKept w (closes conn) s s' h v = ts_close_cb-IsKept w conn s s' h v
call-IsKept w (sets_timeout ms) s s' h v = subst IsKept (unwrap h) (set_idle_timeout-IsKept ms s v)
call-IsKept w (enables b) s s' h v = subst IsKept (unwrap h) (enable_idle_timeout-IsKept b s v)
call-IsKept w (rounds now) s s' h v = subst IsKept (unwrap h) (wheel_round-IsKept w now s v)

-- Over any sequence of starts, stops, registrations, messages, closes, settings and rounds of the
-- wheel, each of which returns: a server that runs with the idle timeout enabled has a manager
-- and the manager runs, one with it disabled has none, and a manager is well-formed and knows no
-- descriptor that the server's table lacks, at the end if it was so at the start.
pub calls-IsKept :
    (cs : List (World × Call)) (s s' : TcpServer) → calls cs s ≡ some s' → IsKept s → IsKept s'
unfolding calls
calls-IsKept [] s s' h v = subst IsKept (unwrap h) v
calls-IsKept ((w, c) ∷ cs) s s' h v =
    go (call w c s) (call-IsKept w c s) (λ t e u. calls-IsKept cs t s' e u) h
  where
    go :
        (o : Option TcpServer)
        → ((t : TcpServer) → o ≡ some t → IsKept s → IsKept t)
        → ((t : TcpServer) → calls cs t ≡ some s' → IsKept t → IsKept s')
        → (elim o [ none ↦ none | some t ↦ calls cs t ]) ≡ some s'
        → IsKept s'
    go none kept rest e = absurd (ground arith)
    go (some t) kept rest e = rest t e (kept t refl v)
