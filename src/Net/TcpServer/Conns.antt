-- ===== src/Net/TcpServer/Conns.antt =====
-- The idle manager of net/TcpServer.cpp through the life of the connections.
use azh_lid.Prelude.{
  ℕ, ◌≡◌, inl, inr, refl, sym, ap, ◌∙◌, subst, Bool, Option, none, some, arith, if◌then◌else◌,
  Bool-cases, ℤ, is_positive, Map, lookup, insert, is_some, int_eq,
}
use azh_lid.Time.ConnectionTimeoutManager.{
  World, Manager, add_connection, update_activity, remove_connection,
}
use azh_lid.Time.ConnectionTimeoutManager.Moves.{
  add_connection-IsValid, update_activity-IsValid, remove_connection-IsValid,
}
use azh_lid.Time.ConnectionTimeoutManager.Table.{
  add_connection-Within, remove_connection-Within, update_activity-field, add_connection-running,
  remove_connection-running,
}
use azh_lid.Net.TcpServer.Close.{after_close, ts_close_cb_lem}
use azh_lid.Net.TcpServer.{
  TcpServer, with_manager, add_registered, add_new_tcp_conn, on_connection_active, ts_close_cb,
  ts_message_cb,
}
use azh_lid.Net.TcpServer.Idle.{IsKept, Keeps, with_manager-IsKept, either_case}

pub add_new_tcp_conn-IsKept :
    (w : World) (now later made : ℕ) (c : Option ℕ) (s : TcpServer)
    → IsKept s
    → IsKept (add_new_tcp_conn w now later made c s)
unfolding add_new_tcp_conn add_registered
add_new_tcp_conn-IsKept w now later made none s v = v
add_new_tcp_conn-IsKept w now later made (some conn) s v =
    either_case (is_positive (w.fd_of conn)) _ s
      (λ good.
        either_case (is_some (lookup (w.fd_of conn) s.connections)) s _ (λ old. v)
          (λ new.
            with_manager-IsKept (add_connection w now later made (some conn)) s
              (insert (w.fd_of conn) conn s.connections)
              (λ m. (
                add_connection-running w now later made conn m,
                add_connection-IsValid w now later made (some conn) m,
                add_connection-Within w now later made conn conn m s.connections,
              ))
              v))
      (λ bad. v)

removes-Keeps : (fd : ℤ) (table : Map ℤ ℕ) → Keeps (remove_connection fd) table table
removes-Keeps fd table m = (
  remove_connection-running fd m,
  remove_connection-IsValid fd m,
  remove_connection-Within fd m table,
)

on_connection_active-IsKept :
    (w : World) (now later : ℕ) (c : Option ℕ) (s : TcpServer)
    → IsKept s
    → IsKept (on_connection_active w now later c s)
unfolding on_connection_active
on_connection_active-IsKept w now later none s v = v
on_connection_active-IsKept w now later (some conn) s v =
    with_manager-IsKept (update_activity now later (w.fd_of conn)) s s.connections
      (λ m. (
        update_activity-field (λ (n : Manager). n.running) (λ n heap wheel. refl) now later
            (w.fd_of conn) m,
        update_activity-IsValid now later (w.fd_of conn) m,
        λ within.
            rw
              (update_activity-field (λ (n : Manager). n.connections) (λ n heap wheel. refl) now
                later (w.fd_of conn) m)
              within,
      ))
      v

pub ts_message_cb-IsKept :
    (w : World) (now later conn readable : ℕ) (s : TcpServer)
    → IsKept s
    → IsKept (ts_message_cb w now later conn readable s)
unfolding ts_message_cb
ts_message_cb-IsKept w now later conn readable s v =
    on_connection_active-IsKept w now later (some conn) s v

pub unwrap : {s s' : TcpServer} → some s ≡ some s' → s ≡ s'
unwrap {s' = s'} h = ap (λ (o : Option TcpServer). elim o [ none ↦ s' | some x ↦ x ]) h

pub ts_close_cb-IsKept :
    (w : World) (conn : ℕ) (s s' : TcpServer)
    → ts_close_cb w conn s ≡ some s'
    → IsKept s
    → IsKept s'
ts_close_cb-IsKept w conn s s' h v = elim (Bool-cases (is_some (lookup fd s.connections))) [
  | inl t ↦ absurd (
      ground (
        arith,
        ap (λ (b : Bool). if b then none else some (after_close w conn s)) (sym t)
            ∙ sym (ts_close_cb_lem w conn s)
            ∙ h,
      ))
  | inr t ↦
      subst IsKept
        (unwrap (
          ap (λ (b : Bool). if b then none else some (after_close w conn s)) (sym t)
          ∙ sym (ts_close_cb_lem w conn s)
          ∙ h))
        closed_well
]
  where
    fd : ℤ
    fd = w.fd_of conn

    s1 : TcpServer
    s1 = with_manager (remove_connection fd) s

    kept_once : IsKept s1
    kept_once =
        with_manager-IsKept (remove_connection fd) s s.connections (removes-Keeps fd s.connections)
          v

    closed_well : IsKept (after_close w conn s)
    closed_well =
        with_manager-IsKept (remove_connection fd) s1 s1.connections
          (removes-Keeps fd s1.connections) kept_once
