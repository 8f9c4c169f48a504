-- ===== src/Net/TcpServer/Close.antt =====
-- How a connection of net/TcpServer.cpp is taken out.
use azh_lid.Prelude.{
  ℕ, ◌≡◌, refl, ap, ◌∙◌, Bool, true, false, Option, none, some, if◌then◌else◌, ℤ, Map, lookup,
  is_some, int_eq,
}
use azh_lid.Time.ConnectionTimeoutManager.{World, Manager, remove_connection}
use azh_lid.Net.TcpServer.{
  TcpServer, closed, tell, with_manager, remove_tcp_conn, erase_locked, logged, ts_close_cb,
}

-- What a change of the manager leaves alone.
pub with_manager-field {ℓ} :
    {B : Type ℓ} (g : TcpServer → B)
    → ((s : TcpServer) (o : Option Manager) → g (record s { idle_manager = o }) ≡ g s)
    → (f : Manager → Manager) (s : TcpServer) → g (with_manager f s) ≡ g s
unfolding with_manager
with_manager-field g same f s = either s.idle_timeout_enabled
  where
    either :
        (b : Bool)
        → g (
            if b
            then record s {
              idle_manager = elim s.idle_manager [ none ↦ none | some m ↦ some (f m) ];
            }
            else s)
          ≡ g s
    either true = same s _
    either false = refl

-- The server after the close callback of a connection that is not registered.
abbrev pub after_close : World → ℕ → TcpServer → TcpServer
after_close w conn s =
    let s' = with_manager (remove_connection (w.fd_of conn)) s in
    tell s'.user_close_cb (closed conn) (with_manager (remove_connection (w.fd_of conn)) s')

pub ts_close_cb_lem :
    (w : World) (conn : ℕ) (s : TcpServer)
    → ts_close_cb w conn s ≡ (
        if is_some (lookup (w.fd_of conn) s.connections) then none else some (after_close w conn s))
unfolding ts_close_cb remove_tcp_conn erase_locked logged
ts_close_cb_lem w conn s =
    ap
      (λ (table : Map ℤ ℕ).
        goes_on (if is_some (lookup (w.fd_of conn) table) then none else some s'))
      (with_manager-field (λ (t : TcpServer). t.connections) (λ t o. refl)
        (remove_connection (w.fd_of conn)) s)
    ∙ either (is_some (lookup (w.fd_of conn) s.connections))
  where
    s' : TcpServer
    s' = with_manager (remove_connection (w.fd_of conn)) s

    goes_on : Option TcpServer → Option TcpServer
    goes_on o = elim o [
      | none ↦ none
      | some t ↦
          some
            (tell t.user_close_cb (closed conn) (with_manager (remove_connection (w.fd_of conn)) t))
    ]

    either :
        (b : Bool)
        → goes_on (if b then none else some s') ≡ (if b then none else some (after_close w conn s))
    either true = refl
    either false = refl
