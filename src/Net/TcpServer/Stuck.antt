-- ===== src/Net/TcpServer/Stuck.antt =====
-- The close callback of net/TcpServer.cpp for a connection that is registered.
use azh_lid.Prelude.{
  ℕ, ◌≡◌, inl, inr, refl, sym, ap, ◌∙◌, subst, Map, Bool, true, false, Option, none, some, List, [],
  ◌∷◌, arith, if◌then◌else◌, ◌&&◌, not, Bool-cases, ℤ, is_positive, lookup, is_some, int_eq,
  int_beq, beq_refl,
}
use azh_lid.Time.ConnectionTimeoutManager.{
  World, Manager, update_activity, remove_connection, wheel_step,
}
use azh_lid.Net.TcpServer.{
  TcpServer, Listens, listens, not_made, not_listening, begin, start, with_manager,
  add_new_tcp_conn, ts_close_cb, ts_message_cb, on_connection_active, enable_idle_timeout, disable,
  make_manager, set_idle_timeout, idle_each, on_connection_idle_timeout, timed_conns, round_of,
  wheel_round,
}
use azh_lid.Net.TcpServer.Close.{with_manager-field, after_close, ts_close_cb_lem}
use azh_lid.Net.TcpServer.Register.{lookup-add_new_tcp_conn}
use azh_lid.Net.TcpServer.Conns.{unwrap}
use azh_lid.Net.TcpServer.Runs.{
  Call, starts, stops, adds, hears, closes, sets_timeout, enables, rounds, call, calls,
}

-- Calls that keep the table: all but stop.
abbrev KeepsTable : Call → Type 0
KeepsTable (starts r) = Unit
KeepsTable stops = ⊥
KeepsTable (adds now later made c) = Unit
KeepsTable (hears now later conn readable) = Unit
KeepsTable (closes conn) = Unit
KeepsTable (sets_timeout ms) = Unit
KeepsTable (enables b) = Unit
KeepsTable (rounds now) = Unit

abbrev pub AllKeepTable : List (World × Call) → Type 0
AllKeepTable [] = Unit
AllKeepTable ((w, c) ∷ cs) = KeepsTable c × AllKeepTable cs

-- Some connection is registered with a descriptor.
abbrev IsTaken : ℤ → TcpServer → Type 0
IsTaken fd s = is_some (lookup fd s.connections) ≡ true

module _ (fd : ℤ) where
  same_table :
      (before after : Map ℤ ℕ)
      → after ≡ before
      → is_some (lookup fd before) ≡ true
      → is_some (lookup fd after) ≡ true
  same_table before after same h = ap (λ table. is_some (lookup fd table)) same ∙ h

  start-IsTaken : (r : Listens) (s : TcpServer) → IsTaken fd s → IsTaken fd (start r s).0
  unfolding start begin
  start-IsTaken r s h = either r
    where
      go :
          (b : Bool) (u : TcpServer × Bool)
          → IsTaken fd u.0
          → IsTaken fd (if◌then◌else◌ {A = TcpServer × Bool} b (s, true) u).0
      go true u k = h
      go false u k = k

      either : (r : Listens) → IsTaken fd (start r s).0
      either listens = go s.started (record (begin s) { has_acceptor = true }, true) h
      either not_made = go s.started (begin s, false) h
      either not_listening = go s.started (record (begin s) { has_acceptor = true }, false) h

  add_new_tcp_conn-IsTaken :
      (w : World) (now later made : ℕ) (c : Option ℕ) (s : TcpServer)
      → IsTaken fd s
      → IsTaken fd (add_new_tcp_conn w now later made c s)
  unfolding add_new_tcp_conn
  add_new_tcp_conn-IsTaken w now later made none s h = h
  add_new_tcp_conn-IsTaken w now later made (some conn) s h =
      ap is_some (lookup-add_new_tcp_conn w now later made conn s fd)
      ∙ either (is_positive (w.fd_of conn) && int_beq (w.fd_of conn) fd)
    where
      either :
          (b : Bool)
          → is_some (
              if b && not (is_some (lookup fd s.connections))
              then some conn
              else lookup fd s.connections)
            ≡ true
      either true = ground (arith, h)
      either false = h

  ts_message_cb-IsTaken :
      (w : World) (now later conn readable : ℕ) (s : TcpServer)
      → IsTaken fd s
      → IsTaken fd (ts_message_cb w now later conn readable s)
  unfolding ts_message_cb on_connection_active
  ts_message_cb-IsTaken w now later conn readable s h =
      same_table s.connections _
        (with_manager-field (λ (t : TcpServer). t.connections) (λ t o. refl)
          (update_activity now later (w.fd_of conn)) s)
        h

  ts_close_cb-IsTaken :
      (w : World) (conn : ℕ) (s s' : TcpServer)
      → ts_close_cb w conn s ≡ some s'
      → IsTaken fd s
      → IsTaken fd s'
  ts_close_cb-IsTaken w conn s s' e h =
      elim (Bool-cases (is_some (lookup (w.fd_of conn) s.connections))) [
        | inl t ↦ absurd (ground (arith, ap returned t, ts_close_cb_lem w conn s, e))
        | inr t ↦ subst (IsTaken fd) (unwrap (sym (ts_close_cb_lem w conn s ∙ ap returned t) ∙ e)) (
            same_table s.connections _
              (with_manager-field connections_of (λ t o. refl) _ s1
                ∙ with_manager-field connections_of (λ t o. refl) _ s)
              h)
      ]
    where
      connections_of : TcpServer → Map ℤ ℕ
      connections_of t = t.connections

      s1 : TcpServer
      s1 = with_manager (remove_connection (w.fd_of conn)) s

      returned : Bool → Option TcpServer
      returned b = if b then none else some (after_close w conn s)

  enable_idle_timeout-IsTaken :
      (b : Bool) (s : TcpServer) → IsTaken fd s → IsTaken fd (enable_idle_timeout b s)
  unfolding enable_idle_timeout disable
  enable_idle_timeout-IsTaken true s h = go s.idle_timeout_enabled
    where
      go :
          (b : Bool)
          → IsTaken fd (
              if b then s else record s {
                idle_timeout_enabled = true;
                idle_manager = elim s.idle_manager [
                  | none ↦ make_manager s.started s
                  | some m ↦ some m
                ];
              })
      go true = h
      go false = h
  enable_idle_timeout-IsTaken false s h = go s.idle_timeout_enabled
    where
      go : (b : Bool) → IsTaken fd (if b then disable s else s)
      go true = h
      go false = h

  idle_each-IsTaken :
      (conns : List ℕ) (s : TcpServer) → IsTaken fd s → IsTaken fd (idle_each conns s)
  unfolding idle_each on_connection_idle_timeout
  idle_each-IsTaken [] s h = h
  idle_each-IsTaken (conn ∷ conns) s h =
      idle_each-IsTaken conns (on_connection_idle_timeout (some conn) s) h

  wheel_round-IsTaken :
      (w : World) (now : ℕ) (s : TcpServer) → IsTaken fd s → IsTaken fd (wheel_round w now s)
  unfolding wheel_round round_of
  wheel_round-IsTaken w now s h = go s.idle_manager
    where
      go : (o : Option Manager) → IsTaken fd (round_of w now o s)
      go none = h
      go (some m) =
          idle_each-IsTaken (timed_conns m (wheel_step w now m))
            (record s { idle_manager = some (wheel_step w now m) }) h

  call-IsTaken :
      (w : World) (c : Call) (s s' : TcpServer)
      → KeepsTable c
      → call w c s ≡ some s'
      → IsTaken fd s
      → IsTaken fd s'
  unfolding call set_idle_timeout
  call-IsTaken w (starts r) s s' k e h = subst (IsTaken fd) (unwrap e) (start-IsTaken r s h)
  call-IsTaken w stops s s' k e h = absurd k
  call-IsTaken w (adds now later made c) s s' k e h =
      subst (IsTaken fd) (unwrap e) (add_new_tcp_conn-IsTaken w now later made c s h)
  call-IsTaken w (hears now later conn readable) s s' k e h =
      subst (IsTaken fd) (unwrap e) (ts_message_cb-IsTaken w now later conn readable s h)
  call-IsTaken w (closes conn) s s' k e h = ts_close_cb-IsTaken w conn s s' e h
  call-IsTaken w (sets_timeout ms) s s' k e h = subst (IsTaken fd) (unwrap e) h
  call-IsTaken w (enables b) s s' k e h =
      subst (IsTaken fd) (unwrap e) (enable_idle_timeout-IsTaken b s h)
  call-IsTaken w (rounds now) s s' k e h =
      subst (IsTaken fd) (unwrap e) (wheel_round-IsTaken w now s h)

  calls-IsTaken :
      (cs : List (World × Call)) (s s' : TcpServer)
      → AllKeepTable cs
      → calls cs s ≡ some s'
      → IsTaken fd s
      → IsTaken fd s'
  unfolding calls
  calls-IsTaken [] s s' k e h = subst (IsTaken fd) (unwrap e) h
  calls-IsTaken ((w, c) ∷ cs) s s' (k, ks) e h =
      go (call w c s) (λ t f. call-IsTaken w c s t k f h) (λ t f u. calls-IsTaken cs t s' ks f u) e
    where
      go :
          (o : Option TcpServer)
          → ((t : TcpServer) → o ≡ some t → IsTaken fd t)
          → ((t : TcpServer) → calls cs t ≡ some s' → IsTaken fd t → IsTaken fd s')
          → (elim o [ none ↦ none | some t ↦ calls cs t ]) ≡ some s'
          → IsTaken fd s'
      go none kept rest f = absurd (ground (arith, f))
      go (some t) kept rest f = rest t f (kept t refl)

-- The close callback of a connection that was registered with a positive descriptor, and still has
-- it, never returns, after any calls that return and of which none is stop.
pub ts_close_cb-calls :
    (w w' : World) (now later made conn : ℕ) (cs : List (World × Call)) (s s' : TcpServer)
    → is_positive (w.fd_of conn) ≡ true
    → w'.fd_of conn ≡ w.fd_of conn
    → AllKeepTable cs
    → calls cs (add_new_tcp_conn w now later made (some conn) s) ≡ some s'
    → ts_close_cb w' conn s' ≡ none
ts_close_cb-calls w w' now later made conn cs s s' good same k e =
    ts_close_cb_lem w' conn s' ∙ rw same (rw (calls-IsTaken (w.fd_of conn) cs _ s' k e added) refl)
  where
    either : (o : Option ℕ) → is_some (if not (is_some o) then some conn else o) ≡ true
    either none = refl
    either (some i) = refl

    added : IsTaken (w.fd_of conn) (add_new_tcp_conn w now later made (some conn) s)
    added =
        ap is_some (lookup-add_new_tcp_conn w now later made conn s (w.fd_of conn))
        ∙ rw good (rw (beq_refl (w.fd_of conn)) (either (lookup (w.fd_of conn) s.connections)))
