-- ===== src/Net/TcpServer/Register.antt =====
-- What net/TcpServer.cpp does to its table when a connection is registered.
use azh_lid.Prelude.{
  ℕ, ◌≡◌, inl, inr, refl, ap, ◌∙◌, Bool, true, false, Option, none, some, arith, if◌then◌else◌,
  ◌&&◌, not, Bool-cases, ℤ, is_positive, Map, lookup, insert, is_some, int_eq, int_beq, int_beq_iff,
  lookup-insert,
}
use azh_lid.Time.ConnectionTimeoutManager.{World, Manager, add_connection}
use azh_lid.Net.TcpServer.{TcpServer, with_manager, add_registered, add_new_tcp_conn}
use azh_lid.Net.TcpServer.Close.{with_manager-field}

-- What a registration leaves alone.
pub add_new_tcp_conn-field {ℓ} :
    {B : Type ℓ} (g : TcpServer → B)
    → ((s : TcpServer) (o : Option Manager) → g (record s { idle_manager = o }) ≡ g s)
    → ((s : TcpServer) (table : Map ℤ ℕ) → g (record s { connections = table }) ≡ g s)
    → (w : World) (now later made : ℕ) (c : Option ℕ) (s : TcpServer)
    → g (add_new_tcp_conn w now later made c s) ≡ g s
unfolding add_new_tcp_conn add_registered
add_new_tcp_conn-field g same same' w now later made none s = refl
add_new_tcp_conn-field g same same' w now later made (some conn) s =
    positive (is_positive (w.fd_of conn))
  where
    s' : TcpServer
    s' =
        with_manager (add_connection w now later made (some conn))
          (record s { connections = insert (w.fd_of conn) conn s.connections })

    registered : (b : Bool) → g (if b then s else s') ≡ g s
    registered true = refl
    registered false = with_manager-field g same _ _ ∙ same' s _

    positive : (b : Bool) → g (if b then add_registered w now later made conn s else s) ≡ g s
    positive true = registered (is_some (lookup (w.fd_of conn) s.connections))
    positive false = refl

add_registered-table :
    (w : World) (now later made conn : ℕ) (s : TcpServer)
    → (add_registered w now later made conn s).connections ≡ (
        if is_some (lookup (w.fd_of conn) s.connections)
        then s.connections
        else insert (w.fd_of conn) conn s.connections)
unfolding add_registered
add_registered-table w now later made conn s =
    either (is_some (lookup (w.fd_of conn) s.connections))
  where
    new : TcpServer
    new = record s { connections = insert (w.fd_of conn) conn s.connections }

    either :
        (b : Bool)
        → (if b
            then s
            else with_manager (add_connection w now later made (some conn)) new).connections
          ≡ (if b then s.connections else new.connections)
    either true = refl
    either false = with_manager-field (λ (t : TcpServer). t.connections) (λ t o. refl) _ new

lookup-insert_new :
    (fd k : ℤ) (i : ℕ) (table : Map ℤ ℕ)
    → lookup k (if is_some (lookup fd table) then table else insert fd i table)
      ≡ (if int_beq fd k && not (is_some (lookup k table)) then some i else lookup k table)
lookup-insert_new fd k i table = elim (Bool-cases (int_beq fd k)) [
  | inl same ↦ ground (
    arith,
    same,
    ap (λ (j : ℤ). lookup j table) ((int_beq_iff fd k).0 same),
    lookup-insert k fd i table,
  )
  | inr other ↦ ground (arith, other, lookup-insert k fd i table)
]

-- The table after a registration.
pub lookup-add_new_tcp_conn :
    (w : World) (now later made conn : ℕ) (s : TcpServer) (fd : ℤ)
    → lookup fd (add_new_tcp_conn w now later made (some conn) s).connections ≡ (
        if is_positive (w.fd_of conn)
          && int_beq (w.fd_of conn) fd
          && not (is_some (lookup fd s.connections))
        then some conn
        else lookup fd s.connections)
unfolding add_new_tcp_conn
lookup-add_new_tcp_conn w now later made conn s fd = either (is_positive (w.fd_of conn))
  where
    either :
        (b : Bool)
        → lookup fd (if b then add_registered w now later made conn s else s).connections ≡ (
            if b && int_beq (w.fd_of conn) fd && not (is_some (lookup fd s.connections))
            then some conn
            else lookup fd s.connections)
    either true =
        ap (lookup fd) (add_registered-table w now later made conn s)
        ∙ lookup-insert_new (w.fd_of conn) fd conn s.connections
    either false = refl
