-- ===== src/Net/TcpServer/Idle.antt =====
-- The idle manager of net/TcpServer.cpp, beside the server's own table.
use azh_lid.Prelude.{
  ℕ, ◌≡◌, refl, ◌∙◌, Bool, true, false, Option, none, some, arith, ◌&&◌, if◌then◌else◌, ℤ, Map,
  int_eq,
}
use azh_lid.Time.ConnectionTimeoutManager.{Manager}
use azh_lid.Time.ConnectionTimeoutManager.Valid.{IsValid}
use azh_lid.Time.ConnectionTimeoutManager.Table.{Within}
use azh_lid.Net.TcpServer.{TcpServer, with_manager}

-- A server that runs with the idle timeout enabled has a manager, which runs; one without it has none.
-- The manager is well-formed, and knows no descriptor that the server does not.
abbrev pub HasManager : Bool → Bool → Map ℤ ℕ → Option Manager → Type 0
HasManager started enabled table none = (started && enabled) ≡ false
HasManager started enabled table (some m) =
    (enabled ≡ true) × (started ≡ true → m.running ≡ true) × IsValid m × Within m.connections table

abbrev pub IsKept : TcpServer → Type 0
IsKept s = HasManager s.started s.idle_timeout_enabled s.connections s.idle_manager

-- A manager's change that keeps what the server needs of it.
abbrev pub Keeps : (Manager → Manager) → Map ℤ ℕ → Map ℤ ℕ → Type 0
Keeps f table table' =
    (m : Manager)
    → ((f m).running ≡ m.running)
      × (IsValid m → IsValid (f m))
      × (Within m.connections table → Within (f m).connections table')

pub changed_manager :
    (f : Manager → Manager) (started enabled : Bool) (table table' : Map ℤ ℕ) (o : Option Manager)
    → Keeps f table table'
    → HasManager started enabled table o
    → HasManager started enabled table' (elim o [ none ↦ none | some m ↦ some (f m) ])
changed_manager f started enabled table table' none keeps h = h
changed_manager f started enabled table table' (some m) keeps (on, runs, valid, within) =
    (on, λ t. (keeps m).0 ∙ runs t, (keeps m).1 valid, (keeps m).2 within)

no_manager :
    (started enabled : Bool) (table table' : Map ℤ ℕ) (o : Option Manager)
    → enabled ≡ false
    → HasManager started enabled table o
    → HasManager started enabled table' o
no_manager started enabled table table' none off h = h
no_manager started enabled table table' (some m) off h = absurd (ground (arith, h.0))

pub either_case :
    (b : Bool) (s s' : TcpServer)
    → (b ≡ true → IsKept s)
    → (b ≡ false → IsKept s')
    → IsKept (if b then s else s')
either_case true s s' h h' = h refl
either_case false s s' h h' = h' refl

pub with_manager-IsKept :
    (f : Manager → Manager) (s : TcpServer) (table' : Map ℤ ℕ)
    → Keeps f s.connections table'
    → IsKept s
    → IsKept (with_manager f (record s { connections = table' }))
unfolding with_manager
with_manager-IsKept f s table' keeps v =
    either_case s.idle_timeout_enabled _ _
      (λ on.
        changed_manager f s.started s.idle_timeout_enabled s.connections table' s.idle_manager keeps
          v)
      (λ off. no_manager s.started s.idle_timeout_enabled s.connections table' s.idle_manager off v)
