-- ===== src/Time/ConnectionTimeoutManager/Table.antt =====
-- Which descriptors the table of time/ConnectionTimeoutManager.cpp holds, and whether its threads run.
use azh_lid.Prelude.{
  ℕ, ◌≡◌, inl, inr, refl, ◌∙◌, Bool, true, false, Option, none, some, List, [], ◌∷◌, arith, ◌==◌,
  if◌then◌else◌, Bool-cases, length, ℤ, pos_part, is_positive, Map, lookup, insert, erase, is_some,
  int_eq, int_beq, lookup-insert, lookup-erase,
}
use azh_lid.Time.ConnectionTimeoutManager.{
  World, Manager, ConnectionEntry, calculate_slot, entry_at, add_entry, add_connection, touch,
  move_to_new_slot, move_found, update_activity, remove_connection, set_idle_timeout, expire,
  expire_all, process_timeout_connections, wheel_step,
}
use azh_lid.Time.ConnectionTimeoutManager.Rounds.{expire_all-field}

-- Each descriptor of one table is in the other.
abbrev pub Within : Map ℤ ℕ → Map ℤ ℕ → Type 0
Within small large = (fd : ℤ) → is_some (lookup fd small) ≡ true → is_some (lookup fd large) ≡ true

erase-Within : (fd : ℤ) (small large : Map ℤ ℕ) → Within small large → Within (erase fd small) large
erase-Within fd small large v k h = elim (Bool-cases (int_beq fd k)) [
  | inl t ↦ absurd (ground (arith, lookup-erase k fd small, h, t))
  | inr t ↦ v k (ground (arith, lookup-erase k fd small, h, t))
]

pub wider-Within :
    (fd : ℤ) (j : ℕ) (small large : Map ℤ ℕ) → Within small large → Within small (insert fd j large)
wider-Within fd j small large v k h = ground (arith, lookup-insert k fd j large, v k h)

insert-Within :
    (fd : ℤ) (i j : ℕ) (small large : Map ℤ ℕ)
    → Within small large
    → Within (insert fd i small) (insert fd j large)
insert-Within fd i j small large v k h = elim (Bool-cases (int_beq fd k)) [
  | inl t ↦ ground (arith, lookup-insert k fd j large, t)
  | inr t ↦
      ground
        (arith, lookup-insert k fd j large, v k (ground (arith, lookup-insert k fd i small, h, t)))
]

pub add_connection-Within :
    (w : World) (now later made conn j : ℕ) (m : Manager) (large : Map ℤ ℕ)
    → Within m.connections large
    → Within
        (add_connection w now later made (some conn) m).connections
        (insert (w.fd_of conn) j large)
unfolding add_connection add_entry
add_connection-Within w now later made conn j m large v =
    elim (Bool-cases (is_positive (w.fd_of conn))) [
      | inr t ↦ rw t (wider-Within (w.fd_of conn) j m.connections large v)
      | inl t ↦ rw t (elim (Bool-cases (is_some (lookup (w.fd_of conn) m.connections))) [
        | inl old ↦ rw old (wider-Within (w.fd_of conn) j m.connections large v)
        | inr new ↦ rw new (insert-Within (w.fd_of conn) (length m.heap) j m.connections large v)
      ])
    ]

pub remove_connection-Within :
    (fd : ℤ) (m : Manager) (large : Map ℤ ℕ)
    → Within m.connections large
    → Within (remove_connection fd m).connections large
unfolding remove_connection
remove_connection-Within fd m large v = elim (Bool-cases (is_some (lookup fd m.connections))) [
  | inl t ↦ rw t (erase-Within fd m.connections large v)
  | inr t ↦ rw t v
]

expire_all-Within :
    (w : World) (ids : List ℕ) (m : Manager) (large : Map ℤ ℕ)
    → Within m.connections large
    → Within (expire_all w ids m).connections large
unfolding expire_all expire
expire_all-Within w [] m large v = v
expire_all-Within w (id ∷ ids) m large v =
    expire_all-Within w ids (expire w id m) large
      (erase-Within (w.fd_of (entry_at id m.heap).conn) m.connections large v)

pub wheel_step-Within :
    (w : World) (now : ℕ) (m : Manager) (large : Map ℤ ℕ)
    → Within m.connections large
    → Within (wheel_step w now m).connections large
unfolding wheel_step process_timeout_connections
wheel_step-Within w now m large v = expire_all-Within w _ _ large v

-- What the operations on entries leave alone.
module _ {ℓ} {B : Type ℓ} (f : Manager → B)
    (same : (m : Manager) (heap : List ConnectionEntry) (wheel : List (List ℕ))
      → f (record m { heap = heap; time_wheel = wheel }) ≡ f m) where
  move_to_new_slot-field : (later id : ℕ) (m : Manager) → f (move_to_new_slot later id m) ≡ f m
  unfolding move_to_new_slot
  move_to_new_slot-field later id m =
      elim (Bool-cases (
        calculate_slot later (entry_at id m.heap).last_activity_time m
        == (entry_at id m.heap).slot_position)) [
          | inl t ↦ rw t (same m _ m.time_wheel)
          | inr t ↦ rw t (same m _ _)
        ]

  move_found-field :
      (now later : ℕ) (o : Option ℕ) (m : Manager) → f (move_found now later o m) ≡ f m
  unfolding move_found touch
  move_found-field now later none m = refl
  move_found-field now later (some id) m =
      move_to_new_slot-field later id (touch now id m) ∙ same m _ m.time_wheel

  pub update_activity-field :
      (now later : ℕ) (fd : ℤ) (m : Manager) → f (update_activity now later fd m) ≡ f m
  unfolding update_activity
  update_activity-field now later fd m = move_found-field now later (lookup fd m.connections) m

-- Whether its threads run.
pub add_connection-running :
    (w : World) (now later made conn : ℕ) (m : Manager)
    → (add_connection w now later made (some conn) m).running ≡ m.running
unfolding add_connection add_entry
add_connection-running w now later made conn m = ground arith

pub remove_connection-running :
    (fd : ℤ) (m : Manager) → (remove_connection fd m).running ≡ m.running
unfolding remove_connection
remove_connection-running fd m = ground arith

pub wheel_step-running :
    (w : World) (now : ℕ) (m : Manager) → (wheel_step w now m).running ≡ m.running
unfolding wheel_step process_timeout_connections expire
wheel_step-running w now m = expire_all-field (λ (n : Manager). n.running) w _ _ (λ id n. refl)

pub set_idle_timeout-field {ℓ} :
    {B : Type ℓ} (f : Manager → B)
    → ((m : Manager) (t : ℕ) → f (record m { idle_timeout_ms = t }) ≡ f m)
    → (ms : ℤ) (m : Manager) → f (set_idle_timeout ms m) ≡ f m
unfolding set_idle_timeout
set_idle_timeout-field f same ms m = either (is_positive ms)
  where
    either : (b : Bool) → f (if b then record m { idle_timeout_ms = pos_part ms } else m) ≡ f m
    either true = same m _
    either false = refl
