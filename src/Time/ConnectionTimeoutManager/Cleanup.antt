-- ===== src/Time/ConnectionTimeoutManager/Cleanup.antt =====
-- The smaller operations of time/ConnectionTimeoutManager.cpp keep the wheel well-formed.
use azh_lid.Prelude.{
  ℕ, zero, suc, ◌<◌, ◌≡◌, inl, inr, refl, sym, ap, ◌∙◌, subst, Bool, true, false, Option, none,
  some, List, [], ◌∷◌, arith, ◌==◌, if◌then◌else◌, Bool-cases, length, map, length-set, replicate,
  length-replicate, ==_iff, ℤ, pos, negsuc, is_positive, pos_part, Map, int_eq, int_beq,
}
use azh_lid.Time.ConnectionTimeoutManager.{
  World, ConnectionEntry, Manager, entry_at, slot_at, calculate_slot, new_manager, start, stop,
  touch, move_to_new_slot, remove_connection, set_idle_timeout, reset_each, purge_slot, cleanup_one,
  cleanup_each,
}
use azh_lid.Time.ConnectionTimeoutManager.Valid.{times, AllBelow, IsValid}
use azh_lid.Time.ConnectionTimeoutManager.Moves.{
  touch-IsValid, move_to_new_slot-IsValid, remove_connection-IsValid,
}

slot_at-replicate : (n j : ℕ) → slot_at j (replicate n []) ≡ []
slot_at-replicate zero j = refl
slot_at-replicate (suc n) zero = refl
slot_at-replicate (suc n) (suc j) = slot_at-replicate n j

pub new_manager-IsValid :
    (timeout wheel tick : ℤ) (m : Manager)
    → is_positive wheel ≡ true
    → new_manager timeout wheel tick ≡ some m
    → IsValid m
unfolding new_manager
new_manager-IsValid timeout (negsuc n) tick m h e = absurd (ground arith)
new_manager-IsValid timeout (pos n) tick m h e =
    subst IsValid (ap (λ (o : Option Manager). elim o [ none ↦ m | some x ↦ x ]) e) (record {
      slots = length-replicate n [] ∙ ground (arith, h);
      current = ground (arith, h);
      ticking = elim (Bool-cases (is_positive tick)) [
        | inl t ↦ rw t (pos_part_positive tick t)
        | inr t ↦ rw t (omega arith)
      ];
      placed = λ s id. inl (ap (times id) (slot_at-replicate n s));
      in_wheel = λ id. ground (arith, h);
      table = tt;
    })
  where
    pos_part_positive : (i : ℤ) → is_positive i ≡ true → 0 < pos_part i
    pos_part_positive (pos n) p = ground arith
    pos_part_positive (negsuc n) p = absurd (ground arith)

either_way : (b : Bool) (m n : Manager) → IsValid m → IsValid n → IsValid (if b then m else n)
either_way true m n v w = v
either_way false m n v w = w

-- Settings that the wheel does not depend on.
pub set_idle_timeout-IsValid : (ms : ℤ) (m : Manager) → IsValid m → IsValid (set_idle_timeout ms m)
unfolding set_idle_timeout
set_idle_timeout-IsValid ms m v =
    either_way (is_positive ms) _ m
      (record {
        slots = v.slots;
        current = v.current;
        ticking = v.ticking;
        placed = v.placed;
        in_wheel = v.in_wheel;
        table = v.table;
      })
      v

pub start-IsValid : (m : Manager) → IsValid m → IsValid (start m)
unfolding start
start-IsValid m v = either_way m.running m _ v (record {
  slots = v.slots;
  current = v.current;
  ticking = v.ticking;
  placed = v.placed;
  in_wheel = v.in_wheel;
  table = v.table;
})

pub stop-IsValid : (m : Manager) → IsValid m → IsValid (stop m)
unfolding stop
stop-IsValid m v =
    either_way m.running _ m
      (record {
        slots = v.slots;
        current = v.current;
        ticking = v.ticking;
        placed = v.placed;
        in_wheel = v.in_wheel;
        table = tt;
      })
      v

length-touch-move :
    (now later id : ℕ) (m : Manager)
    → length (move_to_new_slot later id (touch now id m)).heap ≡ length m.heap
unfolding move_to_new_slot touch
length-touch-move now later id m =
    elim (Bool-cases (
      calculate_slot later (entry_at id (touch now id m).heap).last_activity_time (touch now id m)
      == (entry_at id (touch now id m).heap).slot_position)) [
        | inl t ↦ rw t (length-set (touch now id m).heap id _ ∙ length-set m.heap id _)
        | inr t ↦ rw t (length-set (touch now id m).heap id _ ∙ length-set m.heap id _)
      ]

pub reset_each-IsValid :
    (now later : ℕ) (table : Map ℤ ℕ) (m : Manager)
    → AllBelow (length m.heap) table
    → IsValid m
    → IsValid (reset_each now later table m)
unfolding reset_each touch
reset_each-IsValid now later [] m h v = v
reset_each-IsValid now later ((fd, id) ∷ table) m h v =
    reset_each-IsValid now later table (move_to_new_slot later id (touch now id m))
      (rw (length-touch-move now later id m) h.1)
      (move_to_new_slot-IsValid later id (touch now id m)
        (rw (length-set m.heap id (record (entry_at id m.heap) { last_activity_time = now })) h.0)
        (touch-IsValid now id m v))

slot_at-map :
    (f : List ℕ → List ℕ) (j : ℕ) (wheel : List (List ℕ))
    → f [] ≡ []
    → slot_at j (map f wheel) ≡ f (slot_at j wheel)
slot_at-map f j [] h = sym h
slot_at-map f zero (l ∷ wheel) h = refl
slot_at-map f (suc j) (l ∷ wheel) h = slot_at-map f j wheel h

length-map : (f : List ℕ → List ℕ) (wheel : List (List ℕ)) → length (map f wheel) ≡ length wheel
length-map f [] = refl
length-map f (l ∷ wheel) = ap suc (length-map f wheel)

module _ (w : World) (heap : List ConnectionEntry) (fd : ℤ) where
  times-purge_slot :
      (k : ℕ) (ids : List ℕ)
      → times k (purge_slot w heap fd ids)
        ≡ (if int_beq (w.fd_of (entry_at k heap).conn) fd then 0 else times k ids)
  unfolding purge_slot
  times-purge_slot k [] = ground arith
  times-purge_slot k (id ∷ ids) = elim (Bool-cases (id == k)) [
    | inr other ↦ elim (Bool-cases (int_beq (w.fd_of (entry_at id heap).conn) fd)) [
      | inl t ↦ rw t (rw other (times-purge_slot k ids ∙ ground arith))
      | inr t ↦ rw t (rw other (ground (arith, times-purge_slot k ids)))
    ]
    | inl same ↦
        subst
          (λ (i : ℕ).
            times k (purge_slot w heap fd (i ∷ ids))
            ≡ (if int_beq (w.fd_of (entry_at k heap).conn) fd then 0 else times k (i ∷ ids)))
          (sym ((==_iff id k).0 same))
          (elim (Bool-cases (int_beq (w.fd_of (entry_at k heap).conn) fd)) [
            | inl t ↦ rw t (times-purge_slot k ids ∙ ground (arith, t))
            | inr t ↦ rw t (ground (arith, times-purge_slot k ids))
          ])
  ]

cleanup_one-IsValid : (w : World) (fd : ℤ) (m : Manager) → IsValid m → IsValid (cleanup_one w fd m)
unfolding cleanup_one purge_slot
cleanup_one-IsValid w fd m v = record {
  slots = length-map (purge_slot w m'.heap fd) m'.time_wheel ∙ v'.slots;
  current = v'.current;
  ticking = v'.ticking;
  placed = λ s id.
      rw (slot_at-map (purge_slot w m'.heap fd) s m'.time_wheel refl) (
        ground (arith, v'.placed s id, times-purge_slot w m'.heap fd id (slot_at s m'.time_wheel)));
  in_wheel = v'.in_wheel;
  table = v'.table;
}
  where
    m' : Manager
    m' = remove_connection fd m

    v' : IsValid m'
    v' = remove_connection-IsValid fd m v

pub cleanup_each-IsValid :
    (w : World) (fds : List ℤ) (m : Manager) → IsValid m → IsValid (cleanup_each w fds m)
unfolding cleanup_each
cleanup_each-IsValid w [] m v = v
cleanup_each-IsValid w (fd ∷ fds) m v =
    cleanup_each-IsValid w fds (cleanup_one w fd m) (cleanup_one-IsValid w fd m v)
