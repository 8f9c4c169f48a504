-- ===== src/Time/ConnectionTimeoutManager/Moves.antt =====
-- The operations of time/ConnectionTimeoutManager.cpp keep the wheel well-formed.
use azh_lid.Prelude.{
  ℕ, ◌<◌, ◌≡◌, inl, inr, refl, ap, ◌∙◌, subst, Bool, true, Option, none, some, [], ◌∷◌, ◌++◌, arith,
  ◌==◌, if◌then◌else◌, Bool-cases, ==_iff, length, set, length-set, length-append, get_or-set_self,
  get_or-set_ne, ℤ, is_positive, lookup, int_eq, is_some,
}
use azh_lid.Time.ConnectionTimeoutManager.{
  World, ConnectionEntry, Manager, entry_at, slot_at, blank, set_entry, push_entry, take_entry,
  calculate_slot, add_entry, add_connection, touch, move_to_new_slot, move_found, update_activity,
  remove_connection, ticks_needed,
}
use azh_lid.Time.ConnectionTimeoutManager.Valid.{
  AllBelow-le, AllBelow-lookup, AllBelow-insert, AllBelow-erase, times, IsPlaced, IsValid,
  entry-set, entry-append, push_entry-IsPlaced, take_entry_lem,
}
use azh_lid.Time.ConnectionTimeoutManager.Places.{
  calculate_slot_in, set_entry-IsPlaced, retarget-IsPlaced, append-IsPlaced, length-push_entry,
  length-take_entry,
}

pub add_entry-IsValid :
    (fd : ℤ) (e : ConnectionEntry) (m : Manager)
    → e.slot_position < m.wheel_size
    → IsValid m
    → IsValid (add_entry fd e m)
unfolding add_entry
add_entry-IsValid fd e m h v = elim (Bool-cases (is_some (lookup fd m.connections))) [
  | inl old ↦ rw old v
  | inr fresh_fd ↦ rw fresh_fd (record {
    slots = length-push_entry e.slot_position (length m.heap) m.time_wheel ∙ v.slots;
    current = v.current;
    ticking = v.ticking;
    in_wheel = λ id. rw (entry-append m.heap e id) (ground (arith, v.in_wheel id));
    table =
        AllBelow-insert _ fd (length m.heap) m.connections
          (omega (arith, length-append m.heap (e ∷ [])))
          (AllBelow-le (length m.heap) _ m.connections
            (omega (arith, length-append m.heap (e ∷ []))) v.table);
    placed =
        push_entry-IsPlaced e.slot_position (length m.heap) m.time_wheel (m.heap ++ e ∷ [])
          (omega (arith, v.slots)) (omega (arith, length-append m.heap (e ∷ [])))
          (ap (λ (x : ConnectionEntry). x.slot_position)
            (entry-append m.heap e (length m.heap)
              ∙ ap (λ (b : Bool). if b then e else entry_at (length m.heap) m.heap)
                  {x = length m.heap == length m.heap} {y = true} (ground arith)))
          (elim (v.placed e.slot_position (length m.heap)) [
            | inl nowhere ↦ nowhere
            | inr (once, inside, at) ↦ absurd (omega arith)
          ])
          (append-IsPlaced e m.time_wheel m.heap v.placed);
  })
]

pub add_connection-IsValid :
    (w : World) (now later made : ℕ) (c : Option ℕ) (m : Manager)
    → IsValid m
    → IsValid (add_connection w now later made c m)
unfolding add_connection
add_connection-IsValid w now later made none m v = v
add_connection-IsValid w now later made (some conn) m v =
    elim (Bool-cases (is_positive (w.fd_of conn))) [
      | inl t ↦ rw t (add_entry-IsValid _ _ m (calculate_slot_in later now m v) v)
      | inr t ↦ rw t v
    ]

pub set_entry-IsValid :
    (id : ℕ) (e : ConnectionEntry) (m : Manager)
    → e.slot_position ≡ (entry_at id m.heap).slot_position
    → IsValid m
    → IsValid (set_entry id e m)
set_entry-IsValid id e m h v = record {
  slots = v.slots;
  current = v.current;
  ticking = v.ticking;
  placed = set_entry-IsPlaced id e m.time_wheel m.heap h v.placed;
  in_wheel =
      λ k. rw (entry-set (λ (x : ConnectionEntry). x.slot_position) m.heap id k e h) (v.in_wheel k);
  table = rw (length-set m.heap id e) v.table;
}

pub touch-IsValid : (now id : ℕ) (m : Manager) → IsValid m → IsValid (touch now id m)
unfolding touch
touch-IsValid now id m v = set_entry-IsValid id _ m refl v

pub move_to_new_slot-IsValid :
    (later id : ℕ) (m : Manager)
    → id < length m.heap
    → IsValid m
    → IsValid (move_to_new_slot later id m)
unfolding move_to_new_slot
move_to_new_slot-IsValid later id m inside v =
    elim (Bool-cases (
      calculate_slot later (entry_at id m.heap).last_activity_time m
      == (entry_at id m.heap).slot_position)) [
        | inl same ↦ rw same (set_entry-IsValid id _ m refl v)
        | inr other ↦ rw other (record {
          slots = length-push_entry s id _ ∙ length-take_entry p id m.time_wheel ∙ v.slots;
          current = v.current;
          ticking = v.ticking;
          placed = placed;
          in_wheel = λ k. moved_in k;
          table = rw (length-set m.heap id e) v.table;
        })
      ]
  where
    s : ℕ
    s = calculate_slot later (entry_at id m.heap).last_activity_time m

    p : ℕ
    p = (entry_at id m.heap).slot_position

    e : ConnectionEntry
    e = record (entry_at id m.heap) { slot_position = s; remaining_ticks = ticks_needed m }

    taken :
        IsPlaced (take_entry p id m.time_wheel) m.heap
        × ((j : ℕ) → times id (slot_at j (take_entry p id m.time_wheel)) ≡ 0)
    taken =
        take_entry_lem p id m.time_wheel m.heap (omega (arith, v.slots, v.in_wheel id)) refl
          v.placed

    placed : IsPlaced (push_entry s id (take_entry p id m.time_wheel)) (set m.heap id e)
    placed =
        push_entry-IsPlaced s id (take_entry p id m.time_wheel) (set m.heap id e)
          (omega (
            arith,
            length-take_entry p id m.time_wheel,
            v.slots,
            calculate_slot_in later (entry_at id m.heap).last_activity_time m v,
          ))
          (omega (arith, length-set m.heap id e))
          (ap (λ (x : ConnectionEntry). x.slot_position) (get_or-set_self m.heap id e blank inside))
          (taken.1 s) (retarget-IsPlaced id e (take_entry p id m.time_wheel) m.heap taken.1 taken.0)

    moved_in : (k : ℕ) → (entry_at k (set m.heap id e)).slot_position < m.wheel_size
    moved_in k = elim (Bool-cases (id == k)) [
      | inl same ↦
          subst (λ (i : ℕ). (entry_at i (set m.heap id e)).slot_position < m.wheel_size)
            ((==_iff id k).0 same)
            (rw (get_or-set_self m.heap id e blank inside) (calculate_slot_in later _ m v))
      | inr other ↦
          rw (get_or-set_ne m.heap {i = id} {j = k} e blank (λ q. absurd (ground arith)))
            (v.in_wheel k)
    ]

move_found-IsValid :
    (now later : ℕ) (o : Option ℕ) (m : Manager)
    → ((id : ℕ) → o ≡ some id → id < length m.heap)
    → IsValid m
    → IsValid (move_found now later o m)
unfolding move_found touch
move_found-IsValid now later none m inside v = v
move_found-IsValid now later (some id) m inside v =
    move_to_new_slot-IsValid later id (touch now id m)
      (omega (
        arith,
        inside id refl,
        length-set m.heap id (record (entry_at id m.heap) { last_activity_time = now }),
      ))
      (touch-IsValid now id m v)

pub update_activity-IsValid :
    (now later : ℕ) (fd : ℤ) (m : Manager) → IsValid m → IsValid (update_activity now later fd m)
unfolding update_activity
update_activity-IsValid now later fd m v =
    move_found-IsValid now later (lookup fd m.connections) m
      (λ id e. AllBelow-lookup _ fd m.connections v.table e) v

pub remove_connection-IsValid :
    (fd : ℤ) (m : Manager) → IsValid m → IsValid (remove_connection fd m)
unfolding remove_connection
remove_connection-IsValid fd m v = elim (Bool-cases (is_some (lookup fd m.connections))) [
  | inl t ↦ rw t (record {
    slots = v.slots;
    current = v.current;
    ticking = v.ticking;
    placed = v.placed;
    in_wheel = v.in_wheel;
    table = AllBelow-erase _ fd m.connections v.table;
  })
  | inr t ↦ rw t v
]
