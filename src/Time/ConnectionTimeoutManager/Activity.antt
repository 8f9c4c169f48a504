-- ===== src/Time/ConnectionTimeoutManager/Activity.antt =====
-- What a sign of life does to a connection's place in the wheel of time/ConnectionTimeoutManager.cpp.
use azh_lid.Prelude.{
  ℕ, ◌*◌, ◌≤◌, ◌<◌, ◌≡◌, inl, inr, refl, ap, ◌∙◌, some, List, [], ◌∷◌, ◌++◌, arith, ◌==◌,
  Bool-cases, length, get_or-set_self, length-set, ℤ, lookup, int_eq,
}
use azh_lid.Time.ConnectionTimeoutManager.{
  World, ConnectionEntry, Manager, blank, entry_at, slot_at, push_entry, take_entry, calculate_slot,
  touch, move_to_new_slot, move_found, update_activity, ticks_needed, time_wheel_loop,
}
use azh_lid.Time.ConnectionTimeoutManager.Valid.{
  times, IsValid, AllBelow-lookup, slot-set, times-append, take_entry_lem,
}
use azh_lid.Time.ConnectionTimeoutManager.Moves.{update_activity-IsValid, touch-IsValid}
use azh_lid.Time.ConnectionTimeoutManager.Places.{calculate_slot_in, length-take_entry}
use azh_lid.Time.ConnectionTimeoutManager.Delay.{Waits-delay}
use azh_lid.Time.ConnectionTimeoutManager.OneRound.{Waits, delay}

-- An entry that waits with the whole of its delay before it, and was active at the time `now`.
abbrev pub Renewed : ℕ → ℕ → Manager → Manager → Type 0
Renewed now id m m' =
    Waits id m'
    × (ticks_needed m * m.wheel_size ≤ delay id m')
    × ((entry_at id m'.heap).last_activity_time ≡ now)
    × (m'.timed_out ≡ m.timed_out)

times-moved :
    (s id : ℕ) (wheel : List (List ℕ))
    → s < length wheel
    → times id (slot_at s wheel) ≡ 0
    → times id (slot_at s (push_entry s id wheel)) ≡ 1
unfolding push_entry
times-moved s id wheel h none_there =
    rw (slot-set wheel s s (slot_at s wheel ++ id ∷ []) h)
      (ground (arith, times-append id (slot_at s wheel) (id ∷ []), none_there))

move_to_new_slot-Renewed :
    (later id : ℕ) (m : Manager)
    → IsValid m
    → id < length m.heap
    → Waits id m
    → Renewed (entry_at id m.heap).last_activity_time id m (move_to_new_slot later id m)
unfolding move_to_new_slot ticks_needed
move_to_new_slot-Renewed later id m v inside waits =
    elim (Bool-cases (
      calculate_slot later (entry_at id m.heap).last_activity_time m
      == (entry_at id m.heap).slot_position)) [
        | inl same ↦ rw same (
            rw
              (get_or-set_self m.heap id
                (record (entry_at id m.heap) { remaining_ticks = ticks_needed m }) blank inside)
              (waits, omega arith, refl, refl))
        | inr other ↦ rw other (
            rw (get_or-set_self m.heap id e blank inside) (
              times-moved s id (take_entry p id m.time_wheel)
                  (omega (
                    arith,
                    length-take_entry p id m.time_wheel,
                    v.slots,
                    calculate_slot_in later (entry_at id m.heap).last_activity_time m v,
                  ))
                  ((take_entry_lem p id m.time_wheel m.heap (omega (arith, v.slots, v.in_wheel id))
                      refl v.placed).1
                    s),
              omega arith,
              refl,
              refl,
            ))
      ]
  where
    s : ℕ
    s = calculate_slot later (entry_at id m.heap).last_activity_time m

    p : ℕ
    p = (entry_at id m.heap).slot_position

    e : ConnectionEntry
    e = record (entry_at id m.heap) { slot_position = s; remaining_ticks = ticks_needed m }

touch-Waits :
    (now id : ℕ) (m : Manager)
    → id < length m.heap
    → Waits id m
    → Waits id (touch now id m) × ((entry_at id (touch now id m).heap).last_activity_time ≡ now)
unfolding touch
touch-Waits now id m inside waits =
    rw
      (get_or-set_self m.heap id (record (entry_at id m.heap) { last_activity_time = now }) blank
        inside)
      (waits, refl)

update_activity-Renewed :
    (now later : ℕ) (fd : ℤ) (id : ℕ) (m : Manager)
    → IsValid m
    → lookup fd m.connections ≡ some id
    → Waits id m
    → Renewed now id m (update_activity now later fd m)
unfolding update_activity move_found touch ticks_needed
update_activity-Renewed now later fd id m v h waits =
    let inside = AllBelow-lookup _ fd m.connections v.table h in
    let (waits', at) = touch-Waits now id m inside waits in
    let (waits'', enough, at', same) =
      move_to_new_slot-Renewed later id (touch now id m) (touch-IsValid now id m v)
        (rw (length-set m.heap id (record (entry_at id m.heap) { last_activity_time = now }))
          inside)
        waits' in
    rw h (waits'', enough, at' ∙ at, same)

-- In a well-formed wheel, a connection of the table that stands in its slot and reports activity
-- is not timed out in any rounds that follow at once and are at most the ticks of the timeout
-- times the number of slots.
pub active-delay :
    (w : World) (now later : ℕ) (fd : ℤ) (id : ℕ) (nows : List ℕ) (m : Manager)
    → IsValid m
    → lookup fd m.connections ≡ some id
    → Waits id m
    → length nows ≤ ticks_needed m * m.wheel_size
    → times id (time_wheel_loop w nows (update_activity now later fd m)).timed_out
      ≡ times id m.timed_out
active-delay w now later fd id nows m v h waits few =
    let (waits', enough, _, same) = update_activity-Renewed now later fd id m v h waits in
    (Waits-delay w id nows (update_activity now later fd m)
      (update_activity-IsValid now later fd m v) waits' (omega (arith, few, enough))).0
    ∙ ap (times id) same
