-- ===== src/Time/ConnectionTimeoutManager/OneRound.antt =====
-- What one round of the wheel of time/ConnectionTimeoutManager.cpp does to an entry.
use azh_lid.Prelude.{
  ℕ, suc, ◌+◌, ◌-◌, ◌*◌, ◌%◌, ◌≤◌, ◌<◌, ◌≡◌, ◌≢◌, inl, inr, refl, sym, ap, ◌∙◌, subst, true, false,
  List, arith, ltb, leb, ◌==◌, if◌then◌else◌, Bool-cases, ==_iff, length, set,
}
use native.Mathlib.Nat.{mod_self, mod-eq_of_lt, suc-mul, zero-mul}
use azh_lid.Time.ConnectionTimeoutManager.{
  World, ConnectionEntry, Manager, entry_at, slot_at, scan, tick_entry, is_expired, expire,
  process_timeout_connections, wheel_step,
}
use azh_lid.Time.ConnectionTimeoutManager.Valid.{times, IsValid, slot-set}
use azh_lid.Time.ConnectionTimeoutManager.Rounds.{times-keeps, expire_all-field}
use azh_lid.Time.ConnectionTimeoutManager.Scan.{scan-times, scan_unmet, scan_met}

-- An entry stands in the slot that it names.
abbrev pub Waits : ℕ → Manager → Type 0
Waits k m = times k (slot_at (entry_at k m.heap).slot_position m.time_wheel) ≡ 1

-- How many rounds it takes until slot `s` is the current one.
abbrev pub distance : ℕ → ℕ → ℕ → ℕ
distance s current size = if leb current s then s - current else s + size - current

-- How many rounds pass before an entry's idle time is looked at: a tick is used up in each turn of the wheel.
abbrev pub delay : ℕ → Manager → ℕ
delay k m =
    let e = entry_at k m.heap in
    e.remaining_ticks * m.wheel_size + distance e.slot_position m.current_slot m.wheel_size

next_slot : (c size : ℕ) → c < size → (c + 1) % size ≡ (if c + 1 == size then 0 else c + 1)
next_slot c size h = elim (Bool-cases (c + 1 == size)) [
  | inl last ↦
      rw last (subst (λ (n : ℕ). n % size ≡ 0) (sym ((==_iff (c + 1) size).0 last)) (mod_self size))
  | inr inner ↦ rw inner (mod-eq_of_lt (ground arith))
]

-- A round, in the terms of the scan of the current slot.
module _ (w : World) (now : ℕ) (m : Manager) where
  abbrev scanned : List ℕ × List ℕ × List ConnectionEntry
  scanned = scan now m.idle_timeout_ms (slot_at m.current_slot m.time_wheel) m.heap

  round-heap : (wheel_step w now m).heap ≡ scanned.2
  unfolding wheel_step process_timeout_connections expire
  round-heap = expire_all-field (λ (n : Manager). n.heap) w scanned.1 _ (λ id n. refl)

  round-wheel : (wheel_step w now m).time_wheel ≡ set m.time_wheel m.current_slot scanned.0
  unfolding wheel_step process_timeout_connections expire
  round-wheel = expire_all-field (λ (n : Manager). n.time_wheel) w scanned.1 _ (λ id n. refl)

  round-size : (wheel_step w now m).wheel_size ≡ m.wheel_size
  unfolding wheel_step process_timeout_connections expire
  round-size = expire_all-field (λ (n : Manager). n.wheel_size) w scanned.1 _ (λ id n. refl)

  pub round-timeout : (wheel_step w now m).idle_timeout_ms ≡ m.idle_timeout_ms
  unfolding wheel_step process_timeout_connections expire
  round-timeout = expire_all-field (λ (n : Manager). n.idle_timeout_ms) w scanned.1 _ (λ id n. refl)

  round-current : (wheel_step w now m).current_slot ≡ (m.current_slot + 1) % m.wheel_size
  unfolding wheel_step process_timeout_connections expire
  round-current =
      expire_all-field (λ (n : Manager). (n.current_slot + 1) % n.wheel_size) w scanned.1 _
        (λ id n. refl)

  round-timed_out :
      (k : ℕ) → times k (wheel_step w now m).timed_out ≡ times k m.timed_out + times k scanned.1
  unfolding wheel_step process_timeout_connections
  round-timed_out k = times-keeps w k scanned.1 _

  module _ (v : IsValid m) where
    p_in : m.current_slot < length m.time_wheel
    p_in = omega (arith, v.slots, v.current)

    module _ (k : ℕ) (waits : Waits k m) where
      abbrev e : ConnectionEntry
      e = entry_at k m.heap

      k_in : k < length m.heap
      k_in = ground (arith, v.placed e.slot_position k)

      -- A round of another slot.
      module _ (apart : m.current_slot ≢ e.slot_position) where
        unmet : times k (slot_at m.current_slot m.time_wheel) ≡ 0
        unmet = elim (v.placed m.current_slot k) [
          | inl nowhere ↦ nowhere
          | inr (once, inside, at) ↦ absurd (apart (sym at))
        ]

        apart-entry : entry_at k (wheel_step w now m).heap ≡ e
        apart-entry =
            ap (entry_at k) round-heap
            ∙ scan_unmet now m.idle_timeout_ms k (slot_at m.current_slot m.time_wheel) m.heap unmet

        apart-timed_out : times k (wheel_step w now m).timed_out ≡ times k m.timed_out
        apart-timed_out = omega (
          arith,
          round-timed_out k,
          unmet,
          scan-times now m.idle_timeout_ms k (slot_at m.current_slot m.time_wheel) m.heap,
        )

        apart-Waits : Waits k (wheel_step w now m)
        apart-Waits = rw apart-entry (
            rw round-wheel (
              rw (slot-set m.time_wheel m.current_slot e.slot_position scanned.0 p_in)
                (ground (arith, waits, ==_iff m.current_slot e.slot_position))))

        apart-delay : delay k (wheel_step w now m) + 1 ≡ delay k m
        apart-delay = rw apart-entry (
            rw round-size (
              rw round-current (
                rw (next_slot m.current_slot m.wheel_size v.current)
                  (ground (arith, v.current, v.in_wheel k)))))

      -- A round of the entry's own slot.
      module _ (here : m.current_slot ≡ e.slot_position) where
        met : times k (slot_at m.current_slot m.time_wheel) ≡ 1
        met = rw here waits

        here-entry : entry_at k (wheel_step w now m).heap ≡ tick_entry e
        here-entry =
            ap (entry_at k) round-heap
            ∙ (scan_met now m.idle_timeout_ms k (slot_at m.current_slot m.time_wheel) m.heap met
                k_in).0

        here-timed_out :
            times k (wheel_step w now m).timed_out
            ≡ times k m.timed_out + (if is_expired now m.idle_timeout_ms e then 1 else 0)
        here-timed_out = omega (
          arith,
          round-timed_out k,
          (scan_met now m.idle_timeout_ms k (slot_at m.current_slot m.time_wheel) m.heap met
              k_in).1,
        )

        here-Waits : 0 < e.remaining_ticks → Waits k (wheel_step w now m)
        unfolding tick_entry is_expired
        here-Waits h = rw here-entry (
            rw round-wheel (
              rw (slot-set m.time_wheel m.current_slot e.slot_position scanned.0 p_in) (
                ground (
                  arith,
                  here,
                  h,
                  ==_iff m.current_slot e.slot_position,
                  met,
                  scan-times now m.idle_timeout_ms k (slot_at m.current_slot m.time_wheel) m.heap,
                  (scan_met now m.idle_timeout_ms k (slot_at m.current_slot m.time_wheel) m.heap met
                      k_in).1,
                ))))

        here-delay : 0 < e.remaining_ticks → delay k (wheel_step w now m) + 1 ≡ delay k m
        unfolding tick_entry
        here-delay h = rw here-entry (
            rw round-size (
              rw round-current (
                rw (next_slot m.current_slot m.wheel_size v.current) (
                  ground (
                    arith,
                    here,
                    h,
                    v.current,
                    suc-mul (e.remaining_ticks - 1) m.wheel_size,
                    back,
                  )))))
          where
            back : e.remaining_ticks * m.wheel_size ≡ suc (e.remaining_ticks - 1) * m.wheel_size
            back =
                ap (λ (n : ℕ). n * m.wheel_size) {x = e.remaining_ticks}
                  {y = suc (e.remaining_ticks - 1)} (omega (arith, h))

      -- While there is a delay, a round uses up one of it and nothing else of the entry.
      pub round-Waits :
          0 < delay k m
          → Waits k (wheel_step w now m)
            × (delay k (wheel_step w now m) + 1 ≡ delay k m)
            × (times k (wheel_step w now m).timed_out ≡ times k m.timed_out)
            × ((entry_at k (wheel_step w now m).heap).last_activity_time ≡ e.last_activity_time)
      unfolding tick_entry is_expired
      round-Waits h = elim (Bool-cases (m.current_slot == e.slot_position)) [
        | inr other ↦ (
          apart-Waits (apart other),
          apart-delay (apart other),
          apart-timed_out (apart other),
          ap (λ (x : ConnectionEntry). x.last_activity_time) (apart-entry (apart other)),
        )
        | inl same ↦ (
          here-Waits (here same) (ticks same),
          here-delay (here same) (ticks same),
          here-timed_out (here same) ∙ ground (arith, ticks same),
          ap (λ (x : ConnectionEntry). x.last_activity_time) (here-entry (here same)),
        )
      ]
        where
          apart : (m.current_slot == e.slot_position) ≡ false → m.current_slot ≢ e.slot_position
          apart other q = ground arith

          here : (m.current_slot == e.slot_position) ≡ true → m.current_slot ≡ e.slot_position
          here same = (==_iff m.current_slot e.slot_position).0 same

          ticks : (m.current_slot == e.slot_position) ≡ true → 0 < e.remaining_ticks
          ticks same = ground (arith, here same, h, zero-mul m.wheel_size)

      -- Without one, the round times the entry out as soon as it has been idle for the timeout.
      pub round_expires :
          delay k m ≡ 0
          → m.idle_timeout_ms ≤ now - e.last_activity_time
          → times k (wheel_step w now m).timed_out ≡ times k m.timed_out + 1
      unfolding is_expired
      round_expires h idle = here-timed_out here ∙ ground (arith, idle, no_ticks)
        where
          here : m.current_slot ≡ e.slot_position
          here = ground (arith, h, v.in_wheel k, v.current)

          no_ticks : e.remaining_ticks ≡ 0
          no_ticks = elim (Bool-cases (ltb 0 e.remaining_ticks)) [
            | inr t ↦ ground (arith, t)
            | inl t ↦ absurd (
                ground
                  (arith, t, h, v.current, suc-mul (e.remaining_ticks - 1) m.wheel_size, back t))
          ]
            where
              back :
                  ltb 0 e.remaining_ticks ≡ true
                  → e.remaining_ticks * m.wheel_size ≡ suc (e.remaining_ticks - 1) * m.wheel_size
              back t =
                  ap (λ (n : ℕ). n * m.wheel_size) {x = e.remaining_ticks}
                    {y = suc (e.remaining_ticks - 1)} (ground (arith, t))
