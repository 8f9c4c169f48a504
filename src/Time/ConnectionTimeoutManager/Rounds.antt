-- ===== src/Time/ConnectionTimeoutManager/Rounds.antt =====
-- What a round of the wheel of time/ConnectionTimeoutManager.cpp does to each entry.
use azh_lid.Prelude.{
  ℕ, ◌+◌, ◌<◌, ◌≡◌, inl, inr, refl, ◌∙◌, List, [], ◌∷◌, arith, ◌==◌, Bool-cases, ==_iff, length,
  set, length-set,
}
use native.Mathlib.Nat.{mod-lt}
use azh_lid.Time.ConnectionTimeoutManager.{
  World, ConnectionEntry, Manager, entry_at, slot_at, scan, tick_entry, expire, expire_all,
  process_timeout_connections, wheel_step,
}
use azh_lid.Time.ConnectionTimeoutManager.Valid.{
  times, IsPlaced, IsValid, AllBelow-erase, times-append, slot-set,
}
use azh_lid.Time.ConnectionTimeoutManager.Scan.{scan-times, scan-field, length-scan}

pub times-keeps :
    (w : World) (k : ℕ) (ids : List ℕ) (m : Manager)
    → times k (expire_all w ids m).timed_out ≡ times k m.timed_out + times k ids
unfolding expire_all expire
times-keeps w k [] m = omega arith
times-keeps w k (id ∷ ids) m =
    times-keeps w k ids (expire w id m) ∙ omega (arith, times-append k m.timed_out (id ∷ []))

-- What the calls of the callback leave alone.
pub expire_all-field {ℓ} :
    {B : Type ℓ} (f : Manager → B)
    → (w : World) (ids : List ℕ) (m : Manager) → ((id : ℕ) (n : Manager) → f (expire w id n) ≡ f n)
    → f (expire_all w ids m) ≡ f m
unfolding expire_all
expire_all-field f w [] m h = refl
expire_all-field f w (id ∷ ids) m h = expire_all-field f w ids (expire w id m) h ∙ h id m

expire-IsValid : (w : World) (id : ℕ) (m : Manager) → IsValid m → IsValid (expire w id m)
unfolding expire
expire-IsValid w id m v = record {
  slots = v.slots;
  current = v.current;
  ticking = v.ticking;
  placed = v.placed;
  in_wheel = v.in_wheel;
  table = AllBelow-erase _ (w.fd_of (entry_at id m.heap).conn) m.connections v.table;
}

expire_all-IsValid :
    (w : World) (ids : List ℕ) (m : Manager) → IsValid m → IsValid (expire_all w ids m)
unfolding expire_all
expire_all-IsValid w [] m v = v
expire_all-IsValid w (id ∷ ids) m v =
    expire_all-IsValid w ids (expire w id m) (expire-IsValid w id m v)

-- The slot after a scan.
scan-IsPlaced :
    (now timeout s : ℕ) (wheel : List (List ℕ)) (heap : List ConnectionEntry)
    → s < length wheel
    → IsPlaced wheel heap
    → let (kept, expired, heap') = scan now timeout (slot_at s wheel) heap in
      IsPlaced (set wheel s kept) heap'
unfolding tick_entry
scan-IsPlaced now timeout s wheel heap h v j k =
    rw (slot-set wheel s j (scan now timeout (slot_at s wheel) heap).0 h)
      (elim (Bool-cases (s == j)) [
        | inl here ↦ rw here (
            ground (
              arith,
              v s k,
              ==_iff s j,
              scan-times now timeout k (slot_at s wheel) heap,
              length-scan now timeout (slot_at s wheel) heap,
              scan-field now timeout (λ (x : ConnectionEntry). x.slot_position) (λ x. refl) k
                  (slot_at s wheel) heap,
            ))
        | inr other ↦ rw other (
            ground (
              arith,
              v j k,
              length-scan now timeout (slot_at s wheel) heap,
              scan-field now timeout (λ (x : ConnectionEntry). x.slot_position) (λ x. refl) k
                  (slot_at s wheel) heap,
            ))
      ])

pub process_timeout_connections-IsValid :
    (w : World) (now : ℕ) (m : Manager) → IsValid m → IsValid (process_timeout_connections w now m)
unfolding process_timeout_connections tick_entry
process_timeout_connections-IsValid w now m v = expire_all-IsValid w _ _ (record {
  slots = length-set m.time_wheel m.current_slot _ ∙ v.slots;
  current = v.current;
  ticking = v.ticking;
  placed =
      scan-IsPlaced now m.idle_timeout_ms m.current_slot m.time_wheel m.heap
        (omega (arith, v.slots, v.current)) v.placed;
  in_wheel = λ k.
      rw
        (scan-field now m.idle_timeout_ms (λ (x : ConnectionEntry). x.slot_position) (λ x. refl) k
          (slot_at m.current_slot m.time_wheel) m.heap)
        (v.in_wheel k);
  table =
      rw (length-scan now m.idle_timeout_ms (slot_at m.current_slot m.time_wheel) m.heap) v.table;
})

pub wheel_step-IsValid :
    (w : World) (now : ℕ) (m : Manager) → IsValid m → IsValid (wheel_step w now m)
unfolding wheel_step
wheel_step-IsValid w now m v = record {
  slots = v'.slots;
  current = mod-lt _ (omega (arith, v'.current));
  ticking = v'.ticking;
  placed = v'.placed;
  in_wheel = v'.in_wheel;
  table = v'.table;
}
  where
    v' : IsValid (process_timeout_connections w now m)
    v' = process_timeout_connections-IsValid w now m v
