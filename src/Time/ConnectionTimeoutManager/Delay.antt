-- ===== src/Time/ConnectionTimeoutManager/Delay.antt =====
-- How many rounds of the wheel of time/ConnectionTimeoutManager.cpp an entry stays.
use azh_lid.Prelude.{ℕ, ◌+◌, ◌-◌, ◌≤◌, ◌≡◌, refl, ◌∙◌, List, [], ◌∷◌, arith, length}
use azh_lid.Time.ConnectionTimeoutManager.{World, Manager, entry_at, wheel_step, time_wheel_loop}
use azh_lid.Time.ConnectionTimeoutManager.Valid.{times, IsValid}
use azh_lid.Time.ConnectionTimeoutManager.Rounds.{wheel_step-IsValid}
use azh_lid.Time.ConnectionTimeoutManager.OneRound.{
  Waits, delay, round-timeout, round-Waits, round_expires,
}

-- The rounds of a delay that is not used up.
loop-Waits :
    (w : World) (k : ℕ) (nows : List ℕ) (m : Manager)
    → IsValid m
    → Waits k m
    → length nows ≤ delay k m
    → let m' = time_wheel_loop w nows m in
      IsValid m'
      × Waits k m'
      × (delay k m' + length nows ≡ delay k m)
      × (times k m'.timed_out ≡ times k m.timed_out)
      × ((entry_at k m'.heap).last_activity_time ≡ (entry_at k m.heap).last_activity_time)
      × (m'.idle_timeout_ms ≡ m.idle_timeout_ms)
unfolding time_wheel_loop
loop-Waits w k [] m v waits h = (v, waits, omega arith, refl, refl, refl)
loop-Waits w k (now ∷ nows) m v waits h =
    let (waits', spent, timed, last) = round-Waits w now m v k waits (omega arith) in
    let (v'', waits'', spent'', timed'', last'', timeout'') =
      loop-Waits w k nows (wheel_step w now m) (wheel_step-IsValid w now m v) waits'
        (omega (arith, spent)) in
    (
      v'',
      waits'',
      omega (arith, spent, spent''),
      timed'' ∙ timed,
      last'' ∙ last,
      timeout'' ∙ round-timeout w now m,
    )

-- In a well-formed wheel, an entry that stands in its slot has not been timed out, and stands in
-- its slot, after any rounds that are at most as many as its delay, the remaining ticks times the
-- number of slots plus the distance to its slot.
pub Waits-delay :
    (w : World) (k : ℕ) (nows : List ℕ) (m : Manager)
    → IsValid m
    → Waits k m
    → length nows ≤ delay k m
    → (times k (time_wheel_loop w nows m).timed_out ≡ times k m.timed_out)
      × Waits k (time_wheel_loop w nows m)
Waits-delay w k nows m v waits h =
    let (_, waits', _, timed, _, _) = loop-Waits w k nows m v waits h in (timed, waits')

-- In a well-formed wheel, after as many rounds as the delay of an entry that stands in its slot,
-- the next round times it out once if it has been idle for the timeout by then.
pub expires_after-delay :
    (w : World) (k now : ℕ) (nows : List ℕ) (m : Manager)
    → IsValid m
    → Waits k m
    → length nows ≡ delay k m
    → m.idle_timeout_ms ≤ now - (entry_at k m.heap).last_activity_time
    → times k (wheel_step w now (time_wheel_loop w nows m)).timed_out ≡ times k m.timed_out + 1
expires_after-delay w k now nows m v waits h idle =
    let (v', waits', spent, timed, last, timeout) = loop-Waits w k nows m v waits (omega arith) in
    round_expires w now (time_wheel_loop w nows m) v' k waits' (omega (arith, spent))
      (omega (arith, last, timeout))
    ∙ omega (arith, timed)
