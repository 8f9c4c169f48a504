-- ===== src/Time/ConnectionTimeoutManager/Places.antt =====
-- What a change of an entry of time/ConnectionTimeoutManager.cpp does to where entries stand.
use azh_lid.Prelude.{
  ℕ, ◌<◌, ◌≡◌, inl, inr, ap, ◌∙◌, subst, Bool, false, List, [], ◌∷◌, ◌++◌, arith, ◌==◌,
  if◌then◌else◌, Bool-cases, ==_iff, length, set, length-set, length-append, get_or-set_ne, int_eq,
}
use native.Mathlib.Nat.{mod-lt}
use azh_lid.Time.ConnectionTimeoutManager.{
  ConnectionEntry, Manager, entry_at, slot_at, blank, push_entry, take_entry, calculate_slot,
}
use azh_lid.Time.ConnectionTimeoutManager.Valid.{times, IsPlaced, IsValid, entry-set, entry-append}

pub calculate_slot_in :
    (now last : ℕ) (m : Manager) → IsValid m → calculate_slot now last m < m.wheel_size
unfolding calculate_slot
calculate_slot_in now last m v = mod-lt _ (omega (arith, v.current))

-- A change of an entry that keeps its slot.
pub set_entry-IsPlaced :
    (id : ℕ) (e : ConnectionEntry) (wheel : List (List ℕ)) (heap : List ConnectionEntry)
    → e.slot_position ≡ (entry_at id heap).slot_position
    → IsPlaced wheel heap
    → IsPlaced wheel (set heap id e)
set_entry-IsPlaced id e wheel heap h v s k = elim (v s k) [
  | inl nowhere ↦ inl nowhere
  | inr (once, inside, at) ↦ inr (
    once,
    omega (arith, length-set heap id e),
    entry-set (λ (x : ConnectionEntry). x.slot_position) heap id k e h ∙ at,
  )
]

-- An entry that stands nowhere may name any slot.
pub retarget-IsPlaced :
    (id : ℕ) (e : ConnectionEntry) (wheel : List (List ℕ)) (heap : List ConnectionEntry)
    → ((j : ℕ) → times id (slot_at j wheel) ≡ 0)
    → IsPlaced wheel heap
    → IsPlaced wheel (set heap id e)
retarget-IsPlaced id e wheel heap none_left v s k = elim (Bool-cases (id == k)) [
  | inl same ↦
      inl (subst (λ (i : ℕ). times i (slot_at s wheel) ≡ 0) ((==_iff id k).0 same) (none_left s))
  | inr other ↦ elim (v s k) [
    | inl nowhere ↦ inl nowhere
    | inr (once, inside, at) ↦ inr (
      once,
      omega (arith, length-set heap id e),
      ap (λ (x : ConnectionEntry). x.slot_position)
            (get_or-set_ne heap {i = id} {j = k} e blank (λ q. absurd (ground arith)))
          ∙ at,
    )
  ]
]

pub append-IsPlaced :
    (e : ConnectionEntry) (wheel : List (List ℕ)) (heap : List ConnectionEntry)
    → IsPlaced wheel heap
    → IsPlaced wheel (heap ++ e ∷ [])
append-IsPlaced e wheel heap v s k = elim (v s k) [
  | inl nowhere ↦ inl nowhere
  | inr (once, inside, at) ↦ inr (
    once,
    omega (arith, length-append heap (e ∷ [])),
    ap (λ (x : ConnectionEntry). x.slot_position)
          (entry-append heap e k
            ∙ ap (λ (b : Bool). if b then e else entry_at k heap) {x = k == length heap} {y = false}
                (ground arith))
        ∙ at,
  )
]

pub length-push_entry :
    (s id : ℕ) (wheel : List (List ℕ)) → length (push_entry s id wheel) ≡ length wheel
unfolding push_entry
length-push_entry s id wheel = length-set wheel s _

pub length-take_entry :
    (s id : ℕ) (wheel : List (List ℕ)) → length (take_entry s id wheel) ≡ length wheel
unfolding take_entry
length-take_entry s id wheel = length-set wheel s _
