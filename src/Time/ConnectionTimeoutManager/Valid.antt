-- ===== src/Time/ConnectionTimeoutManager/Valid.antt =====
-- Where the entries of time/ConnectionTimeoutManager.cpp stand in the wheel.
use azh_lid.Prelude.{
  ℕ, zero, suc, ◌+◌, ◌≤◌, ◌<◌, ◌≡◌, ◌⊎◌, inl, inr, refl, ◌∙◌, subst, some, List, [], ◌∷◌, ◌++◌,
  arith, ◌==◌, if◌then◌else◌, Bool-cases, ==_iff, length, get_or, set, get_or-set_self,
  get_or-set_ne, ℤ, Map, lookup, insert, erase, int_eq, int_beq,
}
use azh_lid.Time.ConnectionTimeoutManager.{
  ConnectionEntry, Manager, entry_at, slot_at, push_entry, take_entry, without,
}

-- How often an entry stands in a list.
abbrev pub times : ℕ → List ℕ → ℕ
times id [] = 0
times id (x ∷ xs) = (if x == id then 1 else 0) + times id xs

-- An entry stands in no slot but the one that it names, and there once at most.
abbrev pub StandsAt : ℕ → ℕ → List (List ℕ) → List ConnectionEntry → Type 0
StandsAt s id wheel heap =
    (times id (slot_at s wheel) ≡ 0)
    ⊎ ((times id (slot_at s wheel) ≡ 1)
        × (id < length heap)
        × ((entry_at id heap).slot_position ≡ s))

abbrev pub IsPlaced : List (List ℕ) → List ConnectionEntry → Type 0
IsPlaced wheel heap = (s id : ℕ) → StandsAt s id wheel heap

-- The addresses of a table lie in a heap of `n` entries.
abbrev pub AllBelow : ℕ → Map ℤ ℕ → Type 0
AllBelow n [] = Unit
AllBelow n ((fd, id) ∷ table) = (id < n) × AllBelow n table

pub record IsValid (m : Manager) : Type 0 where
  pub slots : length m.time_wheel ≡ m.wheel_size
  pub current : m.current_slot < m.wheel_size
  pub ticking : 0 < m.tick_interval_ms
  pub placed : IsPlaced m.time_wheel m.heap
  pub in_wheel : (id : ℕ) → (entry_at id m.heap).slot_position < m.wheel_size
  pub table : AllBelow (length m.heap) m.connections

pub times-append : (id : ℕ) (xs ys : List ℕ) → times id (xs ++ ys) ≡ times id xs + times id ys
times-append id [] ys = omega arith
times-append id (x ∷ xs) ys = omega (arith, times-append id xs ys)

pub times-without :
    (id k : ℕ) (xs : List ℕ) → times k (without id xs) ≡ (if id == k then 0 else times k xs)
unfolding without
times-without id k [] = ground arith
times-without id k (x ∷ xs) = ground (arith, times-without id k xs)

pub slot-set :
    (wheel : List (List ℕ)) (s j : ℕ) (l : List ℕ)
    → s < length wheel
    → slot_at j (set wheel s l) ≡ (if s == j then l else slot_at j wheel)
slot-set wheel s j l h = elim (Bool-cases (s == j)) [
  | inl same ↦ rw same (
      subst (λ (k : ℕ). get_or (set wheel s l) k [] ≡ l) ((==_iff s j).0 same)
        (get_or-set_self wheel s l [] h))
  | inr other ↦ rw other (get_or-set_ne wheel l [] (λ e. absurd (ground arith)))
]

-- What a change of one entry leaves alone.
pub entry-set {ℓ} :
    {B : Type ℓ} (f : ConnectionEntry → B) (heap : List ConnectionEntry) (id k : ℕ)
    (e : ConnectionEntry)
    → f e ≡ f (entry_at id heap)
    → f (entry_at k (set heap id e)) ≡ f (entry_at k heap)
entry-set f [] id k e h = refl
entry-set f (x ∷ heap) zero zero e h = h
entry-set f (x ∷ heap) zero (suc k) e h = refl
entry-set f (x ∷ heap) (suc id) zero e h = refl
entry-set f (x ∷ heap) (suc id) (suc k) e h = entry-set f heap id k e h

pub entry-append :
    (heap : List ConnectionEntry) (e : ConnectionEntry) (k : ℕ)
    → entry_at k (heap ++ e ∷ []) ≡ (if k == length heap then e else entry_at k heap)
entry-append [] e zero = refl
entry-append [] e (suc k) = ground arith
entry-append (x ∷ heap) e zero = ground arith
entry-append (x ∷ heap) e (suc k) = entry-append heap e k ∙ ground arith

-- An entry that names the slot, and stands nowhere in it, is pushed there.
pub push_entry-IsPlaced :
    (s id : ℕ) (wheel : List (List ℕ)) (heap : List ConnectionEntry)
    → s < length wheel
    → id < length heap
    → (entry_at id heap).slot_position ≡ s
    → times id (slot_at s wheel) ≡ 0
    → IsPlaced wheel heap
    → IsPlaced (push_entry s id wheel) heap
unfolding push_entry
push_entry-IsPlaced s id wheel heap h k p none_yet v j i =
    rw (slot-set wheel s j (slot_at s wheel ++ id ∷ []) h) (elim (Bool-cases (s == j)) [
      | inl here ↦ rw here (
          ground (
            arith,
            v j i,
            v s i,
            times-append i (slot_at s wheel) (id ∷ []),
            ==_iff s j,
            ==_iff id i,
          ))
      | inr other ↦ rw other (v j i)
    ])

-- An entry that is taken out of the slot that it names stands nowhere.
pub take_entry_lem :
    (s id : ℕ) (wheel : List (List ℕ)) (heap : List ConnectionEntry)
    → s < length wheel
    → (entry_at id heap).slot_position ≡ s
    → IsPlaced wheel heap
    → IsPlaced (take_entry s id wheel) heap
      × ((j : ℕ) → times id (slot_at j (take_entry s id wheel)) ≡ 0)
unfolding take_entry
take_entry_lem s id wheel heap h p v = (
  (λ j i. rw (slot-set wheel s j (without id (slot_at s wheel)) h) (elim (Bool-cases (s == j)) [
    | inl here ↦ rw here (ground (arith, v s i, times-without id i (slot_at s wheel), ==_iff s j))
    | inr other ↦ rw other (v j i)
  ])),
  λ j. rw (slot-set wheel s j (without id (slot_at s wheel)) h) (elim (Bool-cases (s == j)) [
    | inl here ↦ rw here (ground (arith, times-without id id (slot_at s wheel)))
    | inr other ↦ rw other (ground (arith, v j id))
  ]),
)

pub AllBelow-le : (n k : ℕ) (table : Map ℤ ℕ) → n ≤ k → AllBelow n table → AllBelow k table
AllBelow-le n k [] h v = tt
AllBelow-le n k ((fd, id) ∷ table) h v = (omega arith, AllBelow-le n k table h v.1)

pub AllBelow-lookup :
    (n : ℕ) (fd : ℤ) (table : Map ℤ ℕ) {id : ℕ}
    → AllBelow n table
    → lookup fd table ≡ some id
    → id < n
unfolding lookup
AllBelow-lookup n fd [] {id} v h = cc
AllBelow-lookup n fd ((j, i) ∷ table) {id} v h =
    ground (arith, AllBelow-lookup n fd table {id = id} v.1)

pub AllBelow-insert :
    (n : ℕ) (fd : ℤ) (id : ℕ) (table : Map ℤ ℕ)
    → id < n
    → AllBelow n table
    → AllBelow n (insert fd id table)
unfolding insert
AllBelow-insert n fd id [] h v = (h, tt)
AllBelow-insert n fd id ((j, i) ∷ table) h v = elim (Bool-cases (int_beq j fd)) [
  | inl t ↦ rw t (h, v.1)
  | inr t ↦ rw t (v.0, AllBelow-insert n fd id table h v.1)
]

pub AllBelow-erase :
    (n : ℕ) (fd : ℤ) (table : Map ℤ ℕ) → AllBelow n table → AllBelow n (erase fd table)
unfolding erase
AllBelow-erase n fd [] v = tt
AllBelow-erase n fd ((j, i) ∷ table) v = elim (Bool-cases (int_beq j fd)) [
  | inl t ↦ rw t (AllBelow-erase n fd table v.1)
  | inr t ↦ rw t (v.0, AllBelow-erase n fd table v.1)
]
