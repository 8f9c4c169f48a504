-- ===== src/Time/ThreadSafeHashMap/Refine.antt =====
-- The map of time/ThreadSafeHashMap.hpp is a partial function of its keys.
use azh_lid.Prelude.{
  ◌+◌, ◌≡◌, refl, ap, ◌∙◌, inl, inr, true, Option, none, some, List, [], ◌∷◌, arith, if◌then◌else◌,
  Bool-cases, Option-cases, Eq, Map, IsMap, lookup, is_some, lookup-insert, lookup-erase,
  insert-IsMap, erase-IsMap, length-erase,
}
use mathlib.Core.Option
use azh_lid.Time.ThreadSafeHashMap.{
  put, emplace, remove, get, contains, size, clear, update, update_found, Call, puts, emplaces,
  removes, updates, clears, call, calls,
}

module _ {ℓ} {K V : Type ℓ} ⦃e : Eq K⦄ where
  -- The abstract map, and what a call makes of its value at `j`.
  abbrev pub call_at : Call K V → K → Option V → Option V
  call_at (puts key value) j old = if e.beq key j then some value else old
  call_at (emplaces key value) j old =
      if e.beq key j then (if is_some old then old else some value) else old
  call_at (removes key) j old = if e.beq key j then none else old
  call_at (updates key updater) j old = if e.beq key j then Option.map updater old else old
  call_at clears j old = none

  abbrev pub calls_at : List (Call K V) → K → Option V → Option V
  calls_at [] j old = old
  calls_at (c ∷ cs) j old = calls_at cs j (call_at c j old)

  same_key : (k j : K) (m : Map K V) → e.beq k j ≡ true → lookup k m ≡ lookup j m
  same_key k j m h = rw ((e.beq_iff k j).0 h) refl

  call_lem : (c : Call K V) (j : K) (m : Map K V) → lookup j (call c m) ≡ call_at c j (lookup j m)
  unfolding call put emplace remove update update_found clear lookup
  call_lem (puts key value) j m = lookup-insert j key value m
  call_lem (emplaces key value) j m = ground (arith, lookup-insert j key value m, same_key key j m)
  call_lem (removes key) j m = lookup-erase j key m
  call_lem (updates key updater) j m = elim (Option-cases (lookup key m)) [
    | inl missing ↦ rw missing (elim (Bool-cases (e.beq key j)) [
      | inl same ↦ rw (same, ← same_key key j m same, missing) refl
      | inr other ↦ rw other refl
    ])
    | inr (v, found) ↦
        rw (found, lookup-insert)
          (elim (Bool-cases (e.beq key j)) [
            | inl same ↦ rw (same, ← same_key key j m same, found) refl
            | inr other ↦ rw other refl
          ])
  ]
  call_lem clears j m = refl

  call-IsMap : (c : Call K V) (m : Map K V) → IsMap m → IsMap (call c m)
  unfolding call put emplace remove update update_found clear
  call-IsMap (puts key value) m v = insert-IsMap key value m v
  call-IsMap (emplaces key value) m v = elim (Bool-cases (is_some (lookup key m))) [
    | inl found ↦ rw found v
    | inr missing ↦ rw missing (insert-IsMap key value m v)
  ]
  call-IsMap (removes key) m v = erase-IsMap key m v
  call-IsMap (updates key updater) m v = elim (Option-cases (lookup key m)) [
    | inl missing ↦ rw missing v
    | inr (w, found) ↦ rw found (insert-IsMap key (updater w) m v)
  ]
  call-IsMap clears m v = tt

  -- On a map whose keys stand once each, after any sequence of inserts, emplaces, removals,
  -- updates and clears: get at a key gives what the calls make of that key's value alone,
  -- contains tells whether there is one, each key still stands once, and a removal takes one pair
  -- away exactly where it says so.
  pub calls_refine :
      (cs : List (Call K V)) (j : K) (m : Map K V)
      → IsMap m
      → (get j (calls cs m) ≡ calls_at cs j (get j m))
        × (contains j (calls cs m) ≡ is_some (calls_at cs j (get j m)))
        × IsMap (calls cs m)
        × (size (remove j (calls cs m)).1 + (if (remove j (calls cs m)).0 then 1 else 0)
            ≡ size (calls cs m))
  unfolding calls get contains size remove
  calls_refine [] j m v = (refl, refl, v, length-erase j m v)
  calls_refine (c ∷ cs) j m v =
      let (a, b, w, n) = calls_refine cs j (call c m) (call-IsMap c m v) in
      (
        a ∙ ap (calls_at cs j) (call_lem c j m),
        b ∙ ap (λ (o : Option V). is_some (calls_at cs j o)) (call_lem c j m),
        w,
        n,
      )
