-- ===== src/Time/ThreadSafeHashMap.antt =====
-- time/ThreadSafeHashMap.hpp: a map behind a lock.
-- Each method holds the lock from its first line to its last, so that what threads do is a sequence
-- of these functions on the map. A `shared_lock` reads and changes nothing.
pub mod Refine
pub mod Tests
use azh_lid.Prelude.{
  ℕ, Bool, Option, none, some, List, [], ◌∷◌, if◌then◌else◌, length, Eq, Map, lookup, insert, erase,
  is_some,
}

module _ {ℓ} {K V : Type ℓ} ⦃e : Eq K⦄ where
  -- Both overloads of `insert`: `map_[key] = value`.
  pub put : K → V → Map K V → Map K V
  put key value m = insert key value m

  -- `map_.emplace(key, value)`, which leaves a key that is there as it is.
  pub emplace : K → V → Map K V → Map K V
  emplace key value m = if is_some (lookup key m) then m else insert key value m

  -- `erase`: whether a pair was removed, and the map.
  pub remove : K → Map K V → Bool × Map K V
  remove key m = (is_some (lookup key m), erase key m)

  pub get : K → Map K V → Option V
  get key m = lookup key m

  pub contains : K → Map K V → Bool
  contains key m = is_some (lookup key m)

  pub size : Map K V → ℕ
  size m = length m

  pub clear : Map K V → Map K V
  clear m = []

  pub snapshot : Map K V → Map K V
  snapshot m = m

  update_found : K → (V → V) → Map K V → Option V → Map K V
  update_found key updater m none = m
  update_found key updater m (some value) = insert key (updater value) m

  -- `updater(it->second)`, where the key is there.
  pub update : K → (V → V) → Map K V → Map K V
  unfolding update_found
  update key updater m = update_found key updater m (lookup key m)

-- A call that changes the map.
pub data Call {ℓ} (K V : Type ℓ) : Type ℓ where
  puts : K → V → Call K V
  emplaces : K → V → Call K V
  removes : K → Call K V
  updates : K → (V → V) → Call K V
  clears : Call K V

module _ {ℓ} {K V : Type ℓ} ⦃e : Eq K⦄ where
  pub call : Call K V → Map K V → Map K V
  call (puts key value) m = put key value m
  call (emplaces key value) m = emplace key value m
  call (removes key) m = (remove key m).1
  call (updates key updater) m = update key updater m
  call clears m = clear m

  pub calls : List (Call K V) → Map K V → Map K V
  calls [] m = m
  calls (c ∷ cs) m = calls cs (call c m)
