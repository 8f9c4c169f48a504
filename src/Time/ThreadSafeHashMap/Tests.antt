-- ===== src/Time/ThreadSafeHashMap/Tests.antt =====
-- The map of time/ThreadSafeHashMap.hpp on concrete calls.
use azh_lid.Prelude.{
  nat_eq, ℕ, ◌+◌, ◌≡◌, refl, true, some, List, [], ◌∷◌, if◌then◌else◌, IsMap, lookup, insert, erase,
}
use azh_lid.Time.ThreadSafeHashMap.{
  get, contains, size, remove, put, emplace, update, Call, puts, emplaces, removes, updates, call,
  calls,
}
use azh_lid.Time.ThreadSafeHashMap.Refine.{calls_refine}

abbrev script : List (Call ℕ ℕ)
script = puts 1 10 ∷ emplaces 1 20 ∷ emplaces 2 20 ∷ updates 2 (λ n. n + 1) ∷ removes 1 ∷ []

script_runs : calls script [] ≡ (2, 21) ∷ []
unfolding calls call put emplace update remove lookup insert erase
script_runs = refl

calls_refine_example :
    (get 2 (calls script []) ≡ some 21)
    × (contains 2 (calls script []) ≡ true)
    × IsMap (calls script [])
    × (size (remove 2 (calls script [])).1 + (if (remove 2 (calls script [])).0 then 1 else 0)
        ≡ size (calls script []))
unfolding get lookup
calls_refine_example = calls_refine script 2 [] tt
