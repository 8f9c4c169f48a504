-- ===== src/Memory/Pool/Tests.antt =====
-- The pool of memory/memory_pool.cpp on concrete requests.
use azh_lid.Prelude.{◌≤◌, ◌≡◌, refl, true, some, [], ◌∷◌, arith}
use azh_lid.Memory.Chunk.{fresh}
use azh_lid.Memory.Chunk.Contents.{fresh-IsValid}
use azh_lid.Memory.Pool.{
  Pool, find_suitable_size, first_fit, is_supported_size, empty_pool, alloc_chunk, create,
  create_chunk, commit_new, account, find, retrieve, clear_pool, merge_nodes, put_back, assign,
  link,
}
use azh_lid.Memory.Pool.Sizes.{find_suitable_size_least}
use azh_lid.Memory.Pool.Valid.{IsCleared, fresh-IsCleared, AllValid, Handed, alloc_chunk_lem}
use azh_lid.Memory.Pool.Accounts.{System, IsAccounted}
use azh_lid.Memory.Pool.Ledger.{
  Step, commits, gives_back, clears, merges, here, next, Reach-IsAccounted,
}
use azh_lid.Memory.Pool.Capacity.{create-le-max}

sizes_of_requests :
    (find_suitable_size 1 ≡ 4096)
    × (find_suitable_size 4097 ≡ 16384)
    × (find_suitable_size 4194305 ≡ 0)
unfolding find_suitable_size first_fit
sizes_of_requests = (refl, refl, refl)

find_suitable_size_least_example :
    (5000 ≤ find_suitable_size 5000)
    × (find_suitable_size 5000 ≤ 65536)
    × (is_supported_size (find_suitable_size 5000) ≡ true)
unfolding is_supported_size
find_suitable_size_least_example = find_suitable_size_least 5000 65536 refl (omega arith)

empty_pool-AllValid : AllValid empty_pool.free
unfolding empty_pool is_supported_size
empty_pool-AllValid = (refl, tt, (refl, tt, (refl, tt, (refl, tt, (refl, tt, (refl, tt, tt))))))

-- No other thread does anything, and the allocator returns address 7.
alloc_chunk_example :
    let (r, p) = alloc_chunk (λ q. q) (some 7) 5000 empty_pool in AllValid p.free × Handed 5000 r
alloc_chunk_example =
    alloc_chunk_lem (λ q. q) (some 7) 5000 empty_pool (λ q v. v) empty_pool-AllValid

abbrev start : System
start = record { pool = empty_pool; out = [] }

start-IsAccounted : IsAccounted start
unfolding empty_pool
start-IsAccounted = record {
  lists = empty_pool-AllValid;
  supported = tt;
  usage = refl;
  small = omega arith;
  once = λ a. omega arith;
}

-- One chunk is created, and given back.
one_out : System
one_out = record { pool = account 4096 empty_pool; out = fresh 7 4096 ∷ [] }

created : Step start one_out
unfolding one_out empty_pool is_supported_size commit_new account
created = commits 4096 7 refl refl (omega arith) refl

returned_again :
    Step one_out
      (record { pool = retrieve (some (fresh 7 4096)) (account 4096 empty_pool); out = [] })
unfolding one_out
returned_again =
    gives_back [] [] (fresh 7 4096) (fresh 7 4096) refl refl refl
      (fresh-IsValid 7 4096 (omega arith))

-- Then the pool is cleared, and a chunk is preallocated.
emptied : System
emptied = record {
  pool = clear_pool (retrieve (some (fresh 7 4096)) (account 4096 empty_pool));
  out = [];
}

refilled : System
refilled = record emptied {
  pool = record emptied.pool { free = (4096, fresh 8 4096 ∷ []) ∷ []; preallocated = 4096 };
}

preallocated : Step emptied refilled
unfolding emptied refilled merge_nodes clear_pool retrieve put_back account empty_pool find assign
    link fresh is_supported_size
preallocated = merges 4096 4096 (fresh 8 4096 ∷ []) refl (cleared, tt) (λ a. ground arith) refl
  where
    cleared : IsCleared 4096 (fresh 8 4096)
    cleared = fresh-IsCleared 8 4096 refl

Reach-IsAccounted_example : IsAccounted refilled
unfolding emptied
Reach-IsAccounted_example =
    Reach-IsAccounted start-IsAccounted
      (next (next (next (next here created) returned_again) (clears refl)) preallocated)

create-le-max_example :
    (account 4096 empty_pool).current_usage ≤ (account 4096 empty_pool).max_capacity
unfolding create create_chunk commit_new empty_pool account
create-le-max_example = create-le-max (λ q. q) (some 7) 4096 empty_pool refl
