-- ===== src/Memory/Pool.antt =====
-- memory/memory_pool.hpp and memory/memory_pool.cpp: the pool of chunks, by size class.
-- A free list that hangs together by `Chunk::next` is a list of chunks, its head first. Each block
-- under `mutex_` is one step; `others` is what other threads do to the pool between the two such
-- blocks of `alloc_chunk`. What `new Chunk` gives is an argument: an address, or `none` for
-- `std::bad_alloc`.
pub mod Sizes
pub mod Valid
pub mod Accounts
pub mod Ledger
pub mod Capacity
pub mod Tests
use azh_lid.Prelude.{
  ℕ, zero, suc, ◌+◌, ◌-◌, ◌*◌, ◌%◌, Bool, true, false, Option, none, some, List, [], ◌∷◌, ◌++◌, ltb,
  leb, ◌==◌, if◌then◌else◌,
}
use azh_lid.Memory.Chunk.{Chunk, add_size, size_mod, fresh, clear}

abbrev pub mem_sizes : List ℕ
mem_sizes = 4096 ∷ 16384 ∷ 65536 ∷ 262144 ∷ 1048576 ∷ 4194304 ∷ []

pub record PoolStats : Type 0 where
  pub total_allocations : ℕ
  pub total_deallocations : ℕ
  pub peak_usage_bytes : ℕ
  pub current_usage_bytes : ℕ
  pub allocation_failures : ℕ

-- `pool_`: the free list of each size that is a key.
abbrev pub FreeLists : Type 0
FreeLists = List (ℕ × List Chunk)

pub record Pool : Type 0 where
  pub free : FreeLists
  pub max_capacity : ℕ
  pub current_usage : ℕ
  pub preallocated : ℕ
  pub stats : PoolStats

-- The two exceptions of the pool.
pub data PoolError : Type 0 where
  exhausted allocation_failed : PoolError

pub data Outcome {ℓ} (A : Type ℓ) : Type ℓ where
  returned : A → Outcome A
  threw : PoolError → Outcome A

-- `pool_.find(size)`
pub find : ℕ → FreeLists → Option (List Chunk)
find size [] = none
find size ((s, l) ∷ m) = if s == size then some l else find size m

-- `pool_[size] = l`
pub assign : ℕ → List Chunk → FreeLists → FreeLists
assign size l [] = (size, l) ∷ []
assign size l ((s, old) ∷ m) = if s == size then (s, l) ∷ m else (s, old) ∷ assign size l m

abbrev pub no_stats : PoolStats
no_stats = record {
  total_allocations = 0;
  total_deallocations = 0;
  peak_usage_bytes = 0;
  current_usage_bytes = 0;
  allocation_failures = 0;
}

pub first_fit : ℕ → List ℕ → ℕ
first_fit n [] = 0
first_fit n (s ∷ sizes) = if leb n s then s else first_fit n sizes

pub find_suitable_size : ℕ → ℕ
unfolding first_fit
find_suitable_size n = first_fit n mem_sizes

pub is_among : ℕ → List ℕ → Bool
is_among s [] = false
is_among s (x ∷ sizes) = if s == x then true else is_among s sizes

pub is_supported_size : ℕ → Bool
unfolding is_among
is_supported_size s = is_among s mem_sizes

-- `stats_.allocation_failures++`
pub count_failure : Pool → Pool
count_failure p = record p {
  stats = record (p.stats) { allocation_failures = add_size p.stats.allocation_failures 1 };
}

-- The usage and the statistics after a chunk of `size` bytes is handed out.
pub account : ℕ → Pool → Pool
account size p =
    let usage = add_size p.current_usage size in
    record p {
      current_usage = usage;
      stats = record (p.stats) {
        total_allocations = add_size p.stats.total_allocations 1;
        current_usage_bytes = usage;
        peak_usage_bytes =
            (if ltb p.stats.peak_usage_bytes usage then usage else p.stats.peak_usage_bytes);
      };
    }

pop_free : ℕ → Pool → Option (List Chunk) → Option (Chunk × Pool)
pop_free size p none = none
pop_free size p (some []) = none
pop_free size p (some (c ∷ rest)) =
    some (c, account size (record p { free = assign size rest p.free }))

-- The fast path: the head of the free list of `size`, if there is one.
pub take_free : ℕ → Pool → Option (Chunk × Pool)
unfolding pop_free
take_free size p = pop_free size p (find size p.free)

-- `current_usage_bytes_ + chunk_size > max_capacity_bytes_`
abbrev pub over_capacity : ℕ → Pool → Bool
over_capacity size p = ltb p.max_capacity (add_size p.current_usage size)

-- The second block under the lock: the new chunk is kept only if there is still room.
pub commit_new : ℕ → Chunk → Pool → Outcome (Option Chunk) × Pool
commit_new size c p =
    if over_capacity size p
    then (threw exhausted, count_failure p)
    else (returned (some c), account size p)

create_chunk : ℕ → Option ℕ → Pool → Outcome (Option Chunk) × Pool
create_chunk size none p = (threw allocation_failed, count_failure p)
create_chunk size (some a) p = commit_new size (fresh a size) p

-- The slow path, from the capacity check in the first block on.
pub create : (Pool → Pool) → Option ℕ → ℕ → Pool → Outcome (Option Chunk) × Pool
unfolding create_chunk
create others granted size p =
    if over_capacity size p
    then (threw exhausted, count_failure p)
    else create_chunk size granted (others p)

alloc_or_create :
    (Pool → Pool) → Option ℕ → ℕ → Pool → Option (Chunk × Pool) → Outcome (Option Chunk) × Pool
alloc_or_create others granted size p (some (c, p')) = (returned (some c), p')
alloc_or_create others granted size p none = create others granted size p

pub alloc_size : (Pool → Pool) → Option ℕ → ℕ → Pool → Outcome (Option Chunk) × Pool
unfolding alloc_or_create
alloc_size others granted size p = alloc_or_create others granted size p (take_free size p)

-- `alloc_chunk(n)`; `returned none` is the null pointer.
pub alloc_chunk : (Pool → Pool) → Option ℕ → ℕ → Pool → Outcome (Option Chunk) × Pool
alloc_chunk others granted n p =
    if n == 0
    then (returned none, p)
    else (if find_suitable_size n == 0
        then (returned none, count_failure p)
        else alloc_size others granted (find_suitable_size n) p)

-- New nodes in front of what the size's list holds, if it has one.
pub link : List Chunk → Option (List Chunk) → List Chunk
link nodes none = nodes
link nodes (some l) = nodes ++ l

-- The block of `retrieve` under the lock.
pub put_back : Chunk → Pool → Pool
unfolding link
put_back c p =
    let usage = if leb c.capacity p.current_usage then p.current_usage - c.capacity else 0 in
    record p {
      free = assign c.capacity (link (c ∷ []) (find c.capacity p.free)) p.free;
      current_usage = usage;
      stats = record (p.stats) {
        current_usage_bytes = usage;
        total_deallocations = add_size p.stats.total_deallocations 1;
      };
    }

-- A chunk of no supported size is deleted.
pub retrieve : Option Chunk → Pool → Pool
retrieve none p = p
retrieve (some c) p =
    if c.capacity == 0
    then p
    else (if is_supported_size c.capacity then put_back (clear c) p else p)

pub set_max_capacity : ℕ → Pool → Pool
set_max_capacity n p = record p { max_capacity = n }

pub clear_pool : Pool → Pool
clear_pool p = record p { free = []; current_usage = 0; preallocated = 0; stats = no_stats }

push_node : ℕ → Option ℕ → Option (List Chunk) → Option (List Chunk)
push_node size none l = none
push_node size (some a) none = none
push_node size (some a) (some l) = some (fresh a size ∷ l)

-- `count` calls of `new Chunk(size)`, of which the first is call number `i` of the allocator.
-- `none`: one of them failed, and the others are deleted.
pub new_nodes : (ℕ → Option ℕ) → ℕ → ℕ → ℕ → Option (List Chunk)
unfolding push_node
new_nodes heap size i zero = some []
new_nodes heap size i (suc count) = push_node size (heap i) (new_nodes heap size (suc i) count)

-- The block of `preallocate_chunks` under the lock.
pub merge_nodes : ℕ → ℕ → List Chunk → Pool → Outcome Pool
unfolding link
merge_nodes size total nodes p =
    if ltb p.max_capacity (add_size p.preallocated total)
    then threw exhausted
    else returned (record p {
      free = assign size (link nodes (find size p.free)) p.free;
      preallocated = add_size p.preallocated total;
    })

merge_created : ℕ → ℕ → Pool → Option (List Chunk) → Outcome Pool
merge_created size total p none = threw allocation_failed
merge_created size total p (some nodes) = merge_nodes size total nodes p

pub preallocate_chunks : (ℕ → Option ℕ) → ℕ → ℕ → ℕ → Pool → Outcome Pool
unfolding merge_created
preallocate_chunks heap size i count p =
    if size == 0
    then returned p
    else (if count == 0
        then returned p
        else merge_created size ((size * count) % size_mod) p (new_nodes heap size i count))

infixl 5 ◌>>=◌
abbrev pub ◌>>=◌ {ℓ κ} : {A : Type ℓ} {B : Type κ} → Outcome A → (A → Outcome B) → Outcome B
returned a >>= f = f a
threw e >>= f = threw e

pub initialize_pool : (ℕ → Option ℕ) → Pool → Outcome Pool
initialize_pool heap p = do
  p1 ← preallocate_chunks heap 4096 0 200 p
  p2 ← preallocate_chunks heap 16384 200 50 p1
  p3 ← preallocate_chunks heap 65536 250 20 p2
  p4 ← preallocate_chunks heap 262144 270 10 p3
  p5 ← preallocate_chunks heap 1048576 280 5 p4
  preallocate_chunks heap 4194304 285 2 p5

-- The pool as the constructor has it before `initialize_pool`: every size is a key.
pub empty_pool : Pool
empty_pool = record {
  free = (4096, []) ∷ (16384, []) ∷ (65536, []) ∷ (262144, []) ∷ (1048576, []) ∷ (4194304, []) ∷ [];
  max_capacity = 134217728;
  current_usage = 0;
  preallocated = 0;
  stats = no_stats;
}

-- `MemoryPool()`
pub new_pool : (ℕ → Option ℕ) → Outcome Pool
new_pool heap = initialize_pool heap empty_pool
