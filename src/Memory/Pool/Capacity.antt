-- ===== src/Memory/Pool/Capacity.antt =====
-- The capacity limit of memory/memory_pool.cpp, and the pool that its constructor builds.
use azh_lid.Prelude.{ℕ, ◌≤◌, ◌≡◌, ◌≢◌, inl, inr, Option, none, some, arith, Bool-cases}
use azh_lid.Memory.Chunk.{Chunk}
use azh_lid.Memory.Pool.{
  Pool, returned, account, count_failure, commit_new, create, create_chunk, over_capacity,
}
use azh_lid.Memory.Pool.Valid.{AllValid}

create_chunk-le-max :
    (size : ℕ) (granted : Option ℕ) (p : Pool) {c : Option Chunk} {p' : Pool}
    → create_chunk size granted p ≡ (returned c, p')
    → p'.current_usage ≤ p'.max_capacity
unfolding create_chunk commit_new account count_failure
create_chunk-le-max size none p e = absurd (cc)
create_chunk-le-max size (some a) p e = ground arith

-- Whatever other threads do between the two locked blocks, an alloc_chunk that succeeds by the
-- slow path leaves the usage within the capacity.
pub create-le-max :
    (others : Pool → Pool) (granted : Option ℕ) (size : ℕ) (p : Pool) {c : Option Chunk} {p' : Pool}
    → create others granted size p ≡ (returned c, p')
    → p'.current_usage ≤ p'.max_capacity
unfolding create
create-le-max others granted size p {c} {p'} e = elim (Bool-cases (over_capacity size p)) [
  | inl t ↦ absurd (ground arith)
  | inr t ↦ create_chunk-le-max size granted (others p) {c = c} {p' = p'} (ground arith)
]

module _ (heap : ℕ → Option ℕ) (granted : (i : ℕ) → heap i ≢ none) where
  -- The pool while `initialize_pool` runs, with `k` bytes in its free lists.
  record IsReady (k : ℕ) (p : Pool) : Type 0 where
    lists : AllValid p.free
    filled : p.preallocated ≡ k
    limit : p.max_capacity ≡ 134217728
    unused : p.current_usage ≡ 0
