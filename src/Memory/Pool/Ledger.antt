-- ===== src/Memory/Pool/Ledger.antt =====
-- The accounts of memory/memory_pool.cpp over any interleaving of its blocks under the lock.
use azh_lid.Prelude.{ℕ, ◌+◌, ◌≤◌, ◌<◌, ◌≡◌, sym, ap, subst, true, some, List, [], ◌∷◌, ◌++◌, arith}
use azh_lid.Memory.Chunk.{Chunk, size_mod, fresh}
use azh_lid.Memory.Chunk.Contents.{IsValid}
use azh_lid.Memory.Pool.{
  Pool, returned, count_failure, take_free, commit_new, retrieve, is_supported_size,
  set_max_capacity, clear_pool, merge_nodes,
}
use azh_lid.Memory.Pool.Valid.{AllCleared, take_free_inv}
use azh_lid.Memory.Pool.Accounts.{
  total, held, stock, System, IsAccounted, takes-IsAccounted, commits-IsAccounted, commit_new_inv,
  retrieve-supported, given, put_back-IsAccounted, merge_nodes-IsAccounted,
}

-- One block under the lock, by any thread. `clear` comes only while nothing is handed out. A new chunk has an address that no chunk has, the bytes
-- handed out fit the address space, and a client gives back a chunk that it holds, with its address
-- and capacity as they were.
pub data Step : System → System → Type 0 where
  takes :
      (size : ℕ) {c : Chunk} {p p' : Pool} {out : List Chunk}
      → take_free size p ≡ some (c, p')
      → total out + size < size_mod
      → Step (record { pool = p; out = out }) (record { pool = p'; out = c ∷ out })
  commits :
      (size a : ℕ) {c : Chunk} {p p' : Pool} {out : List Chunk}
      → is_supported_size size ≡ true
      → stock a p.free + held a out ≡ 0
      → total out + size < size_mod
      → commit_new size (fresh a size) p ≡ (returned (some c), p')
      → Step (record { pool = p; out = out }) (record { pool = p'; out = c ∷ out })
  gives_back :
      (xs ys : List Chunk) (c c' : Chunk) {p : Pool} {out : List Chunk}
      → out ≡ xs ++ c ∷ ys
      → c'.address ≡ c.address
      → c'.capacity ≡ c.capacity
      → IsValid c'
      → Step
          (record { pool = p; out = out })
          (record { pool = retrieve (some c') p; out = xs ++ ys })
  fails : (s : System) → Step s (record s { pool = count_failure s.pool })
  limits : (s : System) (n : ℕ) → Step s (record s { pool = set_max_capacity n s.pool })
  clears :
      {p : Pool} {out : List Chunk}
      → out ≡ []
      → Step (record { pool = p; out = out }) (record { pool = clear_pool p; out = out })
  merges :
      (size bytes : ℕ) (nodes : List Chunk) {p p' : Pool} {out : List Chunk}
      → is_supported_size size ≡ true
      → AllCleared size nodes
      → ((a : ℕ) → stock a p.free + held a out + held a nodes ≤ 1)
      → merge_nodes size bytes nodes p ≡ returned p'
      → Step (record { pool = p; out = out }) (record { pool = p'; out = out })

pub data Reach (s : System) : System → Type 0 where
  here : Reach s s
  next : {t u : System} → Reach s t → Step t u → Reach s u

-- Each block keeps the accounts right.
Step-IsAccounted : {s t : System} → Step s t → IsAccounted s → IsAccounted t
Step-IsAccounted (takes size {c} {p} {p'} {out} e fits) v =
    let (rest, f, g) = take_free_inv size p e in
    subst (λ q. IsAccounted (record { pool = q; out = c ∷ out })) (sym g)
      (takes-IsAccounted size c rest p out f fits v)
Step-IsAccounted (commits size a {c} {p} {p'} {out} h new fits e) v =
    let (f, g, room) = commit_new_inv size (fresh a size) p e in
    rw (f, g) (commits-IsAccounted size a p out h new fits v)
Step-IsAccounted (gives_back xs ys c c' {p} {out} e same size w) v =
    let v' = subst (λ l. IsAccounted (record { pool = p; out = l })) e v in
    rw (retrieve-supported c' p (rw size (given xs ys c c' p same size w v')))
      (put_back-IsAccounted xs ys c c' p same size w v')
Step-IsAccounted (fails s) v =
    unfold count_failure in
    record {
      lists = v.lists;
      supported = v.supported;
      usage = v.usage;
      small = v.small;
      once = v.once;
    }
Step-IsAccounted (limits s n) v =
    unfold set_max_capacity in
    record {
      lists = v.lists;
      supported = v.supported;
      usage = v.usage;
      small = v.small;
      once = v.once;
    }
Step-IsAccounted (clears {p} {out} e) v =
    unfold clear_pool in
    record {
      lists = tt;
      supported = v.supported;
      usage = ap total (sym e);
      small = v.small;
      once = λ a. omega (arith, v.once a);
    }
Step-IsAccounted (merges size bytes nodes {p} {p'} {out} h w new e) v =
    merge_nodes-IsAccounted size bytes nodes p p' out h w new e v

-- From a pool whose accounts are right, over any sequence of its blocks under the lock, by any
-- threads, in which clear comes only while nothing is handed out, new chunks, also those that are
-- preallocated, have addresses that no chunk has, the bytes handed out fit a size_t, and each client
-- gives back chunks that it holds with their address and capacity: the usage is the sum of the
-- capacities handed out, the free lists hold cleared chunks of their size, and each address is held
-- once at most.
pub Reach-IsAccounted : {s t : System} → IsAccounted s → Reach s t → IsAccounted t
Reach-IsAccounted v here = v
Reach-IsAccounted v (next r st) = Step-IsAccounted st (Reach-IsAccounted v r)
