-- ===== src/Memory/Pool/Valid.antt =====
-- What the free lists of memory/memory_pool.cpp hold, and what alloc_chunk and retrieve give.
use azh_lid.Prelude.{
  ℕ, ◌≤◌, ◌<◌, ◌≡◌, refl, sym, subst, ◌⊎◌, inl, inr, true, false, Option, none, some, List, [], ◌∷◌,
  ◌++◌, arith, ◌==◌, Bool-cases, Option-cases, ==_iff,
}
use azh_lid.Memory.Chunk.{Chunk, fresh, clear}
use azh_lid.Memory.Chunk.Contents.{IsValid, fresh-IsValid, clear-IsValid}
use azh_lid.Memory.Pool.{
  Pool, FreeLists, Outcome, returned, threw, find, assign, account, count_failure, take_free,
  pop_free, commit_new, create_chunk, create, alloc_size, alloc_chunk, put_back, retrieve,
  find_suitable_size, is_supported_size, over_capacity,
}
use azh_lid.Memory.Pool.Sizes.{find_suitable_size_lem, supported_bounds}

-- A chunk of the given size with no live bytes.
pub record IsCleared (size : ℕ) (c : Chunk) : Type 0 where
  pub chunk : IsValid c
  pub capacity : c.capacity ≡ size
  pub length : c.length ≡ 0
  pub head : c.head ≡ 0

abbrev pub AllCleared : ℕ → List Chunk → Type 0
AllCleared size [] = Unit
AllCleared size (c ∷ l) = IsCleared size c × AllCleared size l

-- Each key is a supported size, and its list holds cleared chunks of that size.
abbrev pub AllValid : FreeLists → Type 0
AllValid [] = Unit
AllValid ((size, l) ∷ m) = (is_supported_size size ≡ true) × AllCleared size l × AllValid m

pub append-AllCleared :
    (size : ℕ) (xs ys : List Chunk)
    → AllCleared size xs
    → AllCleared size ys
    → AllCleared size (xs ++ ys)
append-AllCleared size [] ys a b = b
append-AllCleared size (x ∷ xs) ys a b = (a.0, append-AllCleared size xs ys a.1 b)

pub find-AllCleared :
    (size : ℕ) (m : FreeLists) {l : List Chunk}
    → AllValid m
    → find size m ≡ some l
    → AllCleared size l
unfolding find
find-AllCleared size [] v e = absurd (cc)
find-AllCleared size ((s, l') ∷ m) {l} v e = elim (Bool-cases (s == size)) [
  | inl t ↦
      subst (λ k. AllCleared k l) ((==_iff s size).0 t) (subst (AllCleared s) (ground arith) v.1)
  | inr t ↦ find-AllCleared size m v.2 (ground arith)
]

pub find-supported :
    (size : ℕ) (m : FreeLists) {l : List Chunk}
    → AllValid m
    → find size m ≡ some l
    → is_supported_size size ≡ true
unfolding find
find-supported size [] v e = absurd (cc)
find-supported size ((s, l') ∷ m) {l} v e = elim (Bool-cases (s == size)) [
  | inl t ↦ subst (λ k. is_supported_size k ≡ true) ((==_iff s size).0 t) v.0
  | inr t ↦ find-supported size m {l = l} v.2 (ground arith)
]

pub assign-AllValid :
    (size : ℕ) (l : List Chunk) (m : FreeLists)
    → is_supported_size size ≡ true
    → AllCleared size l
    → AllValid m
    → AllValid (assign size l m)
unfolding assign
assign-AllValid size l [] h w v = (h, w, v)
assign-AllValid size l ((s, old) ∷ m) h w v = elim (Bool-cases (s == size)) [
  | inl t ↦ rw t (v.0, subst (λ k. AllCleared k l) (sym ((==_iff s size).0 t)) w, v.2)
  | inr t ↦ rw t (v.0, v.1, assign-AllValid size l m h w v.2)
]

pub fresh-IsCleared : (a size : ℕ) → is_supported_size size ≡ true → IsCleared size (fresh a size)
unfolding fresh
fresh-IsCleared a size h = record {
  chunk = fresh-IsValid a size (omega (arith, supported_bounds size h));
  capacity = refl;
  length = refl;
  head = refl;
}

-- What a call of `alloc_chunk(n)` may give: a cleared chunk of the size class of `n`, which has room
-- for `n` bytes, or the null
-- pointer if `n` is 0 or larger than every size, or an exception.
abbrev pub Handed : ℕ → Outcome (Option Chunk) → Type 0
Handed n (returned (some c)) =
    (c.capacity ≡ find_suitable_size n)
    × (n ≤ c.capacity)
    × (is_supported_size c.capacity ≡ true)
    × IsCleared c.capacity c
Handed n (returned none) = (n ≡ 0) ⊎ (4194304 < n)
Handed n (threw e) = Unit

-- What the fast path takes is the head of the list, and only the list and the accounts change.
pub take_free_inv :
    (size : ℕ) (p : Pool) {c : Chunk} {p' : Pool}
    → take_free size p ≡ some (c, p')
    → (rest : List Chunk) × (find size p.free ≡ some (c ∷ rest))
      × (p' ≡ account size (record p { free = assign size rest p.free }))
unfolding take_free
take_free_inv size p {c} {p'} e = by_list (find size p.free) refl e
  where
    by_list :
        (o : Option (List Chunk))
        → find size p.free ≡ o
        → pop_free size p o ≡ some (c, p')
        → (rest : List Chunk) × (find size p.free ≡ some (c ∷ rest))
          × (p' ≡ account size (record p { free = assign size rest p.free }))
    by_list none f h = absurd (cc)
    by_list (some []) f h = absurd (cc)
    by_list (some (d ∷ rest)) f h = (rest, ground arith, ground arith)

free-account : (size : ℕ) (p : Pool) → (account size p).free ≡ p.free
unfolding account
free-account size p = refl

free-count_failure : (p : Pool) → (count_failure p).free ≡ p.free
unfolding count_failure
free-count_failure p = refl

module _ (n size : ℕ) (suits : size ≡ find_suitable_size n)
    (supported : is_supported_size size ≡ true) (large : n ≤ size) where
  cleared-Handed : (c : Chunk) → IsCleared size c → Handed n (returned (some c))
  cleared-Handed c v =
      subst
        (λ k. (k ≡ find_suitable_size n) × (n ≤ k) × (is_supported_size k ≡ true) × IsCleared k c)
        (sym v.capacity) (suits, large, supported, v)

  take_free-Handed :
      {c : Chunk} (p : Pool) {p' : Pool}
      → AllValid p.free
      → take_free size p ≡ some (c, p')
      → AllValid p'.free × Handed n (returned (some c))
  take_free-Handed {c} p {p'} v e =
      let (rest, f, g) = take_free_inv size p e in
      let (cleared, others) = find-AllCleared size p.free v f in
      (
        subst (λ (q : Pool). AllValid q.free) (sym g)
            (subst AllValid (sym (free-account size _))
              (assign-AllValid size rest p.free supported others v)),
        cleared-Handed c cleared,
      )

  commit_new-Handed :
      (a : ℕ) (p : Pool)
      → AllValid p.free
      → let (r, p') = commit_new size (fresh a size) p in AllValid p'.free × Handed n r
  unfolding commit_new account count_failure
  commit_new-Handed a p v = elim (Bool-cases (over_capacity size p)) [
    | inl t ↦ rw t (v, tt)
    | inr t ↦ rw t (v, cleared-Handed _ (fresh-IsCleared a size supported))
  ]

  module _ (others : Pool → Pool)
      (keeps : (q : Pool) → AllValid q.free → AllValid (others q).free) where
    create_chunk-Handed :
        (granted : Option ℕ) (p : Pool)
        → AllValid p.free
        → let (r, p') = create_chunk size granted p in AllValid p'.free × Handed n r
    unfolding create_chunk count_failure
    create_chunk-Handed none p v = (v, tt)
    create_chunk-Handed (some a) p v = commit_new-Handed a p v

    create-Handed :
        (granted : Option ℕ) (p : Pool)
        → AllValid p.free
        → let (r, p') = create others granted size p in AllValid p'.free × Handed n r
    unfolding create count_failure
    create-Handed granted p v = elim (Bool-cases (over_capacity size p)) [
      | inl t ↦ rw t (v, tt)
      | inr t ↦ rw t (create_chunk-Handed granted (others p) (keeps p v))
    ]

    alloc_size-Handed :
        (granted : Option ℕ) (p : Pool)
        → AllValid p.free
        → let (r, p') = alloc_size others granted size p in AllValid p'.free × Handed n r
    unfolding alloc_size
    alloc_size-Handed granted p v = elim (Option-cases (take_free size p)) [
      | inl e ↦ rw e (create-Handed granted p v)
      | inr ((c, p'), e) ↦ rw e (take_free-Handed p v e)
    ]

-- If other threads keep the free lists well-formed, alloc_chunk does, and it gives a cleared chunk
-- of the best fitting size, the null pointer only for 0 bytes or more than the largest size, or an
-- exception.
pub alloc_chunk_lem :
    (others : Pool → Pool) (granted : Option ℕ) (n : ℕ) (p : Pool)
    → ((q : Pool) → AllValid q.free → AllValid (others q).free)
    → AllValid p.free
    → let (r, p') = alloc_chunk others granted n p in AllValid p'.free × Handed n r
unfolding alloc_chunk count_failure
alloc_chunk_lem others granted n p keeps v = elim (Bool-cases (n == 0)) [
  | inl z ↦ rw z (v, inl ((==_iff n 0).0 z))
  | inr z ↦ rw z (elim (find_suitable_size_lem n) [
    | inl (e, large) ↦ rw e (v, inr large)
    | inr (supported, fits, least) ↦
        rw (positive supported) (alloc_size-Handed n _ refl supported fits others keeps granted p v)
  ])
]
  where
    positive : is_supported_size (find_suitable_size n) ≡ true → (find_suitable_size n == 0) ≡ false
    positive s = ground (arith, supported_bounds (find_suitable_size n) s)

put_back-AllValid :
    (c : Chunk) (p : Pool)
    → is_supported_size c.capacity ≡ true
    → IsCleared c.capacity c
    → AllValid p.free
    → AllValid (put_back c p).free
unfolding put_back
put_back-AllValid c p h w v = elim (Option-cases (find c.capacity p.free)) [
  | inl e ↦ rw e (assign-AllValid c.capacity (c ∷ []) p.free h (w, tt) v)
  | inr (l, e) ↦
      rw e
        (assign-AllValid c.capacity (c ∷ l) p.free h (w, find-AllCleared c.capacity p.free v e) v)
]

-- `retrieve` of a well-formed chunk, whatever bytes it holds, keeps the free lists well-formed.
pub retrieve-AllValid :
    (c : Chunk) (p : Pool) → IsValid c → AllValid p.free → AllValid (retrieve (some c) p).free
unfolding retrieve clear
retrieve-AllValid c p w v = elim (Bool-cases (c.capacity == 0)) [
  | inl z ↦ rw z v
  | inr z ↦ rw z (elim (Bool-cases (is_supported_size c.capacity)) [
    | inl s ↦ rw s (
        put_back-AllValid _ p s
          (record { chunk = clear-IsValid w; capacity = refl; length = refl; head = refl }) v)
    | inr s ↦ rw s v
  ])
]

pub retrieve_null : (p : Pool) → retrieve none p ≡ p
unfolding retrieve
retrieve_null p = refl
