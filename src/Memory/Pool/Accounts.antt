-- ===== src/Memory/Pool/Accounts.antt =====
-- What each block of memory/memory_pool.cpp under the lock does to the accounts: the usage beside what is
-- handed out, and the place of each address.
use azh_lid.Prelude.{
  ℕ, ◌+◌, ◌≤◌, ◌<◌, ◌≡◌, refl, ap, subst, inl, inr, true, Option, none, some, List, [], ◌∷◌, ◌++◌,
  arith, ◌==◌, if◌then◌else◌, Bool-cases, ==_iff,
}
use azh_lid.Memory.Chunk.{Chunk, add_size, size_mod, fresh, clear}
use azh_lid.Memory.Chunk.Contents.{IsValid}
use azh_lid.Memory.Pool.{
  Pool, FreeLists, returned, find, assign, account, link, commit_new, put_back, retrieve,
  is_supported_size, merge_nodes,
}
use azh_lid.Memory.Pool.Sizes.{supported_bounds}
use azh_lid.Memory.Pool.Valid.{
  AllValid, AllCleared, append-AllCleared, find-AllCleared, find-supported, retrieve-AllValid,
  assign-AllValid,
}

-- The bytes of the chunks of a list.
abbrev pub total : List Chunk → ℕ
total [] = 0
total (c ∷ l) = c.capacity + total l

-- How many chunks of a list, and of the free lists, have address `a`.
abbrev pub held : ℕ → List Chunk → ℕ
held a [] = 0
held a (c ∷ l) = (if c.address == a then 1 else 0) + held a l

abbrev pub stock : ℕ → FreeLists → ℕ
stock a [] = 0
stock a ((s, l) ∷ m) = held a l + stock a m

abbrev pub AllSupported : List Chunk → Type 0
AllSupported [] = Unit
AllSupported (c ∷ l) = (is_supported_size c.capacity ≡ true) × AllSupported l

-- The pool, and the chunks that are handed out.
pub record System : Type 0 where
  pub pool : Pool
  pub out : List Chunk

-- The accounts are right.
pub record IsAccounted (s : System) : Type 0 where
  pub lists : AllValid s.pool.free
  pub supported : AllSupported s.out
  pub usage : s.pool.current_usage ≡ total s.out
  pub small : total s.out < size_mod
  pub once : (a : ℕ) → stock a s.pool.free + held a s.out ≤ 1

held-append : (a : ℕ) (xs ys : List Chunk) → held a (xs ++ ys) ≡ held a xs + held a ys
held-append a [] ys = omega arith
held-append a (x ∷ xs) ys = omega (arith, held-append a xs ys)

total-append : (xs ys : List Chunk) → total (xs ++ ys) ≡ total xs + total ys
total-append [] ys = omega arith
total-append (x ∷ xs) ys = omega (arith, total-append xs ys)

AllSupported-split :
    (xs : List Chunk) (c : Chunk) (ys : List Chunk)
    → AllSupported (xs ++ c ∷ ys)
    → (is_supported_size c.capacity ≡ true) × AllSupported (xs ++ ys)
AllSupported-split [] c ys h = h
AllSupported-split (x ∷ xs) c ys h = let (s, r) = AllSupported-split xs c ys h.1 in (s, (h.0, r))

stock-assign :
    (a size : ℕ) (l : List Chunk) (m : FreeLists)
    → stock a (assign size l m) + held a (link [] (find size m)) ≡ stock a m + held a l
unfolding assign find link
stock-assign a size l [] = omega arith
stock-assign a size l ((s, old) ∷ m) = ground (arith, stock-assign a size l m)

pub takes-IsAccounted :
    (size : ℕ) (c : Chunk) (rest : List Chunk) (p : Pool) (out : List Chunk)
    → find size p.free ≡ some (c ∷ rest)
    → total out + size < size_mod
    → IsAccounted (record { pool = p; out = out })
    → IsAccounted (record {
      pool = account size (record p { free = assign size rest p.free });
      out = c ∷ out;
    })
unfolding account link
takes-IsAccounted size c rest p out f fits v =
    let (cleared, others) = find-AllCleared size p.free v.lists f in
    let supported = find-supported size p.free v.lists f in
    record {
      lists = assign-AllValid size rest p.free supported others v.lists;
      supported = (rw cleared.capacity supported, v.supported);
      usage = omega (arith, v.usage, cleared.capacity);
      small = omega (arith, cleared.capacity);
      once = λ a. ground (arith, stock-assign a size rest p.free, v.once a, ap (link []) f);
    }

pub commits-IsAccounted :
    (size a : ℕ) (p : Pool) (out : List Chunk)
    → is_supported_size size ≡ true
    → stock a p.free + held a out ≡ 0
    → total out + size < size_mod
    → IsAccounted (record { pool = p; out = out })
    → IsAccounted (record { pool = account size p; out = fresh a size ∷ out })
unfolding account fresh
commits-IsAccounted size a p out h new fits v = record {
  lists = v.lists;
  supported = (h, v.supported);
  usage = omega (arith, v.usage);
  small = omega arith;
  once = λ b. elim (Bool-cases (a == b)) [
    | inl e ↦
        rw e (subst (λ k. stock k p.free + (1 + held k out) ≤ 1) ((==_iff a b).0 e) (omega arith))
    | inr e ↦ rw e (omega (arith, v.once b))
  ];
}

pub commit_new_inv :
    (size : ℕ) (c : Chunk) (p : Pool) {d : Chunk} {p' : Pool}
    → commit_new size c p ≡ (returned (some d), p')
    → (d ≡ c) × (p' ≡ account size p) × (add_size p.current_usage size ≤ p.max_capacity)
unfolding commit_new
commit_new_inv size c p e = ground arith

pub retrieve-supported :
    (c : Chunk) (p : Pool)
    → is_supported_size c.capacity ≡ true
    → retrieve (some c) p ≡ put_back (clear c) p
unfolding retrieve
retrieve-supported c p h = ground (arith, supported_bounds c.capacity h)

held-link :
    (a : ℕ) (c : Chunk) (o : Option (List Chunk))
    → held a (link (c ∷ []) o) ≡ (if c.address == a then 1 else 0) + held a (link [] o)
unfolding link
held-link a c none = refl
held-link a c (some l) = refl

-- A chunk that is given back is in the free lists once more, and its bytes leave the usage.
put_back_lem :
    (c : Chunk) (p : Pool)
    → c.capacity ≤ p.current_usage
    → ((put_back (clear c) p).current_usage + c.capacity ≡ p.current_usage)
      × ((a : ℕ)
          → stock a (put_back (clear c) p).free
            ≡ stock a p.free + (if c.address == a then 1 else 0))
unfolding put_back clear
put_back_lem c p h = (
  ground arith,
  λ a. omega (
    arith,
    stock-assign a c.capacity (link (clear c ∷ []) (find c.capacity p.free)) p.free,
    held-link a (clear c) (find c.capacity p.free),
  ),
)

module _ (xs ys : List Chunk) (c c' : Chunk) (p : Pool) (same : c'.address ≡ c.address)
    (size : c'.capacity ≡ c.capacity) (w : IsValid c')
    (v : IsAccounted (record { pool = p; out = xs ++ c ∷ ys })) where
  pub given : is_supported_size c.capacity ≡ true
  given = (AllSupported-split xs c ys v.supported).0

  pub put_back-IsAccounted : IsAccounted (record { pool = put_back (clear c') p; out = xs ++ ys })
  put_back-IsAccounted =
      let (usage, stocks) = put_back_lem c' p (omega (arith, total-append xs (c ∷ ys), v.usage)) in
      record {
        lists =
            subst (λ (q : Pool). AllValid q.free) (retrieve-supported c' p (rw size given))
              (retrieve-AllValid c' p w v.lists);
        supported = (AllSupported-split xs c ys v.supported).1;
        usage = omega (arith, usage, v.usage, total-append xs ys, total-append xs (c ∷ ys));
        small = omega (arith, total-append xs ys, total-append xs (c ∷ ys), v.small);
        once = λ a.
            rw (stocks a, same)
              (omega (arith, held-append a xs ys, held-append a xs (c ∷ ys), v.once a));
      }

held-links :
    (a : ℕ) (nodes : List Chunk) (o : Option (List Chunk))
    → held a (link nodes o) ≡ held a nodes + held a (link [] o)
unfolding link
held-links a nodes none = omega arith
held-links a nodes (some l) = held-append a nodes l

pub merge_nodes-IsAccounted :
    (size bytes : ℕ) (nodes : List Chunk) (p p' : Pool) (out : List Chunk)
    → is_supported_size size ≡ true
    → AllCleared size nodes
    → ((a : ℕ) → stock a p.free + held a out + held a nodes ≤ 1)
    → merge_nodes size bytes nodes p ≡ returned p'
    → IsAccounted (record { pool = p; out = out })
    → IsAccounted (record { pool = p'; out = out })
unfolding merge_nodes
merge_nodes-IsAccounted size bytes nodes p p' out h w new e v =
    subst (λ q. IsAccounted (record { pool = q; out = out })) merged
      (record {
        lists = assign-AllValid size (link nodes (find size p.free)) p.free h linked v.lists;
        supported = v.supported;
        usage = v.usage;
        small = v.small;
        once = λ a. omega (
          arith,
          new a,
          stock-assign a size (link nodes (find size p.free)) p.free,
          held-links a nodes (find size p.free),
        );
      })
  where
    after : Pool
    after = record p {
      free = assign size (link nodes (find size p.free)) p.free;
      preallocated = add_size p.preallocated bytes;
    }

    merged : after ≡ p'
    merged = ground (arith, e)

    linked : AllCleared size (link nodes (find size p.free))
    linked = unfold link in go (find size p.free) refl
      where
        go : (o : Option (List Chunk)) → find size p.free ≡ o → AllCleared size (link nodes o)
        go none f = w
        go (some l) f = append-AllCleared size nodes l w (find-AllCleared size p.free v.lists f)
