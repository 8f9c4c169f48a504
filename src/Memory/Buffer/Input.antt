-- ===== src/Memory/Buffer/Input.antt =====
-- InputBuffer of memory/data_buf.cpp: ensure_space_available.
use azh_lid.Prelude.{
  ℕ, ◌+◌, ◌-◌, ◌≤◌, ◌<◌, max, ◌≡◌, inl, inr, refl, sym, ap, ◌∙◌, subst, true, false, Option, none,
  some, [], arith, ltb, leb, false, Bool-cases, length, ℤ, pos, negsuc, pos_part, is_positive,
  Option-cases,
}
use azh_lid.Memory.Chunk.{Chunk, contents, adjust, add_size}
use azh_lid.Memory.Chunk.Contents.{length-contents, IsValid, adjust_lem, adjust_zero}
use azh_lid.Memory.Pool.{find_suitable_size}
use azh_lid.Memory.Pool.Sizes.{supported_bounds}
use azh_lid.Memory.Pool.Valid.{alloc_chunk_lem}
use azh_lid.Memory.Buffer.{
  Env, Buffer, sub_size, expand_buffer, ensure_adjusted, ensure_chunk, ensure_space_available,
  max_allowed_size, default_buffer_size,
}
use azh_lid.Memory.Buffer.Room.{
  IsKeeping, IsOwned, IsSound, pending, Grows, adopt_lem, replace_lem, Grows-le, kept_Grows,
  replace_same_size,
}

-- `adjust` of the chunk of a buffer keeps the buffer sound.
pub adjusted-IsSound :
    (b : Buffer) (c : Chunk)
    → b.data_buf ≡ some c
    → IsSound b
    → IsSound (record b { data_buf = some (adjust c) })
      × (contents (adjust c) ≡ contents c)
      × ((adjust c).head ≡ 0)
adjusted-IsSound b c e s =
    let (valid, supported) = subst IsOwned e s.owned in
    let (adjusted, same, start, size) = adjust_lem valid in
    (record { lists = s.lists; owned = (adjusted, rw size supported) }, same, start)

module _ (env : Env) (keeps : IsKeeping env) where
  expand_buffer_lem :
      (needed : ℕ) (c : Chunk) (b : Buffer)
      → b.data_buf ≡ some c
      → IsSound b
      → needed < 4294967296
      → Grows needed (contents c) (expand_buffer env needed c b)
  unfolding expand_buffer
  expand_buffer_lem needed c b e s small =
      let (v, h) =
        alloc_chunk_lem env.others env.granted (add_size c.length needed) b.pool keeps s.lists in
      replace_lem env (add_size c.length needed) needed c b _ _ e s (omega (arith, fits)) v h
    where
      fits : c.length ≤ 4194304
      fits =
          let (valid, supported) = subst IsOwned e s.owned in
          omega (arith, valid.window, supported_bounds c.capacity supported)

  -- Room for one byte at least; the request itself may be larger.
  ensure_adjusted_lem :
      (n : ℕ) (c : Chunk) (b : Buffer)
      → 0 < n
      → b.data_buf ≡ some c
      → c.head ≡ 0
      → IsSound b
      → Grows 1 (contents c) (ensure_adjusted env n c b)
  unfolding ensure_adjusted
  ensure_adjusted_lem n c b wanted e start s = elim (Bool-cases (leb n available)) [
    | inl t ↦ rw t (kept_Grows 1 c b true e s (λ _. (start, ground (arith, valid.window))))
    | inr t ↦ rw t (elim (Bool-cases (ltb 2147483647 (n - available))) [
      | inl u ↦ rw u (kept_Grows 1 c b false e s (λ x. absurd (cc)))
      | inr u ↦ rw u (
          Grows-le 1 (n - available) (contents c) _ (ground arith)
            (expand_buffer_lem (n - available) c b e s (ground arith)))
    ])
  ]
    where
      available : ℕ
      available = sub_size c.capacity c.length

      valid : IsValid c
      valid = (subst IsOwned e s.owned).0

  ensure_chunk_lem :
      (n : ℕ) (b : Buffer)
      → 0 < n
      → IsSound b
      → (o : Option Chunk) → b.data_buf ≡ o
      → Grows 1 (pending o) (ensure_chunk env n b o)
  unfolding ensure_chunk
  ensure_chunk_lem n b wanted s none e =
      let (v, h) =
        alloc_chunk_lem env.others env.granted (max n default_buffer_size) b.pool keeps s.lists in
      Grows-le 1 (max n default_buffer_size) [] _ (omega arith)
        (adopt_lem (max n default_buffer_size) b _ _ e v h)
  ensure_chunk_lem n b wanted s (some c) e =
      let (s', same, start) = adjusted-IsSound b c e s in
      subst (λ xs. Grows 1 xs (ensure_chunk env n b (some c))) same
        (ensure_adjusted_lem n (adjust c) (record b { data_buf = some (adjust c) }) wanted refl
          start s')

  -- `ensure_space_available` keeps the buffer sound and its live bytes as they are, on every
  -- branch; where it succeeds there is room for at least one byte behind the live bytes, which now
  -- start at index 0.
  pub ensure_space_available_lem :
      (n : ℤ) (b : Buffer)
      → IsSound b
      → Grows 1 (pending b.data_buf) (ensure_space_available env n b)
  unfolding ensure_space_available
  ensure_space_available_lem n b s = elim (Bool-cases (is_positive n)) [
    | inl t ↦ rw t (elim (Bool-cases (ltb max_allowed_size (pos_part n))) [
      | inl u ↦ rw u (s, refl, λ x. absurd (cc))
      | inr u ↦ rw u (ensure_chunk_lem (pos_part n) b (wanted n t) s b.data_buf refl)
    ])
    | inr t ↦ rw t (s, refl, λ x. absurd (cc))
  ]
    where
      wanted : (k : ℤ) → is_positive k ≡ true → 0 < pos_part k
      wanted (pos k) h = ground arith
      wanted (negsuc k) h = absurd (cc)

-- A request that the chunk cannot meet, on a chunk whose live bytes start at index 0.
ensure_space_available_full :
    (env : Env) (n : ℕ) (c : Chunk) (b : Buffer)
    → b.data_buf ≡ some c
    → IsValid c
    → c.head ≡ 0
    → c.capacity < c.length + n
    → n ≤ max_allowed_size
    → ensure_space_available env (pos n) b
      ≡ expand_buffer env (n - (c.capacity - c.length)) c (record b { data_buf = some c })
unfolding ensure_space_available ensure_chunk ensure_adjusted
ensure_space_available_full env n c b e v start full small =
    let positive : ltb 0 n ≡ true = ground (arith, v.window) in
    let allowed : ltb max_allowed_size n ≡ false = ground arith in
    let space : sub_size c.capacity c.length ≡ c.capacity - c.length =
      omega (arith, v.window, v.small) in
    let lacking : leb n (c.capacity - c.length) ≡ false = ground (arith, v.window) in
    let short : ltb 2147483647 (n - (c.capacity - c.length)) ≡ false = ground arith in
    rw (positive, allowed, e, ensure_chunk, adjust_zero c start, space, lacking, short)

-- The chunk that the call ends with, where there is one.
short_of_room :
    (env : Env) (n : ℕ) (c c' : Chunk) (b : Buffer)
    → IsKeeping env
    → b.data_buf ≡ some c
    → IsSound b
    → c.head ≡ 0
    → c.capacity < c.length + n
    → n ≤ max_allowed_size
    → find_suitable_size (c.length + (n - (c.capacity - c.length))) ≡ c.capacity
    → (ensure_space_available env (pos n) b).1.data_buf ≡ some c'
    → c'.capacity < c'.length + n
unfolding expand_buffer
short_of_room env n c c' b keeps e s start full small same f =
    let (valid, supported) = subst IsOwned e s.owned in
    let total = c.length + (n - (c.capacity - c.length)) in
    let sum : add_size c.length (n - (c.capacity - c.length)) ≡ total =
      omega (arith, supported_bounds c.capacity supported, valid.window) in
    let (v, h) = alloc_chunk_lem env.others env.granted total b.pool keeps s.lists in
    let g = rw (ensure_space_available_full env n c b e valid start full small, sum) at f in
    omega (
      arith,
      replace_same_size env total c (record b { data_buf = some c }) _ _ c' refl (omega arith) same
          h g,
    )

-- On a sound buffer whose live bytes, at least one, start at index 0, and for a request of at most
-- 1 MB that does not fit: where the bytes that lack, added to the live bytes, still fit a chunk of
-- the same size class, and other threads keep the pool well-formed, ensure_space_available ends
-- with a chunk that has not the room asked for, whatever it reports.
pub ensure_space_available_short :
    (env : Env) (n : ℕ) (c : Chunk) (b : Buffer)
    → IsKeeping env
    → b.data_buf ≡ some c
    → IsSound b
    → c.head ≡ 0
    → 0 < c.length
    → c.capacity < c.length + n
    → n ≤ max_allowed_size
    → find_suitable_size (c.length + (n - (c.capacity - c.length))) ≡ c.capacity
    → (c' : Chunk) × ((ensure_space_available env (pos n) b).1.data_buf ≡ some c')
      × (c'.capacity < c'.length + n)
ensure_space_available_short env n c b keeps e s start some_live full small same =
    elim (Option-cases (ensure_space_available env (pos n) b).1.data_buf) [
      | inl none_left ↦ absurd (omega (arith, lost none_left))
      | inr (c', f) ↦ (c', f, short_of_room env n c c' b keeps e s start full small same f)
    ]
  where
    lost : (ensure_space_available env (pos n) b).1.data_buf ≡ none → c.length ≡ 0
    lost f =
        let (_, kept, _) = ensure_space_available_lem env keeps (pos n) b s in
        let gone : [] ≡ contents c = subst (λ o. pending o ≡ contents c) f (kept ∙ ap pending e) in
        sym (length-contents (subst IsOwned e s.owned).0) ∙ ap length (sym gone)
