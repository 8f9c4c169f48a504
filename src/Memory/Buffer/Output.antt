-- ===== src/Memory/Buffer/Output.antt =====
-- OutputBuffer and BufferBase of memory/data_buf.cpp: ensure_capacity, write_to_buf, pop, clear and
-- write_to_fd.
use azh_lid.Prelude.{
  ℕ, ◌+◌, ◌-◌, ◌≤◌, max, ◌≡◌, ◌⊎◌, inl, inr, refl, sym, ap, subst, true, false, Option, none, some,
  List, [], ◌++◌, arith, ltb, leb, Bool-cases, length, take, length-take, ℤ, pos, negsuc, pos_part,
  is_positive,
}
use mathlib.Core.List.{append-nil}
use azh_lid.Memory.Chunk.{Chunk, contents, adjust, add_size, size_mod}
use azh_lid.Memory.Chunk.Contents.{IsValid}
use azh_lid.Memory.Pool.Sizes.{supported_bounds}
use azh_lid.Memory.Pool.Valid.{alloc_chunk_lem}
use azh_lid.Memory.Buffer.{
  Env, Buffer, sub_size, safe_add, allot, ensure_allotted, ensure_output, ensure_capacity,
  append_output, write_bytes, write_to_buf, max_allowed_size, default_buffer_size,
}
use azh_lid.Memory.Buffer.Room.{
  IsKeeping, IsOwned, IsSound, pending, HasRoom, Grows, adopt_lem, replace_lem, append_chunk_lem,
  Grows-le, HasRoom-le, kept_Grows,
}
use azh_lid.Memory.Buffer.Input.{adjusted-IsSound}

-- The bytes that a call of `write_to_buf` is given.
abbrev pub source : Option (List ℕ) → ℤ → List ℕ
source none len = []
source (some xs) len = take (pos_part len) xs

-- What a call of `write_to_buf` makes of live bytes `xs`: with result 0 the bytes `new` stand
-- behind them, with -1 they are as before.
abbrev pub Writes : List ℕ → List ℕ → ℤ × Buffer → Type 0
Writes xs new (n, b) =
    IsSound b
    × (((n ≡ pos 0) × (pending b.data_buf ≡ xs ++ new))
        ⊎ ((n ≡ negsuc 0) × (pending b.data_buf ≡ xs)))

module _ (env : Env) (keeps : IsKeeping env) where
  ensure_allotted_lem :
      (n : ℕ) (c : Chunk) (b : Buffer)
      → n ≤ max_allowed_size
      → b.data_buf ≡ some c
      → c.head ≡ 0
      → IsSound b
      → Grows n (contents c) (ensure_allotted env n c b)
  unfolding ensure_allotted safe_add allot
  ensure_allotted_lem n c b small e start s =
      let sum : add_size c.length n ≡ c.length + n = omega (arith, fits) in
      let apart : ltb (size_mod - 1 - n) c.length ≡ false = ground (arith, fits) in
      elim (Bool-cases (leb n (sub_size c.capacity c.length))) [
        | inl t ↦
            rw t
              (kept_Grows n c b true e s (λ _. (start, ground (arith, valid.window, valid.small))))
        | inr t ↦
            rw (t, apart, sum)
              (elim (Bool-cases (ltb max_allowed_size (c.length + n))) [
                | inl u ↦ rw u (kept_Grows n c b false e s (λ x. absurd (cc)))
                | inr u ↦ rw u (
                    let (v, h) =
                      alloc_chunk_lem env.others env.granted (c.length + n) b.pool keeps s.lists in
                    replace_lem env (c.length + n) n c b _ _ e s (omega arith) v h)
              ])
      ]
    where
      valid : IsValid c
      valid = (subst IsOwned e s.owned).0

      fits : c.length ≤ 4194304
      fits = omega (arith, valid.window, supported_bounds c.capacity (subst IsOwned e s.owned).1)

  ensure_output_lem :
      (n : ℕ) (b : Buffer)
      → n ≤ max_allowed_size
      → IsSound b
      → (o : Option Chunk) → b.data_buf ≡ o
      → Grows n (pending o) (ensure_output env n b o)
  unfolding ensure_output
  ensure_output_lem n b small s none e =
      let (v, h) =
        alloc_chunk_lem env.others env.granted (max n default_buffer_size) b.pool keeps s.lists in
      Grows-le n (max n default_buffer_size) [] _ (omega arith)
        (adopt_lem (max n default_buffer_size) b _ _ e v h)
  ensure_output_lem n b small s (some c) e =
      let (s', same, start) = adjusted-IsSound b c e s in
      subst (λ xs. Grows n xs (ensure_output env n b (some c))) same
        (ensure_allotted_lem n (adjust c) (record b { data_buf = some (adjust c) }) small refl start
          s')

  -- `ensure_capacity` keeps the buffer sound and its live bytes as they are, on every branch; where
  -- it succeeds there is room behind them for all the bytes asked for.
  pub ensure_capacity_lem :
      (n : ℤ) (b : Buffer)
      → IsSound b
      → Grows (pos_part n) (pending b.data_buf) (ensure_capacity env n b)
  unfolding ensure_capacity
  ensure_capacity_lem n b s = elim (Bool-cases (is_positive n)) [
    | inl t ↦ rw t (elim (Bool-cases (ltb max_allowed_size (pos_part n))) [
      | inl u ↦ rw u (s, refl, λ x. absurd (cc))
      | inr u ↦ rw u (ensure_output_lem (pos_part n) b (ground arith) s b.data_buf refl)
    ])
    | inr t ↦ rw t (s, refl, λ x. absurd (cc))
  ]

  append_output_lem :
      (bytes : List ℕ) (b : Buffer)
      → IsSound b
      → (o : Option Chunk) → b.data_buf ≡ o
      → HasRoom (length bytes) o
      → Writes (pending o) bytes (append_output bytes b o)
  unfolding append_output
  append_output_lem bytes b s none e r = absurd r
  append_output_lem bytes b s (some c) e r =
      let (v, same) = append_chunk_lem bytes c (subst IsOwned e s.owned) r in
      (record { lists = s.lists; owned = v }, inl (refl, same))

  write_bytes_lem :
      (xs : List ℕ) (len : ℤ) (b : Buffer)
      → IsSound b
      → Writes (pending b.data_buf) (take (pos_part len) xs) (write_bytes env xs len b)
  unfolding write_bytes
  write_bytes_lem xs len b s =
      let (s', same, room) = ensure_capacity_lem len b s in
      let b' = (ensure_capacity env len b).1 in
      elim (Bool-cases (is_positive len)) [
        | inl t ↦ rw t (elim (Bool-cases (ltb max_allowed_size (pos_part len))) [
          | inl u ↦ rw u (s, inr (refl, refl))
          | inr u ↦ rw u (elim (Bool-cases (ensure_capacity env len b).0) [
            | inl r ↦ rw r (
                subst
                  (λ ys.
                    Writes ys (take (pos_part len) xs)
                      (append_output (take (pos_part len) xs) b' b'.data_buf))
                  same
                  (append_output_lem (take (pos_part len) xs) b' s' b'.data_buf refl (
                    HasRoom-le (length (take (pos_part len) xs)) (pos_part len) b'.data_buf
                      (omega (arith, length-take (pos_part len) xs)) (room r))))
            | inr r ↦ rw r (s', inr (refl, same))
          ])
        ])
        | inr t ↦ rw (t, nothing len t) (s, inl (refl, sym (append-nil _)))
      ]
    where
      nothing : (k : ℤ) → is_positive k ≡ false → take (pos_part k) xs ≡ []
      nothing (pos k) h = ap (λ (i : ℕ). take i xs) {x = k} {y = 0} (ground arith)
      nothing (negsuc k) h = refl

  -- On a sound buffer over a pool that other threads keep well-formed, write_to_buf appends all
  -- the given bytes and returns 0, or changes no live byte and returns -1, and keeps the buffer
  -- sound on every branch.
  pub write_to_buf_lem :
      (src : Option (List ℕ)) (len : ℤ) (b : Buffer)
      → IsSound b
      → Writes (pending b.data_buf) (source src len) (write_to_buf env src len b)
  unfolding write_to_buf
  write_to_buf_lem none len b s = (s, inr (refl, refl))
  write_to_buf_lem (some xs) len b s = write_bytes_lem xs len b s
