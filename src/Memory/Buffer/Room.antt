-- ===== src/Memory/Buffer/Room.antt =====
-- The invariant of the buffers of memory/data_buf.cpp, and what their allocations give.
use azh_lid.Prelude.{
  ℕ, ◌+◌, ◌≤◌, ◌≡◌, inl, inr, sym, ◌∙◌, subst, Bool, true, Option, none, some, List, [], ◌++◌,
  arith, length, take-overwrite, length-overwrite,
}
use azh_lid.Memory.Chunk.{Chunk, contents, copy, add_size}
use azh_lid.Memory.Chunk.Contents.{IsValid, copy_lem, copy_fits}
use azh_lid.Memory.Pool.{Pool, Outcome, returned, threw, is_supported_size, find_suitable_size}
use azh_lid.Memory.Pool.Valid.{AllValid, Handed, retrieve-AllValid}
use azh_lid.Memory.Buffer.{Env, Buffer, adopt, replace, append_chunk}

-- Other threads keep the free lists of the pool well-formed.
abbrev pub IsKeeping : Env → Type 0
IsKeeping env = (q : Pool) → AllValid q.free → AllValid (env.others q).free

abbrev pub IsOwned : Option Chunk → Type 0
IsOwned none = Unit
IsOwned (some c) = IsValid c × (is_supported_size c.capacity ≡ true)

-- A chunk of a buffer is well-formed and of a size of the pool.
pub record IsSound (b : Buffer) : Type 0 where
  pub lists : AllValid b.pool.free
  pub owned : IsOwned b.data_buf

-- The live bytes of a buffer.
abbrev pub pending : Option Chunk → List ℕ
pending none = []
pending (some c) = contents c

-- There is room for `n` more bytes behind the live bytes, which start at index 0.
abbrev pub HasRoom : ℕ → Option Chunk → Type 0
HasRoom n none = ⊥
HasRoom n (some c) = (c.head ≡ 0) × (c.length + n ≤ c.capacity)

-- The result of an allocation in a buffer with live bytes `xs`: they are kept, and success gives
-- room for `n` bytes.
abbrev pub Grows : ℕ → List ℕ → Bool × Buffer → Type 0
Grows n xs (ready, b) =
    IsSound b × (pending b.data_buf ≡ xs) × (ready ≡ true → HasRoom n b.data_buf)

-- The first allocation, of `n` bytes.
pub adopt_lem :
    (n : ℕ) (b : Buffer) (r : Outcome (Option Chunk)) (p : Pool)
    → b.data_buf ≡ none
    → AllValid p.free
    → Handed n r
    → Grows n [] (adopt b (r, p))
unfolding adopt
adopt_lem n b (returned (some c)) p e v (exact, fits, supported, w) = (
  record { lists = v; owned = (w.chunk, supported) },
  rw w.length,
  λ _. (w.head, omega (arith, w.length)),
)
adopt_lem n b (returned none) p e v h =
    (record { lists = v; owned = rw e tt }, rw e, λ t. absurd (cc))
adopt_lem n b (threw x) p e v h = (record { lists = v; owned = rw e tt }, rw e, λ t. absurd (cc))

-- A move to a new chunk of at least `n` bytes, where `n` holds the live bytes and more.
pub replace_lem :
    (env : Env) (n extra : ℕ) (old : Chunk) (b : Buffer) (r : Outcome (Option Chunk)) (p : Pool)
    → b.data_buf ≡ some old
    → IsSound b
    → old.length + extra ≤ n
    → AllValid p.free
    → Handed n r
    → Grows extra (contents old) (replace env old b (r, p))
unfolding replace
replace_lem env n extra old b (returned (some c)) p e s more v (exact, fits, supported, w) =
    let (valid, supported') = subst IsOwned e s.owned in
    let (same_size, start, len) = copy_fits env.grown old c (omega (arith, w.capacity)) w.head in
    let (copied, outcome) = copy_lem env.grown old valid w.chunk in
    (
      record { lists = retrieve-AllValid old p valid v; owned = (copied, rw same_size supported) },
      (elim outcome [
        | inl (same, _) ↦ same
        | inr (_, small, _) ↦ absurd (omega (arith, w.capacity))
      ]),
      λ _. (start, omega (arith, same_size, len)),
    )
replace_lem env n extra old b (returned none) p e s more v h =
    (record { lists = v; owned = s.owned }, rw e, λ t. absurd (cc))
replace_lem env n extra old b (threw x) p e s more v h =
    (record { lists = v; owned = s.owned }, rw e, λ t. absurd (cc))

-- Bytes that fit are appended to the live bytes.
pub append_chunk_lem :
    (bytes : List ℕ) (c : Chunk)
    → IsOwned (some c)
    → HasRoom (length bytes) (some c)
    → IsOwned (some (append_chunk bytes c))
      × (contents (append_chunk bytes c) ≡ contents c ++ bytes)
unfolding append_chunk
append_chunk_lem bytes c (v, supported) (start, fits) =
    let sum : add_size c.length (length bytes) ≡ c.length + length bytes = omega arith in
    (
      (
        record {
          window = omega arith;
          sized = length-overwrite c.bytes c.length bytes ∙ v.sized;
          small = v.small;
        },
        supported,
      ),
      rw (start, sum) (take-overwrite c.bytes c.length bytes (omega arith)),
    )

pub HasRoom-le : (m n : ℕ) (o : Option Chunk) → m ≤ n → HasRoom n o → HasRoom m o
HasRoom-le m n none h r = r
HasRoom-le m n (some c) h r = omega (arith, r.1, r.0)

pub Grows-le : (m n : ℕ) (xs : List ℕ) (r : Bool × Buffer) → m ≤ n → Grows n xs r → Grows m xs r
Grows-le m n xs (ready, b) h (s, e, r) = (s, e, λ t. HasRoom-le m n b.data_buf h (r t))

-- A buffer that is left as it is.
pub kept_Grows :
    (n : ℕ) (c : Chunk) (b : Buffer) (ready : Bool)
    → b.data_buf ≡ some c
    → IsSound b
    → (ready ≡ true → HasRoom n (some c))
    → Grows n (contents c) (ready, b)
kept_Grows n c b ready e s r = (s, rw e, λ t. subst (HasRoom n) (sym e) (r t))

unchanged :
    (old c' : Chunk) → some old ≡ some c' → (c'.capacity ≡ old.capacity) × (c'.length ≡ old.length)
unchanged old c' f = ground arith

-- Where the new chunk has the size of the old one, or none is to be had, the room is as it was.
pub replace_same_size :
    (env : Env) (n : ℕ) (old : Chunk) (b : Buffer) (r : Outcome (Option Chunk)) (p : Pool)
    (c' : Chunk)
    → b.data_buf ≡ some old
    → old.length ≤ n
    → find_suitable_size n ≡ old.capacity
    → Handed n r
    → (replace env old b (r, p)).1.data_buf ≡ some c'
    → (c'.capacity ≡ old.capacity) × (c'.length ≡ old.length)
unfolding replace
replace_same_size env n old b (returned (some c)) p c' e h same (exact, fits, supported, w) f =
    let (size, start, len) = copy_fits env.grown old c (omega arith) w.head in
    omega (arith, unchanged (copy env.grown (some old) c) c' f, size, len, exact, same)
replace_same_size env n old b (returned none) p c' e h same w f = unchanged old c' (sym e ∙ f)
replace_same_size env n old b (threw x) p c' e h same w f = unchanged old c' (sym e ∙ f)
