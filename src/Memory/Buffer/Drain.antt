-- ===== src/Memory/Buffer/Drain.antt =====
-- How bytes leave the buffers of memory/data_buf.cpp: pop, clear and write_to_fd.
use azh_lid.Prelude.{
  ℕ, ◌≤◌, ◌<◌, ◌≡◌, ◌⊎◌, inl, inr, refl, ap, ◌∙◌, subst, true, false, Option, none, some, List, [],
  arith, ltb, ◌==◌, ◌||◌, if◌then◌else◌, Bool-cases, length, take, drop, drop-nil, ltb→lt, ℤ, pos,
  negsuc, pos_part, is_positive, is_negative, to_int,
}
use azh_lid.Memory.Chunk.{Chunk, contents, adjust, add_size, size_mod}
use azh_lid.Memory.Chunk
use azh_lid.Memory.Chunk.Contents.{IsValid, pop_lem, length-contents, pop_head, pop_frame}
use azh_lid.Memory.Pool.{retrieve}
use azh_lid.Memory.Pool.Sizes.{supported_bounds}
use azh_lid.Memory.Pool.Valid.{retrieve_null, retrieve-AllValid}
use azh_lid.Memory.Buffer.{
  Buffer, Effect, finished, thrown, WriteAnswer, wrote, interrupted, would_block, failed,
  write_loop, report_pop, pop_written, write_chunk, write_to_fd, keep_or_release, pop_chunk, pop,
  clear,
}
use azh_lid.Memory.Buffer.Room.{IsOwned, IsSound, pending}
use azh_lid.Memory.Buffer.Read.{to_int_small}

keep_or_release_lem :
    (c : Chunk) (b : Buffer)
    → IsSound b
    → IsOwned (some c)
    → IsSound (keep_or_release c b) × (pending (keep_or_release c b).data_buf ≡ contents c)
unfolding keep_or_release
keep_or_release_lem c b s owned = elim (Bool-cases (c.length == 0)) [
  | inl t ↦ rw t (
    record { lists = retrieve-AllValid c b.pool owned.0 s.lists; owned = tt },
    ap (λ (i : ℕ). take i (drop c.head c.bytes)) {x = 0} {y = c.length} (ground arith),
  )
  | inr t ↦ rw t (record { lists = s.lists; owned = owned }, refl)
]

-- A chunk, where there is one, has `n` live bytes.
abbrev pub Holds : ℕ → Option Chunk → Type 0
Holds n none = Unit
Holds n (some c) = n ≤ c.length

-- What a call of `pop` makes of a buffer's chunk: it has `n` live bytes and they are gone, or it has
-- fewer, the call throws, and nothing has changed. Without a chunk the call does nothing.
abbrev pub Pops : Option Chunk → ℕ → Effect × Buffer → Type 0
Pops o n (e, b) =
    IsSound b
    × (((e ≡ finished) × Holds n o × (pending b.data_buf ≡ drop n (pending o)))
        ⊎ ((e ≡ thrown) × (length (pending o) < n) × (pending b.data_buf ≡ pending o)))

-- A pop of no more than the live bytes.
pop_within :
    (n : ℕ) (c : Chunk) (b : Buffer)
    → IsSound b
    → IsOwned (some c)
    → let b' = keep_or_release (Chunk.pop n c) b in
      IsSound b' × (pending b'.data_buf ≡ drop n (contents c))
pop_within n c b s (valid, supported) =
    let (valid', same) = pop_lem n valid in
    let (sound, kept) =
      keep_or_release_lem (Chunk.pop n c) b s (valid', rw (pop_frame n c).0 supported) in
    (sound, kept ∙ same)

pop_chunk_lem :
    (len : ℤ) (b : Buffer)
    → IsSound b
    → (o : Option Chunk) → b.data_buf ≡ o
    → Pops o (pos_part len) (pop_chunk len b o)
unfolding pop_chunk
pop_chunk_lem len b s none e = (s, inl (refl, tt, rw (e, drop-nil {A = ℕ} (pos_part len))))
pop_chunk_lem len b s (some c) e = elim (Bool-cases (is_positive len)) [
  | inl t ↦ rw t (elim (Bool-cases (ltb c.length (pos_part len))) [
    | inl u ↦ rw u (s, inr (refl, omega (arith, length-contents owned.0, ltb→lt _ _ u), rw e))
    | inr u ↦ rw u (
        let (sound, kept) = pop_within (pos_part len) c b s owned in
        (sound, inl (refl, ground arith, kept)))
  ])
  | inr t ↦ rw (t, nothing len t) (s, inl (refl, omega arith, rw e))
]
  where
    owned : IsOwned (some c)
    owned = subst IsOwned e s.owned

    nothing : (k : ℤ) → is_positive k ≡ false → pos_part k ≡ 0
    nothing (pos k) h = ground arith
    nothing (negsuc k) h = refl

pub pop_buffer_lem : (len : ℤ) (b : Buffer) → IsSound b → Pops b.data_buf (pos_part len) (pop len b)
unfolding pop
pop_buffer_lem len b s = pop_chunk_lem len b s b.data_buf refl

-- `clear` leaves a sound buffer without bytes.
clear_lem : (b : Buffer) → IsSound b → IsSound (clear b) × (pending (clear b).data_buf ≡ [])
unfolding clear
clear_lem b s = (cleared b.data_buf s.owned, refl)
  where
    cleared :
        (o : Option Chunk)
        → IsOwned o
        → IsSound (record { pool = retrieve o b.pool; data_buf = none })
    cleared none w = record { lists = rw (retrieve_null b.pool) s.lists; owned = tt }
    cleared (some c) w = record { lists = retrieve-AllValid c b.pool w.0 s.lists; owned = tt }

-- `write` takes at most the bytes that it is given.
abbrev pub IsWritten : ℕ → WriteAnswer → Type 0
IsWritten n (interrupted a) = IsWritten n a
IsWritten n (wrote k) = k ≤ n
IsWritten n would_block = Unit
IsWritten n failed = Unit

abbrev pub IsWriting : (List ℕ → WriteAnswer) → Type 0
IsWriting kernel = (bytes : List ℕ) → IsWritten (length bytes) (kernel bytes)

-- The bytes that a call of `write` took.
abbrev pub taken : WriteAnswer → ℕ
taken (interrupted a) = taken a
taken (wrote n) = n
taken would_block = 0
taken failed = 0

-- What a call of `write_to_fd` makes of live bytes `xs`, of which the kernel takes `k`.
abbrev pub Sends : List ℕ → ℕ → ℤ × Buffer → Type 0
Sends xs k (n, b) =
    IsSound b × (pending b.data_buf ≡ drop k xs) × ((n ≡ pos k) ⊎ ((n ≡ negsuc 0) × (k ≡ 0)))

report_pop_lem :
    (k : ℕ) (o : Option Chunk) (r : Effect × Buffer)
    → k ≤ length (pending o)
    → length (pending o) ≤ 2147483647
    → Pops o k r
    → Sends (pending o) k (report_pop k r)
unfolding report_pop
report_pop_lem k o (finished, b) h small (s, inl (_, _, e)) =
    rw (to_int_small k (omega arith)) (s, e, inl refl)
report_pop_lem k o (finished, b) h small (s, inr (f, _, _)) = absurd (cc)
report_pop_lem k o (thrown, b) h small (s, inl (f, _, _)) = absurd (cc)
report_pop_lem k o (thrown, b) h small (s, inr (_, less, _)) = absurd (omega arith)

pop_written_lem :
    (b : Buffer) (a : WriteAnswer)
    → IsSound b
    → length (pending b.data_buf) ≤ 2147483647
    → IsWritten (length (pending b.data_buf)) a
    → Sends (pending b.data_buf) (taken (write_loop a)) (pop_written b (write_loop a))
unfolding pop_written write_loop
pop_written_lem b (interrupted a) s small h = pop_written_lem b a s small h
pop_written_lem b (wrote n) s small h = elim (Bool-cases (ltb 0 n)) [
  | inl t ↦
      rw (t, to_int_small n (omega arith))
        (report_pop_lem n b.data_buf _ h small (pop_buffer_lem (pos n) b s))
  | inr t ↦ rw t (let none_left : n ≡ 0 = ground arith in rw none_left (s, refl, inl refl))
]
pop_written_lem b would_block s small h = (s, refl, inl refl)
pop_written_lem b failed s small h = (s, refl, inr (refl, refl))

-- No bytes are live, or they start at index 0.
abbrev pub IsAtFront : Option Chunk → Type 0
IsAtFront none = Unit
IsAtFront (some c) = (c.length ≡ 0) ⊎ (c.head ≡ 0)

-- How many bytes the kernel takes of what `write_to_fd` offers it.
abbrev pub accepted : (List ℕ → WriteAnswer) → ℤ → Option Chunk → ℕ
accepted kernel fd none = 0
accepted kernel fd (some c) =
    if is_negative fd || (c.length == 0) then 0 else taken (write_loop (kernel (contents c)))

module _ (kernel : List ℕ → WriteAnswer) (writing : IsWriting kernel) where
  write_loop-IsWritten : (n : ℕ) (a : WriteAnswer) → IsWritten n a → IsWritten n (write_loop a)
  unfolding write_loop
  write_loop-IsWritten n (interrupted a) h = write_loop-IsWritten n a h
  write_loop-IsWritten n (wrote k) h = h
  write_loop-IsWritten n would_block h = h
  write_loop-IsWritten n failed h = h

  write_chunk_lem :
      (b : Buffer)
      → IsSound b
      → (fd : ℤ) (o : Option Chunk) → b.data_buf ≡ o
      → IsAtFront o
      → is_negative fd ≡ false
      → (r : ℤ × Buffer) × (write_chunk kernel b o ≡ some r)
        × Sends (pending o) (accepted kernel fd o) r
  unfolding write_chunk
  write_chunk_lem b s fd none e front f = ((pos 0, b), refl, (s, rw e, inl refl))
  write_chunk_lem b s fd (some c) e front f = elim (Bool-cases (c.length == 0)) [
    | inl t ↦ ((pos 0, b), rw t, rw (f, t) (s, rw e, inl refl))
    | inr t ↦ (
      pop_written b (write_loop (kernel (contents c))),
      rw (t, at_front front t),
      rw (f, t)
          (subst
            (λ xs.
              Sends xs (taken (write_loop (kernel (contents c))))
                (pop_written b (write_loop (kernel (contents c)))))
            (rw e) (pop_written_lem b (kernel (contents c)) s small (rw e (writing (contents c))))),
    )
  ]
    where
      valid : IsValid c
      valid = (subst IsOwned e s.owned).0

      at_front : (c.length ≡ 0) ⊎ (c.head ≡ 0) → (c.length == 0) ≡ false → (c.head == 0) ≡ true
      at_front (inl z) g = absurd (ground arith)
      at_front (inr z) g = ground arith

      small : length (pending b.data_buf) ≤ 2147483647
      small = rw e (
          omega (
            arith,
            length-contents valid,
            valid.window,
            supported_bounds c.capacity (subst IsOwned e s.owned).1,
          ))

  -- If write takes at most what it is given, write_to_fd on a sound buffer that is empty or has
  -- its live bytes at index 0 passes its assertion, keeps the buffer sound, removes exactly the
  -- bytes that the kernel took, and returns their number, or -1 where it took none.
  pub write_to_fd_lem :
      (fd : ℤ) (b : Buffer)
      → IsSound b
      → IsAtFront b.data_buf
      → (r : ℤ × Buffer) × (write_to_fd kernel fd b ≡ some r)
        × Sends (pending b.data_buf) (accepted kernel fd b.data_buf) r
  unfolding write_to_fd
  write_to_fd_lem fd b s front = elim (Bool-cases (is_negative fd)) [
    | inl t ↦ ((negsuc 0, b), rw t, (s, (none_taken t b.data_buf).0, (none_taken t b.data_buf).1))
    | inr t ↦ rw t (write_chunk_lem b s fd b.data_buf refl front t)
  ]
    where
      none_taken :
          is_negative fd ≡ true
          → (o : Option Chunk)
          → (pending o ≡ drop (accepted kernel fd o) (pending o))
            × ((negsuc 0 ≡ pos (accepted kernel fd o))
                ⊎ ((negsuc 0 ≡ negsuc 0) × (accepted kernel fd o ≡ 0)))
      none_taken t none = (refl, inr (refl, refl))
      none_taken t (some c) = rw t (refl, inr (refl, refl))

-- A pop that leaves bytes keeps the chunk.
pop-some :
    (k : ℕ) (c : Chunk) (b : Buffer)
    → b.data_buf ≡ some c
    → 0 < k
    → k < c.length
    → pop (pos k) b ≡ (finished, record b { data_buf = some (Chunk.pop k c) })
unfolding pop pop_chunk keep_or_release
pop-some k c b e positive less =
    let positive : ltb 0 k ≡ true = ground arith in
    let within : ltb c.length k ≡ false = ground arith in
    let left : ((Chunk.pop k c).length == 0) ≡ false = ground (arith, pop_frame k c) in
    rw (e, pop_chunk, positive, within, left)

write_some :
    (kernel : List ℕ → WriteAnswer) (fd : ℕ) (c : Chunk) (b : Buffer) (k : ℕ) (r : ℤ × Buffer)
    → b.data_buf ≡ some c
    → 0 < c.length
    → c.head ≡ 0
    → write_loop (kernel (contents c)) ≡ wrote k
    → pop_written b (wrote k) ≡ r
    → write_to_fd kernel (pos fd) b ≡ some r
unfolding write_to_fd write_chunk
write_some kernel fd c b k r e some_live start w f =
    let live : (c.length == 0) ≡ false = ground arith in
    let front : (c.head == 0) ≡ true = ground arith in rw (e, write_chunk, live, front, w, f)

-- On a sound buffer whose live bytes start at index 0, after a write_to_fd in which the kernel
-- takes some of the live bytes and not all, the next write_to_fd with nothing between fails its
-- assertion.
pub write_to_fd_twice :
    (kernel kernel' : List ℕ → WriteAnswer) (fd fd' : ℕ) (b : Buffer) (c : Chunk) (k : ℕ)
    → IsSound b
    → b.data_buf ≡ some c
    → c.head ≡ 0
    → write_loop (kernel (contents c)) ≡ wrote k
    → 0 < k
    → k < c.length
    → (b' : Buffer) × (write_to_fd kernel (pos fd) b ≡ some (pos k, b'))
      × (write_to_fd kernel' (pos fd') b' ≡ none)
unfolding write_to_fd write_chunk pop_written report_pop
write_to_fd_twice kernel kernel' fd fd' b c k s e start w some_taken some_left =
    let (valid, supported) = subst IsOwned e s.owned in
    let positive : ltb 0 k ≡ true = ground arith in
    let int : to_int k ≡ pos k =
      to_int_small k (omega (arith, valid.window, supported_bounds c.capacity supported)) in
    let left : ((Chunk.pop k c).length == 0) ≡ false = ground (arith, pop_frame k c) in
    let moved : ((Chunk.pop k c).head == 0) ≡ false = ground (arith, pop_head k valid some_left) in
    let pos_pop : pop (to_int k) b ≡ (finished, record b { data_buf = some (Chunk.pop k c) }) =
      rw int (pop-some k c b e some_taken some_left) in
    (
      record b { data_buf = some (Chunk.pop k c) },
      write_some kernel fd c b k _ e (omega arith) start w
          (rw (positive, pos_pop, report_pop, int)),
      rw (left, moved),
    )
