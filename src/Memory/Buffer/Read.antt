-- ===== src/Memory/Buffer/Read.antt =====
-- InputBuffer of memory/data_buf.cpp: read_from_fd.
use azh_lid.Prelude.{
  ℕ, suc, ◌≤◌, ◌<◌, min, ◌≡◌, inl, inr, refl, sym, subst, true, false, Option, none, some, List, [],
  ◌∷◌, ◌++◌, arith, ltb, ◌==◌, ◌&&◌, not, Bool, false, ◌≢◌, Bool-cases, length, ℤ, pos, negsuc,
  is_negative, to_int,
}
use mathlib.Core.List.{append-nil}
use azh_lid.Memory.Chunk.{Chunk, contents}
use azh_lid.Memory.Chunk.Contents.{IsValid}
use azh_lid.Memory.Buffer.{
  Env, Buffer, sub_size, ensure_space_available, ReadAnswer, received, interrupted, would_block,
  failed, read_loop, store_read, read_chunk, read_from_fd, default_buffer_size,
}
use azh_lid.Memory.Buffer.Room.{IsKeeping, IsOwned, IsSound, pending, HasRoom, append_chunk_lem}
use azh_lid.Memory.Buffer.Input.{ensure_space_available_lem}

-- `read` returns at most as many bytes as it is asked for.
abbrev pub IsRead : ℕ → ReadAnswer → Type 0
IsRead n (interrupted a) = IsRead n a
IsRead n (received bytes) = length bytes ≤ n
IsRead n would_block = Unit
IsRead n failed = Unit

-- What an answer of `read` makes of live bytes `xs`, and the result.
abbrev pub Answered : List ℕ → ReadAnswer → ℤ × Buffer → Type 0
Answered xs (interrupted a) r = Answered xs a r
Answered xs (received bytes) (n, b) = (n ≡ pos (length bytes)) × (pending b.data_buf ≡ xs ++ bytes)
Answered xs would_block (n, b) = (n ≡ pos 0) × (pending b.data_buf ≡ xs)
Answered xs failed (n, b) = (n ≡ negsuc 0) × (pending b.data_buf ≡ xs)

-- The kernel's answer to one request.
abbrev pub Reads : (ℕ → ReadAnswer) → List ℕ → ℤ × Buffer → Type 0
Reads kernel xs r = IsSound r.1 × ((m : ℕ) × (0 < m) × (m ≤ 65536) × Answered xs (kernel m) r)

pub to_int_small : (n : ℕ) → n ≤ 2147483647 → to_int n ≡ pos n
to_int_small n h = ground arith

store_read_lem :
    (room : ℕ) (c : Chunk) (b : Buffer) (a : ReadAnswer)
    → b.data_buf ≡ some c
    → IsSound b
    → HasRoom room (some c)
    → IsRead (min room 65536) a
    → let r = store_read c b (read_loop a) in IsSound r.1 × Answered (contents c) a r
unfolding store_read read_loop
store_read_lem room c b (received []) e s r h = (s, (refl, rw e (sym (append-nil (contents c)))))
store_read_lem room c b (received (x ∷ bytes)) e s r h =
    let owned = subst IsOwned e s.owned in
    let (v, same) = append_chunk_lem (x ∷ bytes) c owned (r.0, omega (arith, r.1)) in
    rw (positive, to_int_small (suc (length bytes)) (omega arith))
      (record { lists = s.lists; owned = v }, (refl, same))
  where
    positive : ltb 0 (suc (length bytes)) ≡ true
    positive = ground arith
store_read_lem room c b would_block e s r h = (s, (refl, rw e))
store_read_lem room c b failed e s r h = (s, (refl, rw e))
store_read_lem room c b (interrupted a) e s r h = store_read_lem room c b a e s r h

-- The kernel answers every request for `n` bytes with at most `n`.
abbrev pub IsReading : (ℕ → ReadAnswer) → Type 0
IsReading kernel = (n : ℕ) → IsRead n (kernel n)

read_chunk_lem :
    (kernel : ℕ → ReadAnswer) (b : Buffer)
    → IsReading kernel
    → IsSound b
    → (o : Option Chunk) → b.data_buf ≡ o
    → HasRoom 1 o
    → Reads kernel (pending o) (read_chunk kernel b o)
unfolding read_chunk
read_chunk_lem kernel b k s none e r = absurd r
read_chunk_lem kernel b k s (some c) e r = elim (Bool-cases (available == 0)) [
  | inl t ↦
      let empty : available ≡ 0 = ground arith in absurd (omega (arith, empty, valid.small, r.1))
  | inr t ↦ rw t (
      let (sound, answered) =
        store_read_lem available c b (kernel (min available 65536)) e s
          (r.0, omega (arith, valid.small, r.1)) (k (min available 65536)) in
      let nonzero : available ≢ 0 = λ z. absurd (ground arith) in
      (sound, (min available 65536, ground (arith, nonzero), omega arith, answered)))
]
  where
    available : ℕ
    available = sub_size c.capacity c.length

    valid : IsValid c
    valid = (subst IsOwned e s.owned).0

-- The same where the call comes to read, and else -1 and no change of the live bytes.
abbrev pub ReadsIf : Bool → (ℕ → ReadAnswer) → List ℕ → ℤ × Buffer → Type 0
ReadsIf true kernel xs r = Reads kernel xs r
ReadsIf false kernel xs (n, b) = IsSound b × (n ≡ negsuc 0) × (pending b.data_buf ≡ xs)

-- If other threads keep the pool well-formed and read returns at most what it is asked for,
-- read_from_fd keeps a sound buffer sound. Where the descriptor is negative or
-- ensure_space_available fails, it returns -1 and leaves the live bytes. Else its result is that of
-- the answer to one request of 1 to 65536 bytes, any EINTR before it left out: the bytes that read
-- returned stand behind the live bytes and their number is the result, or the live bytes are as before
-- with 0 for EAGAIN and -1 for another error.
pub read_from_fd_lem :
    (env : Env) (kernel : ℕ → ReadAnswer) (fd : ℤ) (b : Buffer)
    → IsKeeping env
    → IsReading kernel
    → IsSound b
    → ReadsIf
        (not (is_negative fd) && (ensure_space_available env (pos default_buffer_size) b).0)
        kernel
        (pending b.data_buf)
        (read_from_fd env kernel fd b)
unfolding read_from_fd
read_from_fd_lem env kernel fd b keeps k s =
    let (s', same, room) = ensure_space_available_lem env keeps (pos default_buffer_size) b s in
    let b' = (ensure_space_available env (pos default_buffer_size) b).1 in
    elim (Bool-cases (is_negative fd)) [
      | inl t ↦ simp t (s, refl, refl)
      | inr t ↦
          simp t (elim (Bool-cases (ensure_space_available env (pos default_buffer_size) b).0) [
            | inl u ↦ simp u (
                subst (λ xs. Reads kernel xs (read_chunk kernel b' b'.data_buf)) same
                  (read_chunk_lem kernel b' k s' b'.data_buf refl (room u)))
            | inr u ↦ simp u (s', refl, same)
          ])
    ]
