-- ===== src/Memory/Buffer.antt =====
-- memory/data_buf.hpp and memory/data_buf.cpp: BufferBase, InputBuffer and OutputBuffer.
-- A buffer is its `data_buf` beside the pool that it shares with every other buffer. A call returns
-- the new state with its result. What the environment does in a call is an argument: the allocator
-- and the other threads (`Env`), and what the kernel answers to `read` and `write`.
pub mod Room
pub mod Input
pub mod Read
pub mod Output
pub mod Drain
pub mod Stream
pub mod Tests
use azh_lid.Prelude.{
  ℕ, ◌+◌, ◌-◌, ◌%◌, ◌≤◌, max, min, Bool, true, false, Option, none, some, List, [], ◌∷◌, ltb, leb,
  ◌==◌, if◌then◌else◌, ℤ, pos, negsuc, is_positive, is_negative, pos_part, to_int, length, take,
  drop, overwrite,
}
use azh_lid.Memory.Chunk.{Chunk, add_size, size_mod, contents, adjust, copy}
use azh_lid.Memory.Chunk
use mathlib.Core.Option
use azh_lid.Memory.Pool.{Pool, Outcome, returned, threw, alloc_chunk, retrieve}

-- What the environment does in one call: what other threads do to the pool while `alloc_chunk` does
-- not hold the lock, the address that `new Chunk` returns, and whether `new char[n]` succeeds.
pub record Env : Type 0 where
  pub others : Pool → Pool
  pub granted : Option ℕ
  pub grown : Bool

pub record Buffer : Type 0 where
  pub pool : Pool
  pub data_buf : Option Chunk

-- Whether a call returns or throws.
pub data Effect : Type 0 where
  finished thrown : Effect

-- `size_t` subtraction
abbrev pub sub_size : ℕ → ℕ → ℕ
sub_size a b = (a + size_mod - b) % size_mod

-- `none`: the sum does not fit a `size_t`.
pub safe_add : ℕ → ℕ → Option ℕ
safe_add a b = if ltb (size_mod - 1 - b) a then none else some (add_size a b)

pub chunk_length : Option Chunk → ℤ
chunk_length none = pos 0
chunk_length (some c) = to_int c.length

-- `BufferBase::length`
pub buffer_length : Buffer → ℤ
unfolding chunk_length
buffer_length b = chunk_length b.data_buf

-- The chunk goes back to the pool once its last byte is gone.
pub keep_or_release : Chunk → Buffer → Buffer
keep_or_release c b =
    if c.length == 0
    then record { pool = retrieve (some c) b.pool; data_buf = none }
    else record b { data_buf = some c }

pub pop_chunk : ℤ → Buffer → Option Chunk → Effect × Buffer
unfolding keep_or_release
pop_chunk len b none = (finished, b)
pop_chunk len b (some c) =
    if is_positive len
    then (if ltb c.length (pos_part len)
        then (thrown, b)
        else (finished, keep_or_release (Chunk.pop (pos_part len) c) b))
    else (finished, b)

-- `BufferBase::pop`
pub pop : ℤ → Buffer → Effect × Buffer
unfolding pop_chunk
pop len b = pop_chunk len b b.data_buf

-- `BufferBase::clear`
pub clear : Buffer → Buffer
clear b = record { pool = retrieve b.data_buf b.pool; data_buf = none }

-- The first allocation of a buffer.
pub adopt : Buffer → Outcome (Option Chunk) × Pool → Bool × Buffer
adopt b (returned (some c), p) = (true, record { pool = p; data_buf = some c })
adopt b (returned none, p) = (false, record b { pool = p })
adopt b (threw e, p) = (false, record b { pool = p })

-- The live bytes of `old` move to a new chunk, and `old` goes back to the pool.
pub replace : Env → Chunk → Buffer → Outcome (Option Chunk) × Pool → Bool × Buffer
replace env old b (returned (some c), p) =
    (true, record { pool = retrieve (some old) p; data_buf = some (copy env.grown (some old) c) })
replace env old b (returned none, p) = (false, record b { pool = p })
replace env old b (threw e, p) = (false, record b { pool = p })

abbrev pub default_buffer_size : ℕ
default_buffer_size = 4096

abbrev pub max_allowed_size : ℕ
max_allowed_size = 1048576

-- `InputBuffer::expand_buffer`, on a buffer whose chunk is `c`.
pub expand_buffer : Env → ℕ → Chunk → Buffer → Bool × Buffer
unfolding replace
expand_buffer env needed c b =
    replace env c b (alloc_chunk env.others env.granted (add_size c.length needed) b.pool)

-- The part of `ensure_space_available` after `adjust`, on a buffer whose chunk is now `c`.
pub ensure_adjusted : Env → ℕ → Chunk → Buffer → Bool × Buffer
ensure_adjusted env additional c b =
    let available = sub_size c.capacity c.length in
    if leb additional available
    then (true, b)
    else (if ltb 2147483647 (additional - available)
        then (false, b)
        else expand_buffer env (additional - available) c b)

pub ensure_chunk : Env → ℕ → Buffer → Option Chunk → Bool × Buffer
ensure_chunk env additional b none =
    adopt b (alloc_chunk env.others env.granted (max additional default_buffer_size) b.pool)
ensure_chunk env additional b (some c) =
    ensure_adjusted env additional (adjust c) (record b { data_buf = some (adjust c) })

-- `InputBuffer::ensure_space_available`
pub ensure_space_available : Env → ℤ → Buffer → Bool × Buffer
unfolding ensure_chunk
ensure_space_available env additional b =
    if is_positive additional
    then (if ltb max_allowed_size (pos_part additional)
        then (false, b)
        else ensure_chunk env (pos_part additional) b b.data_buf)
    else (false, b)

-- What `read` answers: EINTR before another answer, bytes (none at the end of the stream), EAGAIN
-- or EWOULDBLOCK, or another error.
pub data ReadAnswer : Type 0 where
  interrupted : ReadAnswer → ReadAnswer
  received : List ℕ → ReadAnswer
  would_block failed : ReadAnswer

-- The loop `do { read } while (EINTR)`.
pub read_loop : ReadAnswer → ReadAnswer
read_loop (interrupted a) = read_loop a
read_loop (received bytes) = received bytes
read_loop would_block = would_block
read_loop failed = failed

-- `read` writes at `data + length`.
pub append_chunk : List ℕ → Chunk → Chunk
append_chunk bytes c = record c {
  bytes = overwrite c.bytes c.length bytes;
  length = add_size c.length (length bytes);
}

pub store_read : Chunk → Buffer → ReadAnswer → ℤ × Buffer
store_read c b (received bytes) =
    if ltb 0 (length bytes)
    then (to_int (length bytes), record b { data_buf = some (append_chunk bytes c) })
    else (pos 0, b)
store_read c b would_block = (pos 0, b)
store_read c b failed = (negsuc 0, b)
store_read c b (interrupted a) = (negsuc 0, b)

pub read_chunk : (ℕ → ReadAnswer) → Buffer → Option Chunk → ℤ × Buffer
unfolding store_read
read_chunk kernel b none = (negsuc 0, b)
read_chunk kernel b (some c) =
    let available = sub_size c.capacity c.length in
    if available == 0
    then (negsuc 0, b)
    else store_read c b (read_loop (kernel (min available 65536)))

-- `InputBuffer::read_from_fd`; `kernel n` is the answer to `read` of at most `n` bytes.
pub read_from_fd : Env → (ℕ → ReadAnswer) → ℤ → Buffer → ℤ × Buffer
unfolding read_chunk
read_from_fd env kernel fd b =
    if is_negative fd
    then (negsuc 0, b)
    else (let (ready, b') = ensure_space_available env (pos default_buffer_size) b in
        if ready then read_chunk kernel b' b'.data_buf else (negsuc 0, b'))

-- `InputBuffer::get_from_buf`: the live bytes behind the pointer, `none` for the null pointer.
pub get_from_buf : Buffer → Option (List ℕ)
get_from_buf b = Option.map contents b.data_buf

-- The part of `OutputBuffer::ensure_capacity` after `adjust`, on a buffer whose chunk is now `c`.
pub allot : Env → Chunk → Buffer → Option ℕ → Bool × Buffer
allot env c b none = (false, b)
allot env c b (some new_size) =
    if ltb max_allowed_size new_size
    then (false, b)
    else replace env c b (alloc_chunk env.others env.granted new_size b.pool)

pub ensure_allotted : Env → ℕ → Chunk → Buffer → Bool × Buffer
ensure_allotted env additional c b =
    if leb additional (sub_size c.capacity c.length)
    then (true, b)
    else allot env c b (safe_add c.length additional)

pub ensure_output : Env → ℕ → Buffer → Option Chunk → Bool × Buffer
ensure_output env additional b none =
    adopt b (alloc_chunk env.others env.granted (max additional default_buffer_size) b.pool)
ensure_output env additional b (some c) =
    ensure_allotted env additional (adjust c) (record b { data_buf = some (adjust c) })

-- `OutputBuffer::ensure_capacity`
pub ensure_capacity : Env → ℤ → Buffer → Bool × Buffer
ensure_capacity env additional b =
    if is_positive additional
    then (if ltb max_allowed_size (pos_part additional)
        then (false, b)
        else ensure_output env (pos_part additional) b b.data_buf)
    else (false, b)

pub append_output : List ℕ → Buffer → Option Chunk → ℤ × Buffer
append_output bytes b none = (negsuc 0, b)
append_output bytes b (some c) = (pos 0, record b { data_buf = some (append_chunk bytes c) })

pub write_bytes : Env → List ℕ → ℤ → Buffer → ℤ × Buffer
write_bytes env bytes len b =
    if is_positive len
    then (if ltb max_allowed_size (pos_part len)
        then (negsuc 0, b)
        else (let (ready, b') = ensure_capacity env len b in
            if ready
            then append_output (take (pos_part len) bytes) b' b'.data_buf
            else (negsuc 0, b')))
    else (pos 0, b)

-- `OutputBuffer::write_to_buf`: `none` is the null pointer, and else the bytes from `data` on.
pub write_to_buf : Env → Option (List ℕ) → ℤ → Buffer → ℤ × Buffer
write_to_buf env none len b = (negsuc 0, b)
write_to_buf env (some bytes) len b = write_bytes env bytes len b

-- What `write` answers: EINTR before another answer, a number of bytes, EAGAIN or EWOULDBLOCK, or
-- another error.
pub data WriteAnswer : Type 0 where
  interrupted : WriteAnswer → WriteAnswer
  wrote : ℕ → WriteAnswer
  would_block failed : WriteAnswer

-- The loop `do { write } while (EINTR)`.
pub write_loop : WriteAnswer → WriteAnswer
write_loop (interrupted a) = write_loop a
write_loop (wrote n) = wrote n
write_loop would_block = would_block
write_loop failed = failed

-- An exception of `pop` is caught.
pub report_pop : ℕ → Effect × Buffer → ℤ × Buffer
report_pop n (finished, b) = (to_int n, b)
report_pop n (thrown, b) = (negsuc 0, b)

pub pop_written : Buffer → WriteAnswer → ℤ × Buffer
pop_written b (wrote n) = if ltb 0 n then report_pop n (pop (to_int n) b) else (pos 0, b)
pop_written b would_block = (pos 0, b)
pop_written b failed = (negsuc 0, b)
pop_written b (interrupted a) = (negsuc 0, b)

pub write_chunk : (List ℕ → WriteAnswer) → Buffer → Option Chunk → Option (ℤ × Buffer)
write_chunk kernel b none = some (pos 0, b)
write_chunk kernel b (some c) =
    if c.length == 0
    then some (pos 0, b)
    else (if c.head == 0 then some (pop_written b (write_loop (kernel (contents c)))) else none)

-- `OutputBuffer::write_to_fd`; `kernel bytes` is the answer to `write` of these bytes, and `none`
-- a failure of the assertion that the head is 0.
pub write_to_fd : (List ℕ → WriteAnswer) → ℤ → Buffer → Option (ℤ × Buffer)
write_to_fd kernel fd b =
    if is_negative fd then some (negsuc 0, b) else write_chunk kernel b b.data_buf

pub chunk_space : Option Chunk → ℤ
chunk_space none = pos default_buffer_size
chunk_space (some c) = to_int (sub_size c.capacity c.length)

-- `OutputBuffer::available_space`
pub available_space : Buffer → ℤ
available_space b = chunk_space b.data_buf
