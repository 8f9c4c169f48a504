-- ===== src/Memory/Chunk.antt =====
-- memory/chunk.hpp and memory/chunk.cpp: a block of bytes with a window of live data.
-- A chunk is a value with the address that `new Chunk` returned; the pointer `next` is the place in
-- a free list of Memory.Pool. The bytes are numbers. Whether `new char[n]` succeeds is the argument
-- `granted` of the operations that call it.
pub mod Contents
pub mod Tests
use azh_lid.Prelude.{
  ℕ, ◌+◌, ◌-◌, ◌*◌, ◌%◌, ◌^◌, ◌≤◌, ◌<◌, max, ◌≡◌, Bool, true, false, Option, none, some, List, [],
  ltb, leb, ◌==◌, if◌then◌else◌, length, take, drop, replicate, overwrite,
}
pub use azh_lid.Prelude.{size_mod, add_size}

pub record Chunk : Type 0 where
  pub address : ℕ
  pub capacity : ℕ
  pub length : ℕ
  pub head : ℕ
  pub bytes : List ℕ

-- `new Chunk(cap)`, at the address that the allocator chose.
unfoldable pub fresh : ℕ → ℕ → Chunk
fresh address cap = record {
  address = address;
  capacity = cap;
  length = 0;
  head = 0;
  bytes = replicate cap 0;
}

-- The `length` bytes from `data + head` on.
abbrev pub contents : Chunk → List ℕ
contents c = take c.length (drop c.head c.bytes)

-- The chunk that the move leaves behind.
moved_from : Chunk → Chunk
moved_from c = record c { capacity = 0; length = 0; head = 0; bytes = [] }

-- `Chunk(Chunk&& other)`: the new chunk at `address`, and what `other` becomes.
pub move_construct : ℕ → Chunk → Chunk × Chunk
unfolding moved_from
move_construct address other = (record other { address = address }, moved_from other)

-- `operator=(Chunk&& other)`. A move onto itself changes nothing.
pub move_assign : Chunk → Chunk → Chunk × Chunk
unfolding moved_from
move_assign c other =
    if c.address == other.address
    then (c, other)
    else (record other { address = c.address }, moved_from other)

unfoldable pub clear : Chunk → Chunk
clear c = record c { length = 0; head = 0 }

pub adjust : Chunk → Chunk
adjust c =
    if c.head == 0
    then c
    else (if c.length == 0
        then record c { head = 0 }
        else record c { bytes = overwrite c.bytes 0 (contents c); head = 0 })

pub pop : ℕ → Chunk → Chunk
pop len c =
    if leb c.length len
    then record c { length = 0; head = 0 }
    else record c { head = add_size c.head len; length = c.length - len }

-- The new array is zeroed, and the live bytes are copied to its front.
pub expand_capacity : Bool → ℕ → Chunk → Bool × Chunk
expand_capacity granted new_capacity c =
    if leb new_capacity c.capacity
    then (false, c)
    else (if granted
        then (
          true,
          record c {
            bytes =
                (if ltb 0 c.length
                  then overwrite (replicate new_capacity 0) 0 (contents c)
                  else replicate new_capacity 0);
            head = 0;
            capacity = new_capacity;
          },
        )
        else (false, c))

pub ensure_capacity : Bool → ℕ → Chunk → Bool × Chunk
ensure_capacity granted required c =
    if leb required c.capacity
    then (true, c)
    else expand_capacity granted (max ((c.capacity * 2) % size_mod) required) c

-- The `memcpy` at the end of `copy`.
pub copy_live : Chunk → Chunk → Chunk
copy_live other c = record c {
  bytes = overwrite c.bytes 0 (contents other);
  head = 0;
  length = other.length;
}

copy_from : Bool → Chunk → Chunk → Chunk
copy_from granted other c =
    if other.length == 0
    then record c { length = 0 }
    else (if ltb c.capacity other.length
        then (let (grown, c') = ensure_capacity granted other.length c in
            if grown then copy_live other c' else c')
        else copy_live other c)

-- `copy(other)`; `none` is the null pointer.
pub copy : Bool → Option Chunk → Chunk → Chunk
unfolding copy_from
copy granted none c = record c { length = 0 }
copy granted (some other) c = copy_from granted other c
