-- ===== src/Memory/Buffer/Tests.antt =====
-- The buffers of memory/data_buf.cpp on a chunk of 4096 bytes with three live bytes.
use azh_lid.Prelude.{
  ℕ, ◌+◌, ◌-◌, ◌<◌, ◌≡◌, refl, inr, true, none, some, List, [], ◌∷◌, arith, ℤ, pos, take, length,
  length-take,
}
use azh_lid.Memory.Chunk.{Chunk, fresh, contents}
use azh_lid.Memory.Pool.{find_suitable_size}
use azh_lid.Memory.Pool.Sizes.{find_suitable_size_least, supported_bounds, smallest_is_supported}
use azh_lid.Memory.Pool.Valid.{IsCleared, fresh-IsCleared}
use azh_lid.Memory.Buffer.{
  Env, Buffer, ReadAnswer, received, WriteAnswer, wrote, read_from_fd, write_to_buf, write_to_fd,
  write_loop, ensure_space_available, default_buffer_size,
}
use azh_lid.Memory.Buffer.Room.{IsSound, IsKeeping}
use azh_lid.Memory.Buffer.Input.{ensure_space_available_short}
use azh_lid.Memory.Buffer.Read.{IsReading, ReadsIf, read_from_fd_lem}
use azh_lid.Memory.Buffer.Output.{Writes, write_to_buf_lem}
use azh_lid.Memory.Buffer.Stream.{
  Call, puts, drains, Stream, IsFlowing, Flowing?, calls, calls-Flowing,
}
use azh_lid.Memory.Buffer.Drain.{IsWriting, Sends, accepted, write_to_fd_lem, write_to_fd_twice}

abbrev three : Chunk
three = record (fresh 1 4096) { length = 3 }

-- A pool with empty free lists for nothing at all, and the chunk.
abbrev holding : Buffer
holding = record {
  pool = record {
    free = [];
    max_capacity = 134217728;
    current_usage = 4096;
    preallocated = 0;
    stats = record {
      total_allocations = 1;
      total_deallocations = 0;
      peak_usage_bytes = 4096;
      current_usage_bytes = 4096;
      allocation_failures = 0;
    };
  };
  data_buf = some three;
}

cleared : IsCleared 4096 (fresh 1 4096)
cleared = fresh-IsCleared 1 4096 smallest_is_supported

holding-IsSound : IsSound holding
holding-IsSound = record {
  lists = tt;
  owned = (
    record {
      window = omega (arith, cleared.capacity, cleared.head);
      sized = cleared.chunk.sized;
      small = cleared.chunk.small;
    },
    rw cleared.capacity smallest_is_supported,
  );
}

-- No other thread does anything, and every allocation is granted.
abbrev calm : Env
calm = record { others = λ q. q; granted = some 7; grown = true }

calm-IsKeeping : IsKeeping calm
calm-IsKeeping q v = v

-- The kernel has two bytes to read.
abbrev two_to_read : ℕ → ReadAnswer
two_to_read n = received (take n (5 ∷ 6 ∷ []))

two_to_read-IsReading : IsReading two_to_read
two_to_read-IsReading n = omega (arith, length-take {A = ℕ} n (5 ∷ 6 ∷ []))

read_from_fd_example :
    ReadsIf
      (ensure_space_available calm (pos default_buffer_size) holding).0
      two_to_read
      (contents three)
      (read_from_fd calm two_to_read (pos 4) holding)
read_from_fd_example =
    read_from_fd_lem calm two_to_read (pos 4) holding calm-IsKeeping two_to_read-IsReading
      holding-IsSound

write_to_buf_example :
    Writes (contents three) (8 ∷ 9 ∷ []) (write_to_buf calm (some (8 ∷ 9 ∷ [])) (pos 2) holding)
write_to_buf_example =
    write_to_buf_lem calm calm-IsKeeping (some (8 ∷ 9 ∷ [])) (pos 2) holding holding-IsSound

-- The kernel takes one byte of a message, if it has one.
abbrev one_by_one : List ℕ → WriteAnswer
one_by_one bytes = wrote (length (take 1 bytes))

one_by_one-IsWriting : IsWriting one_by_one
one_by_one-IsWriting bytes = omega (arith, length-take 1 bytes)

write_to_fd_example :
    (r : ℤ × Buffer) × (write_to_fd one_by_one (pos 4) holding ≡ some r)
    × Sends (contents three) (accepted one_by_one (pos 4) (some three)) r
write_to_fd_example =
    write_to_fd_lem one_by_one one_by_one-IsWriting (pos 4) holding holding-IsSound
      (inr cleared.head)

write_to_fd_twice_example :
    (b' : Buffer) × (write_to_fd (λ bytes. wrote 1) (pos 4) holding ≡ some (pos 1, b'))
    × (write_to_fd one_by_one (pos 4) b' ≡ none)
unfolding write_loop
write_to_fd_twice_example =
    write_to_fd_twice (λ bytes. wrote 1) one_by_one 4 4 holding three 1 holding-IsSound refl
      cleared.head refl (omega arith) (omega arith)

-- 4094 more bytes do not fit, the one byte that lacks does.
same_class :
    find_suitable_size (3 + (4094 - ((fresh 1 4096).capacity - 3))) ≡ (fresh 1 4096).capacity
same_class = rw cleared.capacity (
    omega (
      arith,
      find_suitable_size_least 4 4096 smallest_is_supported (omega arith),
      supported_bounds (find_suitable_size 4)
          (find_suitable_size_least 4 4096 smallest_is_supported (omega arith)).2,
    ))

ensure_space_available_short_example :
    (c' : Chunk) × ((ensure_space_available calm (pos 4094) holding).1.data_buf ≡ some c')
    × (c'.capacity < c'.length + 4094)
ensure_space_available_short_example =
    ensure_space_available_short calm 4094 three holding calm-IsKeeping refl holding-IsSound
      cleared.head (omega arith) (omega (arith, cleared.capacity)) (omega arith) same_class

-- Two bytes are written behind the three, and the kernel takes one.
abbrev two_calls : List Call
two_calls = puts calm (8 ∷ 9 ∷ []) (pos 2) ∷ drains one_by_one 4 ∷ []

abbrev flow : Stream
flow = record { buffer = holding; written = contents three; sent = [] }

flow-IsFlowing : IsFlowing flow
flow-IsFlowing = record { sound = holding-IsSound; order = refl }

calls-Flowing_example : Flowing? (calls two_calls flow)
calls-Flowing_example =
    calls-Flowing two_calls flow (calm-IsKeeping, (one_by_one-IsWriting, tt)) flow-IsFlowing
