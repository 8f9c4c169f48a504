-- ===== src/Logger/LogQueue.antt =====
-- logger/log_queue.hpp: the bounded ring of the asynchronous logger.
-- A call is modelled from the moment when its wait is over: the queue that it is given is the one
-- that it finds under the lock then, whatever other threads did to it before. `none` is a call that
-- has to wait on. The notifications wake other threads and change no state.
pub mod Valid
pub mod Refine
pub mod Tests
use azh_lid.Prelude.{
  ℕ, zero, suc, ◌+◌, ◌-◌, ◌%◌, Bool, true, false, Option, none, some, List, [], ◌∷◌, ◌++◌, ltb, leb,
  ◌==◌, if◌then◌else◌, ℤ, pos, negsuc, is_positive, is_negative, get_or, set, replicate, add_size,
  length,
}

pub record LogQueue (A : Type 0) : Type 0 where
  pub capacity : ℕ
  pub debug : Bool
  pub buffer : List A
  pub size : ℕ
  pub front : ℕ
  pub rear : ℕ
  pub read_count : ℕ
  pub write_count : ℕ

module _ {A : Type 0} where
  -- `LogQueue(capacity, debug)`; `none` is the exception. `blank` is `T()`.
  pub create : A → ℕ → Bool → Option (LogQueue A)
  create blank capacity debug =
      if capacity == 0
      then none
      else some (record {
        capacity = capacity;
        debug = debug;
        buffer = replicate capacity blank;
        size = 0;
        front = 0;
        rear = 0;
        read_count = 0;
        write_count = 0;
      })

  -- The part of both overloads of `push` that they share, once there is room.
  pub store : A → LogQueue A → LogQueue A
  store item q = record q {
    buffer = set q.buffer q.rear item;
    rear = add_size q.rear 1 % q.capacity;
    size = add_size q.size 1;
  }

  pub count_read : LogQueue A → LogQueue A
  count_read q = if q.debug then record q { read_count = add_size q.read_count 1 } else q

  pub count_write : LogQueue A → LogQueue A
  count_write q = if q.debug then record q { write_count = add_size q.write_count 1 } else q

  -- The end of a wait for room: with a timeout above 0 the call fails, else it waits on.
  pub await_room : ℤ → LogQueue A → LogQueue A → Option (Bool × LogQueue A)
  await_room timeout_ms q done =
      if ltb q.size q.capacity
      then some (true, done)
      else (if is_positive timeout_ms then some (false, q) else none)

  -- `push(const T&)`, which counts a read.
  pub push_copy : A → ℤ → LogQueue A → Option (Bool × LogQueue A)
  push_copy item timeout_ms q = await_room timeout_ms q (count_read (store item q))

  -- `push(T&&)`, which counts a write.
  pub push_move : A → ℤ → LogQueue A → Option (Bool × LogQueue A)
  push_move item timeout_ms q = await_room timeout_ms q (count_write (store item q))

  module _ (blank : A) where
    -- The front item, and the queue without it.
    pub fetch : LogQueue A → A × LogQueue A
    fetch q = (
      get_or q.buffer q.front blank,
      count_read (record q { front = add_size q.front 1 % q.capacity; size = q.size - 1 }),
    )

    -- `pop`: the item, or `none` for a call that returns false. Below 0 the timeout means to wait.
    pub pop : ℤ → LogQueue A → Option (Option A × LogQueue A)
    pop timeout_ms q =
        if ltb 0 q.size
        then (let (item, q') = fetch q in some (some item, q'))
        else (if is_negative timeout_ms then none else some (none, q))

    -- The loop of `pop_batch`, with the number of items that it may still take.
    pub take_batch : ℕ → LogQueue A → List A × LogQueue A
    take_batch zero q = ([], q)
    take_batch (suc n) q =
        let rest : List A × LogQueue A =
          (let (items, r) = take_batch n (fetch q).1 in ((fetch q).0 ∷ items, r)) in
        if ltb 0 q.size then rest else ([], q)

    -- `pop_batch`: the items that it appends to the vector, and the queue. Its count is their number.
    pub pop_batch : ℕ → ℤ → LogQueue A → Option (List A × LogQueue A)
    pop_batch max_count timeout_ms q =
        if ltb 0 q.size
        then some (take_batch max_count q)
        else (if is_positive timeout_ms then some ([], q) else none)

  pub clear : LogQueue A → LogQueue A
  clear q = record q {
    size = 0;
    front = 0;
    rear = 0;
    read_count = (if q.debug then 0 else q.read_count);
    write_count = (if q.debug then 0 else q.write_count);
  }

  pub is_empty : LogQueue A → Bool
  is_empty q = q.size == 0

  pub is_full : LogQueue A → Bool
  is_full q = q.size == q.capacity

  -- `read_count()` and `write_count()`
  pub reads : LogQueue A → ℕ
  reads q = if q.debug then q.read_count else 0

  pub writes : LogQueue A → ℕ
  writes q = if q.debug then q.write_count else 0
