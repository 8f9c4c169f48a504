-- ===== src/Logger/LogQueue/Tests.antt =====
-- The ring of logger/log_queue.hpp on small queues.
use azh_lid.Prelude.{ℕ, ◌≡◌, refl, true, some, [], ◌∷◌, arith, pos, negsuc}
use azh_lid.Logger.LogQueue.{
  LogQueue, push_copy, push_move, pop, pop_batch, await_room, store, count_read, count_write,
}
use azh_lid.Logger.LogQueue.Valid.{IsValid}
use azh_lid.Logger.LogQueue.Refine.{
  Pushes, Takes, TakesBatch, push_refines, pop_refines, pop_batch_refines,
}

-- 8, then 9, round the end of the ring
abbrev wrapped : LogQueue ℕ
wrapped = record {
  capacity = 3;
  debug = true;
  buffer = 9 ∷ 7 ∷ 8 ∷ [];
  size = 2;
  front = 2;
  rear = 1;
  read_count = 0;
  write_count = 2;
}

wrapped-IsValid : IsValid wrapped
wrapped-IsValid = omega arith

-- Only the overload for an rvalue counts a write.
push_counts :
    (push_copy 5 (pos 0) wrapped
      ≡ some (true, record wrapped { buffer = 9 ∷ 5 ∷ 8 ∷ []; size = 3; rear = 2; read_count = 1 }))
    × (push_move 5 (pos 0) wrapped
        ≡ some
            (true, record wrapped { buffer = 9 ∷ 5 ∷ 8 ∷ []; size = 3; rear = 2; write_count = 3 }))
unfolding push_copy push_move await_room store count_read count_write
push_counts = (refl, refl)

push_refines_example :
    Pushes 0 wrapped 5 (pos 0) (push_copy 5 (pos 0) wrapped)
    × Pushes 0 wrapped 5 (pos 0) (push_move 5 (pos 0) wrapped)
push_refines_example = push_refines 0 5 (pos 0) wrapped wrapped-IsValid

pop_refines_example : Takes 0 wrapped (negsuc 0) (pop 0 (negsuc 0) wrapped)
pop_refines_example = pop_refines 0 (negsuc 0) wrapped wrapped-IsValid

pop_batch_refines_example : TakesBatch 0 wrapped 5 (pos 10) (pop_batch 0 5 (pos 10) wrapped)
pop_batch_refines_example = pop_batch_refines 0 5 (pos 10) wrapped wrapped-IsValid
