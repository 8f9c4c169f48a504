-- ===== src/Logger/LogQueue/Valid.antt =====
-- The invariant of the ring of logger/log_queue.hpp.
use azh_lid.Prelude.{
  ℕ, ◌+◌, ◌%◌, ◌≤◌, ◌<◌, ◌≡◌, ap, ◌∙◌, Bool, some, add_size, size_mod, length, length-set,
  length-replicate, arith,
}
use native.Mathlib.Nat.{mod-add-mod, mod-lt, zero-mod}
use azh_lid.Logger.LogQueue.{LogQueue, create, store, count_read, count_write, fetch, clear}

-- The indices lie in the ring, and the rear is `size` slots behind the front.
pub record IsValid {A : Type 0} (q : LogQueue A) : Type 0 where
  pub positive : 0 < q.capacity
  pub small : q.capacity < size_mod
  pub sized : length q.buffer ≡ q.capacity
  pub front_in : q.front < q.capacity
  pub size_in : q.size ≤ q.capacity
  pub rear_at : q.rear ≡ (q.front + q.size) % q.capacity

module _ {A : Type 0} where
  create-IsValid :
      (blank : A) (capacity : ℕ) (debug : Bool) {q : LogQueue A}
      → capacity < size_mod
      → create blank capacity debug ≡ some q
      → IsValid q × (q.size ≡ 0)
  unfolding create
  create-IsValid blank n debug h e = ground (arith, length-replicate n blank)

  pub count_read-IsValid : {q : LogQueue A} → IsValid q → IsValid (count_read q)
  unfolding count_read
  count_read-IsValid v = ground arith

  pub count_write-IsValid : {q : LogQueue A} → IsValid q → IsValid (count_write q)
  unfolding count_write
  count_write-IsValid v = ground arith

  pub rear_in : {q : LogQueue A} → IsValid q → q.rear < q.capacity
  rear_in {q} v = rw v.rear_at (mod-lt (q.front + q.size) v.positive)

  pub store-IsValid :
      (x : A) {q : LogQueue A} → IsValid q → q.size < q.capacity → IsValid (store x q)
  unfolding store
  store-IsValid x {q} v h = record {
    positive = v.positive;
    small = v.small;
    sized = omega (arith, length-set q.buffer q.rear x, v.sized);
    front_in = v.front_in;
    size_in = omega arith;
    rear_at =
        rw (next_rear, next_size, v.rear_at, mod-add-mod) (ap (λ k. k % q.capacity) (omega arith));
  }
    where
      next_rear : add_size q.rear 1 ≡ q.rear + 1
      next_rear = omega (arith, rear_in v)

      next_size : add_size q.size 1 ≡ q.size + 1
      next_size = omega arith

  pub fetch-IsValid :
      (blank : A) {q : LogQueue A} → IsValid q → 0 < q.size → IsValid (fetch blank q).1
  unfolding fetch
  fetch-IsValid blank {q} v h = count_read-IsValid (record {
    positive = v.positive;
    small = v.small;
    sized = v.sized;
    front_in = mod-lt (add_size q.front 1) v.positive;
    size_in = omega arith;
    rear_at = v.rear_at ∙ rw (next_front, mod-add-mod) (ap (λ k. k % q.capacity) (omega arith));
  })
    where
      next_front : add_size q.front 1 ≡ q.front + 1
      next_front = omega arith

  pub clear-IsValid : {q : LogQueue A} → IsValid q → IsValid (clear q)
  unfolding clear
  clear-IsValid {q} v = record {
    positive = v.positive;
    small = v.small;
    sized = v.sized;
    front_in = v.positive;
    size_in = omega arith;
    rear_at = omega (arith, zero-mod q.capacity);
  }
