-- ===== src/Threads/EventLoopThreadPool/Turns.antt =====
-- How thread_pool/EventLoopThreadPool.cpp hands out its loops.
use azh_lid.Prelude.{
  ℕ, zero, suc, ◌+◌, ◌-◌, ◌*◌, ◌/◌, ◌%◌, ◌≤◌, ◌<◌, ◌≡◌, refl, sym, ap, ◌∙◌, false, Option, none,
  some, List, [], ◌∷◌, ◌++◌, arith, ◌==◌, length, get_or, map, take, drop, length-drop, add_size,
  size_mod,
}
use native.Mathlib.Nat.{
  mul-add-mod_self_left, mod-eq_of_lt, mod-lt, div-add-mod, mul-suc, suc-mul, zero-mul,
  add-mod_right,
}
use azh_lid.Threads.EventLoopThreadPool.{
  ThreadData, loop_of, EventLoopThreadPool, no_thread, get_all_loops, get_next_loop,
}

-- The loops that the next `n` calls of `get_next_loop` return.
unfoldable pub turns : ℕ → EventLoopThreadPool → List ℕ × EventLoopThreadPool
turns zero p = ([], p)
turns (suc n) p =
    let (o, p') = get_next_loop p in
    let (loops, p'') = turns n p' in (elim o [ none ↦ loops | some loop ↦ loop ∷ loops ], p'')

-- A list over and over.
abbrev pub rounds : ℕ → List ℕ → List ℕ
rounds zero loops = []
rounds (suc m) loops = loops ++ rounds m loops

drop-loops :
    (k : ℕ) (ts : List ThreadData)
    → k < length ts
    → drop k (map loop_of ts) ≡ (get_or ts k no_thread).loop ∷ drop (suc k) (map loop_of ts)
unfolding loop_of
drop-loops k [] h = absurd (omega arith)
drop-loops zero (t ∷ ts) h = refl
drop-loops (suc k) (t ∷ ts) h = drop-loops k ts (omega arith)

abbrev at_index : EventLoopThreadPool → ℕ → EventLoopThreadPool
at_index p i = record p { next_index = i }

-- `next_index` stands at place `k` of a turn.
get_next_loop_lem :
    (k q : ℕ) (p : EventLoopThreadPool)
    → p.next_index ≡ length p.threads * q + k
    → k < length p.threads
    → p.next_index + 1 < size_mod
    → get_next_loop p ≡ (some (get_or p.threads k no_thread).loop, at_index p (p.next_index + 1))
unfolding get_next_loop
get_next_loop_lem k q p at h small = rw nonempty (rw place (rw fits refl))
  where
    nonempty : (length p.threads == 0) ≡ false
    nonempty = ground (arith, h)

    place : p.next_index % length p.threads ≡ k
    place =
        ap (λ (n : ℕ). n % length p.threads) at
        ∙ mul-add-mod_self_left (length p.threads) q k
        ∙ mod-eq_of_lt h

    fits : add_size p.next_index 1 ≡ p.next_index + 1
    fits = mod-eq_of_lt small

pub turn :
    (j : ℕ) (p p' : EventLoopThreadPool) (loop : ℕ)
    → get_next_loop p ≡ (some loop, p')
    → turns (suc j) p ≡ (loop ∷ (turns j p').0, (turns j p').1)
unfolding turns
turn j p p' loop h =
    ap
      (λ (r : Option ℕ × EventLoopThreadPool).
        (elim r.0 [ none ↦ (turns j r.1).0 | some l ↦ l ∷ (turns j r.1).0 ], (turns j r.1).1))
      h

-- Calls that do not come past the last thread.
straight :
    (j k q : ℕ) (p : EventLoopThreadPool)
    → p.next_index ≡ length p.threads * q + k
    → k + j ≤ length p.threads
    → p.next_index + j < size_mod
    → turns j p ≡ (take j (drop k (get_all_loops p)), at_index p (p.next_index + j))
unfolding turns get_next_loop get_all_loops
straight zero k q p at h small =
    ap (λ (i : ℕ). ([], at_index p i)) {x = p.next_index} {y = p.next_index + 0} (omega arith)
straight (suc j) k q p at h small =
    turn j p _ _ (get_next_loop_lem k q p at (omega arith) (omega arith))
    ∙ ap (λ (r : List ℕ × EventLoopThreadPool). ((get_or p.threads k no_thread).loop ∷ r.0, r.1))
        (straight j (suc k) q (at_index p (p.next_index + 1)) (omega arith) (omega arith)
          (omega arith))
    ∙ rw (drop-loops k p.threads (omega arith)) (
        ap
          (λ (i : ℕ). (
            (get_or p.threads k no_thread).loop ∷ take j (drop (suc k) (get_all_loops p)),
            at_index p i,
          ))
          {x = p.next_index + 1 + j} {y = p.next_index + suc j} (omega arith))

turns_add :
    (a b : ℕ) (p : EventLoopThreadPool)
    → let (xs, p') = turns a p in let (ys, p'') = turns b p' in turns (a + b) p ≡ (xs ++ ys, p'')
unfolding turns
turns_add zero b p = ap (λ (n : ℕ). turns n p) {x = 0 + b} {y = b} (omega arith)
turns_add (suc a) b p =
    ap (λ (n : ℕ). turns n p) {x = suc a + b} {y = suc (a + b)} (omega arith)
    ∙ ap (join (get_next_loop p).0) (turns_add a b (get_next_loop p).1)
    ∙ join_append (get_next_loop p).0 _ _ _
  where
    join : Option ℕ → List ℕ × EventLoopThreadPool → List ℕ × EventLoopThreadPool
    join o (loops, p') = (elim o [ none ↦ loops | some loop ↦ loop ∷ loops ], p')

    join_append :
        (o : Option ℕ) (xs ys : List ℕ) (p' : EventLoopThreadPool)
        → join o (xs ++ ys, p') ≡ ((elim o [ none ↦ xs | some loop ↦ loop ∷ xs ]) ++ ys, p')
    join_append none xs ys p' = refl
    join_append (some loop) xs ys p' = refl

length-loops : (ts : List ThreadData) → length (map loop_of ts) ≡ length ts
length-loops [] = refl
length-loops (t ∷ ts) = ap suc (length-loops ts)

take_enough : (j : ℕ) (xs : List ℕ) → length xs ≤ j → take j xs ≡ xs
take_enough zero [] h = refl
take_enough zero (x ∷ xs) h = absurd (omega arith)
take_enough (suc j) [] h = refl
take_enough (suc j) (x ∷ xs) h = ap (λ (l : List ℕ). x ∷ l) (take_enough j xs (omega arith))

-- One turn.
cycle :
    (p : EventLoopThreadPool)
    → 0 < length p.threads
    → p.next_index + length p.threads < size_mod
    → let k = p.next_index % length p.threads in
      turns (length p.threads) p ≡ (
        drop k (get_all_loops p) ++ take k (get_all_loops p),
        at_index p (p.next_index + length p.threads),
      )
unfolding get_all_loops
cycle p some_thread small =
    ap (λ (j : ℕ). turns j p) {x = n} {y = n - k + k} (omega (arith, k_in))
    ∙ turns_add (n - k) k p
    ∙ rw first (
        rw second (
          rw whole (
            ap (λ (i : ℕ). (drop k (get_all_loops p) ++ take k (get_all_loops p), at_index p i))
              {x = p.next_index + (n - k) + k} {y = p.next_index + n} (omega (arith, k_in)))))
  where
    n : ℕ
    n = length p.threads

    k : ℕ
    k = p.next_index % n

    q : ℕ
    q = p.next_index / n

    k_in : k < n
    k_in = mod-lt p.next_index some_thread

    first :
        turns (n - k) p
        ≡ (take (n - k) (drop k (get_all_loops p)), at_index p (p.next_index + (n - k)))
    first =
        straight (n - k) k q p (sym (div-add-mod p.next_index n)) (omega (arith, k_in))
          (omega (arith, k_in))

    second :
        turns k (at_index p (p.next_index + (n - k)))
        ≡ (take k (get_all_loops p), at_index p (p.next_index + (n - k) + k))
    second =
        straight k 0 (suc q) (at_index p (p.next_index + (n - k)))
          (omega (arith, k_in, div-add-mod p.next_index n, mul-suc n q)) (omega (arith, k_in))
          (omega (arith, k_in))

    whole : take (n - k) (drop k (get_all_loops p)) ≡ drop k (get_all_loops p)
    whole =
        take_enough (n - k) (drop k (get_all_loops p))
          (omega (arith, length-drop k (get_all_loops p), length-loops p.threads))

-- As long as the index does not wrap around, m times as many calls of get_next_loop as there are
-- threads, at least one, return all loops of the pool m times over, in order from the one that is
-- next.
pub turns-get_all_loops :
    (m : ℕ) (p : EventLoopThreadPool)
    → 0 < length p.threads
    → p.next_index + m * length p.threads < size_mod
    → let k = p.next_index % length p.threads in
      turns (m * length p.threads) p ≡ (
        rounds m (drop k (get_all_loops p) ++ take k (get_all_loops p)),
        record p { next_index = p.next_index + m * length p.threads },
      )
unfolding turns get_all_loops
turns-get_all_loops m p some_thread small = go m p.next_index small
  where
    n : ℕ
    n = length p.threads

    loops : ℕ → List ℕ
    loops i = drop (i % n) (get_all_loops p) ++ take (i % n) (get_all_loops p)

    go :
        (m i : ℕ)
        → i + m * n < size_mod
        → turns (m * n) (at_index p i) ≡ (rounds m (loops i), at_index p (i + m * n))
    go zero i small =
        ap (λ (j : ℕ). turns j (at_index p i)) {x = 0 * n} {y = 0} (omega (arith, zero-mul n))
        ∙ ap (λ (j : ℕ). ([], at_index p j)) {x = i} {y = i + 0 * n} (omega (arith, zero-mul n))
    go (suc m) i small =
        ap (λ (j : ℕ). turns j (at_index p i)) {x = suc m * n} {y = n + m * n}
          (omega (arith, suc-mul m n))
        ∙ turns_add n (m * n) (at_index p i)
        ∙ rw (cycle (at_index p i) some_thread (omega (arith, suc-mul m n, small))) (
            rw (go m (i + n) (omega (arith, suc-mul m n, small))) (
              rw (add-mod_right i n) (
                ap (λ (j : ℕ). (loops i ++ rounds m (loops i), at_index p j)) {x = i + n + m * n}
                  {y = i + suc m * n} (omega (arith, suc-mul m n)))))
