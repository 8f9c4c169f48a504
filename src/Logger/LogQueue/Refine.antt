-- ===== src/Logger/LogQueue/Refine.antt =====
-- The ring of logger/log_queue.hpp is a bounded first-in first-out queue.
use azh_lid.Prelude.{
  ℕ, zero, suc, ◌+◌, ◌-◌, ◌%◌, ◌≤◌, ◌<◌, min, ◌≡◌, ◌≢◌, ◌⊎◌, inl, inr, refl, sym, ap, ap₂, ◌∙◌,
  subst, Bool, true, false, Option, none, some, List, [], ◌∷◌, ◌++◌, ltb, ℤ, is_positive,
  is_negative, get_or, set, add_size, length, length-append, get_or-set_self, get_or-set_ne, arith,
  Bool-cases, ltb→lt,
}
use native.Mathlib.Nat.{mod-add-mod, mod-lt, mod-eq_of_lt, mod-eq-sub-mod}
use native.Mathlib.Decide.{dec_lt}
use azh_lid.Logger.LogQueue.{
  LogQueue, store, count_read, count_write, await_room, push_copy, push_move, fetch, pop,
  take_batch, pop_batch,
}
use azh_lid.Logger.LogQueue.Valid.{
  IsValid, store-IsValid, count_read-IsValid, count_write-IsValid, fetch-IsValid,
}

-- An index that has gone round at most once.
mod_cases : (x n : ℕ) → x < n + n → ((x % n ≡ x) × (x < n)) ⊎ (x % n + n ≡ x)
mod_cases x n h = elim (dec_lt x n) [
  | yes p ↦ inl (mod-eq_of_lt p, p)
  | no p ↦ inr (
      omega (
        arith,
        mod-eq-sub-mod {n = x} {m = n} (omega arith),
        mod-eq_of_lt {n = x - n} {m = n} (omega arith),
      ))
]

-- Two offsets below the capacity are two slots.
offset-ne : (n h j k : ℕ) → h < n → j < k → k < n → (h + k) % n ≢ (h + j) % n
offset-ne n h j k hh jk kn =
    omega (arith, mod_cases (h + k) n (omega arith), mod_cases (h + j) n (omega arith))

module _ {A : Type 0} (blank : A) where
  -- The `n` items from slot `h` on, going round at `cap`.
  abbrev pub span : List A → ℕ → ℕ → ℕ → List A
  span buf n h zero = []
  span buf n h (suc k) = span buf n h k ++ get_or buf ((h + k) % n) blank ∷ []

  -- The queue's items, oldest first.
  abbrev pub queued : LogQueue A → List A
  queued q = span q.buffer q.capacity q.front q.size

  pub length-span : (buf : List A) (n h k : ℕ) → length (span buf n h k) ≡ k
  length-span buf n h zero = refl
  length-span buf n h (suc k) = omega (
    arith,
    length-append (span buf n h k) (get_or buf ((h + k) % n) blank ∷ []),
    length-span buf n h k,
  )

  -- A write at an offset changes no item before it.
  span-set :
      (buf : List A) (n h m : ℕ) (x : A) (k : ℕ)
      → h < n
      → m < n
      → k ≤ m
      → span (set buf ((h + m) % n) x) n h k ≡ span buf n h k
  span-set buf n h m x zero hh hm hk = refl
  span-set buf n h m x (suc k) hh hm hk =
      ap₂ (λ xs (y : A). xs ++ y ∷ []) (span-set buf n h m x k hh hm (omega arith))
        (get_or-set_ne buf x blank (offset-ne n h k m hh hk hm))

  -- The first item, and the rest from the next slot on.
  span-suc :
      (buf : List A) (n h k : ℕ)
      → h < n
      → span buf n h (suc k) ≡ get_or buf h blank ∷ span buf n ((h + 1) % n) k
  span-suc buf n h zero hh =
      ap (λ i. get_or buf i blank ∷ [])
        (ap (λ i. i % n) {x = h + 0} (omega arith) ∙ mod-eq_of_lt hh)
  span-suc buf n h (suc k) hh =
      ap (λ xs. xs ++ get_or buf ((h + suc k) % n) blank ∷ []) (span-suc buf n h k hh)
      ∙ ap (λ i. get_or buf h blank ∷ (span buf n ((h + 1) % n) k ++ get_or buf i blank ∷ [])) shift
    where
      shift : (h + suc k) % n ≡ ((h + 1) % n + k) % n
      shift = rw mod-add-mod (ap (λ i. i % n) (omega arith))

  queued-count_read :
      (q : LogQueue A) → (queued (count_read q) ≡ queued q) × ((count_read q).size ≡ q.size)
  unfolding count_read
  queued-count_read q = elim (Bool-cases q.debug) [
    | inl t ↦ rw t (refl, refl)
    | inr t ↦ rw t (refl, refl)
  ]

  queued-count_write : (q : LogQueue A) → queued (count_write q) ≡ queued q
  unfolding count_write
  queued-count_write q = elim (Bool-cases q.debug) [ inl t ↦ rw t | inr t ↦ rw t ]

  -- A write just behind the items adds the item at their end.
  span-set_end :
      (buf : List A) (n h m : ℕ) (x : A) (r : ℕ)
      → r ≡ (h + m) % n
      → h < n
      → m < n
      → length buf ≡ n
      → span (set buf r x) n h (suc m) ≡ span buf n h m ++ x ∷ []
  span-set_end buf n h m x r e hh hm sized =
      subst (λ i. span (set buf i x) n h (suc m) ≡ span buf n h m ++ x ∷ []) (sym e)
        (ap₂ (λ xs (y : A). xs ++ y ∷ []) (span-set buf n h m x m hh hm (omega arith))
          (get_or-set_self buf ((h + m) % n) x blank
            (omega (arith, mod-lt (h + m) {m = n} (omega arith)))))

  queued-store :
      (x : A) (q : LogQueue A)
      → IsValid q
      → q.size < q.capacity
      → queued (store x q) ≡ queued q ++ x ∷ []
  unfolding store
  queued-store x q v h =
      ap (λ (k : ℕ). span (set q.buffer q.rear x) q.capacity q.front k) {x = add_size q.size 1}
        {y = suc q.size} (omega (arith, v.small))
      ∙ span-set_end q.buffer q.capacity q.front q.size x q.rear v.rear_at v.front_in h v.sized

  queued-fetch :
      (q : LogQueue A)
      → IsValid q
      → 0 < q.size
      → (queued q ≡ (fetch blank q).0 ∷ queued (fetch blank q).1)
        × ((fetch blank q).1.size ≡ q.size - 1)
  unfolding fetch
  queued-fetch q v h = (
    ap (span q.buffer q.capacity q.front) {x = q.size} {y = suc (q.size - 1)} (omega arith)
        ∙ span-suc q.buffer q.capacity q.front (q.size - 1) v.front_in
        ∙ ap (λ (i : ℕ). first ∷ span q.buffer q.capacity (i % q.capacity) (q.size - 1))
            {x = q.front + 1} {y = add_size q.front 1} (omega (arith, v.small, v.front_in))
        ∙ ap (λ (xs : List A). first ∷ xs) (sym (queued-count_read _).0),
    (queued-count_read _).1,
  )
    where
      first : A
      first = get_or q.buffer q.front blank

  -- The queue of `capacity` items that `push` and `pop` are to implement. A push on a full queue
  -- fails if it has a timeout above 0, and else waits.
  abbrev pub Pushes : LogQueue A → A → ℤ → Option (Bool × LogQueue A) → Type 0
  Pushes q x timeout_ms none = (length (queued q) ≡ q.capacity) × (is_positive timeout_ms ≡ false)
  Pushes q x timeout_ms (some (true, q')) =
      (length (queued q) < q.capacity) × IsValid q' × (queued q' ≡ queued q ++ x ∷ [])
  Pushes q x timeout_ms (some (false, q')) =
      (length (queued q) ≡ q.capacity) × (is_positive timeout_ms ≡ true) × (q' ≡ q)

  await_room-Pushes :
      (x : A) (timeout_ms : ℤ) (q q' : LogQueue A)
      → IsValid q
      → (q.size < q.capacity → IsValid q' × (queued q' ≡ queued q ++ x ∷ []))
      → Pushes q x timeout_ms (await_room timeout_ms q q')
  unfolding await_room
  await_room-Pushes x timeout_ms q q' v h =
      let len = length-span q.buffer q.capacity q.front q.size in
      elim (Bool-cases (ltb q.size q.capacity)) [
        | inl t ↦ rw t (
            let (valid, same) = h (ground arith) in (omega (arith, len, ltb→lt _ _ t), valid, same))
        | inr t ↦ rw t (elim (Bool-cases (is_positive timeout_ms)) [
          | inl u ↦ rw u (ground (arith, len, v.size_in), u, refl)
          | inr u ↦ rw u (ground (arith, len, v.size_in), u)
        ])
      ]

  -- On a well-formed ring both overloads of push put the item behind the others if there is room,
  -- and else change nothing and fail or wait as the timeout says.
  pub push_refines :
      (x : A) (timeout_ms : ℤ) (q : LogQueue A)
      → IsValid q
      → Pushes q x timeout_ms (push_copy x timeout_ms q)
        × Pushes q x timeout_ms (push_move x timeout_ms q)
  unfolding push_copy push_move
  push_refines x timeout_ms q v = (
    await_room-Pushes x timeout_ms q _ v (λ h. (
      count_read-IsValid (store-IsValid x v h),
      (queued-count_read (store x q)).0 ∙ queued-store x q v h,
    )),
    await_room-Pushes x timeout_ms q _ v (λ h. (
      count_write-IsValid (store-IsValid x v h),
      queued-count_write (store x q) ∙ queued-store x q v h,
    )),
  )

  abbrev pub Takes : LogQueue A → ℤ → Option (Option A × LogQueue A) → Type 0
  Takes q timeout_ms none = (queued q ≡ []) × (is_negative timeout_ms ≡ true)
  Takes q timeout_ms (some (none, q')) =
      (queued q ≡ []) × (is_negative timeout_ms ≡ false) × (q' ≡ q)
  Takes q timeout_ms (some (some x, q')) = IsValid q' × (queued q ≡ x ∷ queued q')

  -- On a well-formed ring pop gives the oldest item and leaves the others in order; on an empty
  -- ring it changes nothing, and waits if the timeout is below 0 and else fails.
  pub pop_refines :
      (timeout_ms : ℤ) (q : LogQueue A) → IsValid q → Takes q timeout_ms (pop blank timeout_ms q)
  unfolding pop
  pop_refines timeout_ms q v = elim (Bool-cases (ltb 0 q.size)) [
    | inl t ↦ rw t (fetch-IsValid blank v (ltb→lt _ _ t), (queued-fetch q v (ltb→lt _ _ t)).0)
    | inr t ↦ rw t (elim (Bool-cases (is_negative timeout_ms)) [
      | inl u ↦ rw u (nothing t, u)
      | inr u ↦ rw u (nothing t, u, refl)
    ])
  ]
    where
      nothing : ltb 0 q.size ≡ false → queued q ≡ []
      nothing t = ap (span q.buffer q.capacity q.front) {x = q.size} {y = 0} (ground arith)

  take_batch_lem :
      (n : ℕ) (q : LogQueue A)
      → IsValid q
      → let (items, q') = take_batch blank n q in
        IsValid q' × (queued q ≡ items ++ queued q') × (length items ≡ min n q.size)
  unfolding take_batch
  take_batch_lem zero q v = (v, refl, omega arith)
  take_batch_lem (suc n) q v = elim (Bool-cases (ltb 0 q.size)) [
    | inl t ↦ rw t (
        let w = fetch-IsValid blank v (ltb→lt _ _ t) in
        let (first, fewer) = queued-fetch q v (ltb→lt _ _ t) in
        let (valid, same, count) = take_batch_lem n (fetch blank q).1 w in
        (
          valid,
          first ∙ ap (λ xs. (fetch blank q).0 ∷ xs) same,
          omega (arith, count, fewer, ltb→lt _ _ t),
        ))
    | inr t ↦ rw t (v, refl, ground arith)
  ]

  abbrev pub TakesBatch : LogQueue A → ℕ → ℤ → Option (List A × LogQueue A) → Type 0
  TakesBatch q max_count timeout_ms none = (queued q ≡ []) × (is_positive timeout_ms ≡ false)
  TakesBatch q max_count timeout_ms (some (items, q')) =
      IsValid q'
      × (queued q ≡ items ++ queued q')
      × (length items ≡ min max_count (length (queued q)))

  -- On a well-formed ring pop_batch gives the oldest items in order, as many as it may take and
  -- the ring has, and leaves the others; it waits only on an empty ring with a timeout that is not
  -- above 0.
  pub pop_batch_refines :
      (max_count : ℕ) (timeout_ms : ℤ) (q : LogQueue A)
      → IsValid q
      → TakesBatch q max_count timeout_ms (pop_batch blank max_count timeout_ms q)
  unfolding pop_batch
  pop_batch_refines n timeout_ms q v =
      let len = length-span q.buffer q.capacity q.front q.size in
      let (valid, same, count) = take_batch_lem n q v in
      elim (Bool-cases (ltb 0 q.size)) [
        | inl t ↦ rw t (valid, same, omega (arith, count, len))
        | inr t ↦ rw t (elim (Bool-cases (is_positive timeout_ms)) [
          | inl u ↦ rw u (v, refl, ground (arith, len))
          | inr u ↦
              rw u (ap (span q.buffer q.capacity q.front) {x = q.size} {y = 0} (ground arith), u)
        ])
      ]
