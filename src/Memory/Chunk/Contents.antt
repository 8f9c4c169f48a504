-- ===== src/Memory/Chunk/Contents.antt =====
-- What the operations of memory/chunk.cpp do to the live bytes of a chunk.
use azh_lid.Prelude.{
  ℕ, ◌+◌, ◌-◌, ◌*◌, ◌%◌, ◌≤◌, ◌<◌, max, ◌≡◌, ◌⊎◌, inl, inr, refl, Bool-cases, ◌==◌, ltb,
  if◌then◌else◌, ap, sym, ◌∙◌, Bool, true, false, some, List, arith, length, take, drop, replicate,
  overwrite, length-take, length-drop, length-overwrite, length-replicate, take-overwrite_zero,
  drop-drop, drop-take,
}
use azh_lid.Memory.Chunk.{
  Chunk, size_mod, contents, clear, adjust, pop, expand_capacity, ensure_capacity, copy, copy_live,
  fresh,
}

-- The live window lies inside the array, and the array is as long as the capacity says.
pub record IsValid (c : Chunk) : Type 0 where
  pub window : c.head + c.length ≤ c.capacity
  pub sized : length c.bytes ≡ c.capacity
  pub small : c.capacity < size_mod

pub length-contents : {c : Chunk} → IsValid c → length (contents c) ≡ c.length
length-contents {c} v =
    omega (arith, length-take c.length (drop c.head c.bytes), length-drop c.head c.bytes)

pub fresh-IsValid : (a cap : ℕ) → cap < size_mod → IsValid (fresh a cap)
unfolding fresh
fresh-IsValid a cap h = omega (arith, length-replicate {A = ℕ} cap 0)

pub clear-IsValid : {c : Chunk} → IsValid c → IsValid (clear c)
unfolding clear
clear-IsValid v = omega arith

-- A copy of the live bytes to the front of a large enough array is read back.
copied :
    {c : Chunk} (xs : List ℕ)
    → IsValid c
    → c.length ≤ length xs
    → take c.length (overwrite xs 0 (contents c)) ≡ contents c
copied {c} xs v h =
    ap (λ n. take n (overwrite xs 0 (contents c))) (sym (length-contents v))
    ∙ take-overwrite_zero xs (contents c) (omega (arith, length-contents v))

length-copy_live : (other c : Chunk) → (copy_live other c).length ≡ other.length
unfolding copy_live
length-copy_live other c = refl

-- The copied chunk holds exactly the live bytes of the source, from its start on.
copy_live_lem :
    {c other : Chunk}
    → IsValid c
    → IsValid other
    → other.length ≤ c.capacity
    → IsValid (copy_live other c) × (contents (copy_live other c) ≡ contents other)
unfolding copy_live
copy_live_lem {c = c} {other = other} v w h = (
  record {
    window = omega arith;
    sized = length-overwrite c.bytes 0 (contents other) ∙ v.sized;
    small = v.small;
  },
  copied c.bytes w (omega arith),
)

-- `adjust` keeps the chunk well-formed, moves the live bytes to the front, and changes none of them.
pub adjust_lem :
    {c : Chunk}
    → IsValid c
    → IsValid (adjust c)
      × (contents (adjust c) ≡ contents c)
      × ((adjust c).head ≡ 0)
      × ((adjust c).capacity ≡ c.capacity)
unfolding adjust
adjust_lem {c} v = ground (arith, length-overwrite c.bytes 0 (contents c), copied c.bytes v)

-- `pop(len)` drops the first `len` live bytes, all of them where `len` is too large.
pub pop_lem :
    (len : ℕ) {c : Chunk}
    → IsValid c
    → IsValid (pop len c) × (contents (pop len c) ≡ drop len (contents c))
unfolding pop
pop_lem len {c} v =
    ground (arith, drop-take len c.length (drop c.head c.bytes), drop-drop len c.head c.bytes)

-- `expand_capacity` to a larger size keeps the live bytes; it fails, changing nothing, if the
-- new size is no larger or the allocation is refused.
expand_capacity_lem :
    (granted : Bool) (n : ℕ) {c : Chunk}
    → n < size_mod
    → IsValid c
    → let (done, c') = expand_capacity granted n c in
      IsValid c'
      × (contents c' ≡ contents c)
      × (c.capacity ≤ c'.capacity)
      × (done ≡ true → (c'.capacity ≡ n) × (c.capacity < n))
      × (done ≡ false → (c' ≡ c) × ((n ≤ c.capacity) ⊎ (granted ≡ false)))
unfolding expand_capacity
expand_capacity_lem granted n {c} h v = ground (
  arith,
  length-replicate {A = ℕ} n 0,
  length-overwrite (replicate n 0) 0 (contents c),
  copied (replicate n 0) v,
  length-contents v,
)

-- `ensure_capacity` keeps the live bytes, and reports success exactly if the chunk now has room
-- for the required size; a larger size is refused only if the allocation is.
pub ensure_capacity_lem :
    (granted : Bool) (n : ℕ) {c : Chunk}
    → n < size_mod
    → IsValid c
    → let (done, c') = ensure_capacity granted n c in
      IsValid c'
      × (contents c' ≡ contents c)
      × (done ≡ true → n ≤ c'.capacity)
      × (done ≡ false → (c' ≡ c) × (c.capacity < n) × (granted ≡ false))
unfolding ensure_capacity
ensure_capacity_lem granted n {c} h v = ground (
  arith,
  expand_capacity_lem granted (max ((c.capacity * 2) % size_mod) n) {c = c} (omega arith) v,
)

-- What `copy` makes of `c`: the live bytes of `other`, or `c` itself for want of memory.
abbrev pub Copied : Bool → Chunk → Chunk → Chunk → Type 0
Copied granted other c c' =
    IsValid c'
    × (((contents c' ≡ contents other) × (c'.length ≡ other.length))
        ⊎ ((c' ≡ c) × (c.capacity < other.length) × (granted ≡ false)))

Copied-after_growth :
    (granted : Bool) (other : Chunk) {c : Chunk}
    → IsValid other
    → IsValid c
    → let (grown, c') = ensure_capacity granted other.length c in
      Copied granted other c (if grown then copy_live other c' else c')
Copied-after_growth granted other {c} w v =
    let grown = ensure_capacity_lem granted other.length {c = c} (omega arith) v in
    elim (Bool-cases (ensure_capacity granted other.length c).0) [
      | inl e ↦ rw e (
          let (valid, same) = copy_live_lem grown.0 w (grown.2 e) in
          (valid, inl (same, length-copy_live other _)))
      | inr e ↦ rw e (grown.0, inr (grown.3 e))
    ]

-- copy between well-formed chunks leaves exactly the source's live bytes; only where they do not
-- fit and the allocation is refused, the chunk is unchanged.
pub copy_lem :
    (granted : Bool) (other : Chunk) {c : Chunk}
    → IsValid other
    → IsValid c
    → Copied granted other c (copy granted (some other) c)
unfolding copy
copy_lem granted other {c} w v = elim (Bool-cases (other.length == 0)) [
  | inl e ↦ rw e (ground arith)
  | inr e ↦ rw e (elim (Bool-cases (ltb c.capacity other.length)) [
    | inl f ↦ rw f (Copied-after_growth granted other w v)
    | inr f ↦ rw f (
        let (valid, same) = copy_live_lem v w (ground arith) in
        (valid, inl (same, length-copy_live other _)))
  ])
]

-- A copy that fits does not change the capacity.
pub copy_fits :
    (granted : Bool) (other c : Chunk)
    → other.length ≤ c.capacity
    → c.head ≡ 0
    → let c' = copy granted (some other) c in
      (c'.capacity ≡ c.capacity) × (c'.head ≡ 0) × (c'.length ≡ other.length)
unfolding copy copy_live
copy_fits granted other c h e = ground arith

pub adjust_zero : (c : Chunk) → c.head ≡ 0 → adjust c ≡ c
unfolding adjust
adjust_zero c h = ground arith

-- A pop that leaves bytes moves the head by the bytes that it takes.
pub pop_head : (len : ℕ) {c : Chunk} → IsValid c → len < c.length → (pop len c).head ≡ c.head + len
unfolding pop
pop_head len v h = ground arith

pub pop_frame :
    (len : ℕ) (c : Chunk)
    → ((pop len c).capacity ≡ c.capacity) × ((pop len c).length ≡ c.length - len)
unfolding pop
pop_frame len c = ground arith
