-- ===== src/Memory/Pool/Sizes.antt =====
-- The size classes of memory/memory_pool.cpp: find_suitable_size and is_supported_size.
use azh_lid.Prelude.{ℕ, ◌≤◌, ◌<◌, ◌≡◌, refl, ◌⊎◌, inl, inr, true, List, [], ◌∷◌, arith}
use azh_lid.Memory.Pool.{find_suitable_size, is_supported_size, mem_sizes, is_among, first_fit}

abbrev Above : ℕ → List ℕ → Type 0
Above x [] = Unit
Above x (y ∷ ys) = (x ≤ y) × Above x ys

abbrev Ascending : List ℕ → Type 0
Ascending [] = Unit
Ascending (x ∷ xs) = Above x xs × Ascending xs

Above-is_among : (x s : ℕ) (xs : List ℕ) → Above x xs → is_among s xs ≡ true → x ≤ s
unfolding is_among
Above-is_among x s [] h e = absurd (ground arith)
Above-is_among x s (y ∷ ys) h e = ground (arith, Above-is_among x s ys h.1)

first_fit-is_among :
    (n : ℕ) (xs : List ℕ)
    → (first_fit n xs ≡ 0) ⊎ ((is_among (first_fit n xs) xs ≡ true) × (n ≤ first_fit n xs))
unfolding first_fit is_among
first_fit-is_among n [] = inl refl
first_fit-is_among n (x ∷ xs) = ground (arith, first_fit-is_among n xs)

-- Among ascending sizes the first that fits is the least that fits.
first_fit_least :
    (n s : ℕ) (xs : List ℕ) → Ascending xs → is_among s xs ≡ true → n ≤ s → first_fit n xs ≤ s
unfolding first_fit is_among
first_fit_least n s [] h e l = absurd (ground arith)
first_fit_least n s (x ∷ xs) h e l =
    ground (arith, first_fit_least n s xs h.1, Above-is_among x s xs h.0)

find_suitable_size-zero : (n : ℕ) → find_suitable_size n ≡ 0 → 4194304 < n
unfolding find_suitable_size
find_suitable_size-zero n h = ground arith

-- The answer is a supported size that is large enough, and the least such; the answer 0 means that
-- the request is larger than every size.
pub find_suitable_size_lem :
    (n : ℕ)
    → ((find_suitable_size n ≡ 0) × (4194304 < n))
      ⊎ ((is_supported_size (find_suitable_size n) ≡ true)
          × (n ≤ find_suitable_size n)
          × ((s : ℕ) → is_supported_size s ≡ true → n ≤ s → find_suitable_size n ≤ s))
unfolding is_supported_size find_suitable_size first_fit
find_suitable_size_lem n = elim (first_fit-is_among n mem_sizes) [
  | inl e ↦ inl (e, find_suitable_size-zero n e)
  | inr (e, h) ↦ inr (e, h, λ s m l. first_fit_least n s mem_sizes (omega arith) m l)
]

-- Every supported size lies between 4 KB and 4 MB.
pub supported_bounds : (s : ℕ) → is_supported_size s ≡ true → (4096 ≤ s) × (s ≤ 4194304)
unfolding is_supported_size
supported_bounds s h = ground arith

-- For a request that some supported size can hold, find_suitable_size gives a supported size that
-- can hold it and is no larger than that one.
pub find_suitable_size_least :
    (n s : ℕ)
    → is_supported_size s ≡ true
    → n ≤ s
    → (n ≤ find_suitable_size n)
      × (find_suitable_size n ≤ s)
      × (is_supported_size (find_suitable_size n) ≡ true)
find_suitable_size_least n s h le = elim (find_suitable_size_lem n) [
  | inl (e, large) ↦ absurd (omega (arith, supported_bounds s h))
  | inr (supported, fits, least) ↦ (fits, least s h le, supported)
]

pub smallest_is_supported : is_supported_size 4096 ≡ true
unfolding is_supported_size
smallest_is_supported = refl
