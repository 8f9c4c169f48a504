-- ===== src/Prelude/Words.antt =====
-- The `size_t` and `uint64_t` of the program: numbers below 2^64 with their wrap-around.
use Prim.Native.Nat.{ℕ, ◌+◌, ◌%◌, ◌^◌}

-- The number of values of a `size_t`.
abbrev pub size_mod : ℕ
size_mod = 2 ^ 64

-- `size_t` addition
abbrev pub add_size : ℕ → ℕ → ℕ
add_size a b = (a + b) % size_mod
