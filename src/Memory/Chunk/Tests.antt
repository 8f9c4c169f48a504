-- ===== src/Memory/Chunk/Tests.antt =====
-- A chunk of memory/chunk.cpp on concrete bytes.
use azh_lid.Prelude.{◌≡◌, refl, true, [], ◌∷◌, some, arith}
use azh_lid.Memory.Chunk.{Chunk, contents, copy, adjust, pop}
use azh_lid.Memory.Chunk.Contents.{IsValid, Copied, copy_lem}

-- 7 and 8 are live, from index 1 on.
abbrev shifted : Chunk
shifted = record { address = 1; capacity = 4; length = 2; head = 1; bytes = 9 ∷ 7 ∷ 8 ∷ 9 ∷ [] }

abbrev tiny : Chunk
tiny = record { address = 2; capacity = 1; length = 1; head = 0; bytes = 5 ∷ [] }

shifted-IsValid : IsValid shifted
shifted-IsValid = omega arith

tiny-IsValid : IsValid tiny
tiny-IsValid = omega arith

adjust_and_pop : (contents (adjust shifted) ≡ 7 ∷ 8 ∷ []) × (contents (pop 1 shifted) ≡ 8 ∷ [])
unfolding adjust pop
adjust_and_pop = (refl, refl)

copy_example : Copied true shifted tiny (copy true (some shifted) tiny)
copy_example = copy_lem true shifted shifted-IsValid tiny-IsValid
