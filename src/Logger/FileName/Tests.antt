-- ===== src/Logger/FileName/Tests.antt =====
-- Runs of the choice of a log file's name in logger/logger.cpp.
use azh_lid.Prelude.{ℕ, ◌+◌, ◌≡◌, refl, none, List, [], ◌∷◌, ◌++◌, arith}
use azh_lid.Logger.FileName.{
  starts_with, contains, cut_before, read_digits, stoi, index_of, max_index, to_string, name_with,
  new_index, new_name,
}
use azh_lid.Logger.FileName.Fresh.{Absent, new_name_lem}

abbrev pattern : List ℕ
pattern = 97 ∷ 95 ∷ 49 ∷ []

-- The first file, the twelfth, one with no number and one that is no log.
abbrev names : List (List ℕ)
names =
    (pattern ++ 46 ∷ 108 ∷ 111 ∷ 103 ∷ [])
    ∷ (pattern ++ 95 ∷ 49 ∷ 50 ∷ 46 ∷ 108 ∷ 111 ∷ 103 ∷ [])
    ∷ (pattern ++ 95 ∷ 120 ∷ 46 ∷ 108 ∷ 111 ∷ 103 ∷ [])
    ∷ (98 ∷ [])
    ∷ []

largest : max_index pattern names ≡ 12
unfolding max_index index_of starts_with contains cut_before stoi read_digits
largest = refl

next : new_name pattern names ≡ pattern ++ 95 ∷ 49 ∷ 51 ∷ 46 ∷ 108 ∷ 111 ∷ 103 ∷ []
unfolding new_name new_index name_with to_string max_index index_of starts_with contains cut_before
    stoi read_digits
next = refl

not_number : stoi (120 ∷ []) ≡ none
unfolding stoi
not_number = refl

out_of_range : stoi (50 ∷ 49 ∷ 52 ∷ 55 ∷ 52 ∷ 56 ∷ 51 ∷ 54 ∷ 52 ∷ 56 ∷ []) ≡ none
unfolding stoi read_digits
out_of_range = refl

new_name_lem_example :
    (index_of pattern (new_name pattern names) ≡ max_index pattern names + 1)
    × Absent (new_name pattern names) names
new_name_lem_example = new_name_lem pattern names (omega (arith, largest))
