-- ===== src/Logger/FileName.antt =====
-- logger/logger.cpp: the name that create_new_log_file gives a new file, from the names in the directory.
-- A name is its characters' codes. The pattern is the base name with the date; the names are what the
-- directory holds. A negative index counts as 0, as neither raises the largest index.
pub mod Fresh
pub mod Tests
use azh_lid.Prelude.{
  ℕ, zero, suc, ◌+◌, ◌-◌, ◌*◌, ◌/◌, ◌%◌, ◌^◌, Bool, true, false, Option, none, some, List, [], ◌∷◌,
  ◌++◌, max, ltb, leb, ◌==◌, ◌&&◌, ◌||◌, if◌then◌else◌, length, drop,
}

abbrev pub dot_log : List ℕ
dot_log = 46 ∷ 108 ∷ 111 ∷ 103 ∷ []

pub starts_with : List ℕ → List ℕ → Bool
starts_with [] s = true
starts_with (p ∷ ps) [] = false
starts_with (p ∷ ps) (c ∷ s) = (p == c) && starts_with ps s

pub contains : List ℕ → List ℕ → Bool
contains p [] = starts_with p []
contains p (c ∷ s) = starts_with p (c ∷ s) || contains p s

-- What stands before the first `p`.
pub cut_before : List ℕ → List ℕ → List ℕ
cut_before p [] = []
cut_before p (c ∷ s) = if starts_with p (c ∷ s) then [] else c ∷ cut_before p s

abbrev is_digit : ℕ → Bool
is_digit c = leb 48 c && leb c 57

abbrev is_space : ℕ → Bool
is_space c = (c == 32) || (leb 9 c && leb c 13)

pub read_digits : ℕ → List ℕ → ℕ
read_digits n [] = n
read_digits n (c ∷ s) = if is_digit c then read_digits (n * 10 + (c - 48)) s else n

skip_spaces : List ℕ → List ℕ
skip_spaces [] = []
skip_spaces (c ∷ s) = if is_space c then skip_spaces s else c ∷ s

in_range : Bool → ℕ → Option ℕ
in_range negative n =
    if negative
    then (if leb n (2 ^ 31) then some 0 else none)
    else (if ltb n (2 ^ 31) then some n else none)

after_sign : Bool → List ℕ → Option ℕ
after_sign negative [] = none
after_sign negative (c ∷ s) = if is_digit c then in_range negative (read_digits 0 (c ∷ s)) else none

signed_part : List ℕ → Option ℕ
signed_part [] = none
signed_part (c ∷ s) =
    if c == 45
    then after_sign true s
    else if c == 43
    then after_sign false s
    else after_sign false (c ∷ s)

-- `std::stoi`; `none` is its exception.
pub stoi : List ℕ → Option ℕ
unfolding skip_spaces in_range after_sign signed_part
stoi s = signed_part (skip_spaces s)

abbrev pub or_zero : Option ℕ → ℕ
or_zero none = 0
or_zero (some n) = n

without_underscore : List ℕ → List ℕ
without_underscore [] = []
without_underscore (c ∷ s) = if c == 95 then s else c ∷ s

-- The index of what stands between the pattern and the extension.
number_of : List ℕ → ℕ
number_of [] = 1
number_of (c ∷ s) = or_zero (stoi (c ∷ s))

-- The index of a file; 0 for one that does not count.
pub index_of : List ℕ → List ℕ → ℕ
unfolding without_underscore number_of
index_of pattern name =
    if starts_with pattern name && contains dot_log name
    then number_of (without_underscore (cut_before dot_log (drop (length pattern) name)))
    else 0

pub max_index : List ℕ → List (List ℕ) → ℕ
max_index pattern [] = 0
max_index pattern (name ∷ names) = max (index_of pattern name) (max_index pattern names)

digits : ℕ → ℕ → List ℕ
digits zero n = []
digits (suc fuel) n =
    let rest = digits fuel (n / 10) in (if ltb n 10 then [] else rest) ++ (48 + n % 10) ∷ []

-- `std::to_string` of a number that is not negative; it has no more digits than its successor says.
pub to_string : ℕ → List ℕ
unfolding digits
to_string n = digits (suc n) n

pub name_with : List ℕ → ℕ → List ℕ
name_with pattern n =
    if n == 1 then pattern ++ dot_log else pattern ++ ((95 ∷ to_string n) ++ dot_log)

pub new_index : ℕ → ℕ
new_index largest = if largest == 0 then 1 else largest + 1

pub new_name : List ℕ → List (List ℕ) → List ℕ
new_name pattern names = name_with pattern (new_index (max_index pattern names))
