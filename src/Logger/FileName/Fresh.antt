-- ===== src/Logger/FileName/Fresh.antt =====
-- The name of a new log file beside the names in the directory.
use azh_lid.Prelude.{
  ℕ, zero, suc, ◌+◌, ◌-◌, ◌*◌, ◌/◌, ◌%◌, ◌^◌, ◌≤◌, ◌<◌, ◌≡◌, ◌≢◌, inl, inr, refl, sym, ap, ◌∙◌,
  true, false, some, List, [], ◌∷◌, ◌++◌, arith, ltb, ◌==◌, Bool-cases, length, drop,
}
use mathlib.Core.List.{append_assoc}
use azh_lid.Logger.FileName.{
  dot_log, starts_with, contains, cut_before, is_digit, is_space, read_digits, skip_spaces,
  in_range, after_sign, signed_part, stoi, or_zero, without_underscore, number_of, index_of,
  max_index, digits, to_string, name_with, new_index, new_name,
}

-- All characters are digits.
abbrev AllDigits : List ℕ → Type 0
AllDigits [] = Unit
AllDigits (c ∷ s) = (48 ≤ c) × (c ≤ 57) × AllDigits s

AllDigits-append : (xs ys : List ℕ) → AllDigits xs → AllDigits ys → AllDigits (xs ++ ys)
AllDigits-append [] ys h k = k
AllDigits-append (x ∷ xs) ys (low, high, h) k = (low, high, AllDigits-append xs ys h k)

starts_with-append : (p s : List ℕ) → starts_with p (p ++ s) ≡ true
unfolding starts_with
starts_with-append [] s = refl
starts_with-append (c ∷ p) s = ground (arith, starts_with-append p s)

contains-append : (s : List ℕ) → contains dot_log (s ++ dot_log) ≡ true
unfolding contains starts_with
contains-append [] = refl
contains-append (c ∷ s) = ground (arith, contains-append s)

drop-append : (p s : List ℕ) → drop (length p) (p ++ s) ≡ s
drop-append [] s = refl
drop-append (c ∷ p) s = drop-append p s

-- The extension is found behind characters that are no dots.
cut_before-digits : (s : List ℕ) → AllDigits s → cut_before dot_log (s ++ dot_log) ≡ s
unfolding cut_before starts_with
cut_before-digits [] h = refl
cut_before-digits (c ∷ s) (low, high, h) =
    rw (no_dot c low) (ap (λ (l : List ℕ). c ∷ l) (cut_before-digits s h))
  where
    no_dot : (c : ℕ) → 48 ≤ c → (46 == c) ≡ false
    no_dot c h = ground arith

digit_test : (c : ℕ) → 48 ≤ c → c ≤ 57 → is_digit c ≡ true
digit_test c low high = ground arith

read_digits-append :
    (n : ℕ) (s : List ℕ) (c : ℕ)
    → AllDigits s
    → read_digits n (s ++ c ∷ []) ≡ read_digits (read_digits n s) (c ∷ [])
unfolding read_digits
read_digits-append n [] c h = refl
read_digits-append n (d ∷ s) c (low, high, h) =
    rw (digit_test d low high) (read_digits-append (n * 10 + (d - 48)) s c h)

read_last : (m n : ℕ) → read_digits m ((48 + n % 10) ∷ []) ≡ m * 10 + n % 10
unfolding read_digits
read_last m n = rw (digit_test (48 + n % 10) (omega arith) (omega arith)) (omega arith)

-- What to_string writes is read back.
digits-read_digits :
    (fuel n : ℕ) → n < fuel → AllDigits (digits fuel n) × (read_digits 0 (digits fuel n) ≡ n)
unfolding digits
digits-read_digits zero n h = absurd (omega arith)
digits-read_digits (suc fuel) n h = elim (Bool-cases (ltb n 10)) [
  | inl small ↦ rw small ((omega arith, omega arith, tt), last 0 ∙ ground arith)
  | inr large ↦ rw large (
      let (all, same) = digits-read_digits fuel (n / 10) (ground arith) in
      (
        AllDigits-append (digits fuel (n / 10)) _ all (omega arith, omega arith, tt),
        read_digits-append 0 (digits fuel (n / 10)) (48 + n % 10) all
            ∙ last (read_digits 0 (digits fuel (n / 10)))
            ∙ omega (arith, same),
      ))
]
  where
    last : (m : ℕ) → read_digits m ((48 + n % 10) ∷ []) ≡ m * 10 + n % 10
    last m = read_last m n

-- A list of digits, at least one, is read by stoi.
stoi-digits :
    (c : ℕ) (s : List ℕ)
    → AllDigits (c ∷ s)
    → read_digits 0 (c ∷ s) < 2 ^ 31
    → stoi (c ∷ s) ≡ some (read_digits 0 (c ∷ s))
unfolding stoi skip_spaces signed_part after_sign in_range
stoi-digits c s (low, high, h) small = rw (no_space c low high) (
    rw (no_minus c low) (
      rw (no_plus c low)
        (rw (digit_test c low high) (rw (fits (read_digits 0 (c ∷ s)) small) refl))))
  where
    no_minus : (c : ℕ) → 48 ≤ c → (c == 45) ≡ false
    no_minus c low = ground arith

    no_plus : (c : ℕ) → 48 ≤ c → (c == 43) ≡ false
    no_plus c low = ground arith

    fits : (n : ℕ) → n < 2 ^ 31 → ltb n (2 ^ 31) ≡ true
    fits n h = ground arith

    no_space : (c : ℕ) → 48 ≤ c → c ≤ 57 → is_space c ≡ false
    no_space c low high = ground arith

number_of-digits :
    (s : List ℕ)
    → AllDigits s
    → 0 < read_digits 0 s
    → read_digits 0 s < 2 ^ 31
    → number_of s ≡ read_digits 0 s
unfolding number_of read_digits
number_of-digits [] h some_value small = absurd (omega arith)
number_of-digits (c ∷ s) h some_value small = ap or_zero (stoi-digits c s h small)

-- A name that is made of the pattern, some characters and the extension.
index_of-append :
    (pattern s : List ℕ)
    → index_of pattern (pattern ++ (s ++ dot_log))
      ≡ number_of (without_underscore (cut_before dot_log (s ++ dot_log)))
unfolding index_of
index_of-append pattern s =
    rw (starts_with-append pattern (s ++ dot_log))
      (rw (drop-append pattern (s ++ dot_log)) (rw (has_extension) refl))
  where
    has_extension : contains dot_log (pattern ++ (s ++ dot_log)) ≡ true
    has_extension =
        ap (contains dot_log) (sym (append_assoc pattern s dot_log))
        ∙ contains-append (pattern ++ s)

-- The index of a new name is read back.
index_of-name_with :
    (pattern : List ℕ) (n : ℕ) → 0 < n → n < 2 ^ 31 → index_of pattern (name_with pattern n) ≡ n
unfolding name_with to_string cut_before starts_with without_underscore number_of
index_of-name_with pattern n positive small = elim (Bool-cases (n == 1)) [
  | inl one ↦ rw one (index_of-append pattern [] ∙ omega (arith, equal n one))
  | inr more ↦ rw more (
      index_of-append pattern (95 ∷ digits (suc n) n)
      ∙ ap (λ (l : List ℕ). number_of l) (cut_before-digits (digits (suc n) n) all)
      ∙ number_of-digits (digits (suc n) n) all (omega (arith, same)) (omega (arith, same))
      ∙ same)
]
  where
    equal : (n : ℕ) → (n == 1) ≡ true → n ≡ 1
    equal n e = ground (arith, e)

    all : AllDigits (digits (suc n) n)
    all = (digits-read_digits (suc n) n (omega arith)).0

    same : read_digits 0 (digits (suc n) n) ≡ n
    same = (digits-read_digits (suc n) n (omega arith)).1

-- A name that a list does not hold.
abbrev pub Absent : List ℕ → List (List ℕ) → Type 0
Absent name [] = Unit
Absent name (other ∷ names) = (other ≢ name) × Absent name names

larger-Absent :
    (pattern name : List ℕ) (names : List (List ℕ))
    → max_index pattern names < index_of pattern name
    → Absent name names
unfolding max_index
larger-Absent pattern name [] h = tt
larger-Absent pattern name (other ∷ names) h = (
  (λ e. absurd (omega (arith, ap (index_of pattern) e))),
  larger-Absent pattern name names (omega arith),
)

new_index_lem : (largest : ℕ) → new_index largest ≡ largest + 1
unfolding new_index
new_index_lem largest = ground arith

-- Where the largest index of the names in the directory leaves room for one more in an int, the new
-- name's index reads back as one above it, and the directory has no such name.
pub new_name_lem :
    (pattern : List ℕ) (names : List (List ℕ))
    → max_index pattern names + 1 < 2 ^ 31
    → (index_of pattern (new_name pattern names) ≡ max_index pattern names + 1)
      × Absent (new_name pattern names) names
unfolding new_name
new_name_lem pattern names small =
    let same = new_index_lem (max_index pattern names) in
    let back =
      index_of-name_with pattern (new_index (max_index pattern names)) (omega (arith, same))
        (omega (arith, same))
      ∙ same in
    (back, larger-Absent pattern (new_name pattern names) names (omega (arith, back)))
