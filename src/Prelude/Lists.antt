-- ===== src/Prelude/Lists.antt =====
-- Arrays and byte ranges of the program as lists that are measured and indexed by native numbers.
use Prim.Native.Nat.{ℕ, zero, suc, ◌+◌, ◌-◌, ◌≤◌, ◌<◌, min}
use mathlib.Core.Path.{◌≡◌, refl, ap, sym, ◌∙◌}
use mathlib.Core.Logic.{◌≢◌}
use mathlib.Core.List.{List, [], ◌∷◌, ◌++◌}
use native.Mathlib.Omega.{arith}

module _ {ℓ} {A : Type ℓ} where
  abbrev pub length : List A → ℕ
  length [] = 0
  length (x ∷ xs) = suc (length xs)

  abbrev pub get_or : List A → ℕ → A → A
  get_or [] i d = d
  get_or (x ∷ xs) zero d = x
  get_or (x ∷ xs) (suc i) d = get_or xs i d

  -- A write out of bounds changes nothing.
  abbrev pub set : List A → ℕ → A → List A
  set [] i v = []
  set (x ∷ xs) zero v = v ∷ xs
  set (x ∷ xs) (suc i) v = x ∷ set xs i v

  abbrev pub take : ℕ → List A → List A
  take zero xs = []
  take (suc n) [] = []
  take (suc n) (x ∷ xs) = x ∷ take n xs

  abbrev pub drop : ℕ → List A → List A
  drop zero xs = xs
  drop (suc n) [] = []
  drop (suc n) (x ∷ xs) = drop n xs

  abbrev pub replicate : ℕ → A → List A
  replicate zero a = []
  replicate (suc n) a = a ∷ replicate n a

  -- memcpy and memmove of `src` to index `i`. What would land past the end is dropped; the bounds
  -- theorems show that nothing does.
  abbrev pub overwrite : List A → ℕ → List A → List A
  overwrite [] i src = []
  overwrite (x ∷ xs) zero [] = x ∷ xs
  overwrite (x ∷ xs) zero (y ∷ src) = y ∷ overwrite xs zero src
  overwrite (x ∷ xs) (suc i) src = x ∷ overwrite xs i src

module _ {ℓ} {A : Type ℓ} where
  pub length-append : (xs ys : List A) → length (xs ++ ys) ≡ length xs + length ys
  length-append [] ys = omega arith
  length-append (x ∷ xs) ys = omega (arith, length-append xs ys)

  pub length-set : (xs : List A) (i : ℕ) (v : A) → length (set xs i v) ≡ length xs
  length-set [] i v = refl
  length-set (x ∷ xs) zero v = refl
  length-set (x ∷ xs) (suc i) v = ap suc (length-set xs i v)

  pub length-take : (n : ℕ) (xs : List A) → length (take n xs) ≡ min n (length xs)
  length-take zero xs = omega arith
  length-take (suc n) [] = omega arith
  length-take (suc n) (x ∷ xs) = omega (arith, length-take n xs)

  pub length-drop : (n : ℕ) (xs : List A) → length (drop n xs) ≡ length xs - n
  length-drop zero xs = omega arith
  length-drop (suc n) [] = omega arith
  length-drop (suc n) (x ∷ xs) = omega (arith, length-drop n xs)

  pub length-replicate : (n : ℕ) (a : A) → length (replicate n a) ≡ n
  length-replicate zero a = refl
  length-replicate (suc n) a = ap suc (length-replicate n a)

  pub length-overwrite :
      (xs : List A) (i : ℕ) (src : List A) → length (overwrite xs i src) ≡ length xs
  length-overwrite [] i src = refl
  length-overwrite (x ∷ xs) zero [] = refl
  length-overwrite (x ∷ xs) zero (y ∷ src) = ap suc (length-overwrite xs zero src)
  length-overwrite (x ∷ xs) (suc i) src = ap suc (length-overwrite xs i src)

  pub get_or-set_self :
      (xs : List A) (i : ℕ) (v d : A) → i < length xs → get_or (set xs i v) i d ≡ v
  get_or-set_self [] i v d h = absurd (omega arith)
  get_or-set_self (x ∷ xs) zero v d h = refl
  get_or-set_self (x ∷ xs) (suc i) v d h = get_or-set_self xs i v d (omega arith)

  pub get_or-set_ne :
      (xs : List A) {i j : ℕ} (v d : A) → i ≢ j → get_or (set xs i v) j d ≡ get_or xs j d
  get_or-set_ne [] v d h = refl
  get_or-set_ne (x ∷ xs) {i = zero} {j = zero} v d h = absurd (h refl)
  get_or-set_ne (x ∷ xs) {i = zero} {j = suc j} v d h = refl
  get_or-set_ne (x ∷ xs) {i = suc i} {j = zero} v d h = refl
  get_or-set_ne (x ∷ xs) {i = suc i} {j = suc j} v d h = get_or-set_ne xs v d (λ e. h (ap suc e))

module _ {ℓ} {A : Type ℓ} where
  -- A copy to the front is read back.
  pub take-overwrite_zero :
      (xs src : List A) → length src ≤ length xs → take (length src) (overwrite xs 0 src) ≡ src
  take-overwrite_zero [] [] h = refl
  take-overwrite_zero [] (y ∷ src) h = absurd (omega arith)
  take-overwrite_zero (x ∷ xs) [] h = refl
  take-overwrite_zero (x ∷ xs) (y ∷ src) h =
      ap (λ (zs : List A). y ∷ zs) (take-overwrite_zero xs src (omega arith))

  -- A copy to the end of a prefix extends the prefix.
  pub take-overwrite :
      (xs : List A) (n : ℕ) (src : List A)
      → n + length src ≤ length xs
      → take (n + length src) (overwrite xs n src) ≡ take n xs ++ src
  take-overwrite [] zero [] h = refl
  take-overwrite [] zero (y ∷ src) h = absurd (omega arith)
  take-overwrite [] (suc n) src h = absurd (omega arith)
  take-overwrite (x ∷ xs) zero src h =
      ap (λ k. take k (overwrite (x ∷ xs) 0 src)) {y = length src} (omega arith)
      ∙ take-overwrite_zero (x ∷ xs) src (omega arith)
  take-overwrite (x ∷ xs) (suc n) src h =
      ap (λ k. take k (overwrite (x ∷ xs) (suc n) src)) {y = suc (n + length src)} (omega arith)
      ∙ ap (λ (zs : List A). x ∷ zs) (take-overwrite xs n src (omega arith))

  pub drop-nil : (n : ℕ) → drop {A = A} n [] ≡ []
  drop-nil zero = refl
  drop-nil (suc n) = refl

  pub drop-drop : (m n : ℕ) (xs : List A) → drop m (drop n xs) ≡ drop (n + m) xs
  drop-drop m zero xs = ap (λ k. drop k xs) {x = m} (omega arith)
  drop-drop m (suc n) [] = drop-nil m ∙ sym (drop-nil (suc n + m))
  drop-drop m (suc n) (x ∷ xs) =
      drop-drop m n xs ∙ ap (λ k. drop k (x ∷ xs)) {x = suc (n + m)} (omega arith)

  take-nil : (n : ℕ) → take {A = A} n [] ≡ []
  take-nil zero = refl
  take-nil (suc n) = refl

  pub drop-take : (m n : ℕ) (xs : List A) → drop m (take n xs) ≡ take (n - m) (drop m xs)
  drop-take zero n xs = ap (λ k. take k xs) {x = n} (omega arith)
  drop-take (suc m) n [] = rw (take-nil n) (sym (take-nil (n - suc m)))
  drop-take (suc m) zero (x ∷ xs) = ap (λ k. take k (drop m xs)) {x = 0} (omega arith)
  drop-take (suc m) (suc n) (x ∷ xs) =
      drop-take m n xs ∙ ap (λ k. take k (drop m xs)) {x = n - m} (omega arith)
