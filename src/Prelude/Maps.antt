-- ===== src/Prelude/Maps.antt =====
-- Equality as an interface, and the maps of the program (`std::unordered_map`) as association lists.
-- The order of the pairs stands for the order of iteration, which the library does not promise.
use Prim.Native.Nat.{ℕ, ◌+◌}
use mathlib.Core.Bool.{Bool, true, false}
use mathlib.Core.List.{List, [], ◌∷◌}
use mathlib.Core.Logic.{◌↔◌, inl, inr}
use mathlib.Core.Option.{Option, none, some}
use mathlib.Core.Path.{◌≡◌, refl, sym, ap, ◌∙◌}
use native.Mathlib.Omega.{arith}
use azh_lid.Prelude.Tests.{◌==◌, ==_iff, if◌then◌else◌, Bool-cases}
use azh_lid.Prelude.Int.{ℤ, pos, negsuc}
use azh_lid.Prelude.Lists.{length}

pub record Eq {ℓ} (A : Type ℓ) : Type ℓ where
  pub beq : A → A → Bool
  pub beq_iff : (a b : A) → (beq a b ≡ true) ↔ (a ≡ b)

instance abbrev pub nat_eq : Eq ℕ
nat_eq = record { beq = ◌==◌; beq_iff = ==_iff }

abbrev pub int_beq : ℤ → ℤ → Bool
int_beq (pos a) (pos b) = a == b
int_beq (pos a) (negsuc b) = false
int_beq (negsuc a) (pos b) = false
int_beq (negsuc a) (negsuc b) = a == b

pub int_beq_iff : (a b : ℤ) → (int_beq a b ≡ true) ↔ (a ≡ b)
int_beq_iff (pos a) (pos b) = (λ h. ground (arith, ==_iff a b), λ h. ground (arith, ==_iff a b))
int_beq_iff (pos a) (negsuc b) = (λ h. cc, λ h. cc)
int_beq_iff (negsuc a) (pos b) = (λ h. cc, λ h. cc)
int_beq_iff (negsuc a) (negsuc b) =
    (λ h. ground (arith, ==_iff a b), λ h. ground (arith, ==_iff a b))

instance abbrev pub int_eq : Eq ℤ
int_eq = record { beq = int_beq; beq_iff = int_beq_iff }

abbrev pub is_some {ℓ} : {A : Type ℓ} → Option A → Bool
is_some none = false
is_some (some a) = true

abbrev pub Map {ℓ} : Type ℓ → Type ℓ → Type ℓ
Map K V = List (K × V)

module _ {ℓ} {K : Type ℓ} ⦃e : Eq K⦄ where
  pub beq_refl : (k : K) → e.beq k k ≡ true
  beq_refl k = (e.beq_iff k k).1 refl

  -- Keys that are equal are tested alike.
  beq_same : (i j k : K) → e.beq i j ≡ true → e.beq i k ≡ e.beq j k
  beq_same i j k h = rw ((e.beq_iff i j).0 h) refl

  beq_symm : (i j : K) → e.beq i j ≡ true → e.beq j i ≡ true
  beq_symm i j h = (e.beq_iff j i).1 (sym ((e.beq_iff i j).0 h))

  beq_meet : (i k j : K) → e.beq i j ≡ true → e.beq k j ≡ true → e.beq i k ≡ true
  beq_meet i k j h l = (e.beq_iff i k).1 ((e.beq_iff i j).0 h ∙ sym ((e.beq_iff k j).0 l))

module _ {ℓ} {K V : Type ℓ} ⦃e : Eq K⦄ where
  unfoldable pub lookup : K → Map K V → Option V
  lookup k [] = none
  lookup k ((j, v) ∷ m) = if e.beq j k then some v else lookup k m

  -- `m[k] = v`
  unfoldable pub insert : K → V → Map K V → Map K V
  insert k v [] = (k, v) ∷ []
  insert k v ((j, w) ∷ m) = if e.beq j k then (j, v) ∷ m else (j, w) ∷ insert k v m

  -- `m.erase(k)`
  unfoldable pub erase : K → Map K V → Map K V
  erase k [] = []
  erase k ((j, v) ∷ m) = if e.beq j k then erase k m else (j, v) ∷ erase k m

  -- Each key stands once.
  abbrev pub IsMap : Map K V → Type ℓ
  IsMap [] = Unit
  IsMap ((k, v) ∷ m) = (lookup k m ≡ none) × IsMap m

  pub lookup-insert :
      (j k : K) (v : V) (m : Map K V)
      → lookup j (insert k v m) ≡ (if e.beq k j then some v else lookup j m)
  unfolding lookup insert
  lookup-insert j k v [] = refl
  lookup-insert j k v ((i, w) ∷ m) =
      ground (arith, lookup-insert j k v m, beq_same i k j, beq_same k i j, beq_meet i k j)

  pub lookup-erase :
      (j k : K) (m : Map K V) → lookup j (erase k m) ≡ (if e.beq k j then none else lookup j m)
  unfolding lookup erase
  lookup-erase j k [] = ground arith
  lookup-erase j k ((i, w) ∷ m) =
      ground (arith, lookup-erase j k m, beq_same i k j, beq_same k i j, beq_meet i k j)

  pub insert-IsMap : (k : K) (v : V) (m : Map K V) → IsMap m → IsMap (insert k v m)
  unfolding insert lookup
  insert-IsMap k v [] h = (refl, tt)
  insert-IsMap k v ((i, w) ∷ m) h =
      ground (arith, insert-IsMap k v m, lookup-insert i k v m, beq_symm k i, beq_symm i k)

  pub erase-IsMap : (k : K) (m : Map K V) → IsMap m → IsMap (erase k m)
  unfolding erase lookup
  erase-IsMap k [] h = tt
  erase-IsMap k ((i, w) ∷ m) h = ground (arith, erase-IsMap k m, lookup-erase i k m)

  erase_missing : (k : K) (m : Map K V) → lookup k m ≡ none → erase k m ≡ m
  unfolding erase lookup
  erase_missing k [] h = refl
  erase_missing k ((i, w) ∷ m) h = ground (arith, erase_missing k m)

  -- A new key adds one pair, and an old one none.
  pub length-insert :
      (k : K) (v : V) (m : Map K V)
      → length (insert k v m) ≡ (if is_some (lookup k m) then length m else length m + 1)
  unfolding insert lookup
  length-insert k v [] = omega arith
  length-insert k v ((i, w) ∷ m) = ground (arith, length-insert k v m)

  pub length-erase :
      (k : K) (m : Map K V)
      → IsMap m
      → length (erase k m) + (if is_some (lookup k m) then 1 else 0) ≡ length m
  unfolding erase lookup
  length-erase k [] h = omega arith
  length-erase k ((i, w) ∷ m) h = elim (Bool-cases (e.beq i k)) [
    | inl t ↦ rw t (omega (arith, ap length (erase_missing k m (rw (← (e.beq_iff i k).0 t) h.0))))
    | inr t ↦ rw t (omega (arith, length-erase k m h.1))
  ]
