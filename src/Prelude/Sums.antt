-- ===== src/Prelude/Sums.antt =====
-- Sums over a list, occurrences in a list, and what a write at one index does to them.
use Prim.Native.Nat.{ℕ, zero, suc, ◌+◌, ◌≤◌, ◌<◌}
use mathlib.Core.Path.{◌≡◌, refl, ap}
use mathlib.Core.Bool.{◌&&◌}
use mathlib.Core.List.{List, [], ◌∷◌, ◌++◌, map}
use mathlib.Core.Option.{some}
use native.Mathlib.Omega.{arith}
use operating_system_lab_pro.Prelude.Tests.{if◌then◌else◌, ◌==◌, ltb}
use operating_system_lab_pro.Prelude.Lists.{length, get_elem?, set}

module _ {ℓ} {A : Type ℓ} where
  unfoldable pub sum_by : (A → ℕ) → List A → ℕ
  sum_by w [] = 0
  sum_by w (x ∷ xs) = w x + sum_by w xs

  pub sum_by-append : (w : A → ℕ) (xs ys : List A) → sum_by w (xs ++ ys) ≡ sum_by w xs + sum_by w ys
  unfolding sum_by
  sum_by-append w [] ys = omega arith
  sum_by-append w (x ∷ xs) ys = omega (arith, sum_by-append w xs ys)

  pub sum_by-set :
      (w : A → ℕ) (xs : List A) (i : ℕ) (a v : A)
      → get_elem? xs i ≡ some a
      → sum_by w (set xs i v) + w a ≡ sum_by w xs + w v
  unfolding sum_by
  sum_by-set w [] i a v e = absurd (cc)
  sum_by-set w (x ∷ xs) zero a v e = ground arith
  sum_by-set w (x ∷ xs) (suc i) a v e = omega (arith, sum_by-set w xs i a v e)

  pub le-sum_by :
      (w : A → ℕ) (xs : List A) (i : ℕ) (a : A) → get_elem? xs i ≡ some a → w a ≤ sum_by w xs
  unfolding sum_by
  le-sum_by w [] i a e = absurd (cc)
  le-sum_by w (x ∷ xs) zero a e = ground arith
  le-sum_by w (x ∷ xs) (suc i) a e = omega (arith, le-sum_by w xs i a e)

  pub get_elem?-set :
      (xs : List A) (i j : ℕ) (v : A)
      → get_elem? (set xs i v) j ≡ (if i == j && ltb i (length xs) then some v else get_elem? xs j)
  get_elem?-set [] i j v = ground arith
  get_elem?-set (x ∷ xs) zero zero v = ground arith
  get_elem?-set (x ∷ xs) zero (suc j) v = ground arith
  get_elem?-set (x ∷ xs) (suc i) zero v = ground arith
  get_elem?-set (x ∷ xs) (suc i) (suc j) v = ground (arith, get_elem?-set xs i j v)

  pub lt_of_get_elem? : (xs : List A) (i : ℕ) (a : A) → get_elem? xs i ≡ some a → i < length xs
  lt_of_get_elem? [] i a e = absurd (cc)
  lt_of_get_elem? (x ∷ xs) zero a e = omega arith
  lt_of_get_elem? (x ∷ xs) (suc i) a e = omega (arith, lt_of_get_elem? xs i a e)

  pub get_elem?_of_lt : (xs : List A) (i : ℕ) → i < length xs → (a : A) × (get_elem? xs i ≡ some a)
  get_elem?_of_lt [] i h = absurd (omega arith)
  get_elem?_of_lt (x ∷ xs) zero h = (x, refl)
  get_elem?_of_lt (x ∷ xs) (suc i) h = get_elem?_of_lt xs i (omega arith)

module _ {ℓ} {A : Type ℓ} where
  pub set_same : (xs : List A) (i : ℕ) (v : A) → get_elem? xs i ≡ some v → set xs i v ≡ xs
  set_same [] i v e = refl
  set_same (x ∷ xs) zero v e = ground arith
  set_same (x ∷ xs) (suc i) v e = ap (λ r. x ∷ r) (set_same xs i v e)

  pub get_elem?-map {κ} :
      {B : Type κ} (f : A → B) (xs : List A) (i : ℕ) (a : A)
      → get_elem? xs i ≡ some a
      → get_elem? (map f xs) i ≡ some (f a)
  get_elem?-map f [] i a e = absurd (cc)
  get_elem?-map f (x ∷ xs) zero a e = cc
  get_elem?-map f (x ∷ xs) (suc i) a e = get_elem?-map f xs i a e

unfoldable pub occurrences : ℕ → List ℕ → ℕ
occurrences k [] = 0
occurrences k (x ∷ xs) = (if x == k then 1 else 0) + occurrences k xs

pub occurrences-snoc :
    (k : ℕ) (xs : List ℕ) (x : ℕ)
    → occurrences k (xs ++ (x ∷ [])) ≡ occurrences k xs + (if x == k then 1 else 0)
unfolding occurrences
occurrences-snoc k [] x = omega arith
occurrences-snoc k (y ∷ xs) x = omega (arith, occurrences-snoc k xs x)

pub occurrences-le : (k : ℕ) (xs : List ℕ) → occurrences k xs ≤ length xs
unfolding occurrences
occurrences-le k [] = omega arith
occurrences-le k (x ∷ xs) = ground (arith, occurrences-le k xs)
