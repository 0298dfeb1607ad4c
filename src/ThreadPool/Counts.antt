-- ===== src/ThreadPool/Counts.antt =====
-- How often a task occurs, and sums over the workers.
use native.Mathlib.Decide.{ℕ_discrete}
use mathlib.Core.Option.{some-injective}
use multithreaded_c_server.Common.{
  ℕ, zero, suc, ◌+◌, ◌≡◌, ◌≢◌, ◌≤◌, ◌<◌, ◌⊎◌, inl, inr, length, get_elem?-set_self,
  get_elem?-set_ne, refl, sym, ap, ◌∙◌, some, List, [], ◌∷◌, ◌++◌, arith, get_elem?, set, replicate,
  Ptr, ◌==◌, if◌then◌else◌,
}

abbrev pub count : Ptr → List Ptr → ℕ
count t [] = 0
count t (x ∷ xs) = (if t == x then 1 else 0) + count t xs

pub count-append : (t : Ptr) (xs ys : List Ptr) → count t (xs ++ ys) ≡ count t xs + count t ys
count-append t [] ys = omega arith
count-append t (x ∷ xs) ys = omega (arith, count-append t xs ys)

module _ {ℓ} {A : Type ℓ} (w : A → ℕ) where
  abbrev pub sum_of : List A → ℕ
  sum_of [] = 0
  sum_of (x ∷ xs) = w x + sum_of xs

  pub sum_of-set :
      (xs : List A) (i : ℕ) {x : A} (y : A)
      → get_elem? xs i ≡ some x
      → sum_of (set xs i y) + w x ≡ sum_of xs + w y
  sum_of-set [] i y e = absurd (ground arith)
  sum_of-set (x' ∷ xs) zero {x} y e = ground (arith)
  sum_of-set (x' ∷ xs) (suc i) y e = omega (arith, sum_of-set xs i y e)

  pub sum_of-replicate : (n : ℕ) (x : A) → w x ≡ 0 → sum_of (replicate n x) ≡ 0
  sum_of-replicate zero x e = refl
  sum_of-replicate (suc n) x e = omega (arith, sum_of-replicate n x e)

  pub sum_of-le : ((x : A) → w x ≤ 1) → (xs : List A) → sum_of xs ≤ length xs
  sum_of-le small [] = omega arith
  sum_of-le small (x ∷ xs) = omega (arith, small x, sum_of-le small xs)

  pub sum_of-get : (xs : List A) (i : ℕ) {x : A} → get_elem? xs i ≡ some x → w x ≤ sum_of xs
  sum_of-get [] i e = absurd (ground arith)
  sum_of-get (x' ∷ xs) zero e = ground arith
  sum_of-get (x' ∷ xs) (suc i) e = omega (arith, sum_of-get xs i e)

pub get_elem?-lt {ℓ} :
    {A : Type ℓ} (xs : List A) (i : ℕ) {x : A} → get_elem? xs i ≡ some x → i < length xs
get_elem?-lt [] i e = absurd (ground arith)
get_elem?-lt (x' ∷ xs) zero e = omega arith
get_elem?-lt (x' ∷ xs) (suc i) e = omega (arith, get_elem?-lt xs i e)

-- Which worker is where, after a step of one of them.
pub get_elem?-set_cases {ℓ} :
    {A : Type ℓ} (xs : List A) (i j : ℕ) {x y z : A}
    → get_elem? xs i ≡ some x
    → get_elem? (set xs i y) j ≡ some z
    → ((i ≡ j) × (z ≡ y)) ⊎ ((i ≢ j) × (get_elem? xs j ≡ some z))
get_elem?-set_cases xs i j {y} at after = elim (ℕ_discrete i j) [
  | yes same ↦ inl (
    same,
    sym (
        some-injective _ _ (
          sym (get_elem?-set_self xs i y (get_elem?-lt xs i at))
          ∙ ap (get_elem? (set xs i y)) same
          ∙ after)),
  )
  | no other ↦ inr (other, sym (get_elem?-set_ne xs y other) ∙ after)
]
