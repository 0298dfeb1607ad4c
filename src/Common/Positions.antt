-- ===== src/Common/Positions.antt =====
-- Reads and writes at a position that a split of the list names.
use mathlib.Core.List.{append_assoc}
use multithreaded_c_server.Common.Lists.{length, get_or, set, length-append}
use Prim.Native.Nat.{ℕ, zero, suc, ◌+◌, ◌≤◌, ◌<◌}
use mathlib.Core.Path.{◌≡◌, refl, ap, ap₂, sym, ◌∙◌}
use mathlib.Core.Logic.{◌≢◌}
use mathlib.Core.List.{List, [], ◌∷◌, ◌++◌}
use mathlib.Core.Option.{none, some}
use native.Mathlib.Omega.{arith}
use multithreaded_c_server.Common.Memory.{load, store}

module _ {ℓ} {A : Type ℓ} where
  -- A load inside the block succeeds.
  pub load-get_or : (xs : List A) (i : ℕ) (d : A) → i < length xs → load xs i ≡ some (get_or xs i d)
  load-get_or [] i d h = elim h [ ]
  load-get_or (x ∷ xs) zero d h = refl
  load-get_or (x ∷ xs) (suc i) d h = load-get_or xs i d (omega arith)

  pub load_outside : (xs : List A) (i : ℕ) → length xs ≤ i → load xs i ≡ none
  load_outside [] i h = refl
  load_outside (x ∷ xs) zero h = elim h [ ]
  load_outside (x ∷ xs) (suc i) h = load_outside xs i (omega arith)

  pub store_inside :
      (xs : List A) (i : ℕ) (v : A) → i < length xs → store xs i v ≡ some (set xs i v)
  store_inside xs i v h = ground arith

  pub store_outside : (xs : List A) (i : ℕ) (v : A) → length xs ≤ i → store xs i v ≡ none
  store_outside xs i v h = ground arith

  pub get_or-set_self :
      (xs : List A) (i : ℕ) (v d : A) → i < length xs → get_or (set xs i v) i d ≡ v
  get_or-set_self [] i v d h = elim h [ ]
  get_or-set_self (x ∷ xs) zero v d h = refl
  get_or-set_self (x ∷ xs) (suc i) v d h = get_or-set_self xs i v d (omega arith)

  pub get_or-set_ne :
      (xs : List A) (i j : ℕ) (v d : A) → i ≢ j → get_or (set xs i v) j d ≡ get_or xs j d
  get_or-set_ne [] i j v d h = refl
  get_or-set_ne (x ∷ xs) zero zero v d h = absurd (h refl)
  get_or-set_ne (x ∷ xs) zero (suc j) v d h = refl
  get_or-set_ne (x ∷ xs) (suc i) zero v d h = refl
  get_or-set_ne (x ∷ xs) (suc i) (suc j) v d h = get_or-set_ne xs i j v d (λ e. h (ap suc e))

  -- The element behind a prefix.
  pub load-append : (xs : List A) (y : A) (ys : List A) → load (xs ++ y ∷ ys) (length xs) ≡ some y
  load-append [] y ys = refl
  load-append (x ∷ xs) y ys = load-append xs y ys

  pub get_or-append :
      (xs : List A) (y : A) (ys : List A) (d : A) → get_or (xs ++ y ∷ ys) (length xs) d ≡ y
  get_or-append [] y ys d = refl
  get_or-append (x ∷ xs) y ys d = get_or-append xs y ys d

  pub set-append :
      (xs : List A) (y : A) (ys : List A) (v : A) → set (xs ++ y ∷ ys) (length xs) v ≡ xs ++ v ∷ ys
  set-append [] y ys v = refl
  set-append (x ∷ xs) y ys v = ap (◌∷◌ x) (set-append xs y ys v)

  pub store-append :
      (xs : List A) (y : A) (ys : List A) (v : A)
      → store (xs ++ y ∷ ys) (length xs) v ≡ some (xs ++ v ∷ ys)
  store-append xs y ys v = ground (
    arith,
    length-append xs (y ∷ ys),
    set-append xs y ys v,
    store_inside (xs ++ y ∷ ys) (length xs) v,
  )

  pub length-snoc : (xs : List A) (y : A) → length (xs ++ y ∷ []) ≡ suc (length xs)
  length-snoc xs y = omega (arith, length-append xs (y ∷ []))

  -- The same behind a prefix in two parts.
  pub load-append_two :
      (xs mid : List A) (y : A) (ys : List A)
      → load (xs ++ (mid ++ y ∷ ys)) (length xs + length mid) ≡ some y
  load-append_two [] mid y ys = ap (load (mid ++ y ∷ ys)) (omega arith) ∙ load-append mid y ys
  load-append_two (x ∷ xs) mid y ys =
      ap (load (x ∷ (xs ++ (mid ++ y ∷ ys)))) {y = suc (length xs + length mid)} (omega arith)
      ∙ load-append_two xs mid y ys

  pub store-append_two :
      (xs mid : List A) (y : A) (ys : List A) (v : A)
      → store (xs ++ (mid ++ y ∷ ys)) (length xs + length mid) v ≡ some (xs ++ (mid ++ v ∷ ys))
  store-append_two xs mid y ys v =
      ap₂ (λ b i. store b i v) (sym (append_assoc xs mid (y ∷ ys))) (sym (length-append xs mid))
      ∙ store-append (xs ++ mid) y ys v
      ∙ ap some (append_assoc xs mid (v ∷ ys))
