-- ===== src/Common/Memory.antt =====
-- C values and memory, as the modules model them: pointers, `int` results, arrays of slots, and
-- what the allocation functions return.
use Prim.Native.Nat.{ℕ, ◌%◌, ◌^◌}
use mathlib.Core.Path.{◌≡◌}
use mathlib.Core.Bool.{Bool, true, false}
use mathlib.Core.Option.{Option, none, some}
use mathlib.Core.List.{List, ◌++◌}
use multithreaded_c_server.Common.Tests.{ltb, ◌==◌, if◌then◌else◌}
use multithreaded_c_server.Common.Lists.{length, get_elem?, set, take, replicate}

-- A `void *`: an address, 0 for NULL.
abbrev pub Ptr : Type 0
Ptr = ℕ

abbrev pub null : Ptr
null = 0

-- A C `int`: `negsuc n` is -(n + 1).
pub data ℤ : Type 0 where
  pos : ℕ → ℤ
  negsuc : ℕ → ℤ

abbrev pub success : ℤ
success = pos 0

abbrev pub failure : ℤ
failure = negsuc 0

abbrev pub is_zero : ℤ → Bool
is_zero (pos n) = n == 0
is_zero (negsuc n) = false

abbrev pub uint16_max : ℕ
uint16_max = 65535

-- The value that a `uint16_t` keeps of a number.
abbrev pub to_uint16 : ℕ → ℕ
to_uint16 n = n % 2 ^ 16

-- `none` stands for undefined behaviour: an access outside its block, or a freed one.
infixl 5 ◌>>=◌
abbrev pub ◌>>=◌ {ℓ κ} : {A : Type ℓ} {B : Type κ} → Option A → (A → Option B) → Option B
none >>= f = none
some a >>= f = f a

module _ {ℓ} {A : Type ℓ} where
  -- `buf[i]`, read and written.
  abbrev pub load : List A → ℕ → Option A
  load xs i = get_elem? xs i

  abbrev pub store : List A → ℕ → A → Option (List A)
  store xs i v = if ltb i (length xs) then some (set xs i v) else none

-- What an allocation of `n` slots returns: NULL, or a block with the contents that it has.
abbrev pub Malloc {ℓ} : Type ℓ → Type ℓ
Malloc A = ℕ → Option (List A)

-- What the C standard says of `malloc`: a block that it returns has the size asked for.
abbrev pub MallocLaw {ℓ} : {A : Type ℓ} → Malloc A → Type ℓ
MallocLaw malloc = (n : ℕ) (b : List _) → malloc n ≡ some b → length b ≡ n

abbrev pub is_some {ℓ} : {A : Type ℓ} → Option A → Bool
is_some none = false
is_some (some a) = true

abbrev pub get_or_else {ℓ} : {A : Type ℓ} → Option A → A → A
get_or_else none d = d
get_or_else (some a) d = a

-- A `realloc` is given the old block and the new number of slots.
abbrev pub Realloc {ℓ} : Type ℓ → Type ℓ
Realloc A = List A → ℕ → Option (List A)

-- What the C standard says of `realloc`: the new block has the size asked for, and begins with
-- the old contents, up to the smaller of the two sizes; the slots behind them are indeterminate.
abbrev pub ReallocLaw {ℓ} : {A : Type ℓ} → Realloc A → Type ℓ
ReallocLaw {A} realloc =
    (b : List A) (n : ℕ) (b' : List A)
    → realloc b n ≡ some b'
    → (fresh : List A) × (b' ≡ take n b ++ fresh) × (length b' ≡ n)

-- What the C standard says of `calloc`: every byte of the block is 0.
abbrev pub CallocLaw {ℓ} : {A : Type ℓ} → A → Malloc A → Type ℓ
CallocLaw zeroed calloc = (n : ℕ) (b : List _) → calloc n ≡ some b → b ≡ replicate n zeroed
