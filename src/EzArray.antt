-- ===== src/EzArray.antt =====
-- The growing array of pointers of src/libs/ezarray/ezarray.c.
pub mod Contents
pub mod Push
pub mod Access
mod Tests
use multithreaded_c_server.Common.{
  ℕ, suc, ◌+◌, ◌*◌, ◌/◌, Bool, true, false, not, ◌||◌, Option, none, some, List, [], ◌∷◌, ltb, leb,
  ◌==◌, if◌then◌else◌, Ptr, Malloc, Realloc, ℤ, success, failure, is_zero, uint16_max, to_uint16,
  ◌>>=◌, load, store,
}
use multithreaded_c_server.Compact.{compact_loop}

-- `ezarray_t`. `pp_buf` is the block, with the contents of each slot; NULL is the empty list.
pub record EzArray : Type 0 where
  pub pp_buf : List Ptr
  pub num_items : ℕ
  pub max_items : ℕ

unfoldable pub init : Malloc Ptr → Option EzArray → ℕ → ℤ × Option EzArray
init calloc none max_items = (failure, none)
init calloc (some a) max_items =
    if max_items == 0 then (failure, some a) else elim (calloc max_items) [
      | none ↦ (failure, some a)
      | some pp_buf ↦
          (success, some (record { pp_buf = pp_buf; num_items = 0; max_items = max_items }))
    ]

pub deinit : Option EzArray → ℤ × Option EzArray
deinit none = (failure, none)
deinit (some a) = (success, some (record { pp_buf = []; num_items = 0; max_items = 0 }))

-- The size after a resize, from the number of items. The product is kept in a `uint16_t`.
unfoldable pub grown : ℕ → ℕ
grown num_items = if ltb (uint16_max / 2) num_items then uint16_max else to_uint16 (num_items * 2)

pub resize : Realloc Ptr → EzArray → ℤ × EzArray
resize realloc a =
    if a.num_items == uint16_max
    then (failure, a)
    else elim (realloc a.pp_buf (grown a.num_items)) [
      | none ↦ (failure, a)
      | some pp_tmp ↦ (success, record a { pp_buf = pp_tmp; max_items = grown a.num_items })
    ]

make_room : Realloc Ptr → EzArray → ℤ × EzArray
unfolding resize
make_room realloc a = if a.num_items == a.max_items then resize realloc a else (success, a)

pub push_object : Realloc Ptr → EzArray → Ptr → Option (ℤ × EzArray)
unfolding make_room
push_object realloc a item =
    let (res, a') = make_room realloc a in
    if is_zero res
    then (store a'.pp_buf a'.num_items item >>= λ pp_buf.
        some (success, record a' { pp_buf = pp_buf; num_items = to_uint16 (a'.num_items + 1) }))
    else some (res, a')

pub push : Realloc Ptr → Option EzArray → Ptr → Option (ℤ × Option EzArray)
unfolding push_object
push realloc none item = some (failure, none)
push realloc (some a) item = do (res, a') ← push_object realloc a item; some (res, some a')

unfoldable pub set_at : Option EzArray → ℕ → Ptr → Option (ℤ × Option EzArray)
set_at none idx item = some (failure, none)
set_at (some a) idx item =
    if leb a.num_items idx
    then some (failure, some a)
    else (store a.pp_buf idx item >>= λ pp_buf. some (success, some (record a { pp_buf = pp_buf })))

-- `pp_out` is NULL, or holds the value of `*pp_out`. The bound is `max_items`.
unfoldable pub get_at : Option EzArray → ℕ → Option Ptr → Option (ℤ × Option Ptr)
get_at none idx out = some (failure, out)
get_at (some a) idx none = some (failure, none)
get_at (some a) idx (some out) =
    if leb a.max_items idx
    then some (failure, some out)
    else (load a.pp_buf idx >>= λ item. some (success, some item))

abbrev pub is_null_block : List Ptr → Bool
is_null_block [] = true
is_null_block (x ∷ xs) = false

-- The loop test of `ezarr_compact`: a slot other than the sentinel is kept.
abbrev pub differs : Ptr → Ptr → Bool
differs sentinel item = not (item == sentinel)

pub compact_object : EzArray → Ptr → Option (ℤ × EzArray)
compact_object a sentinel =
    if is_null_block a.pp_buf || (a.max_items == 0)
    then some (failure, a)
    else (compact_loop (differs sentinel) sentinel a.max_items 0 0 a.pp_buf >>= λ done.
        some (success, record a { pp_buf = done.1; num_items = to_uint16 done.0 }))

pub compact : Option EzArray → Ptr → Option (ℤ × Option EzArray)
unfolding compact_object
compact none sentinel = some (failure, none)
compact (some a) sentinel = do (res, a') ← compact_object a sentinel; some (res, some a')
