-- ===== src/EzArray/Access.antt =====
-- `ezarr_set_at`, `ezarr_get_at` and `ezarr_compact`.
use native.Mathlib.Decide.{dec_lt}
use multithreaded_c_server.Common.{
  ℕ, ◌≤◌, ◌<◌, ◌≡◌, refl, sym, ap, ◌∙◌, ◌⊎◌, inl, inr, false, some, List, [], ◌∷◌, ◌++◌, arith,
  length, length-append, length-set, set, get_or, null, ◌==◌, Ptr, success, failure, uint16_max,
  load-get_or, take-append_length, drop-append_length, take-set, take-append-drop,
}
use multithreaded_c_server.Compact.{kept, NoneKept, compact_loop}
use multithreaded_c_server.Compact.Rounds.{compact_loop_lem, kept-append}
use multithreaded_c_server.EzArray.{EzArray, set_at, get_at, differs, is_null_block, compact}
use multithreaded_c_server.EzArray.Contents.{IsValid, contents, spare}

-- `ezarr_set_at` replaces the item at an index below `num_items`, keeping the invariant, and
-- refuses any other index, changing nothing.
pub set_at_lem :
    {a : EzArray} (idx : ℕ) (item : Ptr)
    → IsValid a
    → ((idx < a.num_items)
        × ((a' : EzArray) × (set_at (some a) idx item ≡ some (success, some a'))
            × IsValid a'
            × (contents a' ≡ set (contents a) idx item)))
      ⊎ ((a.num_items ≤ idx) × (set_at (some a) idx item ≡ some (failure, some a)))
unfolding set_at
set_at_lem {a} idx item v = elim (dec_lt idx a.num_items) [
  | yes inside ↦ inl (
    inside,
    (
      record a { pp_buf = set a.pp_buf idx item },
      ground arith,
      omega (arith, length-set a.pp_buf idx item),
      take-set a.num_items idx a.pp_buf item inside,
    ),
  )
  | no outside ↦ inr (omega arith, ground arith)
]

-- `ezarr_get_at` reads the slot at any index below `max_items`, an item or not, and leaves
-- `*pp_out` alone at any other index.
pub get_at_lem :
    {a : EzArray} (idx : ℕ) (out : Ptr)
    → IsValid a
    → ((idx < a.max_items)
        × (get_at (some a) idx (some out) ≡ some (success, some (get_or a.pp_buf idx null))))
      ⊎ ((a.max_items ≤ idx) × (get_at (some a) idx (some out) ≡ some (failure, some out)))
unfolding get_at
get_at_lem {a} idx out v = elim (dec_lt idx a.max_items) [
  | yes inside ↦ inl (inside, ground (arith, load-get_or a.pp_buf idx 0))
  | no outside ↦ inr (omega arith, ground arith)
]

-- The array with the block and the count that the loop leaves.
packed : EzArray → List Ptr → ℕ → EzArray
packed a buf n = record a { pp_buf = buf; num_items = n }

block_given : (b : List Ptr) → 0 < length b → is_null_block b ≡ false
block_given [] h = elim h [ ]
block_given (x ∷ xs) h = refl

compact-packed :
    {a : EzArray} (sentinel : Ptr) (n : ℕ) (buf : List Ptr)
    → IsValid a
    → n ≤ uint16_max
    → compact_loop (differs sentinel) sentinel (length a.pp_buf) 0 0 a.pp_buf ≡ some (n, buf)
    → compact (some a) sentinel ≡ some (success, some (packed a buf n))
unfolding compact packed
compact-packed {a} sentinel n buf v small e =
    rw
      (
        block_given a.pp_buf (omega arith),
        ap (λ m. m == 0) (sym v.storage),
        (not_zero (length a.pp_buf) (omega arith)),
        ap (λ m. compact_loop (differs sentinel) sentinel m 0 0 a.pp_buf) (sym v.storage),
        e,
      )
      (ap (λ m. some (success, some (record a { pp_buf = buf; num_items = m }))) (omega arith))
  where
    not_zero : (m : ℕ) → 0 < m → (m == 0) ≡ false
    not_zero m h = ground arith

-- `ezarr_compact` runs through and keeps the invariant and the capacity. It leaves the items other
-- than the sentinel in their order, and behind them what the slots past `num_items` held
-- other than the sentinel; no slot behind those holds anything else.
pub compact_lem :
    {a : EzArray} (sentinel : Ptr)
    → IsValid a
    → (a' : EzArray) × (compact (some a) sentinel ≡ some (success, some a'))
      × IsValid a'
      × (contents a' ≡ kept (differs sentinel) (contents a) ++ kept (differs sentinel) (spare a))
      × NoneKept (differs sentinel) (spare a')
      × (a'.max_items ≡ a.max_items)
unfolding packed
compact_lem {a} sentinel v =
    let (tail, e, none_left, size) =
      compact_loop_lem (differs sentinel) sentinel a.pp_buf (off sentinel) in
    let all = kept (differs sentinel) a.pp_buf in
    let within : length all ≤ length a.pp_buf = omega (arith, size, length-append all tail) in
    (
      packed a (all ++ tail) (length all),
      compact-packed sentinel (length all) (all ++ tail) v (omega arith) e,
      record {
        storage = size ∙ v.storage;
        positive = v.positive;
        fits = v.fits;
        count = omega arith;
      },
      take-append_length all tail
          ∙ ap (kept (differs sentinel)) (sym (take-append-drop a.num_items a.pp_buf))
          ∙ kept-append (differs sentinel) (contents a) (spare a),
      rw (drop-append_length all tail) none_left,
      refl,
    )
  where
    off : (x : Ptr) → differs x x ≡ false
    off x = ground arith
