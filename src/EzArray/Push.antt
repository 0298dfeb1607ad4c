-- ===== src/EzArray/Push.antt =====
-- `ezarr_push`, with and without a resize.
use native.Mathlib.Decide.{dec_lt, ℕ_discrete}
use multithreaded_c_server.Common.{
  ℕ, suc, ◌+◌, ◌≤◌, ◌<◌, ◌≡◌, ◌≢◌, sym, ap, ◌∙◌, ◌⊎◌, inl, inr, none, some, List, [], ◌∷◌, ◌++◌,
  arith, length, take, length-set, set, Ptr, Realloc, ReallocLaw, success, failure, uint16_max,
  take_all, take-append, take-set_next, Option-cases, ◌==◌, if◌then◌else◌,
}
use multithreaded_c_server.EzArray.{EzArray, grown, push}
use multithreaded_c_server.EzArray.Contents.{IsValid, contents}

grown_bounds : (n : ℕ) → 0 < n → n < uint16_max → (n < grown n) × (grown n ≤ uint16_max)
unfolding grown
grown_bounds n pos lt = ground arith

pushed : EzArray → Ptr → EzArray
pushed a item = record a { pp_buf = set a.pp_buf a.num_items item; num_items = a.num_items + 1 }

pushed-IsValid :
    {a : EzArray} (item : Ptr) → IsValid a → a.num_items < a.max_items → IsValid (pushed a item)
unfolding pushed
pushed-IsValid {a} item v room = omega (arith, length-set a.pp_buf a.num_items item)

contents-pushed :
    {a : EzArray} (item : Ptr)
    → IsValid a
    → a.num_items < a.max_items
    → contents (pushed a item) ≡ contents a ++ item ∷ []
unfolding pushed
contents-pushed {a} item v room =
    ap (λ n. take n (set a.pp_buf a.num_items item)) {y = suc a.num_items} (omega arith)
    ∙ take-set_next a.num_items a.pp_buf item (omega arith)

push_with_room :
    (realloc : Realloc Ptr) {a : EzArray} (item : Ptr)
    → IsValid a
    → a.num_items < a.max_items
    → push realloc (some a) item ≡ some (success, some (pushed a item))
unfolding push pushed
push_with_room realloc {a} item v room = ground arith

-- The array in the block that realloc gave.
resized : EzArray → List Ptr → EzArray
resized a fresh = record a { pp_buf = a.pp_buf ++ fresh; max_items = grown a.num_items }

push_resizing :
    (realloc : Realloc Ptr) {a : EzArray} (item : Ptr) {block : List Ptr} (fresh : List Ptr)
    → IsValid a
    → a.num_items ≡ a.max_items
    → a.num_items ≢ uint16_max
    → realloc a.pp_buf (grown a.num_items) ≡ some block
    → block ≡ a.pp_buf ++ fresh
    → length block ≡ grown a.num_items
    → push realloc (some a) item ≡ some (success, some (pushed (resized a fresh) item))
unfolding push pushed resized
push_resizing realloc {a} item {block} fresh v full small e split size =
    let bounds = grown_bounds a.num_items (omega arith) (omega arith) in
    ground (arith, ap length split)

push_refused :
    (realloc : Realloc Ptr) (a : EzArray) (item : Ptr)
    → a.num_items ≡ a.max_items
    → (a.num_items ≡ uint16_max) ⊎ (realloc a.pp_buf (grown a.num_items) ≡ none)
    → push realloc (some a) item ≡ some (failure, some a)
unfolding push
push_refused realloc a item full why = ground arith

resized-IsValid :
    {a : EzArray} (fresh : List Ptr)
    → IsValid a
    → a.num_items ≡ a.max_items
    → a.num_items ≢ uint16_max
    → length (a.pp_buf ++ fresh) ≡ grown a.num_items
    → IsValid (resized a fresh) × (a.num_items < grown a.num_items)
unfolding resized
resized-IsValid {a} fresh v full small size =
    let bounds = grown_bounds a.num_items (omega arith) (omega arith) in omega arith

contents-resized :
    {a : EzArray} (fresh : List Ptr) → IsValid a → contents (resized a fresh) ≡ contents a
unfolding resized
contents-resized {a} fresh v = take-append a.num_items a.pp_buf fresh (omega arith)

-- What `ezarr_push` promises: the item behind the others, or the array as it was, where it is full
-- and cannot grow.
pub data Pushes (realloc : Realloc Ptr) (a : EzArray) (item : Ptr) : Type 0 where
  appends :
      (a' : EzArray)
      → push realloc (some a) item ≡ some (success, some a')
      → IsValid a'
      → contents a' ≡ contents a ++ item ∷ []
      → a'.max_items ≡ (if a.num_items == a.max_items then grown a.num_items else a.max_items)
      → Pushes realloc a item
  refuses :
      push realloc (some a) item ≡ some (failure, some a)
      → a.num_items ≡ a.max_items
      → (a.num_items ≡ uint16_max) ⊎ (realloc a.pp_buf (grown a.num_items) ≡ none)
      → Pushes realloc a item

-- `ezarr_push` stays inside its block and keeps the invariant. It puts the item behind the others,
-- doubling a full array first, and it refuses, changing nothing, only where the array is full and
-- has 65535 slots or realloc returns NULL.
pub push_lem :
    (realloc : Realloc Ptr) {a : EzArray} (item : Ptr)
    → ReallocLaw realloc
    → IsValid a
    → Pushes realloc a item
unfolding resized pushed
push_lem realloc {a} item law v = elim (dec_lt a.num_items a.max_items) [
  | yes room ↦
      appends (pushed a item) (push_with_room realloc item v room) (pushed-IsValid item v room)
        (contents-pushed item v room) (ground arith)
  | no crowded ↦
      let full : a.num_items ≡ a.max_items = omega arith in
      elim (ℕ_discrete a.num_items uint16_max) [
        | yes largest ↦ refuses (push_refused realloc a item full (inl largest)) full (inl largest)
        | no small ↦ elim (Option-cases (realloc a.pp_buf (grown a.num_items))) [
          | inl e ↦ refuses (push_refused realloc a item full (inr e)) full (inr e)
          | inr (block, e) ↦
              let (fresh, split, size) = law a.pp_buf (grown a.num_items) block e in
              let bounds = grown_bounds a.num_items (omega arith) (omega arith) in
              let split' =
                split
                ∙ ap (λ b. b ++ fresh) (take_all (grown a.num_items) a.pp_buf (omega arith)) in
              let (w, room) = resized-IsValid fresh v full small (sym (ap length split') ∙ size) in
              appends (pushed (resized a fresh) item)
                (push_resizing realloc item fresh v full small e split' size)
                (pushed-IsValid item w room)
                (contents-pushed item w room ∙ ap (λ b. b ++ item ∷ []) (contents-resized fresh v))
                (ground arith)
        ]
      ]
]
