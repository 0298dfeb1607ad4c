-- ===== src/EzQueue/Contents.antt =====
-- What an `ezqueue_t` holds, oldest first, and the invariant of its fields.
use native.Mathlib.Nat.{mod-add-mod, mod-eq_of_lt, mod-eq-sub-mod}
use native.Mathlib.Decide.{dec_lt}
use mathlib.Core.List.{append_assoc}
use multithreaded_c_server.Common.{
  ℕ, zero, suc, ◌+◌, ◌-◌, ◌%◌, ◌≤◌, ◌<◌, ◌≡◌, refl, sym, ap, ap₂, ◌∙◌, ◌≢◌, some, List, [], ◌∷◌,
  ◌++◌, arith, length, get_or, set, drop, Ptr, uint16_max, length-snoc, get_or-set_ne, load-get_or,
  get_or-append, store-append,
}
use multithreaded_c_server.EzQueue.{EzQueue, no_index, copy_items}

module _ (buf : List Ptr) (max head : ℕ) where
  -- The `k` items from the `i`-th on, where the ring starts at `head`.
  abbrev pub items : (k i : ℕ) → List Ptr
  items zero i = []
  items (suc k) i = get_or buf ((head + i) % max) null ∷ items k (i + 1)
    where
      null : ℕ
      null = 0

  pub length-items : (k i : ℕ) → length (items k i) ≡ k
  length-items zero i = refl
  length-items (suc k) i = ap suc (length-items k (i + 1))

  -- The last of them, split off.
  pub items-snoc :
      (k i : ℕ) → items (suc k) i ≡ items k i ++ get_or buf ((head + (i + k)) % max) 0 ∷ []
  items-snoc zero i = ap (λ n. get_or buf ((head + n) % max) 0 ∷ []) (omega arith)
  items-snoc (suc k) i = ap (◌∷◌ (get_or buf ((head + i) % max) 0)) (
      items-snoc k (i + 1)
      ∙ ap (λ n. items k (i + 1) ++ get_or buf ((head + n) % max) 0 ∷ []) (omega arith))

-- Taking the head off moves every item one place down.
pub items-next :
    (buf : List Ptr) (max head k i : ℕ)
    → items buf max ((head + 1) % max) k i ≡ items buf max head k (i + 1)
items-next buf max head zero i = refl
items-next buf max head (suc k) i =
    ap₂ ◌∷◌
      (ap (λ n. get_or buf n 0) (mod-add-mod (head + 1) max i ∙ ap (λ n. n % max) (omega arith)))
      (items-next buf max head k (i + 1))

-- A write to a slot that none of them occupies.
pub items-set :
    (buf : List Ptr) (max head : ℕ) (slot item : Ptr) (k i : ℕ)
    → ((n : ℕ) → i ≤ n → n < i + k → slot ≢ (head + n) % max)
    → items (set buf slot item) max head k i ≡ items buf max head k i
items-set buf max head slot item zero i free = refl
items-set buf max head slot item (suc k) i free =
    ap₂ ◌∷◌ (get_or-set_ne buf slot _ item 0 (free i (omega arith) (omega arith)))
      (items-set buf max head slot item k (i + 1) λ n lo hi. free n (omega arith) (omega arith))

-- In a block that starts at 0 and does not go round, they are the slots as they lie.
pub items-straight :
    (pre xs post : List Ptr) (max : ℕ)
    → length pre + length xs ≤ max
    → items (pre ++ (xs ++ post)) max 0 (length xs) (length pre) ≡ xs
items-straight pre [] post max h = refl
items-straight pre (x ∷ xs) post max h =
    ap₂ ◌∷◌
      (ap (λ n. get_or (pre ++ x ∷ (xs ++ post)) n 0) (zero_plus ∙ mod-eq_of_lt (omega arith))
        ∙ get_or-append pre x (xs ++ post) 0)
      (ap₂ (λ b n. items b max 0 (length xs) n) (sym (append_assoc pre (x ∷ []) (xs ++ post)))
          (omega (arith, length-snoc pre x))
        ∙ items-straight (pre ++ x ∷ []) xs post max (omega (arith, length-snoc pre x)))
  where
    zero_plus : (0 + length pre) % max ≡ length pre % max
    zero_plus = ap (λ n. n % max) (omega arith)

-- Adding less than one round changes the place on the ring.
mod-add-ne : (max place d : ℕ) → place < max → 0 < d → d < max → (place + d) % max ≢ place
mod-add-ne max place d lt pos small = elim (dec_lt (place + d) max) [
  | yes below ↦ omega (arith, mod-eq_of_lt below)
  | no above ↦ omega (
    arith,
    mod-eq-sub-mod {n = place + d} {m = max} (omega arith),
    mod-eq_of_lt {n = place + d - max} {m = max} (omega arith),
  )
]

pub slots_differ : (max head n k : ℕ) → n < k → k < max → (head + k) % max ≢ (head + n) % max
slots_differ max head n k lt small e =
    mod-add-ne max ((head + n) % max) (k - n) (omega arith) (omega arith) (omega arith)
      (mod-add-mod (head + n) max (k - n) ∙ ap (λ j. j % max) (omega arith) ∙ e)

abbrev pub contents : EzQueue → List Ptr
contents q = items q.pp_buf q.max_items q.idx_head q.num_items 0

pub length-contents : (q : EzQueue) → length (contents q) ≡ q.num_items
length-contents q = length-items q.pp_buf q.max_items q.idx_head q.num_items 0

-- The invariant of a queue between `ezq_init` and `ezq_deinit`.
pub record IsValid (q : EzQueue) : Type 0 where
  pub storage : length q.pp_buf ≡ q.max_items
  pub positive : 0 < q.max_items
  pub fits : q.max_items ≤ uint16_max
  pub count : q.num_items ≤ q.max_items
  pub resting : q.num_items ≡ 0 → (q.idx_head ≡ no_index) × (q.idx_tail ≡ no_index)
  pub head_in : 0 < q.num_items → q.idx_head < q.max_items
  pub tail_at : 0 < q.num_items → q.idx_tail ≡ (q.idx_head + (q.num_items - 1)) % q.max_items

-- The copying loop writes the items behind `pre`, whatever the new block held.
pub copy_items-items :
    (q : EzQueue) (k : ℕ) (pre junk : List Ptr)
    → length q.pp_buf ≡ q.max_items
    → 0 < q.max_items
    → k ≤ length junk
    → copy_items q k (length pre) (pre ++ junk)
      ≡ some (pre ++ (items q.pp_buf q.max_items q.idx_head k (length pre) ++ drop k junk))
unfolding copy_items
copy_items-items q zero pre junk stored pos room = refl
copy_items-items q (suc k) pre [] stored pos room = elim room [ ]
copy_items-items q (suc k) pre (old ∷ junk) stored pos room =
    let slot : ℕ = (q.idx_head + length pre) % q.max_items in
    let item : Ptr = get_or q.pp_buf slot 0 in
    let next : length pre + 1 ≡ length (pre ++ item ∷ []) = omega (arith, length-snoc pre item) in
    rw
      (
        load-get_or q.pp_buf slot 0 (omega arith),
        store-append pre old junk item,
        ← append_assoc pre (item ∷ []) junk,
        ← append_assoc pre (item ∷ [])
            (items q.pp_buf q.max_items q.idx_head k (length pre + 1) ++ drop k junk),
        next,
      )
      (copy_items-items q k (pre ++ item ∷ []) junk stored pos (omega arith))
