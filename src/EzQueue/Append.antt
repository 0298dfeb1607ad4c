-- ===== src/EzQueue/Append.antt =====
-- The end of `ezq_enqueue`: the item goes to the slot behind the tail.
use native.Mathlib.Nat.{mod-eq_of_lt, mod-add-mod}
use multithreaded_c_server.Common.{
  ℕ, suc, ◌+◌, ◌-◌, ◌%◌, ◌<◌, ◌≡◌, sym, ap, ap₂, ◌∙◌, Bool-cases, some, List, [], ◌∷◌, ◌++◌, arith,
  get_or, set, inl, inr, Ptr, success, ◌==◌, if◌then◌else◌, length-set, get_or-set_self,
}
use multithreaded_c_server.EzQueue.{EzQueue, append_item}
use multithreaded_c_server.EzQueue.Contents.{
  items, items-snoc, items-set, slots_differ, contents, IsValid,
}

next_head : EzQueue → ℕ
next_head q = if q.num_items == 0 then 0 else q.idx_head

next_tail : EzQueue → ℕ
next_tail q = if q.num_items == 0 then 0 else (q.idx_tail + 1) % q.max_items

next_tail-next_head :
    {q : EzQueue} → IsValid q → next_tail q ≡ (next_head q + q.num_items) % q.max_items
unfolding next_tail next_head
next_tail-next_head {q} v = elim (Bool-cases (q.num_items == 0)) [
  | inl none_left ↦ ground (arith, mod-eq_of_lt {n = 0} {m = q.max_items})
  | inr some_left ↦ rw some_left (
      ap (λ n. (n + 1) % q.max_items) (v.tail_at (ground arith))
      ∙ mod-add-mod (q.idx_head + (q.num_items - 1)) q.max_items 1
      ∙ ap (λ n. n % q.max_items) (ground arith))
]

-- The queue with an item written behind its tail.
unfoldable pub appended : EzQueue → Ptr → EzQueue
unfolding next_head next_tail
appended q item = record q {
  pp_buf = set q.pp_buf (next_tail q) item;
  num_items = q.num_items + 1;
  idx_head = next_head q;
  idx_tail = next_tail q;
}

pub append_item-appended :
    {q : EzQueue} (item : Ptr)
    → IsValid q
    → q.num_items < q.max_items
    → append_item q item ≡ some (success, appended q item)
unfolding append_item appended
append_item-appended {q} item v room = ground arith

next_in : {q : EzQueue} → IsValid q → (next_head q < q.max_items) × (next_tail q < q.max_items)
unfolding next_head next_tail
next_in v = ground arith

pub appended-IsValid :
    {q : EzQueue} (item : Ptr) → IsValid q → q.num_items < q.max_items → IsValid (appended q item)
unfolding appended
appended-IsValid {q} item v room = record {
  storage = length-set q.pp_buf (next_tail q) item ∙ v.storage;
  positive = v.positive;
  fits = v.fits;
  count = omega arith;
  resting = λ none_left. absurd (omega arith);
  head_in = λ some_left. (next_in v).0;
  tail_at =
      λ some_left. next_tail-next_head v ∙ ap (λ n. (next_head q + n) % q.max_items) (omega arith);
}

items-next_head :
    (q : EzQueue) → items q.pp_buf q.max_items (next_head q) q.num_items 0 ≡ contents q
unfolding next_head
items-next_head q = elim (Bool-cases (q.num_items == 0)) [
  | inl none_left ↦ let e : q.num_items ≡ 0 = ground arith in rw e
  | inr some_left ↦ rw some_left
]

pub contents-appended :
    {q : EzQueue} (item : Ptr)
    → IsValid q
    → q.num_items < q.max_items
    → contents (appended q item) ≡ contents q ++ item ∷ []
unfolding appended
contents-appended {q} item v room =
    ap (λ n. items buf q.max_items (next_head q) n 0) {y = suc q.num_items} (omega arith)
    ∙ items-snoc buf q.max_items (next_head q) q.num_items 0
    ∙ ap₂ (λ xs x. xs ++ x ∷ []) (kept ∙ items-next_head q) written
  where
    slot : ℕ
    slot = next_tail q

    buf : List Ptr
    buf = set q.pp_buf slot item

    place : slot ≡ (next_head q + (0 + q.num_items)) % q.max_items
    place = next_tail-next_head v ∙ ap (λ n. (next_head q + n) % q.max_items) (omega arith)

    kept :
        items buf q.max_items (next_head q) q.num_items 0
        ≡ items q.pp_buf q.max_items (next_head q) q.num_items 0
    kept = items-set q.pp_buf q.max_items (next_head q) slot item q.num_items 0 λ n lo hi e.
        slots_differ q.max_items (next_head q) n q.num_items (omega arith) room
          (sym (next_tail-next_head v) ∙ e)

    written : get_or buf ((next_head q + (0 + q.num_items)) % q.max_items) 0 ≡ item
    written =
        ap (λ n. get_or buf n 0) (sym place)
        ∙ get_or-set_self q.pp_buf slot item 0 (omega (arith, next_in v, v.storage))
