-- ===== src/EzQueue/Resize.antt =====
-- `ezq_resize` lays the items out straight at the front of a block of the new size.
use native.Mathlib.Nat.{mod-eq_of_lt}
use multithreaded_c_server.Common.{
  ℕ, ◌-◌, ◌%◌, ◌≤◌, ◌<◌, ◌≡◌, sym, ap, ◌∙◌, ◌≢◌, some, List, [], ◌++◌, arith, length, drop, Ptr,
  Malloc, MallocLaw, success, uint16_max, length-append, length-drop,
}
use multithreaded_c_server.EzQueue.{EzQueue, grown, resize}
use multithreaded_c_server.EzQueue.Contents.{
  items, items-straight, contents, length-contents, IsValid, copy_items-items,
}

pub grown_bounds : (n : ℕ) → 0 < n → n < uint16_max → (n < grown n) × (grown n ≤ uint16_max)
unfolding grown
grown_bounds n pos lt = ground arith

-- The queue that a resize leaves, with what malloc returned behind the items.
unfoldable pub resized : EzQueue → List Ptr → EzQueue
resized q block = record {
  pp_buf = contents q ++ drop q.num_items block;
  num_items = q.num_items;
  max_items = grown q.max_items;
  idx_head = 0;
  idx_tail = q.num_items - 1;
}

pub resize-resized :
    (malloc : Malloc Ptr) {q : EzQueue} {block : List Ptr}
    → MallocLaw malloc
    → IsValid q
    → q.num_items ≡ q.max_items
    → q.max_items ≢ uint16_max
    → malloc (grown q.max_items) ≡ some block
    → resize malloc q ≡ some (success, resized q block)
unfolding resize resized
resize-resized malloc {q} {block} law v full small e =
    let room : q.num_items ≤ length block = omega (arith, law _ _ e, grown_bounds q.max_items) in
    ground (arith, e, copy_items-items q q.num_items [] block v.storage v.positive room)

pub contents-resized :
    {q : EzQueue} (block : List Ptr)
    → IsValid q
    → q.num_items ≡ q.max_items
    → q.max_items ≢ uint16_max
    → contents (resized q block) ≡ contents q
unfolding resized
contents-resized {q} block v full small =
    ap (λ n. items (contents q ++ drop q.num_items block) (grown q.max_items) 0 n 0)
      (sym (length-contents q))
    ∙ items-straight [] (contents q) (drop q.num_items block) (grown q.max_items)
        (omega (arith, length-contents q, grown_bounds q.max_items))

pub resized-IsValid :
    {q : EzQueue} (block : List Ptr)
    → IsValid q
    → q.num_items ≡ q.max_items
    → q.max_items ≢ uint16_max
    → length block ≡ grown q.max_items
    → IsValid (resized q block)
unfolding resized
resized-IsValid {q} block v full small e =
    let bounds = grown_bounds q.max_items v.positive (omega arith) in
    let last = mod-eq_of_lt {n = q.num_items - 1} {m = grown q.max_items} (omega arith) in
    record {
      storage = omega (
        arith,
        length-append (contents q) (drop q.num_items block),
        length-contents q,
        length-drop q.num_items block,
      );
      positive = omega arith;
      fits = omega arith;
      count = omega arith;
      resting = λ none_left. absurd (omega arith);
      head_in = λ some_left. omega arith;
      tail_at = λ some_left. sym last ∙ ap (λ n. n % grown q.max_items) (omega arith);
    }
