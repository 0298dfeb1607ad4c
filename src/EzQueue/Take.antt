-- ===== src/EzQueue/Take.antt =====
-- `ezq_dequeue` takes the oldest item off.
use native.Mathlib.Nat.{mod-eq_of_lt, mod-add-mod}
use multithreaded_c_server.Common.{
  suc, ◌+◌, ◌-◌, ◌%◌, ◌<◌, ◌≡◌, refl, sym, ap, ap₂, ◌∙◌, Bool-cases, some, ◌∷◌, arith, get_or, inl,
  inr, Ptr, success, failure, uint16_max, to_uint16, ◌==◌, load-get_or,
}
use multithreaded_c_server.EzQueue.{EzQueue, drop_head, dequeue_object, dequeue}
use multithreaded_c_server.EzQueue.Contents.{items, items-next, contents, IsValid}

contents-drop_head :
    {q : EzQueue}
    → IsValid q
    → 0 < q.num_items
    → contents (drop_head q)
      ≡ items q.pp_buf q.max_items ((q.idx_head + 1) % q.max_items) (q.num_items - 1) 0
unfolding drop_head
contents-drop_head {q} v some_left = elim (Bool-cases (q.num_items == 1)) [
  | inl last ↦ let e : q.num_items - 1 ≡ 0 = ground arith in rw (last, e)
  | inr more ↦
      rw more
        (ap (λ n. items q.pp_buf q.max_items ((q.idx_head + 1) % q.max_items) n 0) (omega arith))
]

-- The first of the contents is the item at the head, and the rest stays.
pub contents-head :
    {q : EzQueue}
    → IsValid q
    → 0 < q.num_items
    → contents q ≡ get_or q.pp_buf q.idx_head 0 ∷ contents (drop_head q)
contents-head {q} v some_left =
    ap (λ n. items q.pp_buf q.max_items q.idx_head n 0) {y = suc (q.num_items - 1)} (omega arith)
    ∙ ap₂ ◌∷◌ (ap (λ n. get_or q.pp_buf n 0) first) (
        sym (items-next q.pp_buf q.max_items q.idx_head (q.num_items - 1) 0)
        ∙ sym (contents-drop_head v some_left))
  where
    first : (q.idx_head + 0) % q.max_items ≡ q.idx_head
    first = ap (λ n. n % q.max_items) (omega arith) ∙ mod-eq_of_lt (v.head_in some_left)

pub drop_head-IsValid : {q : EzQueue} → IsValid q → 0 < q.num_items → IsValid (drop_head q)
unfolding drop_head
drop_head-IsValid {q} v some_left = elim (Bool-cases (q.num_items == 1)) [
  | inl last ↦ rw last (record {
    storage = v.storage;
    positive = v.positive;
    fits = v.fits;
    count = omega arith;
    resting = λ none_left. (refl, refl);
    head_in = λ absent. absurd (omega arith);
    tail_at = λ absent. absurd (omega arith);
  })
  | inr more ↦ rw more (
      let several : 1 < q.num_items = ground arith in
      let left : to_uint16 (q.num_items + uint16_max) ≡ q.num_items - 1 = omega arith in
      record {
        storage = v.storage;
        positive = v.positive;
        fits = v.fits;
        count = omega arith;
        resting = λ none_left. absurd (omega arith);
        head_in = λ _. omega arith;
        tail_at = λ _.
            v.tail_at some_left
            ∙ ap (λ n. n % q.max_items) {y = q.idx_head + 1 + (q.num_items - 1 - 1)} (omega arith)
            ∙ sym (mod-add-mod (q.idx_head + 1) q.max_items (q.num_items - 1 - 1))
            ∙ ap (λ n. ((q.idx_head + 1) % q.max_items + n) % q.max_items) (omega arith);
      })
]

pub dequeue_object_lem :
    {q : EzQueue} (out : Ptr)
    → IsValid q
    → 0 < q.num_items
    → dequeue_object q out ≡ some (success, drop_head q, get_or q.pp_buf q.idx_head 0)
unfolding dequeue_object
dequeue_object_lem {q} out v some_left = ground (arith, load-get_or q.pp_buf q.idx_head 0)

pub dequeue-drop_head :
    {q : EzQueue} (out : Ptr)
    → IsValid q
    → 0 < q.num_items
    → dequeue (some q) (some out)
      ≡ some (success, some (drop_head q), some (get_or q.pp_buf q.idx_head 0))
unfolding dequeue
dequeue-drop_head {q} out v some_left = rw (dequeue_object_lem out v some_left)

pub dequeue_empty :
    (q : EzQueue) (out : Ptr)
    → q.num_items ≡ 0
    → dequeue (some q) (some out) ≡ some (failure, some q, some out)
unfolding dequeue
dequeue_empty q out none_left = ground arith

pub max_items-drop_head : (q : EzQueue) → (drop_head q).max_items ≡ q.max_items
unfolding drop_head
max_items-drop_head q = ground arith

pub num_items-drop_head :
    {q : EzQueue} → IsValid q → 0 < q.num_items → (drop_head q).num_items ≡ q.num_items - 1
unfolding drop_head
num_items-drop_head {q} v some_left = ground arith
