-- ===== src/EzQueue/Refine.antt =====
-- `ezq_enqueue` and `ezq_dequeue` against the abstract queue.
use native.Mathlib.Decide.{dec_lt, ℕ_discrete}
use multithreaded_c_server.Common.{
  ◌<◌, ◌≡◌, refl, ap, ◌∙◌, ◌≢◌, false, Option-cases, Option, none, some, List, [], ◌∷◌, ◌++◌, arith,
  length, get_or, inl, inr, ◌⊎◌, Ptr, Malloc, MallocLaw, ℤ, success, failure, is_some, get_or_else,
  uint16_max,
}
use multithreaded_c_server.EzQueue.{EzQueue, grown, enqueue, drop_head, dequeue}
use multithreaded_c_server.EzQueue.Contents.{contents, length-contents, IsValid}
use multithreaded_c_server.EzQueue.Resize.{
  grown_bounds, resized, resize-resized, contents-resized, resized-IsValid,
}
use multithreaded_c_server.EzQueue.Take.{
  contents-head, drop_head-IsValid, dequeue-drop_head, dequeue_empty, max_items-drop_head,
}
use multithreaded_c_server.EzQueue.Append.{
  appended, append_item-appended, appended-IsValid, contents-appended,
}
use multithreaded_c_server.EzQueue.Fifo
use multithreaded_c_server.EzQueue.Fifo.{Fifo}

abbrev pub as_fifo : EzQueue → Fifo
as_fifo q = record { capacity = q.max_items; waiting = contents q }

enqueue_with_room :
    (malloc : Malloc Ptr) {q : EzQueue} (item : Ptr)
    → IsValid q
    → q.num_items < q.max_items
    → enqueue malloc (some q) item ≡ some (success, some (appended q item))
unfolding enqueue
enqueue_with_room malloc {q} item v room = ground (arith, append_item-appended item v room)

enqueue_resizing :
    (malloc : Malloc Ptr) {q : EzQueue} (item : Ptr) {block : List Ptr}
    → MallocLaw malloc
    → IsValid q
    → q.num_items ≡ q.max_items
    → q.max_items ≢ uint16_max
    → malloc (grown q.max_items) ≡ some block
    → enqueue malloc (some q) item ≡ some (success, some (appended (resized q block) item))
unfolding enqueue resized
enqueue_resizing malloc {q} item {block} law v full small e =
    let w = resized-IsValid block v full small (law _ _ e) in
    let room = grown_bounds q.max_items v.positive (omega arith) in
    ground (
      arith,
      resize-resized malloc law v full small e,
      append_item-appended {q = resized q block} item w,
    )

enqueue_refused :
    (malloc : Malloc Ptr) (q : EzQueue) (item : Ptr)
    → q.num_items ≡ q.max_items
    → (q.max_items ≡ uint16_max) ⊎ (malloc (grown q.max_items) ≡ none)
    → enqueue malloc (some q) item ≡ some (failure, some q)
unfolding enqueue
enqueue_refused malloc q item full why = ground arith

-- What a call of `ezq_enqueue` leaves behind, when the abstract queue answers `out`.
abbrev pub Enqueues : Malloc Ptr → EzQueue → Ptr → ℤ × Fifo → Type 0
Enqueues malloc q item out =
    (q' : EzQueue) × (enqueue malloc (some q) item ≡ some (out.0, some q'))
    × IsValid q'
    × (as_fifo q' ≡ out.1)

Enqueues-room :
    (malloc : Malloc Ptr) {q : EzQueue} (item : Ptr)
    → IsValid q
    → q.num_items < q.max_items
    → Enqueues malloc q item
        (success, record { capacity = q.max_items; waiting = contents q ++ item ∷ [] })
unfolding appended
Enqueues-room malloc {q} item v room = (
  appended q item,
  enqueue_with_room malloc item v room,
  appended-IsValid item v room,
  λ i. record { capacity = q.max_items; waiting = contents-appended item v room i },
)

Enqueues-resized :
    (malloc : Malloc Ptr) {q : EzQueue} (item : Ptr) {block : List Ptr}
    → MallocLaw malloc
    → IsValid q
    → q.num_items ≡ q.max_items
    → q.max_items ≢ uint16_max
    → malloc (grown q.max_items) ≡ some block
    → Enqueues malloc q item
        (success, record { capacity = grown q.max_items; waiting = contents q ++ item ∷ [] })
unfolding resized grown appended
Enqueues-resized malloc {q} item {block} law v full small e =
    let w = resized-IsValid block v full small (law _ _ e) in
    let bounds = grown_bounds q.max_items v.positive (omega arith) in
    let room : q.num_items < grown q.max_items = omega arith in
    (
      appended (resized q block) item,
      enqueue_resizing malloc item law v full small e,
      appended-IsValid item w room,
      λ i. record {
        capacity = grown q.max_items;
        waiting =
            (contents-appended item w room
                ∙ ap (λ xs. xs ++ item ∷ []) (contents-resized block v full small))
              i;
      },
    )

Enqueues-refused :
    (malloc : Malloc Ptr) {q : EzQueue} (item : Ptr)
    → IsValid q
    → q.num_items ≡ q.max_items
    → (q.max_items ≡ uint16_max) ⊎ (malloc (grown q.max_items) ≡ none)
    → Enqueues malloc q item (failure, as_fifo q)
Enqueues-refused malloc {q} item v full why = (q, enqueue_refused malloc q item full why, v, refl)

-- `ezq_enqueue` stays inside its block, keeps the invariant, and returns and does to the contents
-- and the capacity what the abstract queue does, whatever malloc returns that keeps its contract.
pub enqueue_refines :
    (malloc : Malloc Ptr) {q : EzQueue} (item : Ptr)
    → MallocLaw malloc
    → IsValid q
    → Enqueues malloc q item (Fifo.put (is_some (malloc (grown q.max_items))) (as_fifo q) item)
enqueue_refines malloc {q} item law v = elim (dec_lt q.num_items q.max_items) [
  | yes room ↦
      rw (Fifo.put_with_room _ (as_fifo q) item (omega (arith, length-contents q)))
        (Enqueues-room malloc item v room)
  | no crowded ↦
      let full : q.num_items ≡ q.max_items = omega arith in
      let same : length (contents q) ≡ q.max_items = length-contents q ∙ full in
      elim (ℕ_discrete q.max_items uint16_max) [
        | yes largest ↦
            rw
              (Fifo.put_refused (is_some (malloc (grown q.max_items))) (as_fifo q) item same
                (inl largest))
              (Enqueues-refused malloc item v full (inl largest))
        | no small ↦ elim (Option-cases (malloc (grown q.max_items))) [
          | inl e ↦
              rw (ap is_some e, Fifo.put_refused false (as_fifo q) item same (inr refl))
                (Enqueues-refused malloc item v full (inr e))
          | inr (block, e) ↦
              rw (ap is_some e, Fifo.put_resizing (as_fifo q) item same small)
                (Enqueues-resized malloc item law v full small e)
        ]
      ]
]

-- What a call of `ezq_dequeue` with an out-parameter that held `out` leaves behind.
abbrev pub Dequeues : EzQueue → Ptr → ℤ × Option Ptr × Fifo → Type 0
Dequeues q out answer =
    (q' : EzQueue) × (dequeue (some q) (some out)
      ≡ some (answer.0, some q', some (get_or_else answer.1 out)))
    × IsValid q'
    × (as_fifo q' ≡ answer.2)

Dequeues-some :
    {q : EzQueue} (out : Ptr)
    → IsValid q
    → 0 < q.num_items
    → Dequeues q out (
        Fifo.get (record {
          capacity = q.max_items;
          waiting = get_or q.pp_buf q.idx_head 0 ∷ contents (drop_head q);
        }))
unfolding Fifo.get
Dequeues-some {q} out v some_left = (
  drop_head q,
  dequeue-drop_head out v some_left,
  drop_head-IsValid v some_left,
  λ i. record { capacity = max_items-drop_head q i; waiting = contents (drop_head q) },
)

-- `ezq_dequeue` stays inside its block, keeps the invariant, and hands over the oldest item, or
-- fails on an empty queue with `*pp_out` unchanged, as the abstract queue does.
pub dequeue_refines : {q : EzQueue} (out : Ptr) → IsValid q → Dequeues q out (Fifo.get (as_fifo q))
dequeue_refines {q} out v = elim (dec_lt 0 q.num_items) [
  | yes some_left ↦
      rw
        (ap (λ xs. Fifo.get (record { capacity = q.max_items; waiting = xs }))
          (contents-head v some_left))
        (Dequeues-some out v some_left)
  | no none_left ↦
      let e : q.num_items ≡ 0 = omega arith in
      rw (Fifo.get_nothing (as_fifo q) (length-contents q ∙ e)) (q, dequeue_empty q out e, v, refl)
]
