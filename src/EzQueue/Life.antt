-- ===== src/EzQueue/Life.antt =====
-- `ezq_init`, and `ezq_clear`, which empties a queue through a callback.
use native.Mathlib.Decide.{dec_lt}
use mathlib.Core.List.{foldl}
use multithreaded_c_server.Common.{
  ℕ, zero, suc, ◌≤◌, ◌<◌, ◌≡◌, refl, ap, sym, ◌∙◌, Option, none, some, List, [], ◌∷◌, lt→ltb, arith,
  Ptr, Malloc, MallocLaw, null, success, uint16_max, get_or, ◌==◌, if◌then◌else◌, ltb, Bool-cases,
  inl, inr, ◌≢◌, ◌⊎◌, failure, Option-cases,
}
use multithreaded_c_server.EzQueue.{EzQueue, init, clear, clear_loop, release, drop_head}
use multithreaded_c_server.EzQueue.Contents.{IsValid, contents, items}
use multithreaded_c_server.EzQueue.Take.{
  contents-head, drop_head-IsValid, dequeue_object_lem, num_items-drop_head, max_items-drop_head,
}

-- With a size other than 0 and memory for it, the queue is made, valid and empty.
pub init-made :
    (malloc : Malloc Ptr) (q : EzQueue) (max_items : ℕ) {block : List Ptr}
    → MallocLaw malloc
    → 0 < max_items
    → max_items ≤ uint16_max
    → malloc max_items ≡ some block
    → (q' : EzQueue) × (init malloc (some q) max_items ≡ (success, some q'))
      × IsValid q'
      × (contents q' ≡ [])
      × (q'.max_items ≡ max_items)
unfolding init
init-made malloc q max_items {block} law pos small e = (fresh, ground arith, valid, refl, refl)
  where
    fresh : EzQueue
    fresh = record {
      pp_buf = block;
      num_items = 0;
      max_items = max_items;
      idx_head = uint16_max;
      idx_tail = uint16_max;
    }

    valid : IsValid fresh
    valid = record {
      storage = law _ _ e;
      positive = pos;
      fits = small;
      count = omega arith;
      resting = λ _. (refl, refl);
      head_in = λ absent. absurd (omega arith);
      tail_at = λ absent. absurd (omega arith);
    }

-- `ezq_init` accepts exactly the sizes other than 0 for which malloc has memory. What it accepts
-- is valid and empty, with the size that was asked for; a refusal leaves the queue as it was.
-- malloc gives as many slots as it is asked for; the size fits in 16 bits.
pub init-IsValid :
    (malloc : Malloc Ptr) (q : EzQueue) (max_items : ℕ)
    → MallocLaw malloc
    → max_items ≤ uint16_max
    → ((max_items ≢ 0)
        × (malloc max_items ≢ none)
        × (q' : EzQueue) × (init malloc (some q) max_items ≡ (success, some q'))
        × IsValid q'
        × (contents q' ≡ [])
        × (q'.max_items ≡ max_items))
      ⊎ (((max_items ≡ 0) ⊎ (malloc max_items ≡ none))
          × (init malloc (some q) max_items ≡ (failure, some q)))
unfolding init
init-IsValid malloc q zero law small = inr (inl refl, refl)
init-IsValid malloc q (suc n) law small = elim (Option-cases (malloc (suc n))) [
  | inl full ↦ inr (inr full, ground arith)
  | inr (block, given) ↦
      let (q', made, valid, empty, size) =
        init-made malloc q (suc n) law (omega arith) small given in
      inl ((λ e. omega arith), (λ full. ground arith), q', made, valid, empty, size)
]

abbrev pub non_null : List Ptr → List Ptr
non_null [] = []
non_null (x ∷ xs) = if x == null then non_null xs else x ∷ non_null xs

-- The callback made on each item of a list that is not NULL, in order.
abbrev pub notify {ℓ} : {S : Type ℓ} → Option (Ptr → S → S) → List Ptr → S → S
notify none xs s = s
notify (some f) xs s = foldl (λ t x. f x t) s (non_null xs)

notify-cons :
    {S : Type 0} (free_func : Option (Ptr → S → S)) (x : Ptr) (xs : List Ptr) (s : S)
    → notify free_func (x ∷ xs) s ≡ notify free_func xs (release free_func x s)
unfolding release
notify-cons none x xs s = refl
notify-cons (some f) x xs s = elim (Bool-cases (x == null)) [ inl e ↦ rw e | inr e ↦ rw e ]

notify-nil : {S : Type 0} (free_func : Option (Ptr → S → S)) (s : S) → notify free_func [] s ≡ s
notify-nil none s = refl
notify-nil (some f) s = refl

module _ {S : Type 0} (free_func : Option (Ptr → S → S)) where
  -- What the clearing of `q` from the state `s` leaves.
  abbrev pub Clears : EzQueue → S → Option (EzQueue × S) → Type 0
  Clears q s out =
      (q' : EzQueue) × (out ≡ some (q', notify free_func (contents q) s))
      × IsValid q'
      × (contents q' ≡ [])
      × (q'.max_items ≡ q.max_items)

  clear_loop-Clears :
      (fuel : ℕ) {q : EzQueue} (s : S)
      → IsValid q
      → q.num_items < fuel
      → Clears q s (clear_loop free_func fuel q s)
  unfolding clear_loop
  clear_loop-Clears zero s v enough = absurd (omega arith)
  clear_loop-Clears (suc fuel) {q} s v enough = elim (dec_lt 0 q.num_items) [
    | yes some_left ↦
        let (q', e, w, gone, same) =
          clear_loop-Clears fuel {q = drop_head q}
            (release free_func (get_or q.pp_buf q.idx_head 0) s) (drop_head-IsValid v some_left)
            (omega (arith, num_items-drop_head v some_left)) in
        (
          q',
          rw (lt→ltb 0 q.num_items some_left, dequeue_object_lem null v some_left)
              (e
                ∙ ap (λ t. some (q', t))
                    (sym (
                      ap (λ xs. notify free_func xs s) (contents-head v some_left)
                      ∙ notify-cons free_func (get_or q.pp_buf q.idx_head 0)
                          (contents (drop_head q)) s))),
          w,
          gone,
          same ∙ max_items-drop_head q,
        )
    | no none_left ↦
        let e : q.num_items ≡ 0 = omega arith in
        let gone : contents q ≡ [] = ap (λ n. items q.pp_buf q.max_items q.idx_head n 0) e in
        (
          q,
          rw (ap (ltb 0) e) (
              ap (λ t. some (q, t))
                (sym (ap (λ xs. notify free_func xs s) gone ∙ notify-nil free_func s))),
          v,
          gone,
          refl,
        )
  ]

  -- `ezq_clear` ends, calls `free_func` on the items that are not NULL in the order of the queue
  -- and on nothing else, and leaves a valid empty queue of the same capacity.
  pub clear_lem :
      {q : EzQueue} (s : S)
      → IsValid q
      → (q' : EzQueue) × (clear free_func (some q) s
          ≡ some (success, some q', notify free_func (contents q) s))
        × IsValid q'
        × (contents q' ≡ [])
        × (q'.max_items ≡ q.max_items)
  unfolding clear
  clear_lem {q} s v =
      let (q', e, w, gone, same) = clear_loop-Clears (suc q.num_items) s v (omega arith) in
      (q', rw e, w, gone, same)
