-- ===== src/EzQueue/Tests.antt =====
-- The queue at concrete inputs.
use mathlib.Core.Option.{some-injective}
use multithreaded_c_server.Common.{
  ℕ, ◌≢◌, ◌⊎◌, ◌+◌, ◌≡◌, refl, sym, ap, ◌∙◌, none, some, List, [], ◌∷◌, arith, length,
  length-replicate, replicate, Ptr, Malloc, MallocLaw, success, failure, is_some,
}
use multithreaded_c_server.EzQueue.{EzQueue, init, enqueue, dequeue, clear, grown}
use multithreaded_c_server.EzQueue.Contents.{IsValid, contents}
use multithreaded_c_server.EzQueue.Fifo
use multithreaded_c_server.EzQueue.Refine.{
  as_fifo, Enqueues, Dequeues, enqueue_refines, dequeue_refines,
}
use multithreaded_c_server.EzQueue.Run.{Op, enqueues, dequeues, run, run_fifo, run_refines}
use multithreaded_c_server.EzQueue.Life.{init-IsValid, clear_lem}

-- 5, 6, 7, round the end of the block; full.
abbrev wrapped : EzQueue
wrapped = record {
  pp_buf = 7 ∷ 5 ∷ 6 ∷ [];
  num_items = 3;
  max_items = 3;
  idx_head = 1;
  idx_tail = 0;
}

-- The same with a NULL in the middle.
abbrev with_null : EzQueue
with_null = record wrapped { pp_buf = 7 ∷ 5 ∷ 0 ∷ [] }

wrapped-IsValid : IsValid wrapped
wrapped-IsValid = record {
  storage = refl;
  positive = omega arith;
  fits = omega arith;
  count = omega arith;
  resting = λ e. absurd (omega arith);
  head_in = λ _. omega arith;
  tail_at = λ _. refl;
}

with_null-IsValid : IsValid with_null
with_null-IsValid = record {
  storage = refl;
  positive = omega arith;
  fits = omega arith;
  count = omega arith;
  resting = λ e. absurd (omega arith);
  head_in = λ _. omega arith;
  tail_at = λ _. refl;
}

-- A malloc that always has memory, full of 9.
abbrev plenty : Malloc Ptr
plenty n = some (replicate n 9)

plenty-MallocLaw : MallocLaw plenty
plenty-MallocLaw n b e = ap length (sym (some-injective _ _ e)) ∙ length-replicate {A = Ptr} n 9

abbrev script : List Op
script = enqueues plenty 8 ∷ dequeues 99 ∷ dequeues 99 ∷ enqueues plenty 4 ∷ []

contents-wrapped : contents wrapped ≡ 5 ∷ 6 ∷ 7 ∷ []
contents-wrapped = refl

-- The full queue is resized: the items stand at the front of the new block.
enqueue-wrapped :
    enqueue plenty (some wrapped) 8
    ≡ some (
      success,
      some (record {
        pp_buf = 5 ∷ 6 ∷ 7 ∷ 8 ∷ 9 ∷ 9 ∷ [];
        num_items = 4;
        max_items = 6;
        idx_head = 0;
        idx_tail = 3;
      }),
    )
unfolding enqueue grown multithreaded_c_server.EzQueue.copy_items
enqueue-wrapped = refl

-- With no memory the queue stays as it is.
enqueue_no_memory : enqueue (λ _. none) (some wrapped) 8 ≡ some (failure, some wrapped)
unfolding enqueue grown
enqueue_no_memory = refl

run_refines_example : run (some wrapped) script ≡ some (run_fifo (as_fifo wrapped) script)
run_refines_example = run_refines script (plenty-MallocLaw, (plenty-MallocLaw, tt)) wrapped-IsValid

enqueue_refines_example :
    Enqueues plenty wrapped 8 (Fifo.put (is_some (plenty (grown 3))) (as_fifo wrapped) 8)
enqueue_refines_example = enqueue_refines plenty 8 plenty-MallocLaw wrapped-IsValid

dequeue_refines_example : Dequeues wrapped 99 (Fifo.get (as_fifo wrapped))
dequeue_refines_example = dequeue_refines 99 wrapped-IsValid

init-IsValid_example :
    ((◌≢◌ {A = ℕ} 2 0)
      × (plenty 2 ≢ none)
      × (q' : EzQueue) × (init plenty (some wrapped) 2 ≡ (success, some q'))
      × IsValid q'
      × (contents q' ≡ [])
      × (q'.max_items ≡ 2))
    ⊎ (((◌≡◌ {A = ℕ} 2 0) ⊎ (plenty 2 ≡ none))
        × (init plenty (some wrapped) 2 ≡ (failure, some wrapped)))
init-IsValid_example = init-IsValid plenty wrapped 2 plenty-MallocLaw (omega arith)

-- The callback adds up the addresses that it is given.
clear_lem_example :
    (q' : EzQueue) × (clear (some ◌+◌) (some with_null) 1 ≡ some (success, some q', 13))
    × IsValid q'
    × (contents q' ≡ [])
    × (q'.max_items ≡ 3)
clear_lem_example = clear_lem (some ◌+◌) 1 with_null-IsValid
