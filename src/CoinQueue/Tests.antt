-- ===== src/CoinQueue/Tests.antt =====
-- The task queue at concrete inputs.
use mathlib.Core.Option.{some-injective}
use multithreaded_c_server.Common.{
  ◌≡◌, refl, sym, ap, ◌∙◌, inl, inr, Option, Option-cases, none, some, List, [], ◌∷◌, arith, Ptr,
  ◌==◌, if◌then◌else◌,
}
use multithreaded_c_server.CoinQueue.{
  Status, coin_success, Node, CoinQueue, Heap, update, push, pop, destroy,
}
use multithreaded_c_server.CoinQueue.Chain.{Cell, IsQueue}
use multithreaded_c_server.CoinQueue.Push.{Fresh}
use multithreaded_c_server.CoinQueue.Pop.{freeing, destroy-freeing}
use multithreaded_c_server.CoinQueue.Fifo.{pushes, pops, Answers, run, run-Answers}

-- Two nodes, at 1 and 2, with the tasks 31 and 32.
abbrev heap : Heap
heap p =
    if p == 1
    then some (record { p_task = 31; p_next = 2 })
    else if p == 2
    then some (record { p_task = 32; p_next = 0 })
    else none

abbrev queue : CoinQueue
queue = record { p_head = 1; p_tail = 2; size = 2 }

abbrev cells : List Cell
cells = (1, 31) ∷ (2, 32) ∷ []

queue-IsQueue : IsQueue heap queue cells
queue-IsQueue = record {
  chain = (refl, (λ e. omega arith), 2, refl, (refl, (λ e. omega arith), 0, refl, refl));
  distinct = (((λ e. omega arith), tt), (tt, tt));
  ends = refl;
  counted = refl;
}

abbrev offered : Option Node → Option Ptr
offered none = some 3
offered (some n) = none

-- A calloc of one address.
abbrev pub one_node : Heap → Option Ptr
one_node h = offered (h 3)

pub one_node-Fresh : Fresh one_node
one_node-Fresh h p e = elim (Option-cases (h 3)) [
  | inl free ↦
      let same : 3 ≡ p = some-injective _ _ (sym (ap offered free) ∙ e) in
      ((λ x. omega arith), sym (ap h same) ∙ free)
  | inr (n, taken) ↦ let clash : none ≡ some p = sym (ap offered taken) ∙ e in absurd (ground arith)
]

run-Answers_example :
    (rs : List (Status × Ptr × Heap)) × (run one_node
        (some queue)
        heap
        (pops ∷ pushes 33 ∷ pushes 34 ∷ pops ∷ pops ∷ [])
      ≡ some rs)
    × Answers one_node (31 ∷ 32 ∷ []) (pops ∷ pushes 33 ∷ pushes 34 ∷ pops ∷ pops ∷ []) rs
run-Answers_example =
    run-Answers one_node (pops ∷ pushes 33 ∷ pushes 34 ∷ pops ∷ pops ∷ []) cells one_node-Fresh
      queue-IsQueue

destroy-freeing_example :
    destroy 3 (some queue) heap ≡ some (coin_success, none, freeing heap cells, 31 ∷ 32 ∷ [])
destroy-freeing_example = destroy-freeing 3 cells queue-IsQueue (omega arith)

-- A push into an empty queue, and the pop of what was pushed.
abbrev pub empty_queue : CoinQueue
empty_queue = record { p_head = 0; p_tail = 0; size = 0 }

abbrev pub one_queue : CoinQueue
one_queue = record { p_head = 3; p_tail = 3; size = 1 }

abbrev pub one_heap : Heap
one_heap = update (λ p. none) 3 (some (record { p_task = 31; p_next = 0 }))

pub push_first :
    push one_node (some empty_queue) 31 (λ p. none) ≡ some (coin_success, some one_queue, one_heap)
unfolding push
push_first = refl

pub pop_only :
    pop (some one_queue) (some 0) one_heap
    ≡ some (coin_success, some empty_queue, some 31, update one_heap 3 none)
unfolding pop
pop_only = refl
