-- ===== src/CoinQueue.antt =====
-- The task queue of the thread pool, src/libs/concurinc/src/coin_queue.c: a linked list whose
-- nodes lie on a heap.
pub mod Chain
pub mod Push
pub mod Pop
pub mod Fifo
pub mod Tests
use multithreaded_c_server.Common.{
  ℕ, zero, suc, ◌+◌, ◌-◌, ◌%◌, ◌^◌, Option, none, some, List, [], ◌∷◌, ◌++◌, ◌==◌, if◌then◌else◌,
  Ptr, null, ◌>>=◌,
}

-- `coin_status_t`
pub data Status : Type 0 where
  coin_success coin_generic_failure coin_invalid_input coin_allocation_failure : Status
  coin_thread_creation_failure coin_pthread_mutex_error coin_pthread_cond_error : Status
  coin_pthread_join_error coin_pthread_create_error coin_pthread_sigmask_error : Status
  coin_empty_queue_error : Status

-- `coin_queue_node_t`
pub record Node : Type 0 where
  pub p_task : Ptr
  pub p_next : Ptr

-- `coin_queue_t`
pub record CoinQueue : Type 0 where
  pub p_head : Ptr
  pub p_tail : Ptr
  pub size : ℕ

-- The nodes that are allocated.
abbrev pub Heap : Type 0
Heap = Ptr → Option Node

-- The heap after a write, or a call of free, at an address.
abbrev pub update : Heap → Ptr → Option Node → Heap
update h p node p' = if p' == p then node else h p'

-- `p->p_next = p_next`
pub set_next : Heap → Ptr → Ptr → Option Heap
set_next h p p_next = do node ← h p; some (update h p (some (record node { p_next = p_next })))

-- `pp_queue` is NULL, or holds what `*pp_queue` points to; `created` is what calloc returned.
pub init : Option (Option CoinQueue) → Option CoinQueue → Status × Option (Option CoinQueue)
init none created = (coin_invalid_input, none)
init (some old) none = (coin_allocation_failure, some old)
init (some old) (some created) =
    (coin_success, some (some (record { p_head = null; p_tail = null; size = 0 })))

-- The part of `coin_queue_push` behind the allocation of the node at `p_node`.
pub append_node : CoinQueue → Ptr → Heap → Option (CoinQueue × Heap)
unfolding set_next
append_node q p_node h =
    if q.p_head == null
    then some (record { p_head = p_node; p_tail = p_node; size = (q.size + 1) % 2 ^ 64 }, h)
    else ((if q.p_head == q.p_tail then set_next h q.p_head p_node else set_next h q.p_tail p_node)
        >>= λ h'. some (record q { p_tail = p_node; size = (q.size + 1) % 2 ^ 64 }, h'))

pub push_object : Option Ptr → CoinQueue → Ptr → Heap → Option (Status × CoinQueue × Heap)
unfolding append_node
push_object none q p_task h = some (coin_allocation_failure, q, h)
push_object (some p_node) q p_task h = do
  (q', h') ←
      append_node q p_node (update h p_node (some (record { p_task = p_task; p_next = null })))
  some (coin_success, q', h')

-- `calloc` gives an address for a node, depending on those in use.
pub push :
    (calloc : Heap → Option Ptr)
    → Option CoinQueue
    → Ptr
    → Heap
    → Option (Status × Option CoinQueue × Heap)
unfolding push_object
push calloc none p_task h = some (coin_invalid_input, none, h)
push calloc (some q) p_task h =
    if p_task == null
    then some (coin_invalid_input, some q, h)
    else (push_object (calloc h) q p_task h >>= λ out. some (out.0, some out.1, out.2))

pub take_head : CoinQueue → Node → CoinQueue
take_head q node =
    if q.p_head == q.p_tail
    then record { p_head = null; p_tail = null; size = (q.size + 2 ^ 64 - 1) % 2 ^ 64 }
    else record q { p_head = node.p_next; size = (q.size + 2 ^ 64 - 1) % 2 ^ 64 }

pub pop_object : CoinQueue → Heap → Option (Status × CoinQueue × Ptr × Heap)
unfolding take_head
pop_object q h =
    if q.p_head == null
    then some (coin_empty_queue_error, q, null, h)
    else (h q.p_head >>= λ node.
        some (coin_success, take_head q node, node.p_task, update h q.p_head none))

-- `pp_task` is NULL, or holds the value of `*pp_task`.
pub pop :
    Option CoinQueue → Option Ptr → Heap → Option (Status × Option CoinQueue × Option Ptr × Heap)
unfolding pop_object
pop none none h = some (coin_invalid_input, none, none, h)
pop none (some out) h = some (coin_invalid_input, none, some null, h)
pop (some q) none h = some (coin_invalid_input, some q, none, h)
pop (some q) (some out) h = do
  (status, q', task, h') ← pop_object q h
  some (status, some q', some task, h')

-- The loop of `coin_queue_destroy` from the node `p_cur` on, with `fuel` rounds. It collects the
-- tasks that it frees.
pub destroy_loop : (fuel : ℕ) → Ptr → Heap → List Ptr → Option (Heap × List Ptr)
destroy_loop zero p_cur h freed = none
destroy_loop (suc fuel) p_cur h freed =
    if p_cur == null
    then some (h, freed)
    else (h p_cur >>= λ node.
        destroy_loop fuel node.p_next (update h p_cur none) (freed ++ node.p_task ∷ []))

-- The queue itself is freed last: there is none behind a call that succeeds.
pub destroy :
    (fuel : ℕ) → Option CoinQueue → Heap → Option (Status × Option CoinQueue × Heap × List Ptr)
unfolding destroy_loop
destroy fuel none h = some (coin_invalid_input, none, h, [])
destroy fuel (some q) h = do
  (h', freed) ← destroy_loop fuel q.p_head h []
  some (coin_success, none, h', freed)
