-- ===== src/CoinQueue/Fifo.antt =====
-- The task queue against a list of tasks.
use native.Mathlib.Decide.{ℕ_discrete}
use multithreaded_c_server.Common.{
  ℕ, suc, ◌≡◌, ◌≢◌, refl, inl, inr, true, Option-cases, subst, arith, Option, none, some, List, [],
  ◌∷◌, ◌++◌, Ptr, null, get_or_else, ◌>>=◌, ◌==◌,
}
use multithreaded_c_server.CoinQueue.{
  Status, coin_success, coin_invalid_input, coin_allocation_failure, coin_empty_queue_error,
  CoinQueue, Heap, init, destroy, push, pop,
}
use multithreaded_c_server.CoinQueue.Chain.{Cell, tasks, tasks-append, IsQueue}
use multithreaded_c_server.CoinQueue.Push.{Fresh, push_node}
use multithreaded_c_server.CoinQueue.Pop.{pop_node, pop_nothing}

pub data Op : Type 0 where
  pushes : Ptr → Op
  pops : Op

-- What the calls return, each with its task and the heap that it met; `none` if one of them
-- touches what is not allocated.
pub run :
    (Heap → Option Ptr) → Option CoinQueue → Heap → List Op → Option (List (Status × Ptr × Heap))
run calloc q h [] = some []
run calloc q h (pushes task ∷ ops) = do
  (status, q', h') ← push calloc q task h
  rest ← run calloc q' h' ops
  some ((status, task, h) ∷ rest)
run calloc q h (pops ∷ ops) = do
  (status, q', out, h') ← pop q (some null) h
  rest ← run calloc q' h' ops
  some ((status, get_or_else out null, h) ∷ rest)

-- What a list of tasks, the oldest first, answers to the calls. A task is refused exactly where
-- calloc has no memory on the heap that the call met.
pub data Answers (calloc : Heap → Option Ptr)
    : List Ptr → List Op → List (Status × Ptr × Heap) → Type 0 where
  ends : {ts : List Ptr} → Answers calloc ts [] []
  stored :
      {ts : List Ptr} {task : Ptr} {ops : List Op} {rs : List (Status × Ptr × Heap)} {h : Heap}
      → task ≢ null
      → calloc h ≢ none
      → Answers calloc (ts ++ task ∷ []) ops rs
      → Answers calloc ts (pushes task ∷ ops) ((coin_success, task, h) ∷ rs)
  refused :
      {ts : List Ptr} {task : Ptr} {ops : List Op} {rs : List (Status × Ptr × Heap)} {h : Heap}
      → task ≢ null
      → calloc h ≡ none
      → Answers calloc ts ops rs
      → Answers calloc ts (pushes task ∷ ops) ((coin_allocation_failure, task, h) ∷ rs)
  rejected :
      {ts : List Ptr} {task : Ptr} {ops : List Op} {rs : List (Status × Ptr × Heap)} {h : Heap}
      → task ≡ null
      → Answers calloc ts ops rs
      → Answers calloc ts (pushes task ∷ ops) ((coin_invalid_input, task, h) ∷ rs)
  handed :
      {t : Ptr} {ts : List Ptr} {ops : List Op} {rs : List (Status × Ptr × Heap)} {h : Heap}
      → Answers calloc ts ops rs
      → Answers calloc (t ∷ ts) (pops ∷ ops) ((coin_success, t, h) ∷ rs)
  none_left :
      {ops : List Op} {rs : List (Status × Ptr × Heap)} {h : Heap}
      → Answers calloc [] ops rs
      → Answers calloc [] (pops ∷ ops) ((coin_empty_queue_error, null, h) ∷ rs)

pub push-null :
    (calloc : Heap → Option Ptr) (q : CoinQueue) (task : Ptr) (h : Heap)
    → (task == null) ≡ true
    → push calloc (some q) task h ≡ some (coin_invalid_input, some q, h)
unfolding push
push-null calloc q task h e = rw e

pub push-no_memory :
    (calloc : Heap → Option Ptr) (q : CoinQueue) (task : Ptr) (h : Heap)
    → task ≢ null
    → calloc h ≡ none
    → push calloc (some q) task h ≡ some (coin_allocation_failure, some q, h)
unfolding push
push-no_memory calloc q task h real given = ground arith

-- Every sequence of calls on a task queue gets the answers of the list of its tasks, first in,
-- first out, and none of the calls touches memory that is not a node of the queue, as long as
-- calloc keeps its contract. A task that is not NULL is stored where calloc has memory on the
-- heap that the call met, and refused where it has none.
pub run-Answers :
    (calloc : Heap → Option Ptr) (ops : List Op) {h : Heap} {q : CoinQueue} (cs : List Cell)
    → Fresh calloc
    → IsQueue h q cs
    → (rs : List (Status × Ptr × Heap)) × (run calloc (some q) h ops ≡ some rs)
      × Answers calloc (tasks cs) ops rs
unfolding run
run-Answers calloc [] cs law s = ([], refl, ends)
run-Answers calloc (pushes task ∷ ops) {h} {q} cs law s = elim (ℕ_discrete task null) [
  | yes e ↦
      let (rs, done, answers) = run-Answers calloc ops cs law s in
      (
        (coin_invalid_input, task, h) ∷ rs,
        rw (push-null calloc q task h (ground arith), done),
        rejected e answers,
      )
  | no real ↦ elim (Option-cases (calloc h)) [
    | inl e ↦
        let (rs, done, answers) = run-Answers calloc ops cs law s in
        (
          (coin_allocation_failure, task, h) ∷ rs,
          rw (push-no_memory calloc q task h real e, done),
          refused real e answers,
        )
    | inr (p, given) ↦
        let (q', h', pushed, s') = push_node calloc cs task p law s real given in
        let (rs, done, answers) = run-Answers calloc ops (cs ++ (p, task) ∷ []) law s' in
        (
          (coin_success, task, h) ∷ rs,
          rw (pushed, done),
          stored real (λ absent. ground arith)
              (subst (λ ts. Answers calloc ts ops rs) (tasks-append cs (p, task)) answers),
        )
  ]
]
run-Answers calloc (pops ∷ ops) {h} {q} [] law s =
    let (rs, done, answers) = run-Answers calloc ops [] law s in
    ((coin_empty_queue_error, null, h) ∷ rs, rw (pop_nothing null s, done), none_left answers)
run-Answers calloc (pops ∷ ops) {h} {q} (c ∷ cs) law s =
    let (q', h', popped, s') = pop_node c cs null s in
    let (rs, done, answers) = run-Answers calloc ops cs law s' in
    ((coin_success, c.1, h) ∷ rs, rw (popped, done), handed answers)

-- A queue that has just been made.
abbrev pub no_tasks : CoinQueue
no_tasks = record { p_head = null; p_tail = null; size = 0 }

pub init-made :
    (created : CoinQueue) → init (some none) (some created) ≡ (coin_success, some (some no_tasks))
unfolding init
init-made created = refl

pub init-no_memory : init (some none) none ≡ (coin_allocation_failure, some none)
unfolding init
init-no_memory = refl

pub destroy-no_tasks :
    (fuel : ℕ) (h : Heap) → destroy (suc fuel) (some no_tasks) h ≡ some (coin_success, none, h, [])
unfolding destroy
destroy-no_tasks fuel h = refl
