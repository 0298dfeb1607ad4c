-- ===== src/ThreadPool/Tasks.antt =====
-- What a step of a worker does to the tasks, to the queue and to the counter.
use mathlib.Core.Option.{some-injective}
use multithreaded_c_server.Common.{
  ℕ, ◌+◌, ◌%◌, ◌^◌, ◌≤◌, ◌≡◌, refl, sym, ap, subst, ◌∙◌, arith, some, List, [], ◌∷◌, length, Ptr,
  null,
}
use multithreaded_c_server.CoinQueue.{
  CoinQueue, Heap, Status, coin_success, coin_empty_queue_error, pop,
}
use multithreaded_c_server.CoinQueue.Chain.{Cell, tasks}
use multithreaded_c_server.CoinQueue.Pop.{pop_node, pop_nothing}
use multithreaded_c_server.ThreadPool.Shared.{Shared}
use multithreaded_c_server.ThreadPool.Worker
use multithreaded_c_server.ThreadPool.Worker.{Pc, Move}
use multithreaded_c_server.ThreadPool.Counts.{count}
use multithreaded_c_server.ThreadPool.Invariant.{in_hand, counts, Queued}

-- A step of a worker from `p` to `p'` keeps `active_tasks` the number of those it counts.
pub Move-counts :
    {me : ℕ} {m m' : Shared} {p p' : Pc} (before after : ℕ)
    → Move me m p m' p'
    → after + counts p ≡ before + counts p'
    → m.active_tasks ≡ before % 2 ^ 64
    → m'.active_tasks ≡ after % 2 ^ 64
Move-counts before after (Worker.lock_queue free) e h = omega arith
Move-counts before after (Worker.lock_queue_fails bad) e h = omega arith
Move-counts before after (Worker.sleep up none_there) e h = omega arith
Move-counts before after (Worker.wake free) e h = omega arith
Move-counts before after (Worker.sleep_fails up none_there) e h = omega arith
Move-counts before after (Worker.proceed why) e h = omega arith
Move-counts before after (Worker.stop down) e h = omega arith
Move-counts before after (Worker.stop_fails down bad) e h = omega arith
Move-counts before after (Worker.take up popped real) e h = omega arith
Move-counts before after (Worker.corrupted up popped bad u) e h = omega arith
Move-counts before after (Worker.corrupted_null up popped u) e h = omega arith
Move-counts before after Worker.unlock_queue e h = omega arith
Move-counts before after (Worker.unlock_queue_fails bad u) e h = omega arith
Move-counts before after (Worker.lock_counter free) e h = omega arith
Move-counts before after (Worker.lock_counter_fails bad) e h = omega arith
Move-counts before after Worker.count_in e h = omega arith
Move-counts before after Worker.unlock_counter e h = omega arith
Move-counts before after (Worker.unlock_counter_fails bad u) e h = omega arith
Move-counts before after Worker.work e h = omega arith
Move-counts before after (Worker.lock_again free) e h = omega arith
Move-counts before after (Worker.lock_again_fails bad) e h = omega arith
Move-counts before after Worker.count_out e h = omega arith
Move-counts before after Worker.unlock_again e h = omega arith
Move-counts before after (Worker.unlock_again_fails bad u) e h = omega arith
Move-counts before after (Worker.lock_to_close free) e h = omega arith
Move-counts before after Worker.close_unlocked e h = omega arith
Move-counts before after (Worker.close u) e h = omega arith
Move-counts before after (Worker.close_held still u) e h = omega arith
Move-counts before after (Worker.close_barging other) e h = omega arith

-- The results of a pop: the queue is empty, or its first task comes out.
data Pops (h : Heap) (q : CoinQueue) (cs : List Cell) (status : Status) (q' : CoinQueue)
    (task : Ptr) (h' : Heap) : Type 0 where
  nothing :
      cs ≡ [] → status ≡ coin_empty_queue_error → q ≡ q' → h ≡ h' → Pops h q cs status q' task h'
  first :
      {rest : List Cell} (c : Cell)
      → cs ≡ c ∷ rest
      → status ≡ coin_success
      → c.1 ≡ task
      → Queued h' q' rest
      → Pops h q cs status q' task h'

pop-Pops :
    {h h' : Heap} {q q' : CoinQueue} {task : Ptr} {status : Status} (cs : List Cell)
    → Queued h q cs
    → pop (some q) (some null) h ≡ some (status, some q', some task, h')
    → Pops h q cs status q' task h'
pop-Pops {h} {h'} {q} {q'} [] s e =
    let same = some-injective _ _ (sym (pop_nothing null s.chained) ∙ e) in
    nothing refl (ap (λ r. r.0) (sym same)) (some-injective _ _ (ap (λ r. r.1) same))
      (ap (λ r. r.3) same)
pop-Pops {h} {h'} {q} {q'} (c ∷ cs) s e =
    let (q1, h1, done, s1) = pop_node c cs null s.chained in
    let same = some-injective _ _ (sym done ∙ e) in
    let queue : q1 ≡ q' = some-injective _ _ (ap (λ r. r.1) same) in
    let heap : h1 ≡ h' = ap (λ r. r.3) same in
    first c refl (ap (λ r. r.0) (sym same)) (some-injective _ _ (ap (λ r. r.2) same)) (
      subst (λ k. Queued k q' cs) heap
        (subst (λ k. Queued h1 k cs) queue
          (record { chained = s1; short = omega (arith, s1.counted, s.short, s.chained.counted) })))

-- A step of a worker keeps a queue a queue, puts nothing into it, and every task that it takes out
-- of one place turns up in another.
pub record Effect (m m' : Shared) (p p' : Pc) (cs : List Cell) : Type 0 where
  pub cells : List Cell
  pub queued : Queued m'.heap m'.work_queue cells
  pub same_submitted : m'.submitted ≡ m.submitted
  pub shrinks : m'.work_queue.size ≤ m.work_queue.size
  pub moved :
      (t : Ptr)
      → count t (tasks cells) + count t (in_hand p') + count t m'.ran + count t m'.dropped
        ≡ count t (tasks cs) + count t (in_hand p) + count t m.ran + count t m.dropped

taken :
    {h h' : Heap} {q q' : CoinQueue} {task : Ptr} {status : Status} {cs : List Cell}
    → Queued h q cs
    → Pops h q cs status q' task h'
    → status ≡ coin_success
    → (rest : List Cell) × Queued h' q' rest × (q'.size ≤ q.size) × (tasks cs ≡ task ∷ tasks rest)
taken s (nothing none_left st same_q same_h) ok = absurd (ground arith)
taken s (first {rest} c e st at s') ok = (
  rest,
  s',
  omega (arith, s.short, s'.short, ap length e),
  ap tasks e ∙ ap (λ t. t ∷ tasks rest) at,
)

unchanged :
    {m m' : Shared} {p p' : Pc} {cs : List Cell}
    → Queued m'.heap m'.work_queue cs
    → m'.submitted ≡ m.submitted
    → m'.work_queue.size ≤ m.work_queue.size
    → ((t : Ptr)
        → count t (in_hand p') + count t m'.ran + count t m'.dropped
          ≡ count t (in_hand p) + count t m.ran + count t m.dropped)
    → Effect m m' p p' cs
unchanged {cs} s same fewer moved = record {
  cells = cs;
  queued = s;
  same_submitted = same;
  shrinks = fewer;
  moved = λ t. omega (arith, moved t);
}

pub Move-Effect :
    {me : ℕ} {m m' : Shared} {p p' : Pc} {cs : List Cell}
    → Queued m.heap m.work_queue cs
    → Move me m p m' p'
    → Effect m m' p p' cs
Move-Effect s (Worker.lock_queue free) = unchanged s refl (omega arith) (λ t. omega arith)
Move-Effect s (Worker.lock_queue_fails bad) = unchanged s refl (omega arith) (λ t. omega arith)
Move-Effect s (Worker.sleep up none_there) = unchanged s refl (omega arith) (λ t. omega arith)
Move-Effect s (Worker.wake free) = unchanged s refl (omega arith) (λ t. omega arith)
Move-Effect s (Worker.sleep_fails up none_there) = unchanged s refl (omega arith) (λ t. omega arith)
Move-Effect s (Worker.proceed why) = unchanged s refl (omega arith) (λ t. omega arith)
Move-Effect s (Worker.stop down) = unchanged s refl (omega arith) (λ t. omega arith)
Move-Effect s (Worker.stop_fails down bad) = unchanged s refl (omega arith) (λ t. omega arith)
Move-Effect s (Worker.take up popped real) =
    let (rest, s', fewer, split) = taken s (pop-Pops _ s popped) refl in
    record {
      cells = rest;
      queued = s';
      same_submitted = refl;
      shrinks = fewer;
      moved = λ t. omega (arith, ap (count t) split);
    }
Move-Effect {m} {cs} s (Worker.corrupted {q} up popped bad u) = elim (pop-Pops _ s popped) [
  | nothing none_left st same_q same_h ↦ record {
    cells = cs;
    queued = subst (λ k. Queued k q cs) same_h (subst (λ k. Queued m.heap k cs) same_q s);
    same_submitted = refl;
    shrinks = omega (arith, ap CoinQueue.size same_q);
    moved = λ t. omega arith;
  }
  | first c e st at s' ↦ absurd (bad st)
]
Move-Effect s (Worker.corrupted_null up popped u) =
    let (rest, s', fewer, split) = taken s (pop-Pops _ s popped) refl in
    record {
      cells = rest;
      queued = s';
      same_submitted = refl;
      shrinks = fewer;
      moved = λ t. omega (arith, ap (count t) split);
    }
Move-Effect s Worker.unlock_queue = unchanged s refl (omega arith) (λ t. omega arith)
Move-Effect s (Worker.unlock_queue_fails bad u) = unchanged s refl (omega arith) (λ t. omega arith)
Move-Effect s (Worker.lock_counter free) = unchanged s refl (omega arith) (λ t. omega arith)
Move-Effect s (Worker.lock_counter_fails bad) = unchanged s refl (omega arith) (λ t. omega arith)
Move-Effect s Worker.count_in = unchanged s refl (omega arith) (λ t. omega arith)
Move-Effect s Worker.unlock_counter = unchanged s refl (omega arith) (λ t. omega arith)
Move-Effect s (Worker.unlock_counter_fails bad u) =
    unchanged s refl (omega arith) (λ t. omega arith)
Move-Effect s Worker.work = unchanged s refl (omega arith) (λ t. omega arith)
Move-Effect s (Worker.lock_again free) = unchanged s refl (omega arith) (λ t. omega arith)
Move-Effect s (Worker.lock_again_fails bad) = unchanged s refl (omega arith) (λ t. omega arith)
Move-Effect s Worker.count_out = unchanged s refl (omega arith) (λ t. omega arith)
Move-Effect s Worker.unlock_again = unchanged s refl (omega arith) (λ t. omega arith)
Move-Effect s (Worker.unlock_again_fails bad u) = unchanged s refl (omega arith) (λ t. omega arith)
Move-Effect s (Worker.lock_to_close free) = unchanged s refl (omega arith) (λ t. omega arith)
Move-Effect s Worker.close_unlocked = unchanged s refl (omega arith) (λ t. omega arith)
Move-Effect s (Worker.close u) = unchanged s refl (omega arith) (λ t. omega arith)
Move-Effect s (Worker.close_held still u) = unchanged s refl (omega arith) (λ t. omega arith)
Move-Effect s (Worker.close_barging other) = unchanged s refl (omega arith) (λ t. omega arith)
