-- ===== src/ThreadPool/Invariant.antt =====
-- What holds of the pool in every reachable state: who holds the mutexes, where the tasks are, and
-- what `active_tasks` counts.
use multithreaded_c_server.Common.{
  ℕ, not, suc, ◌+◌, ◌%◌, ◌^◌, ◌≤◌, arith, ◌≡◌, Bool, true, false, some, List, [], ◌∷◌, length,
  get_elem?, Ptr,
}
use multithreaded_c_server.CoinQueue.{CoinQueue, Heap}
use multithreaded_c_server.CoinQueue.Chain.{Cell, tasks, IsQueue}
use multithreaded_c_server.ThreadPool.Shared.{Owner}
use multithreaded_c_server.ThreadPool.Worker
use multithreaded_c_server.ThreadPool.Worker.{Pc}
use multithreaded_c_server.ThreadPool.Boss
use multithreaded_c_server.ThreadPool.Boss.{BossPc}
use multithreaded_c_server.ThreadPool.System.{Pool}
use multithreaded_c_server.ThreadPool.Counts.{count, sum_of}

-- The task that a worker has in hand.
abbrev pub in_hand : Pc → List Ptr
in_hand (Worker.popped task) = task ∷ []
in_hand (Worker.handed task) = task ∷ []
in_hand (Worker.counting task) = task ∷ []
in_hand (Worker.counted task) = task ∷ []
in_hand (Worker.working task) = task ∷ []
in_hand _ = []

abbrev pub bit : Bool → ℕ
bit true = 1
bit false = 0

-- Whether `active_tasks` counts a worker.
abbrev pub counts : Pc → ℕ
counts (Worker.counted task) = 1
counts (Worker.working task) = 1
counts Worker.finished = 1
counts Worker.uncounting = 1
counts (Worker.leaving err c) = bit c
counts (Worker.closing locked err c) = bit c
counts (Worker.stranded err c) = bit c
counts (Worker.ended err c) = bit c
counts _ = 0

bit-le : (c : Bool) → bit c ≤ 1
bit-le true = omega arith
bit-le false = omega arith

pub counts-le : (p : Pc) → counts p ≤ 1
counts-le Worker.at_top = omega arith
counts-le Worker.checking = omega arith
counts-le Worker.asleep = omega arith
counts-le Worker.popping = omega arith
counts-le (Worker.popped task) = omega arith
counts-le (Worker.handed task) = omega arith
counts-le (Worker.counting task) = omega arith
counts-le (Worker.counted task) = omega arith
counts-le (Worker.working task) = omega arith
counts-le Worker.finished = omega arith
counts-le Worker.uncounting = omega arith
counts-le Worker.uncounted = omega arith
counts-le (Worker.leaving err c) = bit-le c
counts-le (Worker.closing locked err c) = bit-le c
counts-le (Worker.stranded err c) = bit-le c
counts-le (Worker.ended err c) = bit-le c

-- Whether a worker is between a lock of the queue that worked and its unlock, or of the counter.
abbrev pub in_queue : Pc → Bool
in_queue Worker.checking = true
in_queue Worker.popping = true
in_queue (Worker.popped task) = true
in_queue (Worker.closing locked err c) = locked
in_queue _ = false

-- Whether a worker has passed the last lock of the queue although it failed.
abbrev pub barges : Pc → Bool
barges (Worker.closing locked err c) = not locked
barges (Worker.stranded err c) = true
barges _ = false

abbrev pub in_counter : Pc → Bool
in_counter (Worker.counting task) = true
in_counter (Worker.counted task) = true
in_counter Worker.uncounting = true
in_counter Worker.uncounted = true
in_counter _ = false

abbrev pub boss_in_queue : BossPc → Bool
boss_in_queue (Boss.pushing task) = true
boss_in_queue Boss.pushed = true
boss_in_queue Boss.sizing = true
boss_in_queue (Boss.sized empty) = true
boss_in_queue Boss.flagging = true
boss_in_queue Boss.flagged = true
boss_in_queue _ = false

abbrev pub boss_in_counter : BossPc → Bool
boss_in_counter Boss.counting = true
boss_in_counter Boss.idle_seen = true
boss_in_counter _ = false

-- The owner of the pool has seen the queue empty, and has pushed nothing since.
abbrev pub saw_empty : BossPc → Bool
saw_empty (Boss.sized empty) = empty
saw_empty Boss.waited = true
saw_empty _ = false

pub record Queued (h : Heap) (q : CoinQueue) (cs : List Cell) : Type 0 where
  pub chained : IsQueue h q cs
  pub short : q.size ≡ length cs

-- A worker that is inside a section holds its mutex.
abbrev pub Held : (Pc → Bool) → List Pc → Owner → Type 0
Held inside workers owner =
    (i : ℕ) (p : Pc) → get_elem? workers i ≡ some p → inside p ≡ true → owner ≡ some (suc i)

pub record Inv (s : Pool) : Type 0 where
  pub cells : List Cell
  pub queued : Queued s.shared.heap s.shared.work_queue cells
  pub accounted :
      (t : Ptr)
      → count t s.shared.submitted
        ≡ count t (tasks cells)
          + sum_of (λ p. count t (in_hand p)) s.workers
          + count t s.shared.ran
          + count t s.shared.dropped
  pub counted : s.shared.active_tasks ≡ sum_of counts s.workers % 2 ^ 64
  pub queue_held : Held in_queue s.workers s.shared.queue_mutex
  pub counter_held : Held in_counter s.workers s.shared.active_mutex
  pub boss_queue : boss_in_queue s.boss ≡ true → s.shared.queue_mutex ≡ some 0
  pub boss_counter : boss_in_counter s.boss ≡ true → s.shared.active_mutex ≡ some 0
  pub drained : saw_empty s.boss ≡ true → s.shared.work_queue.size ≡ 0
