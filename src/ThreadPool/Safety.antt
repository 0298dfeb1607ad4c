-- ===== src/ThreadPool/Safety.antt =====
-- What holds of a pool of workers, whatever their number and in whatever order they move.
use multithreaded_c_server.Common.{
  ℕ, ◌||◌, ◌⊎◌, ◌+◌, ◌^◌, ◌<◌, ◌≤◌, ◌≡◌, inl, inr, refl, sym, ap, ◌∙◌, arith, Bool-cases, true,
  false, some, List, [], ◌∷◌, length, length-set, length-replicate, get_elem?, Ptr,
}
use multithreaded_c_server.CoinQueue.Chain.{Cell, tasks}
use multithreaded_c_server.ThreadPool.Shared.{Shared}
use multithreaded_c_server.ThreadPool.Worker
use multithreaded_c_server.ThreadPool.Worker.{Pc, at_top, ended, Move}
use multithreaded_c_server.ThreadPool.Boss.{waited}
use multithreaded_c_server.ThreadPool.System.{Pool, boss_moves, worker_moves, Reach, start, later}
use multithreaded_c_server.ThreadPool.Counts.{count, sum_of, sum_of-set, sum_of-le}
use multithreaded_c_server.ThreadPool.Invariant.{
  in_hand, counts, counts-le, in_queue, barges, in_counter, boss_in_queue, boss_in_counter,
  saw_empty, Queued,
}
use multithreaded_c_server.ThreadPool.Submits.{BossMove-BossEffect}
use multithreaded_c_server.ThreadPool.Steps.{Reach-Inv}

-- A worker that stands before its unlock and does not barge in has locked the queue.
section-in_queue : (p : Pc) → (in_queue p || barges p) ≡ true → barges p ≡ false → in_queue p ≡ true
section-in_queue p inside orderly = ground arith

-- Two threads are in a section of the queue's mutex together only through a worker whose last lock
-- of it failed, which goes on without the mutex: of two workers between a lock of the queue, taken
-- or failed, and the unlock that follows, one has passed a failed lock on its way out, or they are
-- the same and the owner of the pool is in none of its sections. This is said of every state up to
-- the first unlock of a mutex that is not held, which is undefined.
pub queue_exclusive :
    {n : ℕ} {s : Pool} (i j : ℕ) {p r : Pc}
    → Reach n s
    → get_elem? s.workers i ≡ some p
    → get_elem? s.workers j ≡ some r
    → (in_queue p || barges p) ≡ true
    → (in_queue r || barges r) ≡ true
    → ((barges p || barges r) ≡ true) ⊎ ((i ≡ j) × (boss_in_queue s.boss ≡ false))
queue_exclusive {s} i j {p} {r} reach at_i at_j in_i in_j =
    elim (Bool-cases (barges p || barges r)) [
      | inl barging ↦ inl barging
      | inr orderly ↦
          let v = Reach-Inv reach in
          let mine = v.queue_held i p at_i (section-in_queue p in_i (ground arith)) in
          let theirs = v.queue_held j r at_j (section-in_queue r in_j (ground arith)) in
          inr (
            ground arith,
            elim (Bool-cases (boss_in_queue s.boss)) [
              | inl e ↦ let boss = v.boss_queue e in absurd (ground arith)
              | inr e ↦ e
            ],
          )
    ]

-- The same of the mutex of `active_tasks`.
pub counter_exclusive :
    {n : ℕ} {s : Pool} (i j : ℕ) {p r : Pc}
    → Reach n s
    → get_elem? s.workers i ≡ some p
    → get_elem? s.workers j ≡ some r
    → in_counter p ≡ true
    → in_counter r ≡ true
    → (i ≡ j) × (boss_in_counter s.boss ≡ false)
counter_exclusive {s} i j {p} {r} reach at_i at_j in_i in_j =
    let v = Reach-Inv reach in
    let mine = v.counter_held i p at_i in_i in
    let theirs = v.counter_held j r at_j in_j in
    (
      ground arith,
      elim (Bool-cases (boss_in_counter s.boss)) [
        | inl e ↦ let boss = v.boss_counter e in absurd (ground arith)
        | inr e ↦ e
      ],
    )

-- No task is lost and none is run twice: the work queue is a list of nodes, and each task was
-- submitted as often as it is in that list, in the hands of a worker, run, or let go of by a worker
-- that failed, taken together.
pub tasks_accounted :
    {n : ℕ} {s : Pool}
    → Reach n s
    → (cs : List Cell) × Queued s.shared.heap s.shared.work_queue cs
      × ((t : Ptr)
          → count t s.shared.submitted
            ≡ count t (tasks cs)
              + sum_of (λ p. count t (in_hand p)) s.workers
              + count t s.shared.ran
              + count t s.shared.dropped)
tasks_accounted reach = let v = Reach-Inv reach in (v.cells, v.queued, v.accounted)

Reach-length : {n : ℕ} {s : Pool} → Reach n s → length s.workers ≡ n
Reach-length {n} start = length-replicate {A = Pc} n at_top
Reach-length (later r (boss_moves mv)) = Reach-length r
Reach-length (later {s} r (worker_moves i {p'} at mv)) = length-set s.workers i p' ∙ Reach-length r

-- `active_tasks` is the number of workers that have counted themselves in and not out again, if
-- there are fewer than 2^64 workers.
pub counter_exact :
    {n : ℕ} {s : Pool} → n < 2 ^ 64 → Reach n s → s.shared.active_tasks ≡ sum_of counts s.workers
counter_exact {s} few reach =
    omega
      (arith, (Reach-Inv reach).counted, sum_of-le counts counts-le s.workers, Reach-length reach)

-- When `coin_tpool_wait` has returned COIN_SUCCESS, the queue is empty: every task that was
-- submitted has been run, or is in the hands of a worker, or was let go of by a worker that failed.
pub wait_empties :
    {n : ℕ} {s : Pool} (t : Ptr)
    → Reach n s
    → s.boss ≡ waited
    → (s.shared.work_queue.size ≡ 0)
      × (count t s.shared.submitted
          ≡ sum_of (λ p. count t (in_hand p)) s.workers
            + count t s.shared.ran
            + count t s.shared.dropped)
wait_empties t reach done =
    let v = Reach-Inv reach in
    let empty = v.drained (ap saw_empty done) in
    (
      empty,
      omega (arith, v.accounted t, ap (count t) (no_tasks v.cells (sym v.queued.short ∙ empty))),
    )
  where
    no_tasks : (cs : List Cell) → length cs ≡ 0 → tasks cs ≡ []
    no_tasks [] e = refl
    no_tasks (c ∷ cs) e = absurd (omega arith)

-- Whether a worker has left its loop.
abbrev pub has_left : Pc → ℕ
has_left (Worker.leaving err c) = 1
has_left (Worker.closing locked err c) = 1
has_left (Worker.stranded err c) = 1
has_left (ended err c) = 1
has_left _ = 0

Move-dropped :
    {me : ℕ} {m m' : Shared} {p p' : Pc}
    → Move me m p m' p'
    → length m'.dropped + has_left p ≤ length m.dropped + has_left p'
Move-dropped (Worker.lock_queue free) = omega arith
Move-dropped (Worker.lock_queue_fails bad) = omega arith
Move-dropped (Worker.sleep up none_there) = omega arith
Move-dropped (Worker.wake free) = omega arith
Move-dropped (Worker.sleep_fails up none_there) = omega arith
Move-dropped (Worker.proceed why) = omega arith
Move-dropped (Worker.stop down) = omega arith
Move-dropped (Worker.stop_fails down bad) = omega arith
Move-dropped (Worker.take up popped real) = omega arith
Move-dropped (Worker.corrupted up popped bad u) = omega arith
Move-dropped (Worker.corrupted_null up popped u) = omega arith
Move-dropped Worker.unlock_queue = omega arith
Move-dropped (Worker.unlock_queue_fails bad u) = omega arith
Move-dropped (Worker.lock_counter free) = omega arith
Move-dropped (Worker.lock_counter_fails bad) = omega arith
Move-dropped Worker.count_in = omega arith
Move-dropped Worker.unlock_counter = omega arith
Move-dropped (Worker.unlock_counter_fails bad u) = omega arith
Move-dropped Worker.work = omega arith
Move-dropped (Worker.lock_again free) = omega arith
Move-dropped (Worker.lock_again_fails bad) = omega arith
Move-dropped Worker.count_out = omega arith
Move-dropped Worker.unlock_again = omega arith
Move-dropped (Worker.unlock_again_fails bad u) = omega arith
Move-dropped (Worker.lock_to_close free) = omega arith
Move-dropped Worker.close_unlocked = omega arith
Move-dropped (Worker.close u) = omega arith
Move-dropped (Worker.close_held still u) = omega arith
Move-dropped (Worker.close_barging other) = omega arith

-- Tasks are let go of only by workers that leave their loop for good, at most one by each: while
-- all workers are in their loops, every task that was taken is run or in hand.
pub dropped_by_leavers :
    {n : ℕ} {s : Pool} → Reach n s → length s.shared.dropped ≤ sum_of has_left s.workers
dropped_by_leavers start = omega arith
dropped_by_leavers (later r (boss_moves mv)) = omega (
  arith,
  dropped_by_leavers r,
  ap length (BossMove-BossEffect (Reach-Inv r).queued mv).same_dropped,
)
dropped_by_leavers (later {s} r (worker_moves i {p'} at mv)) =
    omega (arith, dropped_by_leavers r, Move-dropped mv, sum_of-set has_left s.workers i p' at)
