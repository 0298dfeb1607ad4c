-- ===== src/ThreadPool/Progress.antt =====
-- A worker that is let to run takes and runs what is in the queue.
use multithreaded_c_server.Common.{
  ℕ, ◌^◌, ◌<◌, ◌≡◌, ◌≢◌, inr, refl, ap, ◌∙◌, arith, false, none, List, [], ◌∷◌, Ptr, null,
}
use multithreaded_c_server.CoinQueue.{CoinQueue, Heap}
use multithreaded_c_server.CoinQueue.Chain.{Cell, tasks}
use multithreaded_c_server.CoinQueue.Pop.{pop_node}
use multithreaded_c_server.ThreadPool.Shared.{Shared, one_more, one_less}
use multithreaded_c_server.ThreadPool.Worker
use multithreaded_c_server.ThreadPool.Worker.{Pc, at_top, Move}
use multithreaded_c_server.ThreadPool.Invariant.{Queued}
use multithreaded_c_server.ThreadPool.Runs.{Moves, done, next, append-Moves}

-- The tasks run, the last one first, after those of a list were run in its order.
abbrev pub run_in_order : List Ptr → List Ptr → List Ptr
run_in_order [] ran = ran
run_in_order (t ∷ ts) ran = run_in_order ts (t ∷ ran)

abbrev pub AllReal : List Ptr → Type 0
AllReal [] = Unit {0}
AllReal (t ∷ ts) = (t ≢ null) × AllReal ts

-- Both mutexes are free, the pool is not shutting down, and the queue holds some nodes.
pub record Ready (m : Shared) (cs : List Cell) : Type 0 where
  pub queue_free : m.queue_mutex ≡ none
  pub active_free : m.active_mutex ≡ none
  pub running : m.b_shutdown ≡ false
  pub few : m.active_tasks < 2 ^ 64
  pub queued : Queued m.heap m.work_queue cs

-- What one round of a worker's loop makes of the shared state.
abbrev after_round : Shared → CoinQueue → Heap → Ptr → Shared
after_round m q h task = record m {
  work_queue = q;
  heap = h;
  queue_mutex = none;
  active_tasks = one_less (one_more m.active_tasks);
  active_mutex = none;
  ran = task ∷ m.ran;
}

-- One round of the loop runs the first task, whatever the number of the worker.
one_round :
    (me : ℕ) (m : Shared) (c : Cell) (cs : List Cell)
    → c.1 ≢ null
    → Ready m (c ∷ cs)
    → (m' : Shared) × Moves me m at_top m' at_top
      × Ready m' cs
      × (m'.ran ≡ c.1 ∷ m.ran)
      × (m'.active_tasks ≡ m.active_tasks)
one_round me m c cs real r =
    let (q, h, popped, s) = pop_node c cs null r.queued.chained in
    (
      after_round m q h c.1,
      next (Worker.lock_queue r.queue_free) (
          next (Worker.proceed (inr (λ e. omega (arith, r.queued.short)))) (
            next (Worker.take r.running popped real) (
              next Worker.unlock_queue (
                next (Worker.lock_counter r.active_free) (
                  next Worker.count_in (
                    next Worker.unlock_counter (
                      next Worker.work (
                        next (Worker.lock_again refl)
                          (next Worker.count_out (next Worker.unlock_again done)))))))))),
      record {
        queue_free = refl;
        active_free = refl;
        running = r.running;
        few = omega arith;
        queued = record {
          chained = s;
          short = omega (arith, s.counted, r.queued.short, r.queued.chained.counted);
        };
      },
      refl,
      omega (arith, r.few),
    )

-- A worker at the top of its loop that nobody disturbs and that no call fails runs every task of
-- the queue, in the order in which they were submitted, and leaves the queue empty.
pub queue_drains :
    (me : ℕ) (m : Shared) (cs : List Cell)
    → AllReal (tasks cs)
    → Ready m cs
    → (m' : Shared) × Moves me m at_top m' at_top
      × Ready m' []
      × (m'.ran ≡ run_in_order (tasks cs) m.ran)
      × (m'.active_tasks ≡ m.active_tasks)
queue_drains me m [] real r = (m, done, r, refl, refl)
queue_drains me m (c ∷ cs) (first, real) r =
    let (m1, round, r1, ran, active) = one_round me m c cs first r in
    let (m2, rounds, r2, ran', active') = queue_drains me m1 cs real r1 in
    (m2, append-Moves round rounds, r2, ran' ∙ ap (run_in_order (tasks cs)) ran, active' ∙ active)
