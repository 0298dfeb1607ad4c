-- ===== src/ThreadPool/Wait.antt =====
-- When `coin_tpool_wait` returns.
use multithreaded_c_server.Common.{
  ℕ, suc, ◌≡◌, refl, ap, ◌∙◌, arith, false, none, some, List, [], ◌∷◌, get_elem?, set, Ptr, null,
}
use multithreaded_c_server.CoinQueue.Chain.{Cell, tasks}
use multithreaded_c_server.ThreadPool.Shared.{Shared}
use multithreaded_c_server.ThreadPool.Worker.{Pc, at_top, handed}
use multithreaded_c_server.ThreadPool.Boss
use multithreaded_c_server.ThreadPool.Boss.{BossPc, BossMove, looking, waited}
use multithreaded_c_server.ThreadPool.System.{Pool, boss_moves, worker_moves, Reach, start, later}
use multithreaded_c_server.ThreadPool.Counts.{count}
use multithreaded_c_server.ThreadPool.Invariant.{Queued}
use multithreaded_c_server.ThreadPool.Tasks.{Move-Effect}
use multithreaded_c_server.ThreadPool.Submits.{BossMove-BossEffect}
use multithreaded_c_server.ThreadPool.Steps.{Reach-Inv}
use multithreaded_c_server.ThreadPool.Runs.{
  Leads, here, then_step, Leads-Leads, Leads-Reach, Moves-Leads,
}
use multithreaded_c_server.ThreadPool.Progress.{AllReal, run_in_order, queue_drains}

-- The owner of the pool finds no task queued and none counted, and returns.
owner_returns :
    (m : Shared) (ws : List Pc)
    → m.queue_mutex ≡ none
    → m.active_mutex ≡ none
    → m.active_tasks ≡ 0
    → m.work_queue.size ≡ 0
    → Leads
        (record { shared = m; boss = looking; workers = ws })
        (record {
          shared = record m { active_mutex = none; queue_mutex = none };
          boss = waited;
          workers = ws;
        })
owner_returns m ws queue_free active_free idle empty =
    then_step
      (then_step
        (then_step
          (then_step
            (then_step (then_step here (boss_moves (Boss.waits (Boss.wait_lock active_free))))
              (boss_moves (Boss.waits (Boss.none_active idle))))
            (boss_moves (Boss.waits (Boss.look_closer empty))))
          (boss_moves (Boss.waits (Boss.relock queue_free))))
        (boss_moves (Boss.waits (Boss.see_empty empty))))
      (boss_moves (Boss.waits Boss.unlock_empty))

-- The tasks of a queue in which NULL does not occur.
tasks-AllReal : (ts : List Ptr) → count null ts ≡ 0 → AllReal ts
tasks-AllReal [] e = tt
tasks-AllReal (t ∷ ts) e = (ground arith, tasks-AllReal ts (omega (arith)))

-- No task that was submitted is NULL.
submitted_real : {n : ℕ} {s : Pool} → Reach n s → count null s.shared.submitted ≡ 0
submitted_real start = refl
submitted_real (later r (boss_moves mv)) =
    (BossMove-BossEffect (Reach-Inv r).queued mv).real ∙ submitted_real r
submitted_real (later r (worker_moves i at mv)) =
    ap (count null) (Move-Effect (Reach-Inv r).queued mv).same_submitted ∙ submitted_real r

-- `coin_tpool_wait` can return: from every state that the pool can reach in which it is about to
-- look, both mutexes are free, the pool is not shutting down, no worker is counted as active and
-- one is at the top of its loop, some steps lead to its return with every task that was in the
-- queue run, in the order of the queue, and the queue empty.
pub wait_can_return :
    {n : ℕ} {m : Shared} {ws : List Pc} (i : ℕ)
    → Reach n (record { shared = m; boss = looking; workers = ws })
    → m.queue_mutex ≡ none
    → m.active_mutex ≡ none
    → m.b_shutdown ≡ false
    → m.active_tasks ≡ 0
    → get_elem? ws i ≡ some at_top
    → (cs : List Cell) × Queued m.heap m.work_queue cs
      × (t : Pool) × Leads (record { shared = m; boss = looking; workers = ws }) t
      × (t.boss ≡ waited)
      × (t.shared.ran ≡ run_in_order (tasks cs) m.ran)
      × (t.shared.work_queue.size ≡ 0)
wait_can_return {m} {ws} i reach queue_free active_free running idle at =
    let v = Reach-Inv reach in
    let real =
      tasks-AllReal (tasks v.cells) (omega (arith, v.accounted null, submitted_real reach)) in
    let (m', moves, r, ran, active) = queue_drains (suc i) m v.cells real (record {
      queue_free = queue_free;
      active_free = active_free;
      running = running;
      few = omega (arith, idle);
      queued = v.queued;
    }) in
    let empty : m'.work_queue.size ≡ 0 = r.queued.short in
    (
      v.cells,
      v.queued,
      _,
      Leads-Leads (Moves-Leads i moves at here)
          (owner_returns m' (set ws i at_top) r.queue_free r.active_free (active ∙ idle) empty),
      refl,
      ran,
      empty,
    )

-- `coin_tpool_wait` can also return while a task that it was to wait for is still to be run: a
-- worker that has taken the task from the queue and not yet counted itself in `active_tasks` is
-- invisible to it. From every state that the pool can reach in which it is about to look, both
-- mutexes are free, the queue is empty, no worker is counted as active, and some worker holds a
-- task that it has not yet counted, some steps lead to its return with every worker where it was
-- and no task run.
pub wait_misses :
    {n : ℕ} {m : Shared} {ws : List Pc} (i : ℕ) {task : Ptr}
    → Reach n (record { shared = m; boss = looking; workers = ws })
    → m.queue_mutex ≡ none
    → m.active_mutex ≡ none
    → m.work_queue.size ≡ 0
    → m.active_tasks ≡ 0
    → get_elem? ws i ≡ some (handed task)
    → (t : Pool) × Leads (record { shared = m; boss = looking; workers = ws }) t
      × Reach n t
      × (t.boss ≡ waited)
      × (t.workers ≡ ws)
      × (t.shared.ran ≡ m.ran)
wait_misses {m} {ws} i reach queue_free active_free empty idle at =
    let leads = owner_returns m ws queue_free active_free idle empty in
    (_, leads, Leads-Reach reach leads, refl, refl, refl)
