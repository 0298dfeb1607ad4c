-- ===== src/ThreadPool/Tests.antt =====
-- A pool with one worker and one task.
use multithreaded_c_server.Common.{
  ◌⊎◌, true, ℕ, ◌+◌, ◌≡◌, inr, refl, arith, false, none, some, List, [], ◌∷◌, Ptr,
}
use multithreaded_c_server.CoinQueue.{update}
use multithreaded_c_server.CoinQueue.Chain.{Cell, tasks}
use multithreaded_c_server.CoinQueue.Tests.{
  one_node, one_node-Fresh, empty_queue, one_queue, one_heap, push_first, pop_only,
}
use multithreaded_c_server.ThreadPool.Shared.{Shared}
use multithreaded_c_server.ThreadPool.Worker
use multithreaded_c_server.ThreadPool.Worker.{Pc, at_top, handed}
use multithreaded_c_server.ThreadPool.Boss
use multithreaded_c_server.ThreadPool.Boss.{BossPc, looking, waited}
use multithreaded_c_server.ThreadPool.System.{
  Pool, boss_moves, worker_moves, fresh_shared, Reach, start, later,
}
use multithreaded_c_server.ThreadPool.Counts.{count, sum_of}
use multithreaded_c_server.ThreadPool.Invariant.{in_hand, counts, Queued}
use multithreaded_c_server.ThreadPool.Runs.{Leads}
use multithreaded_c_server.ThreadPool.Progress.{run_in_order}
use multithreaded_c_server.ThreadPool.Safety.{
  queue_exclusive, tasks_accounted, counter_exact, wait_empties,
}
use multithreaded_c_server.ThreadPool.Wait.{wait_can_return, wait_misses}

-- The node of task 31 is at address 3.
abbrev one_task : Shared
one_task = record fresh_shared { work_queue = one_queue; heap = one_heap; submitted = 31 ∷ [] }

abbrev pool : Shared → BossPc → Pc → Pool
pool m b p = record { shared = m; boss = b; workers = p ∷ [] }

-- The owner has submitted the task and is about to wait.
looks : Reach 1 (pool one_task looking at_top)
looks =
    later
      (later
        (later
          (later
            (later (later start (boss_moves (Boss.submits (Boss.submit (λ e. omega arith)))))
              (boss_moves (Boss.submits (Boss.submit_lock refl))))
            (boss_moves
              (Boss.submits (Boss.push_task one_node one_node-Fresh (omega arith) push_first))))
          (boss_moves (Boss.submits Boss.submit_unlock)))
        (boss_moves (Boss.goes_on Boss.next_call)))
      (boss_moves (Boss.waits Boss.wait))

-- The queue is empty again, and its node is free.
abbrev taken : Shared
taken = record one_task { work_queue = empty_queue; heap = update one_heap 3 none }

locked : Reach 1 (pool (record one_task { queue_mutex = some 1 }) looking Worker.checking)
locked = later looks (worker_moves 0 refl (Worker.lock_queue refl))

hands : Reach 1 (pool taken looking (handed 31))
hands =
    later
      (later (later locked (worker_moves 0 refl (Worker.proceed (inr (λ e. omega arith)))))
        (worker_moves 0 refl (Worker.take refl pop_only (λ e. omega arith))))
      (worker_moves 0 refl Worker.unlock_queue)

counts_in :
    Reach 1
      (pool (record taken { active_mutex = some 1; active_tasks = 1 }) looking (Worker.counted 31))
counts_in =
    later (later hands (worker_moves 0 refl (Worker.lock_counter refl)))
      (worker_moves 0 refl Worker.count_in)

returns : Reach 1 (pool taken waited (handed 31))
returns =
    later
      (later
        (later
          (later
            (later (later hands (boss_moves (Boss.waits (Boss.wait_lock refl))))
              (boss_moves (Boss.waits (Boss.none_active refl))))
            (boss_moves (Boss.waits (Boss.look_closer refl))))
          (boss_moves (Boss.waits (Boss.relock refl))))
        (boss_moves (Boss.waits (Boss.see_empty refl))))
      (boss_moves (Boss.waits Boss.unlock_empty))

queue_exclusive_example : (false ≡ true) ⊎ ((◌≡◌ {A = ℕ} 0 0) × (false ≡ false))
queue_exclusive_example = queue_exclusive 0 0 locked refl refl refl refl

tasks_accounted_example :
    (cs : List Cell) × Queued taken.heap taken.work_queue cs
    × ((t : Ptr)
        → count t (31 ∷ [])
          ≡ count t (tasks cs)
            + sum_of (λ p. count t (in_hand p)) (handed 31 ∷ [])
            + count t []
            + count t [])
tasks_accounted_example = tasks_accounted hands

counter_exact_example : 1 ≡ sum_of counts (Worker.counted 31 ∷ [])
counter_exact_example = counter_exact (omega arith) counts_in

wait_empties_example :
    (◌≡◌ {A = ℕ} 0 0)
    × (count 31 (31 ∷ []) ≡ sum_of (λ p. count 31 (in_hand p)) (handed 31 ∷ []) + 0 + 0)
wait_empties_example = wait_empties 31 returns refl

wait_can_return_example :
    (cs : List Cell) × Queued one_task.heap one_task.work_queue cs
    × (t : Pool) × Leads (pool one_task looking at_top) t
    × (t.boss ≡ waited)
    × (t.shared.ran ≡ run_in_order (tasks cs) [])
    × (t.shared.work_queue.size ≡ 0)
wait_can_return_example = wait_can_return 0 looks refl refl refl refl refl

wait_misses_example :
    (t : Pool) × Leads (pool taken looking (handed 31)) t
    × Reach 1 t
    × (t.boss ≡ waited)
    × (t.workers ≡ handed 31 ∷ [])
    × (t.shared.ran ≡ [])
wait_misses_example = wait_misses 0 hands refl refl refl refl refl
