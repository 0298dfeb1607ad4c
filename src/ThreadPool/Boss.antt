-- ===== src/ThreadPool/Boss.antt =====
-- `coin_tpool_submit`, `coin_tpool_wait` and the flag of `coin_tpool_stop_workers`, of
-- src/libs/concurinc/src/concurinc.c, as the thread that owns the pool makes them. A step is a
-- shared access, a call of a pthread function, or the call of `coin_queue_push`, which is made with
-- the queue's mutex held and whose accesses are one step. Every call of a pthread function may
-- fail.
use multithreaded_c_server.Common.{
  ◌+◌, ◌^◌, ◌<◌, ◌≡◌, ◌≢◌, Bool, true, false, Option, none, some, ◌∷◌, Ptr, null,
}
use multithreaded_c_server.CoinQueue.{
  CoinQueue, Heap, Status, coin_success, coin_invalid_input, coin_allocation_failure,
  coin_pthread_mutex_error, coin_pthread_cond_error, push,
}
use multithreaded_c_server.CoinQueue.Push.{Fresh}
use multithreaded_c_server.ThreadPool.Shared.{Shared, Owner, Unlocked}

-- Where the owner of the pool stands.
pub data BossPc : Type 0 where
  between : BossPc  -- in none of the calls
  returned : Status → BossPc
  submitting : (task : Ptr) → BossPc  -- `coin_tpool_submit`, before it locks the queue
  pushing : (task : Ptr) → BossPc  -- with the queue locked
  pushed : BossPc
  looking : BossPc  -- `coin_tpool_wait`, at the head of its loop
  counting : BossPc  -- at the test of the inner loop, with the counter locked
  asleep : BossPc  -- in `pthread_cond_wait`
  idle_seen : BossPc  -- behind the inner loop, with the counter locked
  relooking : BossPc  -- before it locks the queue
  sizing : BossPc  -- with the queue locked
  sized : (empty : Bool) → BossPc  -- with the queue locked, and `b_isempty` set
  waited : BossPc  -- `coin_tpool_wait` has returned COIN_SUCCESS
  stopping : BossPc  -- `coin_tpool_stop_workers`, before it locks the queue
  flagging : BossPc  -- with the queue locked
  flagged : BossPc

-- A step of `coin_tpool_submit`. Where it locks a mutex its mark is 0. There are fewer than 2^64
-- nodes in memory.
pub data SubmitMove (m : Shared) : BossPc → Shared → BossPc → Type 0 where
  submit_invalid : SubmitMove m between m (returned coin_invalid_input)
  submit : {task : Ptr} → task ≢ null → SubmitMove m between m (submitting task)
  submit_no_memory : SubmitMove m between m (returned coin_allocation_failure)
  submit_lock :
      {task : Ptr}
      → m.queue_mutex ≡ none
      → SubmitMove m (submitting task) (record m { queue_mutex = some 0 }) (pushing task)
  submit_lock_fails :
      {task : Ptr} → SubmitMove m (submitting task) m (returned coin_pthread_mutex_error)
  push_task :
      (calloc : Heap → Option Ptr) {q : CoinQueue} {h : Heap} {task : Ptr}
      → Fresh calloc
      → m.work_queue.size + 1 < 2 ^ 64
      → push calloc (some m.work_queue) task m.heap ≡ some (coin_success, some q, h)
      → SubmitMove m
          (pushing task)
          (record m { work_queue = q; heap = h; submitted = task ∷ m.submitted })
          pushed
  push_refused :
      (calloc : Heap → Option Ptr) {q : CoinQueue} {task : Ptr} {h : Heap} {status : Status}
      {owner : Owner}
      → calloc m.heap ≡ none
      → push calloc (some m.work_queue) task m.heap ≡ some (status, some q, h)
      → Unlocked m.queue_mutex owner
      → SubmitMove m
          (pushing task)
          (record m { work_queue = q; heap = h; queue_mutex = owner })
          (returned status)
  submit_signal_fails :
      {owner : Owner}
      → Unlocked m.queue_mutex owner
      → SubmitMove m pushed (record m { queue_mutex = owner }) (returned coin_pthread_cond_error)
  submit_unlock : SubmitMove m pushed (record m { queue_mutex = none }) (returned coin_success)
  submit_unlock_fails : SubmitMove m pushed m (returned coin_pthread_mutex_error)

-- A step of `coin_tpool_wait`.
pub data WaitMove (m : Shared) : BossPc → Shared → BossPc → Type 0 where
  wait : WaitMove m between m looking
  wait_lock :
      m.active_mutex ≡ none → WaitMove m looking (record m { active_mutex = some 0 }) counting
  wait_lock_fails : WaitMove m looking m (returned coin_pthread_mutex_error)
  sleep : 0 < m.active_tasks → WaitMove m counting (record m { active_mutex = none }) asleep
  wake : m.active_mutex ≡ none → WaitMove m asleep (record m { active_mutex = some 0 }) counting
  sleep_fails :
      {owner : Owner}
      → 0 < m.active_tasks
      → Unlocked m.active_mutex owner
      → WaitMove m counting (record m { active_mutex = owner }) (returned coin_pthread_cond_error)
  none_active : m.active_tasks ≡ 0 → WaitMove m counting m idle_seen
  -- The size of the queue is read without the queue's mutex.
  again : 0 < m.work_queue.size → WaitMove m idle_seen (record m { active_mutex = none }) looking
  look_closer :
      m.work_queue.size ≡ 0 → WaitMove m idle_seen (record m { active_mutex = none }) relooking
  idle_unlock_fails : WaitMove m idle_seen m (returned coin_pthread_mutex_error)
  relock : m.queue_mutex ≡ none → WaitMove m relooking (record m { queue_mutex = some 0 }) sizing
  relock_fails : WaitMove m relooking m (returned coin_pthread_mutex_error)
  see_empty : m.work_queue.size ≡ 0 → WaitMove m sizing m (sized true)
  see_more : m.work_queue.size ≢ 0 → WaitMove m sizing m (sized false)
  unlock_empty : WaitMove m (sized true) (record m { queue_mutex = none }) waited
  -- `b_isempty` is set already, so that the failure of the unlock goes unreported.
  unlock_empty_fails : WaitMove m (sized true) m waited
  unlock_more : WaitMove m (sized false) (record m { queue_mutex = none }) looking
  unlock_more_fails : WaitMove m (sized false) m (returned coin_pthread_mutex_error)

-- A step of `coin_tpool_stop_workers`, up to its joins.
pub data StopMove (m : Shared) : BossPc → Shared → BossPc → Type 0 where
  stop : StopMove m between m stopping
  stop_lock :
      m.queue_mutex ≡ none → StopMove m stopping (record m { queue_mutex = some 0 }) flagging
  stop_lock_fails : StopMove m stopping m (returned coin_pthread_mutex_error)
  raise_flag : StopMove m flagging (record m { b_shutdown = true }) flagged
  stop_signal_fails :
      {owner : Owner}
      → Unlocked m.queue_mutex owner
      → StopMove m flagged (record m { queue_mutex = owner }) (returned coin_pthread_cond_error)
  stop_unlock : StopMove m flagged (record m { queue_mutex = none }) (returned coin_success)
  stop_unlock_fails : StopMove m flagged m (returned coin_pthread_mutex_error)

-- The return to the caller.
pub data BetweenMove (m : Shared) : BossPc → Shared → BossPc → Type 0 where
  next_call : {status : Status} → BetweenMove m (returned status) m between
  next_call_waited : BetweenMove m waited m between

-- A step of the owner. What it does between its calls is not part of the pool.
pub data BossMove (m : Shared) (b : BossPc) (m' : Shared) (b' : BossPc) : Type 0 where
  submits : SubmitMove m b m' b' → BossMove m b m' b'
  waits : WaitMove m b m' b' → BossMove m b m' b'
  stops : StopMove m b m' b' → BossMove m b m' b'
  goes_on : BetweenMove m b m' b' → BossMove m b m' b'
