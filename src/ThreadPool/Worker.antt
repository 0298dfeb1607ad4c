-- ===== src/ThreadPool/Worker.antt =====
-- `coin_thread_worker` of src/libs/concurinc/src/concurinc.c. A step is a shared access, a call of
-- a pthread function, or the call of `coin_queue_pop`, which is made with the queue's mutex held and
-- whose accesses are one step. Every call of a pthread function may fail.
use multithreaded_c_server.Common.{
  ℕ, ◌≡◌, ◌≢◌, ◌⊎◌, Bool, true, false, none, some, ◌∷◌, Ptr, null, ℤ, pos, success, is_zero,
}
use multithreaded_c_server.CoinQueue.{CoinQueue, Heap, Status, coin_success, pop}
use multithreaded_c_server.ThreadPool.Shared.{Shared, Owner, Unlocked, one_more, one_less}

-- Where a worker stands. `counted` says whether `active_tasks` still counts it.
pub data Pc : Type 0 where
  at_top : Pc  -- before it locks the queue
  checking : Pc  -- at the test of the inner loop, with the queue locked
  asleep : Pc  -- in `pthread_cond_wait`
  popping : Pc  -- behind the inner loop, with the queue locked
  popped : (task : Ptr) → Pc  -- with a task, and the queue locked
  handed : (task : Ptr) → Pc  -- with a task, before it locks the counter
  counting : (task : Ptr) → Pc  -- with the counter locked, before the increment
  counted : (task : Ptr) → Pc  -- behind the increment
  working : (task : Ptr) → Pc
  finished : Pc  -- before it locks the counter again
  uncounting : Pc  -- with the counter locked, before the decrement
  uncounted : Pc  -- behind the decrement
  leaving : (err : ℤ) (counted : Bool) → Pc  -- out of the loop
  closing : (locked : Bool) (err : ℤ) (counted : Bool) → Pc  -- before the shutdown flag is set
  -- Behind the test of the shutdown flag, about to unlock a mutex that it does not hold. What that
  -- does is undefined, so that no step leads on from here.
  stranded : (err : ℤ) (counted : Bool) → Pc
  ended : (err : ℤ) (counted : Bool) → Pc

-- One step of the worker whose mark on a mutex is `me`.
pub data Move (me : ℕ) (m : Shared) : Pc → Shared → Pc → Type 0 where
  lock_queue : m.queue_mutex ≡ none → Move me m at_top (record m { queue_mutex = some me }) checking
  lock_queue_fails : {err : ℤ} → is_zero err ≡ false → Move me m at_top m (leaving err false)
  sleep :
      m.b_shutdown ≡ false
      → m.work_queue.size ≡ 0
      → Move me m checking (record m { queue_mutex = none }) asleep
  wake : m.queue_mutex ≡ none → Move me m asleep (record m { queue_mutex = some me }) checking
  sleep_fails : m.b_shutdown ≡ false → m.work_queue.size ≡ 0 → Move me m checking m popping
  proceed : (m.b_shutdown ≡ true) ⊎ (m.work_queue.size ≢ 0) → Move me m checking m popping
  stop :
      m.b_shutdown ≡ true
      → Move me m popping (record m { queue_mutex = none }) (leaving success false)
  stop_fails :
      {err : ℤ}
      → m.b_shutdown ≡ true
      → is_zero err ≡ false
      → Move me m popping m (leaving err false)
  take :
      {q : CoinQueue} {h : Heap} {task : Ptr}
      → m.b_shutdown ≡ false
      → pop (some m.work_queue) (some null) m.heap ≡ some (coin_success, some q, some task, h)
      → task ≢ null
      → Move me m popping (record m { work_queue = q; heap = h }) (popped task)
  corrupted :
      {q : CoinQueue} {h : Heap} {status : Status} {task : Ptr} {owner : Owner}
      → m.b_shutdown ≡ false
      → pop (some m.work_queue) (some null) m.heap ≡ some (status, some q, some task, h)
      → (status ≢ coin_success)
      → Unlocked m.queue_mutex owner
      → Move me m popping
          (record m { work_queue = q; heap = h; b_shutdown = true; queue_mutex = owner })
          (leaving (pos 1) false)
  corrupted_null :
      {q : CoinQueue} {h : Heap} {owner : Owner}
      → m.b_shutdown ≡ false
      → pop (some m.work_queue) (some null) m.heap ≡ some (coin_success, some q, some null, h)
      → Unlocked m.queue_mutex owner
      → Move me m popping
          (record m {
            work_queue = q;
            heap = h;
            b_shutdown = true;
            queue_mutex = owner;
            dropped = null ∷ m.dropped;
          })
          (leaving (pos 1) false)
  unlock_queue :
      {task : Ptr} → Move me m (popped task) (record m { queue_mutex = none }) (handed task)
  -- The signal for a queue that still holds something, or the unlock.
  unlock_queue_fails :
      {task : Ptr} {err : ℤ} {owner : Owner}
      → is_zero err ≡ false
      → Unlocked m.queue_mutex owner
      → Move me m
          (popped task)
          (record m { queue_mutex = owner; dropped = task ∷ m.dropped })
          (leaving err false)
  lock_counter :
      {task : Ptr}
      → m.active_mutex ≡ none
      → Move me m (handed task) (record m { active_mutex = some me }) (counting task)
  lock_counter_fails :
      {task : Ptr} {err : ℤ}
      → is_zero err ≡ false
      → Move me m (handed task) (record m { dropped = task ∷ m.dropped }) (leaving err false)
  count_in :
      {task : Ptr}
      → Move me m
          (counting task)
          (record m { active_tasks = one_more m.active_tasks })
          (counted task)
  unlock_counter :
      {task : Ptr} → Move me m (counted task) (record m { active_mutex = none }) (working task)
  -- The broadcast, or the unlock.
  unlock_counter_fails :
      {task : Ptr} {err : ℤ} {owner : Owner}
      → is_zero err ≡ false
      → Unlocked m.active_mutex owner
      → Move me m
          (counted task)
          (record m { active_mutex = owner; dropped = task ∷ m.dropped })
          (leaving err true)
  -- The task's function, the function that frees its argument, and the free of the task.
  work : {task : Ptr} → Move me m (working task) (record m { ran = task ∷ m.ran }) finished
  lock_again :
      m.active_mutex ≡ none → Move me m finished (record m { active_mutex = some me }) uncounting
  lock_again_fails : {err : ℤ} → is_zero err ≡ false → Move me m finished m (leaving err true)
  count_out : Move me m uncounting (record m { active_tasks = one_less m.active_tasks }) uncounted
  unlock_again : Move me m uncounted (record m { active_mutex = none }) at_top
  unlock_again_fails :
      {err : ℤ} {owner : Owner}
      → is_zero err ≡ false
      → Unlocked m.active_mutex owner
      → Move me m uncounted (record m { active_mutex = owner }) (leaving err false)
  -- Behind the loop no result of a pthread function is acted on.
  lock_to_close :
      {err : ℤ} {c : Bool}
      → m.queue_mutex ≡ none
      → Move me m (leaving err c) (record m { queue_mutex = some me }) (closing true err c)
  close_unlocked : {err : ℤ} {c : Bool} → Move me m (leaving err c) m (closing false err c)
  close :
      {err : ℤ} {c : Bool} {owner : Owner}
      → Unlocked m.queue_mutex owner
      → Move me m
          (closing true err c)
          (record m { b_shutdown = true; queue_mutex = owner })
          (ended err c)
  -- The lock failed, but the worker still holds the mutex, which it could not unlock before.
  close_held :
      {err : ℤ} {c : Bool} {owner : Owner}
      → m.queue_mutex ≡ some me
      → Unlocked m.queue_mutex owner
      → Move me m
          (closing false err c)
          (record m { b_shutdown = true; queue_mutex = owner })
          (ended err c)
  -- The lock failed, and the flag is set all the same.
  close_barging :
      {err : ℤ} {c : Bool}
      → m.queue_mutex ≢ some me
      → Move me m (closing false err c) (record m { b_shutdown = true }) (stranded err c)
