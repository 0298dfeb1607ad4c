-- ===== src/ThreadPool/Threads.antt =====
-- `coin_initialize_workers` and `coin_tpool_stop_workers` of src/libs/concurinc/src/concurinc.c.
pub mod Joins
pub mod Starts
pub mod Stops
use multithreaded_c_server.Common.{
  ℕ, zero, suc, ◌||◌, Bool, true, false, not, Option, none, some, List, [], ◌∷◌, replicate,
  if◌then◌else◌, ℤ, is_zero,
}
use multithreaded_c_server.Common.Run.{Run, done, fault, pending, ◌>>=◌}
use multithreaded_c_server.CoinQueue.{
  Status, coin_success, coin_allocation_failure, coin_pthread_mutex_error, coin_pthread_cond_error,
  coin_pthread_join_error, coin_pthread_create_error, coin_pthread_sigmask_error,
}
use multithreaded_c_server.ThreadPool.Ledger.{
  threads_block, attr, thread, Ledger, release, destroyed, destroy_anyway,
}
use multithreaded_c_server.ThreadPool.Context.{Ctx}

-- `thread_status_t`
pub data ThreadStatus : Type 0 where
  coin_thread_started coin_thread_terminated coin_thread_joined : ThreadStatus

-- `coin_tpool_thread_t`. The identifier of a thread is its index; what a thread returned is a
-- number that was cast to a pointer.
pub record Thread : Type 0 where
  pub status : ThreadStatus
  pub p_retval : Option ℤ

-- What the caller's thread holds, and whether it has blocked all signals.
pub record World : Type 0 where
  pub held : Ledger
  pub signals_blocked : Bool

-- What `pthread_join` answers for each worker: its own result and that of the worker, or nothing
-- if the worker never ends.
abbrev pub Joins : Type 0
Joins = ℕ → Option (ℤ × ℤ)

-- `join` depends on the flag `b_shutdown`, by which the workers are told to stop.
pub record StartAnswers : Type 0 where
  pub init_attr : ℤ
  pub fill_set : ℤ
  pub block : ℤ
  pub calloc_threads : Bool
  pub create : ℕ → ℤ
  pub restore : ℤ
  pub join : (told : Bool) → Joins
  pub destroy_attr : ℤ

-- `pthread_join` of worker `i`.
abbrev pub joined : Option (ℤ × ℤ) → ℕ → Ledger → Run (ℤ × ℤ × Ledger)
joined none i held = pending
joined (some (err, retval)) i held =
    destroyed err (thread i) held >>= λ out. done (err, retval, out.1)

abbrev pub started : Thread
started = record { status = coin_thread_started; p_retval = none }

-- The loop that creates the workers from `i` on: whether it created all, and how many it did.
pub create_loop : (ℕ → ℤ) → (i left : ℕ) → Ledger → Bool × ℕ × Ledger
create_loop create i zero held = (true, i, held)
create_loop create i (suc left) held =
    let rest = create_loop create (suc i) left (thread i ∷ held) in
    if is_zero (create i) then rest else (false, i, held)

-- The loop of the cleanup, which joins `left` workers from `i` on.
pub cleanup_loop : Joins → (i left : ℕ) → Ledger → Run Ledger
cleanup_loop join i zero held = done held
cleanup_loop join i (suc left) held =
    joined (join i) i held >>= λ out. cleanup_loop join (suc i) left out.2

abbrev pub Started : Type 0
Started = Status × Option (List Thread) × World

-- The labels at the end of `coin_initialize_workers`. None of them restores the signals.
pub cleanup_attr : StartAnswers → Status → World → Run Started
cleanup_attr a status w = destroy_anyway a.destroy_attr attr w.held >>= λ held.
    done (status, none, record w { held = held })

pub cleanup_threads : StartAnswers → Ctx → Status → ℕ → World → Run Started
unfolding cleanup_loop cleanup_attr
cleanup_threads a ctx status num_created w = do
  held ← cleanup_loop (a.join ctx.b_shutdown) 0 num_created w.held
  held ← release threads_block held
  cleanup_attr a status (record w { held = held })

-- The part behind the loop that creates the threads. `old` is the mask of before.
pub after_create : StartAnswers → Ctx → Bool → Bool × ℕ × Ledger → Run Started
unfolding cleanup_threads
after_create a ctx old (true, n, held) =
    if is_zero a.restore
    then done
        (coin_success, some (replicate n started), record { held = held; signals_blocked = old })
    else cleanup_threads a ctx coin_pthread_sigmask_error n
        (record { held = held; signals_blocked = true })
after_create a ctx old (false, n, held) =
    cleanup_threads a ctx coin_pthread_create_error n
      (record { held = held; signals_blocked = true })

-- It only reads the context, through the workers that it waits for.
pub initialize_workers : StartAnswers → Ctx → ℕ → World → Run Started
unfolding create_loop cleanup_attr after_create
initialize_workers a ctx num_workers w =
    let with_attr = record w { held = attr ∷ w.held } in
    if is_zero a.init_attr
    then if is_zero a.fill_set
      then if is_zero a.block
        then if a.calloc_threads
          then after_create a ctx w.signals_blocked
              (create_loop a.create 0 num_workers (threads_block ∷ attr ∷ w.held))
          else done (coin_allocation_failure, none, record with_attr { signals_blocked = true })
        else cleanup_attr a coin_pthread_sigmask_error with_attr
      else cleanup_attr a coin_pthread_sigmask_error with_attr
    else done (coin_pthread_sigmask_error, none, w)

pub record StopAnswers : Type 0 where
  pub lock : ℤ
  pub broadcast : ℤ
  pub unlock : ℤ
  pub join : (told : Bool) → Joins

-- What a join that worked leaves of a thread's entry, and one that failed.
abbrev pub after_join : ℤ → ℤ → Thread → Thread
after_join err retval t =
    if is_zero err then record { status = coin_thread_joined; p_retval = some retval } else t

-- The loop of `coin_tpool_stop_workers` from worker `i` on, and whether a join failed in it.
pub join_loop : Joins → ℕ → List Thread → Ledger → Run (Bool × List Thread × Ledger)
join_loop join i [] held = done (false, [], held)
join_loop join i (t ∷ ts) held = joined (join i) i held >>= λ out.
    join_loop join (suc i) ts out.2 >>= λ rest.
    done (not (is_zero out.0) || rest.0, after_join out.0 out.1 t ∷ rest.1, rest.2)

abbrev pub Stopped : Type 0
Stopped = Status × Ctx × List Thread × Ledger

pub stop_workers : StopAnswers → Ctx → List Thread → Ledger → Run Stopped
unfolding join_loop
stop_workers a ctx threads held =
    let flagged = record ctx { b_shutdown = true } in
    if is_zero a.lock
    then if is_zero a.broadcast
      then if is_zero a.unlock
        then (join_loop (a.join flagged.b_shutdown) 0 threads held >>= λ out.
            done (if out.0 then coin_pthread_join_error else coin_success, flagged, out.1, out.2))
        else done (coin_pthread_mutex_error, flagged, threads, held)
      else done (coin_pthread_cond_error, flagged, threads, held)
    else done (coin_pthread_mutex_error, ctx, threads, held)
