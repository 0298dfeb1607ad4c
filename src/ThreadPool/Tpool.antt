-- ===== src/ThreadPool/Tpool.antt =====
-- `coin_tpool_init` and `coin_tpool_destroy` of src/libs/concurinc/src/concurinc.c.
pub mod Life
mod Tests
use multithreaded_c_server.Common.{
  ℕ, zero, suc, ◌||◌, ◌==◌, Bool, true, false, Option, none, some, List, [], ◌∷◌, if◌then◌else◌, ℤ,
  is_zero,
}
use multithreaded_c_server.Common.Run.{Run, done, fault, pending, ◌>>=◌}
use multithreaded_c_server.CoinQueue.{
  Status, coin_success, coin_invalid_input, coin_allocation_failure, Heap,
}
use multithreaded_c_server.ThreadPool.Ledger.{
  Resource, container_block, threads_block, Ledger, release,
}
use multithreaded_c_server.ThreadPool.Context.{CtxAnswers, Ctx, CtxMade, ctx_init, ctx_destroy}
use multithreaded_c_server.ThreadPool.Threads.{
  Thread, World, StartAnswers, StopAnswers, Started, Stopped, initialize_workers, stop_workers,
}

-- `coin_threadpool_t`. `num_workers` is the length of `p_threads`.
pub record Tpool : Type 0 where
  pub p_threads : List Thread
  pub p_ctx : Ctx

pub record InitAnswers : Type 0 where
  pub calloc_pool : Bool
  pub context : CtxAnswers
  pub workers : StartAnswers

abbrev pub Made : Type 0
Made = Status × Option Tpool × World

pub cleanup_container : Status → World → Run Made
cleanup_container status w =
    release container_block w.held >>= λ held. done (status, none, record w { held = held })

-- The part of `coin_tpool_init` behind the call of `coin_initialize_workers`.
pub with_workers : (fuel : ℕ) → InitAnswers → Ctx → Heap → Started → Run Made
unfolding cleanup_container
with_workers fuel a ctx h (coin_success, some threads, w) =
    done (coin_success, some (record { p_threads = threads; p_ctx = ctx }), w)
with_workers fuel a ctx h (status, threads, w) =
    ctx_destroy fuel a.context.destroy ctx h w.held >>= λ out.
    cleanup_container status (record w { held = out.1 })

-- The part of `coin_tpool_init` behind the call of `coin_tpool_ctx_init`.
pub with_ctx : (fuel : ℕ) → InitAnswers → ℕ → Heap → Bool → CtxMade → Run Made
unfolding cleanup_container with_workers
with_ctx fuel a num_workers h blocked (coin_success, some ctx, held) =
    initialize_workers a.workers ctx num_workers (record { held = held; signals_blocked = blocked })
    >>= λ out. with_workers fuel a ctx h out
with_ctx fuel a num_workers h blocked (status, ctx, held) =
    cleanup_container status (record { held = held; signals_blocked = blocked })

-- `out` says whether `pp_tpool` is not NULL.
pub init : (fuel : ℕ) → InitAnswers → (out : Bool) → ℕ → Heap → World → Run Made
unfolding with_ctx
init fuel a false num_workers h w = done (coin_invalid_input, none, w)
init fuel a true num_workers h w =
    if num_workers == 0
    then done (coin_invalid_input, none, w)
    else if a.calloc_pool
    then (ctx_init a.context (container_block ∷ w.held) >>= λ out.
        with_ctx fuel a num_workers h w.signals_blocked out)
    else done (coin_allocation_failure, none, w)

-- `retvals[i] = *(int *)(p_threads[i].p_retval)` for every worker, where `p_retval` is no address
-- but the number that the worker returned, or NULL.
pub read_retvals : List Thread → Run ℕ
read_retvals [] = done 0
read_retvals (t ∷ ts) = fault

-- The end of `coin_tpool_destroy`.
pub free_pool : Status × Ledger → Run (Status × Ledger)
free_pool (coin_success, held) = do
  held ← release threads_block held
  held ← release container_block held
  done (coin_success, held)
free_pool (status, held) = done (status, held)

-- The part behind the call of `coin_tpool_stop_workers`.
pub when_stopped :
    (fuel : ℕ) → (Resource → ℤ) → (retvals : Bool) → Heap → Stopped → Run (Status × Ledger)
unfolding read_retvals free_pool
when_stopped fuel destroy retvals h (coin_success, ctx, threads, held) =
    (if retvals then read_retvals threads else done 0) >>= λ n.
    ctx_destroy fuel destroy ctx h held >>= λ out. free_pool out
when_stopped fuel destroy retvals h (status, ctx, threads, held) = done (status, held)

-- `retvals` says whether the array of that name is not NULL.
pub destroy :
    (fuel : ℕ)
    → StopAnswers
    → (Resource → ℤ)
    → Option Tpool
    → (retvals : Bool) → Heap
    → Ledger
    → Run (Status × Ledger)
unfolding when_stopped
destroy fuel a destroy_result none retvals h held = done (coin_invalid_input, held)
destroy fuel a destroy_result (some p) retvals h held =
    stop_workers a p.p_ctx p.p_threads held >>= λ out.
    when_stopped fuel destroy_result retvals h out
