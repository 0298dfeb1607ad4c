-- ===== src/ThreadPool/Context.antt =====
-- `coin_tpool_ctx_init` and `coin_tpool_ctx_destroy` of src/libs/concurinc/src/concurinc.c.
pub mod Ends
use multithreaded_c_server.Common.{
  ℕ, zero, suc, Bool, true, false, Option, none, some, List, [], ◌∷◌, Ptr, if◌then◌else◌, ℤ,
  is_zero,
}
use multithreaded_c_server.Common.Run.{Run, done, fault, checked, ◌>>=◌}
use multithreaded_c_server.CoinQueue.{
  Status, coin_success, coin_allocation_failure, coin_pthread_mutex_error, coin_pthread_cond_error,
  CoinQueue, Heap,
}
use multithreaded_c_server.CoinQueue as CoinQueue
use multithreaded_c_server.ThreadPool.Ledger.{
  Resource, ctx_block, queue_block, queue_mutex, queue_cond, active_mutex, active_cond, Ledger,
  release, destroyed, destroy_anyway,
}

-- What the functions called answer: whether calloc gives the context, and the queue, and the
-- results of the pthread functions.
pub record CtxAnswers : Type 0 where
  pub calloc_ctx : Bool
  pub init_queue_mutex : ℤ
  pub init_queue_cond : ℤ
  pub calloc_queue : Option CoinQueue
  pub init_active_mutex : ℤ
  pub init_active_cond : ℤ
  pub destroy : Resource → ℤ

-- `tpool_ctx_t`, its mutexes and condition variables aside.
pub record Ctx : Type 0 where
  pub b_shutdown : Bool
  pub p_work_queue : CoinQueue
  pub active_tasks : ℕ

abbrev pub CtxMade : Type 0
CtxMade = Status × Option Ctx × Ledger

-- The labels at the end of `coin_tpool_ctx_init`, the last one first.
pub cleanup_ctx : Status → Ledger → Run CtxMade
cleanup_ctx status held = do held ← release ctx_block held; done (status, none, held)

pub cleanup_queue_mutex : CtxAnswers → Status → Ledger → Run CtxMade
unfolding cleanup_ctx
cleanup_queue_mutex a status held = do
  held ← destroy_anyway (a.destroy queue_mutex) queue_mutex held
  cleanup_ctx status held

pub cleanup_queue_cond : CtxAnswers → Status → Ledger → Run CtxMade
unfolding cleanup_queue_mutex
cleanup_queue_cond a status held = do
  held ← destroy_anyway (a.destroy queue_cond) queue_cond held
  cleanup_queue_mutex a status held

-- The queue is new, and has no nodes.
pub cleanup_queue : CtxAnswers → Status → Ledger → Run CtxMade
unfolding cleanup_queue_cond
cleanup_queue a status held = do held ← release queue_block held; cleanup_queue_cond a status held

pub cleanup_tasks_mutex : CtxAnswers → Status → Ledger → Run CtxMade
unfolding cleanup_queue
cleanup_tasks_mutex a status held = do
  held ← destroy_anyway (a.destroy active_mutex) active_mutex held
  cleanup_queue a status held

-- The part of `coin_tpool_ctx_init` behind the call of `coin_queue_init`.
pub with_queue : CtxAnswers → Status × Option (Option CoinQueue) → Ledger → Run CtxMade
unfolding cleanup_queue_cond cleanup_queue cleanup_tasks_mutex
with_queue a (coin_success, some (some q)) held =
    if is_zero a.init_active_mutex
    then if is_zero a.init_active_cond
      then done (
        coin_success,
        some (record { b_shutdown = false; p_work_queue = q; active_tasks = 0 }),
        active_cond ∷ active_mutex ∷ queue_block ∷ held,
      )
      else cleanup_tasks_mutex a coin_pthread_cond_error (active_mutex ∷ queue_block ∷ held)
    else cleanup_queue a coin_pthread_mutex_error (queue_block ∷ held)
with_queue a (status, _) held = cleanup_queue_cond a status held

pub ctx_init : CtxAnswers → Ledger → Run CtxMade
unfolding cleanup_ctx cleanup_queue_mutex with_queue
ctx_init a held =
    if a.calloc_ctx
    then if is_zero a.init_queue_mutex
      then if is_zero a.init_queue_cond
        then with_queue a (CoinQueue.init (some none) a.calloc_queue)
            (queue_cond ∷ queue_mutex ∷ ctx_block ∷ held)
        else cleanup_queue_mutex a coin_pthread_cond_error (queue_mutex ∷ ctx_block ∷ held)
      else cleanup_ctx coin_pthread_mutex_error (ctx_block ∷ held)
    else done (coin_allocation_failure, none, held)

-- The part of `coin_tpool_ctx_destroy` behind the call of `coin_queue_destroy`. It frees the
-- queue's nodes and their tasks.
pub with_no_queue : (Resource → ℤ) → Status → Ledger → Run (Status × Ledger)
with_no_queue destroy coin_success held = do
  held ← release queue_block held
  (err, held) ← destroyed (destroy active_cond) active_cond held
  if is_zero err
      then (destroyed (destroy active_mutex) active_mutex held >>= λ out.
          if is_zero out.0
          then (release ctx_block out.1 >>= λ rest. done (coin_success, rest))
          else done (coin_pthread_mutex_error, out.1))
      else done (coin_pthread_cond_error, held)
with_no_queue destroy status held = done (status, held)

-- `fuel` is the number of rounds for the loop of `coin_queue_destroy`.
pub ctx_destroy : (fuel : ℕ) → (Resource → ℤ) → Ctx → Heap → Ledger → Run (Status × Ledger)
unfolding with_no_queue
ctx_destroy fuel destroy ctx h held = do
  (err, held) ← destroyed (destroy queue_cond) queue_cond held
  if is_zero err
      then (destroyed (destroy queue_mutex) queue_mutex held >>= λ out.
          if is_zero out.0
          then (checked (CoinQueue.destroy fuel (some ctx.p_work_queue) h) >>= λ gone.
              with_no_queue destroy gone.0 out.1)
          else done (coin_pthread_mutex_error, out.1))
      else done (coin_pthread_cond_error, held)
