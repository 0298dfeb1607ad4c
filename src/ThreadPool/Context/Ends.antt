-- ===== src/ThreadPool/Context/Ends.antt =====
-- What a context of the pool takes, its destruction gives back.
use multithreaded_c_server.Common.{
  ℕ, suc, ◌≡◌, ◌≢◌, inl, inr, refl, Bool, Bool-cases, true, false, Option-cases, none, some, ◌∷◌, ℤ,
  is_zero,
}
use multithreaded_c_server.Common.Run.{Run, done, fault}
use multithreaded_c_server.CoinQueue.{
  Status, coin_success, coin_allocation_failure, coin_pthread_mutex_error, coin_pthread_cond_error,
  Heap,
}
use multithreaded_c_server.CoinQueue as CoinQueue
use multithreaded_c_server.CoinQueue.Fifo.{no_tasks, init-made, init-no_memory, destroy-no_tasks}
use multithreaded_c_server.ThreadPool.Ledger.{
  Resource, ctx_block, threads_block, attr, queue_block, queue_mutex, queue_cond, active_mutex,
  active_cond, Ledger, release,
}
use multithreaded_c_server.ThreadPool.Context.{
  CtxAnswers, Ctx, CtxMade, cleanup_ctx, cleanup_queue_mutex, cleanup_queue_cond, cleanup_queue,
  cleanup_tasks_mutex, with_queue, ctx_init, with_no_queue, ctx_destroy,
}

-- What a new context consists of.
abbrev pub of_ctx : Ledger → Ledger
of_ctx held = active_cond ∷ active_mutex ∷ queue_block ∷ queue_cond ∷ queue_mutex ∷ ctx_block ∷ held

abbrev pub new_ctx : Ctx
new_ctx = record { b_shutdown = false; p_work_queue = no_tasks; active_tasks = 0 }

-- Every call that the set-up of a context makes succeeds.
pub record AllGood (a : CtxAnswers) : Type 0 where
  pub ctx_given : a.calloc_ctx ≡ true
  pub queue_mutex_made : is_zero a.init_queue_mutex ≡ true
  pub queue_cond_made : is_zero a.init_queue_cond ≡ true
  pub queue_given : a.calloc_queue ≢ none
  pub active_mutex_made : is_zero a.init_active_mutex ≡ true
  pub active_cond_made : is_zero a.init_active_cond ≡ true

-- A fresh mutex or condition variable is destroyed without an error.
abbrev pub Destroys : (Resource → ℤ) → Type 0
Destroys destroy = (r : Resource) → is_zero (destroy r) ≡ true

-- The two ways in which the set-up of a context ends.
pub data CtxEnds (a : CtxAnswers) (held : Ledger) : Run CtxMade → Type 0 where
  made : AllGood a → CtxEnds a held (done (coin_success, some new_ctx, of_ctx held))
  gave_up : {status : Status} → status ≢ coin_success → CtxEnds a held (done (status, none, held))

with_queue-CtxEnds :
    (a : CtxAnswers) (held : Ledger)
    → Destroys a.destroy
    → a.calloc_ctx ≡ true
    → is_zero a.init_queue_mutex ≡ true
    → is_zero a.init_queue_cond ≡ true
    → CtxEnds a held (
        with_queue a
          (CoinQueue.init (some none) a.calloc_queue)
          (queue_cond ∷ queue_mutex ∷ ctx_block ∷ held))
unfolding with_queue cleanup_tasks_mutex cleanup_queue cleanup_queue_cond cleanup_queue_mutex
    cleanup_ctx
with_queue-CtxEnds a held clean ctx mutex cond = elim (Option-cases a.calloc_queue) [
  | inl nothing ↦
      rw (nothing, init-no_memory, clean queue_cond, clean queue_mutex) (gave_up (λ e. cc))
  | inr (q, given) ↦ elim (Bool-cases (is_zero a.init_active_mutex)) [
    | inl e ↦ elim (Bool-cases (is_zero a.init_active_cond)) [
      | inl e' ↦
          rw (given, init-made q, e, e')
            (made (record {
              ctx_given = ctx;
              queue_mutex_made = mutex;
              queue_cond_made = cond;
              queue_given = λ x. cc;
              active_mutex_made = e;
              active_cond_made = e';
            }))
      | inr e' ↦
          rw (given, init-made q, e, e', clean active_mutex, clean queue_cond, clean queue_mutex)
            (gave_up (λ x. cc))
    ]
    | inr e ↦ rw (given, init-made q, e, clean queue_cond, clean queue_mutex) (gave_up (λ x. cc))
  ]
]

-- If fresh mutexes and condition variables can be destroyed, coin_tpool_ctx_init either reports
-- success, with every call it makes successful, and holds the memory, mutexes and condition
-- variables of a new context with an empty queue, or it reports an error and holds exactly what
-- was held before.
pub ctx_init-CtxEnds :
    (a : CtxAnswers) (held : Ledger) → Destroys a.destroy → CtxEnds a held (ctx_init a held)
unfolding ctx_init cleanup_queue_mutex cleanup_ctx
ctx_init-CtxEnds a held clean = elim (Bool-cases a.calloc_ctx) [
  | inl ctx ↦ elim (Bool-cases (is_zero a.init_queue_mutex)) [
    | inl mutex ↦ elim (Bool-cases (is_zero a.init_queue_cond)) [
      | inl cond ↦ simp (ctx, mutex, cond) (with_queue-CtxEnds a held clean ctx mutex cond)
      | inr e ↦ simp (ctx, mutex, e, clean queue_mutex) (gave_up (λ x. cc))
    ]
    | inr e ↦ simp (ctx, e) (gave_up (λ x. cc))
  ]
  | inr e ↦ simp e (gave_up (λ x. cc))
]

pub ctx_init-AllGood :
    (a : CtxAnswers) (held : Ledger)
    → AllGood a
    → ctx_init a held ≡ done (coin_success, some new_ctx, of_ctx held)
unfolding ctx_init with_queue
ctx_init-AllGood a held good = elim (Option-cases a.calloc_queue) [
  | inl nothing ↦ absurd (good.queue_given nothing)
  | inr (q, given) ↦
      rw
        (
          good.ctx_given,
          good.queue_mutex_made,
          good.queue_cond_made,
          given,
          init-made q,
          good.active_mutex_made,
          good.active_cond_made,
        )
        refl
]

-- Resources that are no part of a context do not disturb its destruction.
pub ctx_destroy-beneath_attr :
    (fuel : ℕ) (destroy : Resource → ℤ) (h : Heap) (held : Ledger)
    → Destroys destroy
    → ctx_destroy (suc fuel) destroy new_ctx h (attr ∷ of_ctx held)
      ≡ done (coin_success, attr ∷ held)
unfolding ctx_destroy with_no_queue
ctx_destroy-beneath_attr fuel destroy h held clean = rw (
  clean queue_cond,
  clean queue_mutex,
  destroy-no_tasks fuel h,
  clean active_cond,
  clean active_mutex,
)

pub ctx_destroy-beneath_threads :
    (fuel : ℕ) (destroy : Resource → ℤ) (h : Heap) (held : Ledger) (b_shutdown : Bool)
    → Destroys destroy
    → ctx_destroy
        (suc fuel)
        destroy
        (record new_ctx { b_shutdown = b_shutdown })
        h
        (threads_block ∷ attr ∷ of_ctx held)
      ≡ done (coin_success, threads_block ∷ attr ∷ held)
unfolding ctx_destroy with_no_queue
ctx_destroy-beneath_threads fuel destroy h held b_shutdown clean = rw (
  clean queue_cond,
  clean queue_mutex,
  destroy-no_tasks fuel h,
  clean active_cond,
  clean active_mutex,
)

-- coin_tpool_ctx_destroy gives back what coin_tpool_ctx_init took: on a new context, if nothing
-- fails to be destroyed, it succeeds and leaves what was held before the context was made.
pub ctx_destroy-of_ctx :
    (fuel : ℕ) (destroy : Resource → ℤ) (h : Heap) (held : Ledger)
    → Destroys destroy
    → ctx_destroy (suc fuel) destroy new_ctx h (of_ctx held) ≡ done (coin_success, held)
unfolding ctx_destroy with_no_queue
ctx_destroy-of_ctx fuel destroy h held clean = rw (
  clean queue_cond,
  clean queue_mutex,
  destroy-no_tasks fuel h,
  clean active_cond,
  clean active_mutex,
)

-- A coin_tpool_ctx_destroy that fails to destroy the queue's mutex reports it, but cannot be tried
-- again: the queue's condition variable is gone, and every second call destroys it once more, if
-- none other of that name is held.
pub ctx_destroy-twice :
    (fuel fuel' : ℕ) (destroy destroy' : Resource → ℤ) (h h' : Heap) (ctx ctx' : Ctx)
    (held : Ledger)
    → is_zero (destroy queue_cond) ≡ true
    → is_zero (destroy queue_mutex) ≡ false
    → release queue_cond held ≡ fault
    → (rest : Ledger) × (ctx_destroy fuel destroy ctx h (of_ctx held)
        ≡ done (coin_pthread_mutex_error, rest))
      × (ctx_destroy fuel' destroy' ctx' h' rest ≡ fault)
unfolding ctx_destroy
ctx_destroy-twice fuel fuel' destroy destroy' h h' ctx ctx' held gone stuck none_left = (
  active_cond ∷ active_mutex ∷ queue_block ∷ queue_mutex ∷ ctx_block ∷ held,
  rw (gone, stuck),
  rw none_left,
)
