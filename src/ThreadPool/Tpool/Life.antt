-- ===== src/ThreadPool/Tpool/Life.antt =====
-- The pool is set up and taken down.
use multithreaded_c_server.Common.{
  ℕ, suc, ◌<◌, ◌≡◌, ◌≢◌, inl, inr, refl, sym, ap, arith, Bool, Bool-cases, true, false, Option,
  none, some, List, ◌∷◌, replicate, ◌==◌, ℤ, is_zero,
}
use multithreaded_c_server.Common.Run.{Run, done, fault, pending, ◌>>=◌}
use multithreaded_c_server.CoinQueue.{Status, coin_success, coin_allocation_failure, Heap}
use multithreaded_c_server.ThreadPool.Ledger.{
  Resource, container_block, threads_block, attr, Ledger,
}
use multithreaded_c_server.ThreadPool.Context.{Ctx, CtxMade}
use multithreaded_c_server.ThreadPool.Context.Ends.{
  CtxEnds, made, gave_up, AllGood, Destroys, of_ctx, new_ctx, ctx_init-CtxEnds, ctx_init-AllGood,
  ctx_destroy-of_ctx, ctx_destroy-beneath_attr, ctx_destroy-beneath_threads,
}
use multithreaded_c_server.ThreadPool.Threads.{
  Thread, World, StopAnswers, Started, started, stop_workers,
}
use multithreaded_c_server.ThreadPool.Threads.Joins.{threads_held, JoinsLaw, join_loop-ends}
use multithreaded_c_server.ThreadPool.Threads.Stops.{stop_workers-joined}
use multithreaded_c_server.ThreadPool.Threads.Starts.{
  StartEnds, works, fails, fails_blocked, fails_attr, waits, initialize_workers-StartEnds,
  StartGood, initialize_workers-StartGood,
}
use multithreaded_c_server.ThreadPool.Tpool.{
  Tpool, InitAnswers, Made, cleanup_container, with_workers, with_ctx, init, read_retvals,
  free_pool, when_stopped, destroy,
}

-- What is held beside what was held before, when the pool is up.
abbrev pub of_pool : ℕ → Ledger → Ledger
of_pool n held = threads_held 0 n (threads_block ∷ attr ∷ of_ctx (container_block ∷ held))

abbrev pub new_pool : ℕ → Tpool
new_pool n = record { p_threads = replicate n started; p_ctx = new_ctx }

-- The calls that can make the end of the set-up fail do not.
pub record Calm (a : InitAnswers) : Type 0 where
  pub context : Destroys a.context.destroy
  pub joins : JoinsLaw (a.workers.join false)
  pub attribute : is_zero a.workers.destroy_attr ≡ true

-- The ways in which `coin_tpool_init` ends.
pub data PoolEnds (a : InitAnswers) (n : ℕ) (w : World) : Run Made → Type 0 where
  up :
      AllGood a.context
      → ((j : ℕ) → j < n → is_zero (a.workers.create j) ≡ true)
      → PoolEnds a n w
          (done (coin_success, some (new_pool n), record w { held = of_pool n w.held }))
  undone : {status : Status} → status ≢ coin_success → PoolEnds a n w (done (status, none, w))
  undone_blocked :
      {status : Status}
      → status ≢ coin_success
      → PoolEnds a n w (done (status, none, record w { signals_blocked = true }))
  leaks : PoolEnds a n w (
      done (coin_allocation_failure, none, record { held = attr ∷ w.held; signals_blocked = true }))
  stuck : PoolEnds a n w pending

with_workers-failed :
    (fuel : ℕ) (a : InitAnswers) (h : Heap) (w : World) (status : Status) (blocked : Bool)
    → Calm a
    → status ≢ coin_success
    → with_workers (suc fuel) a new_ctx h (
      status,
      none,
      record { held = of_ctx (container_block ∷ w.held); signals_blocked = blocked },
    )
      ≡ done (status, none, record { held = w.held; signals_blocked = blocked })
unfolding with_workers cleanup_container
with_workers-failed fuel a h w coin_success blocked calm bad = absurd (bad refl)
with_workers-failed fuel a h w status blocked calm bad =
    rw (ctx_destroy-of_ctx fuel a.context.destroy h (container_block ∷ w.held) calm.context) refl

with_workers-PoolEnds :
    (fuel : ℕ) (a : InitAnswers) (n : ℕ) (h : Heap) (w : World) (out : Run Started)
    → Calm a
    → AllGood a.context
    → StartEnds a.workers n (record w { held = of_ctx (container_block ∷ w.held) }) out
    → PoolEnds a n w (out >>= λ o. with_workers (suc fuel) a new_ctx h o)
unfolding with_workers cleanup_container
with_workers-PoolEnds fuel a n h w _ calm good (works all) = up good all
with_workers-PoolEnds fuel a n h w _ calm good (fails {status} bad) =
    simp (with_workers-failed fuel a h w status w.signals_blocked calm bad) (undone bad)
with_workers-PoolEnds fuel a n h w _ calm good (fails_blocked {status} bad) =
    simp (with_workers-failed fuel a h w status true calm bad) (undone_blocked bad)
with_workers-PoolEnds fuel a n h w _ calm good fails_attr =
    simp (ctx_destroy-beneath_attr fuel a.context.destroy h (container_block ∷ w.held) calm.context)
      leaks
with_workers-PoolEnds fuel a n h w _ calm good waits = stuck

with_ctx-PoolEnds :
    (fuel : ℕ) (a : InitAnswers) (n : ℕ) (h : Heap) (w : World) (out : Run CtxMade)
    → Calm a
    → CtxEnds a.context (container_block ∷ w.held) out
    → PoolEnds a n w (out >>= λ o. with_ctx (suc fuel) a n h w.signals_blocked o)
unfolding with_ctx cleanup_container
with_ctx-PoolEnds fuel a n h w _ calm (made good) = with_workers-PoolEnds fuel a n h w _ calm good (
    initialize_workers-StartEnds a.workers new_ctx n
      (record w { held = of_ctx (container_block ∷ w.held) }) calm.joins calm.attribute)
with_ctx-PoolEnds fuel a n h w _ calm (gave_up {status} bad) = go status bad
  where
    go :
        (status : Status)
        → status ≢ coin_success
        → PoolEnds a n w
            (with_ctx (suc fuel) a n h w.signals_blocked (status, none, container_block ∷ w.held))
    go coin_success bad = absurd (bad refl)
    go status bad = undone bad

-- If no join and no destruction fails, coin_tpool_init, given a place for its result, ends in one
-- of four ways: with every worker created and the pool's resources held; with an error and
-- everything that it took given back, the signals as they were or all blocked; with an allocation
-- failure, the thread attribute left and all signals blocked; or not at all.
pub init-PoolEnds :
    (fuel : ℕ) (a : InitAnswers) (n : ℕ) (h : Heap) (w : World)
    → Calm a
    → PoolEnds a n w (init (suc fuel) a true n h w)
unfolding init
init-PoolEnds fuel a n h w calm = elim (Bool-cases (n == 0)) [
  | inl e ↦ simp e (undone (λ x. cc))
  | inr e ↦ elim (Bool-cases a.calloc_pool) [
    | inl e' ↦
        simp (e, e')
          (with_ctx-PoolEnds fuel a n h w _ calm
            (ctx_init-CtxEnds a.context (container_block ∷ w.held) calm.context))
    | inr e' ↦ simp (e, e') (undone (λ x. cc))
  ]
]

pub init-Good :
    (fuel : ℕ) (a : InitAnswers) (n : ℕ) (h : Heap) (w : World)
    → n ≢ 0
    → a.calloc_pool ≡ true
    → AllGood a.context
    → StartGood a.workers n
    → init fuel a true n h w
      ≡ done (coin_success, some (new_pool n), record w { held = of_pool n w.held })
unfolding init with_ctx with_workers
init-Good fuel a n h w some_workers given good starts =
    let e : (n == 0) ≡ false = ground arith in
    rw
      (
        e,
        given,
        ctx_init-AllGood a.context (container_block ∷ w.held) good,
        initialize_workers-StartGood a.workers new_ctx n
            (record w { held = of_ctx (container_block ∷ w.held) }) starts,
      )
      refl

-- `coin_tpool_destroy` of a new pool whose workers all end.
destroy-new_pool :
    (fuel : ℕ) (a : StopAnswers) (destroy_result : Resource → ℤ) (n : ℕ) (h : Heap) (held : Ledger)
    → Destroys destroy_result
    → JoinsLaw (a.join true)
    → ((k : ℕ) → a.join true k ≢ none)
    → is_zero a.lock ≡ true
    → is_zero a.broadcast ≡ true
    → is_zero a.unlock ≡ true
    → destroy (suc fuel) a destroy_result (some (new_pool n)) false h (of_pool n held)
      ≡ done (coin_success, attr ∷ held)
unfolding destroy when_stopped free_pool
destroy-new_pool fuel a destroy_result n h held clean law ends locked told unlocked =
    let (ts, joined) =
      join_loop-ends (a.join true) 0 n (threads_block ∷ attr ∷ of_ctx (container_block ∷ held)) law
        ends in
    rw
      (
        stop_workers-joined a new_ctx (replicate n started) (of_pool n held) locked told unlocked
            joined,
        ctx_destroy-beneath_threads fuel destroy_result h (container_block ∷ held) true clean,
      )
      refl

abbrev result_of : Made → Run Made → Made
result_of else_this (done out) = out
result_of else_this _ = else_this

-- A set-up that reports success has set the pool up.
success-up :
    {a : InitAnswers} {n : ℕ} {w : World} {r : Run Made} {pool : Option Tpool} {w' : World}
    → PoolEnds a n w r
    → r ≡ done (coin_success, pool, w')
    → (pool ≡ some (new_pool n)) × (w'.held ≡ of_pool n w.held)
success-up {pool} {w'} (up good all) e =
    let same = ap (result_of (coin_success, pool, w')) (sym e) in
    (ap (λ m. m.1) same, ap (λ m. m.2.held) same)
success-up {pool} {w'} (undone bad) e =
    absurd (bad (ap (λ r. (result_of (coin_success, pool, w') r).0) e))
success-up {pool} {w'} (undone_blocked bad) e =
    absurd (bad (ap (λ r. (result_of (coin_success, pool, w') r).0) e))
success-up leaks e = absurd cc
success-up stuck e = absurd cc

-- coin_tpool_destroy gives back what coin_tpool_init took, but for the thread attribute: if
-- coin_tpool_init reports success, it returns a pool, and if then, with no task submitted, every
-- worker ends when it is told to and no call fails, coin_tpool_destroy of that pool without return
-- values reports success and leaves the attribute on top of what was held before.
pub init-destroy :
    (fuel fuel' : ℕ) (a : InitAnswers) (n : ℕ) (h h' : Heap) (w w' : World) (pool : Option Tpool)
    (s : StopAnswers) (destroy_result : Resource → ℤ)
    → Calm a
    → init (suc fuel) a true n h w ≡ done (coin_success, pool, w')
    → Destroys destroy_result
    → JoinsLaw (s.join true)
    → ((k : ℕ) → s.join true k ≢ none)
    → is_zero s.lock ≡ true
    → is_zero s.broadcast ≡ true
    → is_zero s.unlock ≡ true
    → (pool ≢ none)
      × (destroy (suc fuel') s destroy_result pool false h' w'.held
          ≡ done (coin_success, attr ∷ w.held))
init-destroy fuel fuel' a n h h' w w' pool s destroy_result calm worked clean law ends locked told
      unlocked =
    let (same, held) = success-up (init-PoolEnds fuel a n h w calm) worked in
    (
      (λ e. cc),
      rw (same, held)
          (destroy-new_pool fuel' s destroy_result n h' w.held clean law ends locked told unlocked),
    )

-- Asked for the workers' return values, coin_tpool_destroy takes the numbers that they returned
-- for addresses: once coin_tpool_stop_workers has stopped one worker or more, what it does is
-- undefined.
pub destroy-retvals :
    (fuel : ℕ) (a : StopAnswers) (destroy_result : Resource → ℤ) (h : Heap) (held : Ledger)
    (p : Tpool) {ctx : Ctx} {t : Thread} {ts : List Thread} {rest : Ledger}
    → stop_workers a p.p_ctx p.p_threads held ≡ done (coin_success, ctx, t ∷ ts, rest)
    → destroy fuel a destroy_result (some p) true h held ≡ fault
unfolding destroy when_stopped read_retvals
destroy-retvals fuel a destroy_result h held p stopped = rw stopped refl
