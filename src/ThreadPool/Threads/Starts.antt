-- ===== src/ThreadPool/Threads/Starts.antt =====
-- How `coin_initialize_workers` of src/libs/concurinc/src/concurinc.c ends.
use multithreaded_c_server.Common.{
  ℕ, zero, suc, ◌<◌, ◌≡◌, ◌≢◌, inl, inr, refl, ap, arith, Bool, Bool-cases, true, false, none, some,
  ◌∷◌, replicate, is_zero,
}
use multithreaded_c_server.Common.Run.{Run, done, pending}
use multithreaded_c_server.CoinQueue.{Status, coin_success, coin_allocation_failure}
use multithreaded_c_server.ThreadPool.Ledger.{threads_block, attr, Ledger}
use multithreaded_c_server.ThreadPool.Context.{Ctx}
use multithreaded_c_server.ThreadPool.Threads.{
  World, StartAnswers, Started, started, cleanup_loop, cleanup_attr, cleanup_threads, after_create,
  initialize_workers,
}
use multithreaded_c_server.ThreadPool.Threads.Joins.{
  threads_held, JoinsLaw, Creates, all_created, stopped_at, create_loop-Creates, cleanup_loop-joins,
}

-- The ways in which it ends, for `n` workers.
pub data StartEnds (a : StartAnswers) (n : ℕ) (w : World) : Run Started → Type 0 where
  -- The attribute is not destroyed.
  works :
      ((j : ℕ) → j < n → is_zero (a.create j) ≡ true)
      → StartEnds a n w (
          done (
            coin_success,
            some (replicate n started),
            record w { held = threads_held 0 n (threads_block ∷ attr ∷ w.held) },
          ))
  fails : {status : Status} → status ≢ coin_success → StartEnds a n w (done (status, none, w))
  -- The threads are gone, but the signals are blocked.
  fails_blocked :
      {status : Status}
      → status ≢ coin_success
      → StartEnds a n w (done (status, none, record w { signals_blocked = true }))
  -- No memory for the entries of the threads.
  fails_attr : StartEnds a n w (
      done (coin_allocation_failure, none, record { held = attr ∷ w.held; signals_blocked = true }))
  -- A worker that was created before another could not be never ends.
  waits : StartEnds a n w pending

cleanup_threads-StartEnds :
    (a : StartAnswers) (ctx : Ctx) (n k : ℕ) (w : World) {status : Status}
    → JoinsLaw (a.join ctx.b_shutdown)
    → is_zero a.destroy_attr ≡ true
    → status ≢ coin_success
    → StartEnds a n w (
        cleanup_threads a ctx status k (record {
          held = threads_held 0 k (threads_block ∷ attr ∷ w.held);
          signals_blocked = true;
        }))
unfolding cleanup_threads cleanup_attr
cleanup_threads-StartEnds a ctx n k w law clean bad =
    elim (cleanup_loop-joins (a.join ctx.b_shutdown) 0 k (threads_block ∷ attr ∷ w.held) law) [
      | inl e ↦ simp (e, clean) (fails_blocked bad)
      | inr e ↦ simp e waits
    ]

after_create-StartEnds :
    (a : StartAnswers) (ctx : Ctx) (n : ℕ) (w : World) (out : Bool × ℕ × Ledger)
    → JoinsLaw (a.join ctx.b_shutdown)
    → is_zero a.destroy_attr ≡ true
    → Creates a.create 0 n (threads_block ∷ attr ∷ w.held) out
    → StartEnds a n w (after_create a ctx w.signals_blocked out)
unfolding after_create
after_create-StartEnds a ctx n w out law clean (all_created m e all out_e) =
    let total : m ≡ n = omega arith in
    elim (Bool-cases (is_zero a.restore)) [
      | inl back ↦ simp (out_e, total, back) (works (λ j below. all j (omega arith) (omega arith)))
      | inr bad ↦
          simp (out_e, total, bad) (cleanup_threads-StartEnds a ctx n n w law clean (λ x. cc))
    ]
after_create-StartEnds a ctx n w out law clean (stopped_at k m below e failed out_e) =
    let at_k : m ≡ k = omega arith in
    simp (out_e, at_k) (cleanup_threads-StartEnds a ctx n k w law clean (λ x. cc))

-- If joins that return and the destruction of the attribute do not fail, coin_initialize_workers
-- ends in one of five ways: with all workers created and the attribute left; with an error and
-- nothing changed; with an error, the threads gone and all signals left blocked; with an
-- allocation failure, the attribute left and all signals blocked; or not at all, waiting for a
-- worker.
pub initialize_workers-StartEnds :
    (a : StartAnswers) (ctx : Ctx) (n : ℕ) (w : World)
    → JoinsLaw (a.join ctx.b_shutdown)
    → is_zero a.destroy_attr ≡ true
    → StartEnds a n w (initialize_workers a ctx n w)
unfolding initialize_workers cleanup_attr
initialize_workers-StartEnds a ctx n w law clean = elim (Bool-cases (is_zero a.init_attr)) [
  | inl e1 ↦ elim (Bool-cases (is_zero a.fill_set)) [
    | inl e2 ↦ elim (Bool-cases (is_zero a.block)) [
      | inl e3 ↦ elim (Bool-cases a.calloc_threads) [
        | inl e4 ↦
            simp (e1, e2, e3, e4)
              (after_create-StartEnds a ctx n w _ law clean
                (create_loop-Creates a.create 0 n (threads_block ∷ attr ∷ w.held)))
        | inr e4 ↦ simp (e1, e2, e3, e4) fails_attr
      ]
      | inr e3 ↦ simp (e1, e2, e3, clean) (fails (λ x. cc))
    ]
    | inr e2 ↦ simp (e1, e2, clean) (fails (λ x. cc))
  ]
  | inr e1 ↦ simp e1 (fails (λ x. cc))
]

-- Every call that starts `n` workers succeeds.
pub record StartGood (a : StartAnswers) (n : ℕ) : Type 0 where
  pub attr_made : is_zero a.init_attr ≡ true
  pub set_filled : is_zero a.fill_set ≡ true
  pub signals_blocked : is_zero a.block ≡ true
  pub threads_given : a.calloc_threads ≡ true
  pub all_created : (j : ℕ) → j < n → is_zero (a.create j) ≡ true
  pub restored : is_zero a.restore ≡ true

pub initialize_workers-StartGood :
    (a : StartAnswers) (ctx : Ctx) (n : ℕ) (w : World)
    → StartGood a n
    → initialize_workers a ctx n w
      ≡ done (
        coin_success,
        some (replicate n started),
        record w { held = threads_held 0 n (threads_block ∷ attr ∷ w.held) },
      )
unfolding initialize_workers after_create
initialize_workers-StartGood a ctx n w good =
    simp (good.attr_made, good.set_filled, good.signals_blocked, good.threads_given)
      (go (create_loop-Creates a.create 0 n (threads_block ∷ attr ∷ w.held)))
  where
    go :
        {out : Bool × ℕ × Ledger}
        → Creates a.create 0 n (threads_block ∷ attr ∷ w.held) out
        → after_create a ctx w.signals_blocked out
          ≡ done (
            coin_success,
            some (replicate n started),
            record w { held = threads_held 0 n (threads_block ∷ attr ∷ w.held) },
          )
    go (all_created m e all out_e) =
        let total : m ≡ n = omega arith in rw (out_e, total, good.restored) refl
    go (stopped_at k m below e failed out_e) =
        let fine = good.all_created m (omega arith) in absurd (ground arith)

-- When a worker cannot be created, those that were created before are joined without having been
-- told to stop: where a worker does not end as long as the flag b_shutdown of its context is not
-- set, if the flag is not set, the attribute, the masks and the memory are given, the first worker
-- was created and a later one could not be, coin_initialize_workers never returns.
pub initialize_workers-waits :
    (a : StartAnswers) (ctx : Ctx) (n k : ℕ) (w : World)
    → ((i : ℕ) → a.join false i ≡ none)
    → ctx.b_shutdown ≡ false
    → is_zero a.init_attr ≡ true
    → is_zero a.fill_set ≡ true
    → is_zero a.block ≡ true
    → a.calloc_threads ≡ true
    → k < n
    → is_zero (a.create 0) ≡ true
    → is_zero (a.create k) ≡ false
    → initialize_workers a ctx n w ≡ pending
unfolding initialize_workers after_create cleanup_threads cleanup_loop
initialize_workers-waits a ctx n k w never untold e1 e2 e3 e4 below first failed =
    simp (e1, e2, e3, e4) (go (create_loop-Creates a.create 0 n (threads_block ∷ attr ∷ w.held)))
  where
    go :
        {out : Bool × ℕ × Ledger}
        → Creates a.create 0 n (threads_block ∷ attr ∷ w.held) out
        → after_create a ctx w.signals_blocked out ≡ pending
    go (all_created m e all out_e) =
        let clash = all k (omega arith) (omega arith) in absurd (ground arith)
    go (stopped_at zero m some_left e stops out_e) =
        let at_0 : m ≡ 0 = omega arith in
        let clash = ap (λ j. is_zero (a.create j)) at_0 in absurd (ground arith)
    go (stopped_at (suc j) m some_left e stops out_e) =
        let at_j : m ≡ suc j = omega arith in rw (out_e, at_j, untold, never 0) refl
