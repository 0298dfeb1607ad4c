-- ===== src/ThreadPool/Tpool/Tests.antt =====
-- A pool of two workers is set up and taken down.
use multithreaded_c_server.Common.{
  Bool, false, ℕ, zero, suc, ◌≡◌, ◌≢◌, refl, arith, true, false, none, some, [], ◌∷◌, pos,
}
use multithreaded_c_server.Common.{ℤ}
use multithreaded_c_server.Common.Run.{done, pending}
use multithreaded_c_server.CoinQueue.{coin_success}
use multithreaded_c_server.CoinQueue.Tests.{empty_queue}
use multithreaded_c_server.ThreadPool.Ledger.{attr}
use multithreaded_c_server.ThreadPool.Context.Ends.{new_ctx}
use multithreaded_c_server.ThreadPool.Threads.{World, Joins, StopAnswers, initialize_workers}
use multithreaded_c_server.ThreadPool.Threads.Joins.{JoinsLaw}
use multithreaded_c_server.ThreadPool.Threads.Starts.{initialize_workers-waits}
use multithreaded_c_server.ThreadPool.Tpool
use multithreaded_c_server.ThreadPool.Tpool.{InitAnswers, Tpool}
use multithreaded_c_server.ThreadPool.Tpool.Life.{
  Calm, PoolEnds, init-PoolEnds, init-destroy, init-Good, new_pool, of_pool,
}

-- Calls that all succeed; `create` and `join` are those of the workers.
abbrev answers : (ℕ → ℤ) → (Bool → Joins) → InitAnswers
answers create join = record {
  calloc_pool = true;
  context = record {
    calloc_ctx = true;
    init_queue_mutex = pos 0;
    init_queue_cond = pos 0;
    calloc_queue = some empty_queue;
    init_active_mutex = pos 0;
    init_active_cond = pos 0;
    destroy = λ r. pos 0;
  };
  workers = record {
    init_attr = pos 0;
    fill_set = pos 0;
    block = pos 0;
    calloc_threads = true;
    create = create;
    restore = pos 0;
    join = join;
    destroy_attr = pos 0;
  };
}

abbrev first_only : ℕ → ℤ
first_only zero = pos 0
first_only (suc i) = pos 11

abbrev nothing_held : World
nothing_held = record { held = []; signals_blocked = false }

-- Workers that end with 0 once they are told to stop.
abbrev all_end : Joins
all_end i = some (pos 0, pos 0)

abbrev when_told : Bool → Joins
when_told true i = some (pos 0, pos 0)
when_told false i = none

all_end-JoinsLaw : JoinsLaw all_end
all_end-JoinsLaw i err ret e = ground (arith, e)

when_told-JoinsLaw : JoinsLaw (when_told false)
when_told-JoinsLaw i err ret e = absurd (ground (arith, e))

calm : Calm (answers (λ i. pos 0) when_told)
calm = record { context = λ r. refl; joins = when_told-JoinsLaw; attribute = refl }

initialize_workers-waits_example :
    initialize_workers (answers first_only when_told).workers new_ctx 2 nothing_held ≡ pending
initialize_workers-waits_example =
    initialize_workers-waits (answers first_only when_told).workers new_ctx 2 1 nothing_held
      (λ i. refl) refl refl refl refl refl (omega arith) refl refl

init-PoolEnds_example :
    PoolEnds
      (answers (λ i. pos 0) when_told)
      2
      nothing_held
      (Tpool.init 1 (answers (λ i. pos 0) when_told) true 2 (λ p. none) nothing_held)
init-PoolEnds_example =
    init-PoolEnds 0 (answers (λ i. pos 0) when_told) 2 (λ p. none) nothing_held calm

made_two :
    Tpool.init 1 (answers (λ i. pos 0) when_told) true 2 (λ p. none) nothing_held
    ≡ done
        (coin_success, some (new_pool 2), record { held = of_pool 2 []; signals_blocked = false })
made_two =
    init-Good 1 (answers (λ i. pos 0) when_told) 2 (λ p. none) nothing_held (λ e. omega arith) refl
      (record {
        ctx_given = refl;
        queue_mutex_made = refl;
        queue_cond_made = refl;
        queue_given = λ e. cc;
        active_mutex_made = refl;
        active_cond_made = refl;
      })
      (record {
        attr_made = refl;
        set_filled = refl;
        signals_blocked = refl;
        threads_given = refl;
        all_created = λ j below. refl;
        restored = refl;
      })

abbrev stop_answers : StopAnswers
stop_answers = record { lock = pos 0; broadcast = pos 0; unlock = pos 0; join = when_told }

init-destroy_example :
    (some (new_pool 2) ≢ none)
    × (Tpool.destroy 1 stop_answers
          (λ r. pos 0)
          (some (new_pool 2))
          false
          (λ p. none)
          (of_pool 2 [])
        ≡ done (coin_success, attr ∷ []))
init-destroy_example =
    init-destroy 0 0 (answers (λ i. pos 0) when_told) 2 (λ p. none) (λ p. none) nothing_held
      (record { held = of_pool 2 []; signals_blocked = false }) (some (new_pool 2)) stop_answers
      (λ r. pos 0) calm made_two (λ r. refl) all_end-JoinsLaw (λ k e. cc) refl refl refl
