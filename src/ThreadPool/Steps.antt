-- ===== src/ThreadPool/Steps.antt =====
-- The invariant is kept by every step.
use mathlib.Core.Option.{some-injective}
use multithreaded_c_server.Common.{
  ℕ, zero, suc, ◌≡◌, ◌≢◌, inl, inr, refl, sym, ap, ◌∙◌, arith, Bool, true, some, List, [],
  get_elem?, set, replicate,
}
use multithreaded_c_server.ThreadPool.Shared.{Shared, Owner}
use multithreaded_c_server.ThreadPool.Worker.{Pc, at_top, Move}
use multithreaded_c_server.ThreadPool.Boss.{BossPc, BossMove}
use multithreaded_c_server.ThreadPool.System.{
  Pool, Step, boss_moves, worker_moves, start_pool, Reach, start, later,
}
use multithreaded_c_server.ThreadPool.Counts.{
  count, sum_of, sum_of-set, sum_of-replicate, get_elem?-set_cases,
}
use multithreaded_c_server.ThreadPool.Invariant.{in_hand, counts, in_queue, in_counter, Inv, Held}
use multithreaded_c_server.ThreadPool.Moves.{
  Keeps, Move-queue_mutex, Move-active_mutex, BossMove-queue_mutex, BossMove-active_mutex,
}
use multithreaded_c_server.ThreadPool.Submits.{BossMove-BossEffect}
use multithreaded_c_server.ThreadPool.Tasks.{Move-Effect, Move-counts}

-- The workers that hold a mutex, after a step of one of them.
Held-set :
    {before after : Owner} (inside : Pc → Bool) (workers : List Pc) (i : ℕ) {p p' : Pc}
    → get_elem? workers i ≡ some p
    → Keeps (suc i) before after (inside p')
    → Held inside workers before
    → Held inside (set workers i p') after
Held-set inside workers i {p} {p'} at (may, mine) held j r after in_r =
    elim (get_elem?-set_cases workers i j at after) [
      | inl (same, e) ↦ mine (ap inside (sym e) ∙ in_r) ∙ ap (λ n. some (suc n)) same
      | inr (other, e) ↦ let theirs = held j r e in_r in ground arith
    ]

-- The other threads hold on to a mutex that they own.
Keeps-others :
    {before after : Owner} {inside : Bool} (me you : ℕ)
    → me ≢ you
    → Keeps me before after inside
    → before ≡ some you
    → after ≡ some you
Keeps-others me you apart (may, mine) theirs = ground arith

-- A mutex of the owner of the pool, after a step of a worker.
boss-Keeps :
    {before after : Owner} {inside boss_inside : Bool} (i : ℕ)
    → Keeps (suc i) before after inside
    → (boss_inside ≡ true → before ≡ some 0)
    → boss_inside ≡ true
    → after ≡ some 0
boss-Keeps i keeps theirs in_b = Keeps-others (suc i) 0 (λ e. omega arith) keeps (theirs in_b)

worker_moves-Inv :
    {s : Pool} (i : ℕ) {p p' : Pc} {m : Shared}
    → get_elem? s.workers i ≡ some p
    → Move (suc i) s.shared p m p'
    → Inv s
    → Inv (record s { shared = m; workers = set s.workers i p' })
worker_moves-Inv {s} i {p} {p'} {m} at mv v =
    let queue = Move-queue_mutex mv (v.queue_held i p at) in
    let counter = Move-active_mutex mv (v.counter_held i p at) in
    let effect = Move-Effect v.queued mv in
    record {
      cells = effect.cells;
      queued = effect.queued;
      accounted = λ t. omega (
        arith,
        v.accounted t,
        effect.moved t,
        ap (count t) effect.same_submitted,
        sum_of-set (λ r. count t (in_hand r)) s.workers i p' at,
      );
      counted =
          Move-counts (sum_of counts s.workers) (sum_of counts (set s.workers i p')) mv
            (sum_of-set counts s.workers i p' at) v.counted;
      queue_held = Held-set in_queue s.workers i at queue v.queue_held;
      counter_held = Held-set in_counter s.workers i at counter v.counter_held;
      boss_queue = boss-Keeps i queue v.boss_queue;
      boss_counter = boss-Keeps i counter v.boss_counter;
      drained = λ seen. omega (arith, v.drained seen, effect.shrinks);
    }

-- The workers' mutexes, after a step of the owner.
Held-Keeps :
    {before after : Owner} {boss_inside : Bool} (inside : Pc → Bool) (workers : List Pc)
    → Keeps 0 before after boss_inside
    → Held inside workers before
    → Held inside workers after
Held-Keeps inside workers keeps held j r at in_r =
    Keeps-others 0 (suc j) (λ e. omega arith) keeps (held j r at in_r)

boss_moves-Inv :
    {s : Pool} {m : Shared} {b : BossPc}
    → BossMove s.shared s.boss m b
    → Inv s
    → Inv (record s { shared = m; boss = b })
boss_moves-Inv {s} {m} {b} mv v =
    let queue = BossMove-queue_mutex mv v.boss_queue in
    let counter = BossMove-active_mutex mv v.boss_counter in
    let effect = BossMove-BossEffect v.queued mv in
    record {
      cells = effect.cells;
      queued = effect.queued;
      accounted = λ t. omega (
        arith,
        v.accounted t,
        effect.moved t,
        ap (count t) effect.same_ran,
        ap (count t) effect.same_dropped,
      );
      counted = effect.same_active ∙ v.counted;
      queue_held = Held-Keeps in_queue s.workers queue v.queue_held;
      counter_held = Held-Keeps in_counter s.workers counter v.counter_held;
      boss_queue = queue.1;
      boss_counter = counter.1;
      drained = effect.drained v.drained;
    }

pub Step-Inv : {s t : Pool} → Step s t → Inv s → Inv t
Step-Inv (boss_moves mv) v = boss_moves-Inv mv v
Step-Inv (worker_moves i at mv) v = worker_moves-Inv i at mv v

get_elem?-replicate {ℓ} :
    {A : Type ℓ} (n i : ℕ) (x : A) {y : A} → get_elem? (replicate n x) i ≡ some y → y ≡ x
get_elem?-replicate zero i x e = absurd (ground arith)
get_elem?-replicate (suc n) zero x e = sym (some-injective _ _ e)
get_elem?-replicate (suc n) (suc i) x e = get_elem?-replicate n i x e

start-Inv : (n : ℕ) → Inv (start_pool n)
start-Inv n = record {
  cells = [];
  queued = record {
    chained = record { chain = refl; distinct = tt; ends = refl; counted = refl };
    short = refl;
  };
  accounted = λ t. omega (arith, sum_of-replicate (λ r. count t (in_hand r)) n at_top refl);
  counted = omega (arith, sum_of-replicate counts n at_top refl);
  queue_held = λ i p at in_p. let e = ap in_queue (get_elem?-replicate n i at_top at) in cc;
  counter_held = λ i p at in_p. let e = ap in_counter (get_elem?-replicate n i at_top at) in cc;
  boss_queue = λ e. cc;
  boss_counter = λ e. cc;
  drained = λ e. refl;
}

-- The invariant holds in every state that a pool of any size can reach.
pub Reach-Inv : {n : ℕ} {s : Pool} → Reach n s → Inv s
Reach-Inv {n} start = start-Inv n
Reach-Inv (later r st) = Step-Inv st (Reach-Inv r)
