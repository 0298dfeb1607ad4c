-- ===== src/ThreadPool/Submits.antt =====
-- What a step of the owner of the pool does to the tasks and the queue.
use native.Mathlib.Decide.{ℕ_discrete}
use mathlib.Core.Option.{some-injective}
use multithreaded_c_server.Common.{
  ◌+◌, ◌^◌, ◌<◌, ◌≡◌, ◌≢◌, inl, inr, refl, sym, ap, subst, ◌∙◌, arith, true, Option, Option-cases,
  none, some, List, [], ◌∷◌, ◌++◌, length-append, Ptr, null,
}
use multithreaded_c_server.CoinQueue.{CoinQueue, Heap, Status, coin_success, push}
use multithreaded_c_server.CoinQueue.Chain.{Cell, tasks, tasks-append}
use multithreaded_c_server.CoinQueue.Push.{Fresh, push_node}
use multithreaded_c_server.CoinQueue.Fifo.{push-null, push-no_memory}
use multithreaded_c_server.ThreadPool.Shared.{Shared}
use multithreaded_c_server.ThreadPool.Boss
use multithreaded_c_server.ThreadPool.Boss.{BossPc, BossMove}
use multithreaded_c_server.ThreadPool.Counts.{count, count-append}
use multithreaded_c_server.ThreadPool.Invariant.{saw_empty, Queued}

-- A push that succeeds puts its task, which is not NULL, behind the others.
pushed_one :
    (calloc : Heap → Option Ptr) {h h' : Heap} {q q' : CoinQueue} (task : Ptr) (cs : List Cell)
    → Fresh calloc
    → Queued h q cs
    → q.size + 1 < 2 ^ 64
    → push calloc (some q) task h ≡ some (coin_success, some q', h')
    → (p : Ptr) × (task ≢ null) × Queued h' q' (cs ++ (p, task) ∷ [])
pushed_one calloc {h} {h'} {q} {q'} task cs law s room e = elim (ℕ_discrete task null) [
  | yes is_null ↦
      let clash =
        ap (λ r. r.0) (some-injective _ _ (sym (push-null calloc q task h (ground arith)) ∙ e)) in
      absurd (ground arith)
  | no real ↦ elim (Option-cases (calloc h)) [
    | inl nothing ↦
        let clash =
          ap (λ r. r.0)
            (some-injective _ _ (sym (push-no_memory calloc q task h real nothing) ∙ e)) in
        absurd (ground arith)
    | inr (p, given) ↦
        let (q1, h1, done, s1) = push_node calloc cs task p law s.chained real given in
        let same = some-injective _ _ (sym done ∙ e) in
        let queue : q1 ≡ q' = some-injective _ _ (ap (λ r. r.1) same) in
        let heap : h1 ≡ h' = ap (λ r. r.2) same in
        (
          p,
          real,
          subst (λ k. Queued k q' (cs ++ (p, task) ∷ [])) heap
              (subst (λ k. Queued h1 k (cs ++ (p, task) ∷ [])) queue
                (record {
                  chained = s1;
                  short = omega (arith, s1.counted, s.short, length-append cs ((p, task) ∷ []));
                })),
        )
  ]
]

-- A push without memory changes nothing.
push_refused_lem :
    (calloc : Heap → Option Ptr) {h h' : Heap} {q q' : CoinQueue} (task : Ptr) {status : Status}
    → calloc h ≡ none
    → push calloc (some q) task h ≡ some (status, some q', h')
    → (q ≡ q') × (h ≡ h')
push_refused_lem calloc {h} {h'} {q} {q'} task nothing e = elim (ℕ_discrete task null) [
  | yes is_null ↦
      let same = some-injective _ _ (sym (push-null calloc q task h (ground arith)) ∙ e) in
      (some-injective _ _ (ap (λ r. r.1) same), ap (λ r. r.2) same)
  | no real ↦
      let same = some-injective _ _ (sym (push-no_memory calloc q task h real nothing) ∙ e) in
      (some-injective _ _ (ap (λ r. r.1) same), ap (λ r. r.2) same)
]

-- A step of the owner puts the tasks that it submits into the queue, and no other, and leaves those
-- that came out of it alone.
pub record BossEffect (m m' : Shared) (b b' : BossPc) (cs : List Cell) : Type 0 where
  pub cells : List Cell
  pub queued : Queued m'.heap m'.work_queue cells
  pub same_ran : m'.ran ≡ m.ran
  pub same_dropped : m'.dropped ≡ m.dropped
  pub same_active : m'.active_tasks ≡ m.active_tasks
  pub moved :
      (t : Ptr)
      → count t m'.submitted + count t (tasks cs) ≡ count t m.submitted + count t (tasks cells)
  pub real : count null m'.submitted ≡ count null m.submitted
  pub drained :
      (saw_empty b ≡ true → m.work_queue.size ≡ 0) → saw_empty b' ≡ true → m'.work_queue.size ≡ 0

boss_unchanged :
    {m m' : Shared} {b b' : BossPc} {cs : List Cell}
    → Queued m'.heap m'.work_queue cs
    → m'.ran ≡ m.ran
    → m'.dropped ≡ m.dropped
    → m'.active_tasks ≡ m.active_tasks
    → m'.submitted ≡ m.submitted
    → ((saw_empty b ≡ true → m.work_queue.size ≡ 0) → saw_empty b' ≡ true → m'.work_queue.size ≡ 0)
    → BossEffect m m' b b' cs
boss_unchanged {cs} s ran dropped active submitted drained = record {
  cells = cs;
  queued = s;
  same_ran = ran;
  same_dropped = dropped;
  same_active = active;
  moved = λ t. omega (arith, ap (count t) submitted);
  real = ap (count null) submitted;
  drained = drained;
}

pub BossMove-BossEffect :
    {m m' : Shared} {b b' : BossPc} {cs : List Cell}
    → Queued m.heap m.work_queue cs
    → BossMove m b m' b'
    → BossEffect m m' b b' cs
BossMove-BossEffect s (Boss.submits (Boss.submit real)) =
    boss_unchanged s refl refl refl refl (λ before seen. ground arith)
BossMove-BossEffect s (Boss.submits Boss.submit_invalid) =
    boss_unchanged s refl refl refl refl (λ before seen. ground arith)
BossMove-BossEffect s (Boss.submits Boss.submit_no_memory) =
    boss_unchanged s refl refl refl refl (λ before seen. ground arith)
BossMove-BossEffect s (Boss.submits (Boss.submit_lock free)) =
    boss_unchanged s refl refl refl refl (λ before seen. ground arith)
BossMove-BossEffect s (Boss.submits Boss.submit_lock_fails) =
    boss_unchanged s refl refl refl refl (λ before seen. ground arith)
BossMove-BossEffect {cs} s (Boss.submits (Boss.push_task calloc {task} law room pushed)) =
    let (p, real, s') = pushed_one calloc task cs law s room pushed in
    record {
      cells = cs ++ (p, task) ∷ [];
      queued = s';
      same_ran = refl;
      same_dropped = refl;
      same_active = refl;
      moved = λ t.
          omega (
            arith,
            ap (count t) (tasks-append cs (p, task)),
            count-append t (tasks cs) (task ∷ []),
          );
      real = ground arith;
      drained = λ before seen. ground arith;
    }
BossMove-BossEffect {m} {cs} s
      (Boss.submits (Boss.push_refused calloc {q} {task} nothing pushed u)) =
    let (same_q, same_h) = push_refused_lem calloc task nothing pushed in
    boss_unchanged (subst (λ k. Queued k q cs) same_h (subst (λ k. Queued m.heap k cs) same_q s))
      refl refl refl refl (λ before seen. ground arith)
BossMove-BossEffect s (Boss.submits (Boss.submit_signal_fails u)) =
    boss_unchanged s refl refl refl refl (λ before seen. ground arith)
BossMove-BossEffect s (Boss.submits Boss.submit_unlock) =
    boss_unchanged s refl refl refl refl (λ before seen. ground arith)
BossMove-BossEffect s (Boss.submits Boss.submit_unlock_fails) =
    boss_unchanged s refl refl refl refl (λ before seen. ground arith)
BossMove-BossEffect s (Boss.waits Boss.wait) =
    boss_unchanged s refl refl refl refl (λ before seen. ground arith)
BossMove-BossEffect s (Boss.waits (Boss.wait_lock free)) =
    boss_unchanged s refl refl refl refl (λ before seen. ground arith)
BossMove-BossEffect s (Boss.waits Boss.wait_lock_fails) =
    boss_unchanged s refl refl refl refl (λ before seen. ground arith)
BossMove-BossEffect s (Boss.waits (Boss.sleep some_active)) =
    boss_unchanged s refl refl refl refl (λ before seen. ground arith)
BossMove-BossEffect s (Boss.waits (Boss.wake free)) =
    boss_unchanged s refl refl refl refl (λ before seen. ground arith)
BossMove-BossEffect s (Boss.waits (Boss.sleep_fails some_active u)) =
    boss_unchanged s refl refl refl refl (λ before seen. ground arith)
BossMove-BossEffect s (Boss.waits (Boss.none_active e)) =
    boss_unchanged s refl refl refl refl (λ before seen. ground arith)
BossMove-BossEffect s (Boss.waits (Boss.again some_left)) =
    boss_unchanged s refl refl refl refl (λ before seen. ground arith)
BossMove-BossEffect s (Boss.waits (Boss.look_closer e)) =
    boss_unchanged s refl refl refl refl (λ before seen. ground arith)
BossMove-BossEffect s (Boss.waits Boss.idle_unlock_fails) =
    boss_unchanged s refl refl refl refl (λ before seen. ground arith)
BossMove-BossEffect s (Boss.waits (Boss.relock free)) =
    boss_unchanged s refl refl refl refl (λ before seen. ground arith)
BossMove-BossEffect s (Boss.waits Boss.relock_fails) =
    boss_unchanged s refl refl refl refl (λ before seen. ground arith)
BossMove-BossEffect s (Boss.waits (Boss.see_empty e)) =
    boss_unchanged s refl refl refl refl (λ before seen. ground arith)
BossMove-BossEffect s (Boss.waits (Boss.see_more some_left)) =
    boss_unchanged s refl refl refl refl (λ before seen. ground arith)
BossMove-BossEffect s (Boss.waits Boss.unlock_empty) =
    boss_unchanged s refl refl refl refl (λ before seen. before refl)
BossMove-BossEffect s (Boss.waits Boss.unlock_empty_fails) =
    boss_unchanged s refl refl refl refl (λ before seen. before refl)
BossMove-BossEffect s (Boss.waits Boss.unlock_more) =
    boss_unchanged s refl refl refl refl (λ before seen. ground arith)
BossMove-BossEffect s (Boss.waits Boss.unlock_more_fails) =
    boss_unchanged s refl refl refl refl (λ before seen. ground arith)
BossMove-BossEffect s (Boss.stops Boss.stop) =
    boss_unchanged s refl refl refl refl (λ before seen. ground arith)
BossMove-BossEffect s (Boss.stops (Boss.stop_lock free)) =
    boss_unchanged s refl refl refl refl (λ before seen. ground arith)
BossMove-BossEffect s (Boss.stops Boss.stop_lock_fails) =
    boss_unchanged s refl refl refl refl (λ before seen. ground arith)
BossMove-BossEffect s (Boss.stops Boss.raise_flag) =
    boss_unchanged s refl refl refl refl (λ before seen. ground arith)
BossMove-BossEffect s (Boss.stops (Boss.stop_signal_fails u)) =
    boss_unchanged s refl refl refl refl (λ before seen. ground arith)
BossMove-BossEffect s (Boss.stops Boss.stop_unlock) =
    boss_unchanged s refl refl refl refl (λ before seen. ground arith)
BossMove-BossEffect s (Boss.stops Boss.stop_unlock_fails) =
    boss_unchanged s refl refl refl refl (λ before seen. ground arith)
BossMove-BossEffect s (Boss.goes_on Boss.next_call) =
    boss_unchanged s refl refl refl refl (λ before seen. ground arith)
BossMove-BossEffect s (Boss.goes_on Boss.next_call_waited) =
    boss_unchanged s refl refl refl refl (λ before seen. ground arith)
