-- ===== src/ThreadPool/Threads/Joins.antt =====
-- The threads that the loops of src/libs/concurinc/src/concurinc.c create and join.
use native.Mathlib.Decide.{ℕ_discrete}
use multithreaded_c_server.Common.{
  ℕ, zero, suc, ◌+◌, ◌<◌, ◌≤◌, ◌≡◌, ◌≢◌, ◌⊎◌, inl, inr, refl, sym, ap, ◌∙◌, arith, Bool, Bool-cases,
  true, false, Option-cases, none, some, List, [], ◌∷◌, replicate, ◌==◌, ℤ, is_zero,
}
use multithreaded_c_server.Common.Run.{Run, done, fault, pending, ◌>>=◌}
use multithreaded_c_server.ThreadPool.Ledger.{Resource, thread, Ledger, release}
use multithreaded_c_server.ThreadPool.Threads.{
  coin_thread_joined, Thread, Joins, started, create_loop, cleanup_loop, join_loop,
}

-- `n` threads from the `i`-th on, on top of what was held.
abbrev pub threads_held : (i n : ℕ) → Ledger → Ledger
threads_held i zero held = held
threads_held i (suc n) held = threads_held (suc i) n (thread i ∷ held)

-- A join that returns does so without an error, as it does for a thread of one's own that was not
-- joined before.
abbrev pub JoinsLaw : Joins → Type 0
JoinsLaw join = (i : ℕ) (err ret : ℤ) → join i ≡ some (err, ret) → is_zero err ≡ true

done_after :
    (x : Resource) (f : Ledger → Ledger) (r : Run Ledger)
    → ((r >>= λ ys. done (x ∷ ys)) >>= λ ys. done (f ys)) ≡ (r >>= λ ys. done (f (x ∷ ys)))
done_after x f (done ys) = refl
done_after x f fault = refl
done_after x f pending = refl

-- A thread below others is found behind them.
release-threads_held :
    (k i n : ℕ) (held : Ledger)
    → k < i
    → release (thread k) (threads_held i n held)
      ≡ (release (thread k) held >>= λ ys. done (threads_held i n ys))
release-threads_held k i zero held below = keep (release (thread k) held)
  where
    keep : (r : Run Ledger) → r ≡ (r >>= λ ys. done ys)
    keep (done ys) = refl
    keep fault = refl
    keep pending = refl
release-threads_held k i (suc n) held below =
    let other : (9 + i == 9 + k) ≡ false = ground arith in
    release-threads_held k (suc i) n (thread i ∷ held) (omega arith)
    ∙ rw other (done_after (thread i) (threads_held (suc i) n) (release (thread k) held))

release-first :
    (i n : ℕ) (held : Ledger)
    → release (thread i) (threads_held i (suc n) held) ≡ done (threads_held (suc i) n held)
release-first i n held =
    let same : (9 + i == 9 + i) ≡ true = ground arith in
    release-threads_held i (suc i) n (thread i ∷ held) (omega arith) ∙ rw same refl

-- What the loop that creates the workers has done when it ends.
pub data Creates (create : ℕ → ℤ) (i n : ℕ) (held : Ledger) (out : Bool × ℕ × Ledger) : Type 0 where
  all_created :
      (m : ℕ)
      → m ≡ i + n
      → ((j : ℕ) → i ≤ j → j < i + n → is_zero (create j) ≡ true)
      → out ≡ (true, m, threads_held i n held)
      → Creates create i n held out
  stopped_at :
      (k m : ℕ)
      → k < n
      → m ≡ i + k
      → is_zero (create m) ≡ false
      → out ≡ (false, m, threads_held i k held)
      → Creates create i n held out

-- The same outcome, counted from the thread before.
Creates-next :
    {create : ℕ → ℤ} {i n : ℕ} {held : Ledger} {out : Bool × ℕ × Ledger}
    → is_zero (create i) ≡ true
    → Creates create (suc i) n (thread i ∷ held) out
    → Creates create i (suc n) held out
Creates-next {create} {i} first (all_created m e all out_e) =
    all_created m (omega arith)
      (λ j from to. elim (ℕ_discrete i j) [
        | yes same ↦ ap (λ k. is_zero (create k)) (sym same) ∙ first
        | no other ↦ all j (omega arith) (omega arith)
      ])
      out_e
Creates-next first (stopped_at k m below e failed out_e) =
    stopped_at (suc k) m (omega arith) (omega arith) failed out_e

pub create_loop-Creates :
    (create : ℕ → ℤ) (i n : ℕ) (held : Ledger)
    → Creates create i n held (create_loop create i n held)
unfolding create_loop
create_loop-Creates create i zero held =
    all_created i (omega arith) (λ j from to. absurd (omega arith)) refl
create_loop-Creates create i (suc n) held = elim (Bool-cases (is_zero (create i))) [
  | inl e ↦ simp e (Creates-next e (create_loop-Creates create (suc i) n (thread i ∷ held)))
  | inr e ↦ simp e (stopped_at 0 i (omega arith) (omega arith) e refl)
]

-- The cleanup gives the threads back, or waits for one that never ends.
pub cleanup_loop-joins :
    (join : Joins) (i n : ℕ) (held : Ledger)
    → JoinsLaw join
    → (cleanup_loop join i n (threads_held i n held) ≡ done held)
      ⊎ (cleanup_loop join i n (threads_held i n held) ≡ pending)
unfolding cleanup_loop
cleanup_loop-joins join i zero held law = inl refl
cleanup_loop-joins join i (suc n) held law = elim (Option-cases (join i)) [
  | inl never ↦ inr (rw never refl)
  | inr ((err, ret), ends) ↦ elim (cleanup_loop-joins join (suc i) n held law) [
    | inl e ↦ inl (rw (ends, release-first i n held, law i err ret ends) e)
    | inr e ↦ inr (rw (ends, release-first i n held, law i err ret ends) e)
  ]
]

-- Workers that all end are joined, one after the other.
pub join_loop-ends :
    (join : Joins) (i n : ℕ) (held : Ledger)
    → JoinsLaw join
    → ((k : ℕ) → join k ≢ none)
    → (ts : List Thread) × (join_loop join i (replicate n started) (threads_held i n held)
        ≡ done (false, ts, held))
unfolding join_loop
join_loop-ends join i zero held law ends = ([], refl)
join_loop-ends join i (suc n) held law ends = elim (Option-cases (join i)) [
  | inl never ↦ absurd (ends i never)
  | inr ((err, ret), e) ↦
      let (ts, rest) = join_loop-ends join (suc i) n held law ends in
      (
        record { status = coin_thread_joined; p_retval = some ret } ∷ ts,
        rw (e, release-first i n held, law i err ret e, rest) refl,
      )
]
