-- ===== src/ThreadPool/Shared.antt =====
-- The state that the threads of the pool share: `tpool_ctx_t` of
-- src/libs/concurinc/src/concurinc.c, and what became of the tasks.
use multithreaded_c_server.Common.{ℕ, ◌+◌, ◌-◌, ◌%◌, ◌^◌, ◌≡◌, ◌⊎◌, Bool, Option, none, List, Ptr}
use multithreaded_c_server.CoinQueue.{CoinQueue, Heap}

-- Who holds a mutex: 0 is the thread that owns the pool, `suc i` is worker `i`.
abbrev pub Owner : Type 0
Owner = Option ℕ

-- Nobody waits in a condition variable by name: a thread may wake up at any time, as POSIX allows,
-- so that signals and broadcasts change nothing here.
pub record Shared : Type 0 where
  pub b_shutdown : Bool
  pub work_queue : CoinQueue
  pub heap : Heap
  pub queue_mutex : Owner
  pub active_tasks : ℕ
  pub active_mutex : Owner
  -- The tasks pushed, those run to their end, and those that a failing worker let go of.
  pub submitted : List Ptr
  pub ran : List Ptr
  pub dropped : List Ptr

-- A mutex after an unlock by its owner, whose result may be an error, which leaves it locked.
abbrev pub Unlocked : Owner → Owner → Type 0
Unlocked before after = (after ≡ none) ⊎ (after ≡ before)

-- `size_t` counting.
abbrev pub one_more : ℕ → ℕ
one_more n = (n + 1) % 2 ^ 64

abbrev pub one_less : ℕ → ℕ
one_less n = (n + (2 ^ 64 - 1)) % 2 ^ 64
