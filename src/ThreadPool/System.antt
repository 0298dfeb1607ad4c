-- ===== src/ThreadPool/System.antt =====
-- The owner of a pool and its workers, interleaved in any order.
use multithreaded_c_server.Common.{
  ℕ, suc, ◌≡◌, false, none, some, List, [], get_elem?, set, replicate, null,
}
use multithreaded_c_server.ThreadPool.Shared.{Shared}
use multithreaded_c_server.ThreadPool.Worker.{Pc, at_top, Move}
use multithreaded_c_server.ThreadPool.Boss.{BossPc, between, BossMove}

pub record Pool : Type 0 where
  pub shared : Shared
  pub boss : BossPc
  pub workers : List Pc

pub data Step (s : Pool) : Pool → Type 0 where
  boss_moves :
      {m : Shared} {b : BossPc}
      → BossMove s.shared s.boss m b
      → Step s (record s { shared = m; boss = b })
  worker_moves :
      (i : ℕ) {p p' : Pc} {m : Shared}
      → get_elem? s.workers i ≡ some p
      → Move (suc i) s.shared p m p'
      → Step s (record s { shared = m; workers = set s.workers i p' })

-- What `coin_tpool_ctx_init` sets up.
abbrev pub fresh_shared : Shared
fresh_shared = record {
  b_shutdown = false;
  work_queue = record { p_head = null; p_tail = null; size = 0 };
  heap = λ p. none;
  queue_mutex = none;
  active_tasks = 0;
  active_mutex = none;
  submitted = [];
  ran = [];
  dropped = [];
}

-- A pool as `coin_tpool_init` makes it, with `n` workers.
abbrev pub start_pool : ℕ → Pool
start_pool n = record { shared = fresh_shared; boss = between; workers = replicate n at_top }

pub data Reach (n : ℕ) : Pool → Type 0 where
  start : Reach n (start_pool n)
  later : {s t : Pool} → Reach n s → Step s t → Reach n t
