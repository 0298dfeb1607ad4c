-- ===== src/ThreadPool/Ledger.antt =====
-- What the set-up of the pool in src/libs/concurinc/src/concurinc.c holds: memory blocks, mutexes,
-- condition variables, a thread attribute and threads.
use multithreaded_c_server.Common.{ℕ, ◌+◌, List, [], ◌∷◌, ◌==◌, if◌then◌else◌, ℤ, is_zero}
use multithreaded_c_server.Common.Run.{Run, done, fault, ◌>>=◌}

pub data Resource : Type 0 where
  container_block ctx_block queue_block threads_block : Resource
  queue_mutex queue_cond active_mutex active_cond attr : Resource
  thread : ℕ → Resource

abbrev pub code : Resource → ℕ
code container_block = 0
code ctx_block = 1
code queue_block = 2
code threads_block = 3
code queue_mutex = 4
code queue_cond = 5
code active_mutex = 6
code active_cond = 7
code attr = 8
code (thread i) = 9 + i

-- The latest is at the front.
abbrev pub Ledger : Type 0
Ledger = List Resource

-- To free, destroy or join what is not held is undefined.
abbrev pub release : Resource → Ledger → Run Ledger
release r [] = fault
release r (x ∷ xs) =
    let rest = release r xs >>= λ ys. done (x ∷ ys) in if code x == code r then done xs else rest

-- A call that destroys a mutex, a condition variable or an attribute, and what it returns: an error
-- leaves it as it is.
abbrev pub destroyed : ℤ → Resource → Ledger → Run (ℤ × Ledger)
destroyed err r held = release r held >>= λ rest. done (err, if is_zero err then rest else held)

-- The same where the result is cast to void.
abbrev pub destroy_anyway : ℤ → Resource → Ledger → Run Ledger
destroy_anyway err r held = destroyed err r held >>= λ out. done out.1
