-- ===== src/ThreadPool/Runs.antt =====
-- Runs of one worker while the other threads stand still.
use multithreaded_c_server.Common.{
  ℕ, zero, suc, ◌≡◌, refl, sym, ap, subst, some, List, [], ◌∷◌, get_elem?, set, get_elem?-set_self,
  arith,
}
use multithreaded_c_server.ThreadPool.Shared.{Shared}
use multithreaded_c_server.ThreadPool.Worker.{Pc, Move}
use multithreaded_c_server.ThreadPool.Boss.{BossPc}
use multithreaded_c_server.ThreadPool.System.{Pool, Step, worker_moves, Reach, later}
use multithreaded_c_server.ThreadPool.Counts.{get_elem?-lt}

-- Any number of steps of the worker whose mark is `me`.
pub data Moves (me : ℕ) : Shared → Pc → Shared → Pc → Type 0 where
  done : {m : Shared} {p : Pc} → Moves me m p m p
  next :
      {m m' m'' : Shared} {p p' p'' : Pc}
      → Move me m p m' p'
      → Moves me m' p' m'' p''
      → Moves me m p m'' p''

pub append-Moves :
    {me : ℕ} {m m' m'' : Shared} {p p' p'' : Pc}
    → Moves me m p m' p'
    → Moves me m' p' m'' p''
    → Moves me m p m'' p''
append-Moves done more = more
append-Moves (next mv rest) more = next mv (append-Moves rest more)

set-set {ℓ} : {A : Type ℓ} (xs : List A) (i : ℕ) (y z : A) → set (set xs i y) i z ≡ set xs i z
set-set [] i y z = refl
set-set (x ∷ xs) zero y z = refl
set-set (x ∷ xs) (suc i) y z = ap (◌∷◌ x) (set-set xs i y z)

set-same {ℓ} :
    {A : Type ℓ} (xs : List A) (i : ℕ) {x : A} → get_elem? xs i ≡ some x → set xs i x ≡ xs
set-same [] i e = refl
set-same (x' ∷ xs) zero e = ground arith
set-same (x' ∷ xs) (suc i) e = ap (◌∷◌ x') (set-same xs i e)

-- Any number of steps of any of the threads.
pub data Leads (s : Pool) : Pool → Type 0 where
  here : Leads s s
  then_step : {t u : Pool} → Leads s t → Step t u → Leads s u

pub Leads-Leads : {s t u : Pool} → Leads s t → Leads t u → Leads s u
Leads-Leads first here = first
Leads-Leads first (then_step second st) = then_step (Leads-Leads first second) st

pub Leads-Reach : {n : ℕ} {s t : Pool} → Reach n s → Leads s t → Reach n t
Leads-Reach reach here = reach
Leads-Reach reach (then_step ls st) = later (Leads-Reach reach ls) st

-- Every run of a worker is a run of the pool.
pub Moves-Leads :
    {s : Pool} (i : ℕ) {m m' : Shared} {p p' : Pc} {b : BossPc} {ws : List Pc}
    → Moves (suc i) m p m' p'
    → get_elem? ws i ≡ some p
    → Leads s (record { shared = m; boss = b; workers = ws })
    → Leads s (record { shared = m'; boss = b; workers = set ws i p' })
Moves-Leads {s} i {m} {b} {ws} done at ls =
    subst (λ ws'. Leads s (record { shared = m; boss = b; workers = ws' })) (sym (set-same ws i at))
      ls
Moves-Leads {s} i {m'} {p'} {b} {ws} (next {p' = p1} mv rest) at ls =
    let here_now = get_elem?-set_self ws i p1 (get_elem?-lt ws i at) in
    subst (λ ws'. Leads s (record { shared = m'; boss = b; workers = ws' })) (set-set ws i p1 p')
      (Moves-Leads i rest here_now (then_step ls (worker_moves i at mv)))
