-- ===== src/ThreadPool/Moves.antt =====
-- What a step of one thread does to the mutexes and the tasks.
use multithreaded_c_server.Common.{ℕ, ◌≡◌, ◌⊎◌, refl, arith, Bool, true, none, some}
use multithreaded_c_server.ThreadPool.Shared.{Shared, Owner}
use multithreaded_c_server.ThreadPool.Worker
use multithreaded_c_server.ThreadPool.Worker.{Pc, Move}
use multithreaded_c_server.ThreadPool.Boss
use multithreaded_c_server.ThreadPool.Boss.{BossPc, BossMove}
use multithreaded_c_server.ThreadPool.Invariant.{
  in_queue, in_counter, boss_in_queue, boss_in_counter,
}

-- A step changes a mutex only where it is free or the thread's own, and holds it where it stands
-- in the section behind.
abbrev pub Keeps : ℕ → Owner → Owner → Bool → Type 0
Keeps me before after inside =
    ((after ≡ before) ⊎ ((before ≡ none) ⊎ (before ≡ some me)))
    × ((inside ≡ true) → after ≡ some me)

pub Move-queue_mutex :
    {me : ℕ} {m m' : Shared} {p p' : Pc}
    → Move me m p m' p'
    → (in_queue p ≡ true → m.queue_mutex ≡ some me)
    → Keeps me m.queue_mutex m'.queue_mutex (in_queue p')
Move-queue_mutex (Worker.lock_queue free) own = ground (arith)
Move-queue_mutex (Worker.lock_queue_fails bad) own = ground (arith)
Move-queue_mutex (Worker.sleep up none_there) own = ground (arith, own refl)
Move-queue_mutex (Worker.wake free) own = ground (arith)
Move-queue_mutex (Worker.sleep_fails up none_there) own = ground (arith, own refl)
Move-queue_mutex (Worker.proceed why) own = ground (arith, own refl)
Move-queue_mutex (Worker.stop down) own = ground (arith, own refl)
Move-queue_mutex (Worker.stop_fails down bad) own = ground (arith, own refl)
Move-queue_mutex (Worker.take up popped real) own = ground (arith, own refl)
Move-queue_mutex (Worker.corrupted up popped bad u) own = ground (arith, own refl)
Move-queue_mutex (Worker.corrupted_null up popped u) own = ground (arith, own refl)
Move-queue_mutex Worker.unlock_queue own = ground (arith, own refl)
Move-queue_mutex (Worker.unlock_queue_fails bad u) own = ground (arith, own refl)
Move-queue_mutex (Worker.lock_counter free) own = ground (arith)
Move-queue_mutex (Worker.lock_counter_fails bad) own = ground (arith)
Move-queue_mutex Worker.count_in own = ground (arith)
Move-queue_mutex Worker.unlock_counter own = ground (arith)
Move-queue_mutex (Worker.unlock_counter_fails bad u) own = ground (arith)
Move-queue_mutex Worker.work own = ground (arith)
Move-queue_mutex (Worker.lock_again free) own = ground (arith)
Move-queue_mutex (Worker.lock_again_fails bad) own = ground (arith)
Move-queue_mutex Worker.count_out own = ground (arith)
Move-queue_mutex Worker.unlock_again own = ground (arith)
Move-queue_mutex (Worker.unlock_again_fails bad u) own = ground (arith)
Move-queue_mutex (Worker.lock_to_close free) own = ground (arith)
Move-queue_mutex Worker.close_unlocked own = ground (arith)
Move-queue_mutex (Worker.close u) own = ground (arith, own refl)
Move-queue_mutex (Worker.close_held still u) own = ground (arith)
Move-queue_mutex (Worker.close_barging other) own = ground (arith)

pub Move-active_mutex :
    {me : ℕ} {m m' : Shared} {p p' : Pc}
    → Move me m p m' p'
    → (in_counter p ≡ true → m.active_mutex ≡ some me)
    → Keeps me m.active_mutex m'.active_mutex (in_counter p')
Move-active_mutex (Worker.lock_queue free) own = ground (arith)
Move-active_mutex (Worker.lock_queue_fails bad) own = ground (arith)
Move-active_mutex (Worker.sleep up none_there) own = ground (arith)
Move-active_mutex (Worker.wake free) own = ground (arith)
Move-active_mutex (Worker.sleep_fails up none_there) own = ground (arith)
Move-active_mutex (Worker.proceed why) own = ground (arith)
Move-active_mutex (Worker.stop down) own = ground (arith)
Move-active_mutex (Worker.stop_fails down bad) own = ground (arith)
Move-active_mutex (Worker.take up popped real) own = ground (arith)
Move-active_mutex (Worker.corrupted up popped bad u) own = ground (arith)
Move-active_mutex (Worker.corrupted_null up popped u) own = ground (arith)
Move-active_mutex Worker.unlock_queue own = ground (arith)
Move-active_mutex (Worker.unlock_queue_fails bad u) own = ground (arith)
Move-active_mutex (Worker.lock_counter free) own = ground (arith)
Move-active_mutex (Worker.lock_counter_fails bad) own = ground (arith)
Move-active_mutex Worker.count_in own = ground (arith, own refl)
Move-active_mutex Worker.unlock_counter own = ground (arith, own refl)
Move-active_mutex (Worker.unlock_counter_fails bad u) own = ground (arith, own refl)
Move-active_mutex Worker.work own = ground (arith)
Move-active_mutex (Worker.lock_again free) own = ground (arith)
Move-active_mutex (Worker.lock_again_fails bad) own = ground (arith)
Move-active_mutex Worker.count_out own = ground (arith, own refl)
Move-active_mutex Worker.unlock_again own = ground (arith, own refl)
Move-active_mutex (Worker.unlock_again_fails bad u) own = ground (arith, own refl)
Move-active_mutex (Worker.lock_to_close free) own = ground (arith)
Move-active_mutex Worker.close_unlocked own = ground (arith)
Move-active_mutex (Worker.close u) own = ground (arith)
Move-active_mutex (Worker.close_held still u) own = ground (arith)
Move-active_mutex (Worker.close_barging other) own = ground (arith)

pub BossMove-queue_mutex :
    {m m' : Shared} {p p' : BossPc}
    → BossMove m p m' p'
    → (boss_in_queue p ≡ true → m.queue_mutex ≡ some 0)
    → Keeps 0 m.queue_mutex m'.queue_mutex (boss_in_queue p')
BossMove-queue_mutex (Boss.submits (Boss.submit real)) own = ground (arith)
BossMove-queue_mutex (Boss.submits Boss.submit_invalid) own = ground (arith)
BossMove-queue_mutex (Boss.submits Boss.submit_no_memory) own = ground (arith)
BossMove-queue_mutex (Boss.submits (Boss.submit_lock free)) own = ground (arith)
BossMove-queue_mutex (Boss.submits Boss.submit_lock_fails) own = ground (arith)
BossMove-queue_mutex (Boss.submits (Boss.push_task calloc law room pushed)) own =
    ground (arith, own refl)
BossMove-queue_mutex (Boss.submits (Boss.push_refused calloc none_given pushed u)) own =
    ground (arith, own refl)
BossMove-queue_mutex (Boss.submits (Boss.submit_signal_fails u)) own = ground (arith, own refl)
BossMove-queue_mutex (Boss.submits Boss.submit_unlock) own = ground (arith, own refl)
BossMove-queue_mutex (Boss.submits Boss.submit_unlock_fails) own = ground (arith, own refl)
BossMove-queue_mutex (Boss.waits Boss.wait) own = ground (arith)
BossMove-queue_mutex (Boss.waits (Boss.wait_lock free)) own = ground (arith)
BossMove-queue_mutex (Boss.waits Boss.wait_lock_fails) own = ground (arith)
BossMove-queue_mutex (Boss.waits (Boss.sleep some_active)) own = ground (arith)
BossMove-queue_mutex (Boss.waits (Boss.wake free)) own = ground (arith)
BossMove-queue_mutex (Boss.waits (Boss.sleep_fails some_active u)) own = ground (arith)
BossMove-queue_mutex (Boss.waits (Boss.none_active e)) own = ground (arith)
BossMove-queue_mutex (Boss.waits (Boss.again some_left)) own = ground (arith)
BossMove-queue_mutex (Boss.waits (Boss.look_closer e)) own = ground (arith)
BossMove-queue_mutex (Boss.waits Boss.idle_unlock_fails) own = ground (arith)
BossMove-queue_mutex (Boss.waits (Boss.relock free)) own = ground (arith)
BossMove-queue_mutex (Boss.waits Boss.relock_fails) own = ground (arith)
BossMove-queue_mutex (Boss.waits (Boss.see_empty e)) own = ground (arith, own refl)
BossMove-queue_mutex (Boss.waits (Boss.see_more some_left)) own = ground (arith, own refl)
BossMove-queue_mutex (Boss.waits Boss.unlock_empty) own = ground (arith, own refl)
BossMove-queue_mutex (Boss.waits Boss.unlock_empty_fails) own = ground (arith, own refl)
BossMove-queue_mutex (Boss.waits Boss.unlock_more) own = ground (arith, own refl)
BossMove-queue_mutex (Boss.waits Boss.unlock_more_fails) own = ground (arith, own refl)
BossMove-queue_mutex (Boss.stops Boss.stop) own = ground (arith)
BossMove-queue_mutex (Boss.stops (Boss.stop_lock free)) own = ground (arith)
BossMove-queue_mutex (Boss.stops Boss.stop_lock_fails) own = ground (arith)
BossMove-queue_mutex (Boss.stops Boss.raise_flag) own = ground (arith, own refl)
BossMove-queue_mutex (Boss.stops (Boss.stop_signal_fails u)) own = ground (arith, own refl)
BossMove-queue_mutex (Boss.stops Boss.stop_unlock) own = ground (arith, own refl)
BossMove-queue_mutex (Boss.stops Boss.stop_unlock_fails) own = ground (arith, own refl)
BossMove-queue_mutex (Boss.goes_on Boss.next_call) own = ground (arith)
BossMove-queue_mutex (Boss.goes_on Boss.next_call_waited) own = ground (arith)

pub BossMove-active_mutex :
    {m m' : Shared} {p p' : BossPc}
    → BossMove m p m' p'
    → (boss_in_counter p ≡ true → m.active_mutex ≡ some 0)
    → Keeps 0 m.active_mutex m'.active_mutex (boss_in_counter p')
BossMove-active_mutex (Boss.submits (Boss.submit real)) own = ground (arith)
BossMove-active_mutex (Boss.submits Boss.submit_invalid) own = ground (arith)
BossMove-active_mutex (Boss.submits Boss.submit_no_memory) own = ground (arith)
BossMove-active_mutex (Boss.submits (Boss.submit_lock free)) own = ground (arith)
BossMove-active_mutex (Boss.submits Boss.submit_lock_fails) own = ground (arith)
BossMove-active_mutex (Boss.submits (Boss.push_task calloc law room pushed)) own = ground (arith)
BossMove-active_mutex (Boss.submits (Boss.push_refused calloc none_given pushed u)) own =
    ground (arith)
BossMove-active_mutex (Boss.submits (Boss.submit_signal_fails u)) own = ground (arith)
BossMove-active_mutex (Boss.submits Boss.submit_unlock) own = ground (arith)
BossMove-active_mutex (Boss.submits Boss.submit_unlock_fails) own = ground (arith)
BossMove-active_mutex (Boss.waits Boss.wait) own = ground (arith)
BossMove-active_mutex (Boss.waits (Boss.wait_lock free)) own = ground (arith)
BossMove-active_mutex (Boss.waits Boss.wait_lock_fails) own = ground (arith)
BossMove-active_mutex (Boss.waits (Boss.sleep some_active)) own = ground (arith, own refl)
BossMove-active_mutex (Boss.waits (Boss.wake free)) own = ground (arith)
BossMove-active_mutex (Boss.waits (Boss.sleep_fails some_active u)) own = ground (arith, own refl)
BossMove-active_mutex (Boss.waits (Boss.none_active e)) own = ground (arith, own refl)
BossMove-active_mutex (Boss.waits (Boss.again some_left)) own = ground (arith, own refl)
BossMove-active_mutex (Boss.waits (Boss.look_closer e)) own = ground (arith, own refl)
BossMove-active_mutex (Boss.waits Boss.idle_unlock_fails) own = ground (arith, own refl)
BossMove-active_mutex (Boss.waits (Boss.relock free)) own = ground (arith)
BossMove-active_mutex (Boss.waits Boss.relock_fails) own = ground (arith)
BossMove-active_mutex (Boss.waits (Boss.see_empty e)) own = ground (arith)
BossMove-active_mutex (Boss.waits (Boss.see_more some_left)) own = ground (arith)
BossMove-active_mutex (Boss.waits Boss.unlock_empty) own = ground (arith)
BossMove-active_mutex (Boss.waits Boss.unlock_empty_fails) own = ground (arith)
BossMove-active_mutex (Boss.waits Boss.unlock_more) own = ground (arith)
BossMove-active_mutex (Boss.waits Boss.unlock_more_fails) own = ground (arith)
BossMove-active_mutex (Boss.stops Boss.stop) own = ground (arith)
BossMove-active_mutex (Boss.stops (Boss.stop_lock free)) own = ground (arith)
BossMove-active_mutex (Boss.stops Boss.stop_lock_fails) own = ground (arith)
BossMove-active_mutex (Boss.stops Boss.raise_flag) own = ground (arith)
BossMove-active_mutex (Boss.stops (Boss.stop_signal_fails u)) own = ground (arith)
BossMove-active_mutex (Boss.stops Boss.stop_unlock) own = ground (arith)
BossMove-active_mutex (Boss.stops Boss.stop_unlock_fails) own = ground (arith)
BossMove-active_mutex (Boss.goes_on Boss.next_call) own = ground (arith)
BossMove-active_mutex (Boss.goes_on Boss.next_call_waited) own = ground (arith)
