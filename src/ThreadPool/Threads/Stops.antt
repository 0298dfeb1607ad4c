-- ===== src/ThreadPool/Threads/Stops.antt =====
-- How `coin_tpool_stop_workers` of src/libs/concurinc/src/concurinc.c ends.
use multithreaded_c_server.Common.{◌≡◌, refl, Bool, true, List, if◌then◌else◌, is_zero}
use multithreaded_c_server.Common.Run.{done}
use multithreaded_c_server.CoinQueue.{coin_success, coin_pthread_join_error}
use multithreaded_c_server.ThreadPool.Ledger.{Ledger}
use multithreaded_c_server.ThreadPool.Context.{Ctx}
use multithreaded_c_server.ThreadPool.Threads.{Thread, StopAnswers, join_loop, stop_workers}

pub stop_workers-joined :
    (a : StopAnswers) (ctx : Ctx) (threads : List Thread) (held : Ledger) {failed : Bool}
    {ts : List Thread} {rest : Ledger}
    → is_zero a.lock ≡ true
    → is_zero a.broadcast ≡ true
    → is_zero a.unlock ≡ true
    → join_loop (a.join true) 0 threads held ≡ done (failed, ts, rest)
    → stop_workers a ctx threads held
      ≡ done (
        if failed then coin_pthread_join_error else coin_success,
        record ctx { b_shutdown = true },
        ts,
        rest,
      )
unfolding stop_workers
stop_workers-joined a ctx threads held locked told unlocked joins =
    rw (locked, told, unlocked, joins) refl
