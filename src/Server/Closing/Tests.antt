-- ===== src/Server/Closing/Tests.antt =====
-- Two connections, of which one is closed, and two that wait.
use multithreaded_c_server.Common.{
  ◌≡◌, refl, inr, arith, none, some, [], ◌∷◌, ◌++◌, if◌then◌else◌, ◌==◌, pos, success,
}
use multithreaded_c_server.Compact.{kept}
use multithreaded_c_server.Conn.{Conn, pending_close}
use multithreaded_c_server.EzArray.{EzArray}
use multithreaded_c_server.EzArray.Contents as ArrayOf
use multithreaded_c_server.EzQueue.{EzQueue}
use multithreaded_c_server.EzQueue.Contents as QueueOf
use multithreaded_c_server.ConnMgr.{ConnMgr, World}
use multithreaded_c_server.ConnMgr.Step.{InStep}
use multithreaded_c_server.ConnMgr.Destroy.{Owned}
use multithreaded_c_server.ConnMgr.Tests.{
  conn, poll_of, new_conns, new_conns-IsValid, larger, larger-ReallocLaw, larger-Grants,
}
use multithreaded_c_server.Server.Closing.{LockResults, maintain}
use multithreaded_c_server.Server.Closing.Step.{Tidy}
use multithreaded_c_server.Server.Closing.Sweep.{left}
use multithreaded_c_server.Server.Closing.Round.{stays, maintain-InStep}

-- The connection at 6 is pending close.
abbrev done_with : Conn
done_with = record (conn 16) { state = pending_close }

abbrev world : World
world = record {
  contexts = λ p.
      if p == 5
      then some (conn 15)
      else if p == 6
      then some done_with
      else if p == 7
      then some (conn 17)
      else if p == 8
      then some (conn 18)
      else none;
  closed = [];
  destroyed = [];
}

abbrev conns : EzArray
conns = record { pp_buf = 5 ∷ 6 ∷ []; num_items = 2; max_items = 2 }

abbrev manager : ConnMgr
manager = record {
  p_conns = some conns;
  p_pfds = poll_of 15 ∷ poll_of 16 ∷ [];
  p_new_conns = some new_conns;
  max_conns = 2;
  num_active_conns = 2;
}

abbrev locks : LockResults
locks p = (pos 0, pos 0)

manager-Tidy : Tidy world manager conns new_conns
manager-Tidy = record {
  in_step = record {
    conns_at = refl;
    queue_at = refl;
    conns_valid = omega arith;
    queue_valid = new_conns-IsValid;
    room = refl;
    max_same = refl;
    count_same = refl;
    fds = refl;
  };
  clean = record { slots = tt; entries = tt };
  open_ones = (refl, (refl, tt));
  no_null = refl;
}

world-Owned : Owned world (5 ∷ 6 ∷ 7 ∷ 8 ∷ [])
world-Owned = (
  inr (
    conn 15,
    (λ e. omega arith),
    refl,
    ((λ e. omega arith), ((λ e. omega arith), ((λ e. omega arith), tt))),
  ),
  (
    inr (done_with, (λ e. omega arith), refl, ((λ e. omega arith), ((λ e. omega arith), tt))),
    (
      inr (conn 17, (λ e. omega arith), refl, ((λ e. omega arith), tt)),
      (inr (conn 18, (λ e. omega arith), refl, tt), tt),
    ),
  ),
)

maintain-InStep_example :
    (mgr' : ConnMgr) × (a' : EzArray) × (q' : EzQueue) × (maintain
        (larger 9)
        (larger (poll_of 9))
        1
        locks
        manager
        world
      ≡ some (success, mgr', left locks world (5 ∷ 6 ∷ [])))
    × InStep (left locks world (5 ∷ 6 ∷ [])) mgr' a' q'
    × (ArrayOf.contents a' ≡ kept (stays locks world) (5 ∷ 6 ∷ []) ++ 7 ∷ 8 ∷ [])
    × (QueueOf.contents q' ≡ [])
maintain-InStep_example =
    maintain-InStep (larger 9) (larger (poll_of 9)) 1 locks (larger-ReallocLaw 9) (larger-Grants 9)
      (larger-ReallocLaw (poll_of 9)) (larger-Grants (poll_of 9)) manager-Tidy world-Owned
      ((conn 15, (λ e. omega arith), refl), ((done_with, (λ e. omega arith), refl), tt))
      ((conn 17, (λ e. omega arith), refl), ((conn 18, (λ e. omega arith), refl), tt)) (omega arith)
