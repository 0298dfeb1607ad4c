-- ===== src/Server/Polling/Tests.antt =====
-- A connection that can be read and written.
use multithreaded_c_server.Common.{
  ◌≡◌, refl, Bool, true, false, none, some, List, [], ◌∷◌, ◌++◌, length, if◌then◌else◌, ◌==◌, pos,
  ByteOrder,
}
use multithreaded_c_server.Common.Run.{done}
use multithreaded_c_server.Conn.{Conn}
use multithreaded_c_server.CoinQueue.{
  coin_success, coin_pthread_cond_error, coin_allocation_failure,
}
use multithreaded_c_server.EzArray.{EzArray}
use multithreaded_c_server.ConnMgr.Tests.{conn, poll_of, new_conns}
use multithreaded_c_server.NetIo.{ewouldblock}
use multithreaded_c_server.NetIo.Tests.{little_endian}
use multithreaded_c_server.Server.{Task, read_task, run_tasks}
use multithreaded_c_server.Server.Refs.{Leaves}
use multithreaded_c_server.Server.Closing.{LockResults, closable}
use multithreaded_c_server.Server.Polling.{
  Revents, Job, queued, refused, Calls, ServerState, Outcome, goes_on, write_conn, hold, poll_conn,
}
use multithreaded_c_server.Server.Polling.Rounds.{Ordinary}
use multithreaded_c_server.Server.Polling.Balance.{round_balances, refused_leaks}

abbrev conns : EzArray
conns = record { pp_buf = 5 ∷ 6 ∷ []; num_items = 2; max_items = 2 }

-- The connection at 6 has one reference.
abbrev referred : Conn
referred = record (conn 16) { ref_count = pos 1 }

abbrev state : ServerState
state = record {
  conn_mgr = record {
    p_conns = some conns;
    p_pfds = poll_of 15 ∷ poll_of 16 ∷ [];
    p_new_conns = some new_conns;
    max_conns = 2;
    num_active_conns = 2;
  };
  world = record {
    contexts = λ p. if p == 6 then some referred else none;
    closed = [];
    destroyed = [];
  };
  submitted = [];
}

abbrev both : Revents
both = record { input = true; hangup = false; output = true }

abbrev writable : Revents
writable = record { input = false; hangup = false; output = true }

abbrev fine : Calls
fine = record {
  lock_read = pos 0;
  submit_read = queued coin_success;
  unlock_read = pos 0;
  lock_hangup = pos 0;
  unlock_hangup = pos 0;
  lock_send = pos 0;
  submit_send = queued coin_pthread_cond_error;
}

abbrev refuses : Calls
refuses = record fine { submit_send = refused coin_allocation_failure }

at_6 : Ordinary (pos 3) (pos 4) 1 6 referred state
at_6 = record {
  entry = poll_of 16;
  polled = refl;
  no_listener = refl;
  no_pipe = refl;
  inbound = refl;
}

round_balances_example :
    (res : Outcome) × (s' : ServerState) × (c' : Conn) × (js : List Job) × (poll_conn
        (pos 3)
        (pos 4)
        []
        ewouldblock
        both
        fine
        1
        6
        state
      ≡ done (res, s'))
    × (s'.submitted ≡ [] ++ js)
    × ((s'.world).contexts 6 ≡ some c')
    × ((order : ByteOrder) (g_should_shutdown : Bool) (ts : List Task)
        → length ts ≡ length js
        → Leaves (λ out. out.0) 1 c' (run_tasks order g_should_shutdown ts c'))
round_balances_example =
    round_balances (pos 3) (pos 4) [] ewouldblock both fine 1 6 referred state 1 refl at_6 refl refl
      refl

refused_leaks_example :
    (poll_conn (pos 3) (pos 4) [] ewouldblock writable refuses 1 6 state
      ≡ done (goes_on, write_conn 6 (hold referred) state))
    × Leaves
        (λ out. out.0)
        1
        (hold referred)
        (run_tasks little_endian false (read_task [] ∷ []) (hold referred))
    × ((locks : LockResults) (c' : Conn) → c'.ref_count ≡ pos 1 → closable locks 6 c' ≡ false)
refused_leaks_example =
    refused_leaks (pos 3) (pos 4) [] ewouldblock writable refuses 1 6 referred state little_endian
      false (read_task [] ∷ []) refl refl refl refl refl refl refl refl
