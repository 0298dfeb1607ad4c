-- ===== src/Server/Polling.antt =====
-- What the event loop of src/main.c does with the results of poll.
pub mod Served
pub mod Rounds
pub mod Balance
mod Tests
use multithreaded_c_server.Common.{
  ℕ, zero, suc, ◌+◌, Bool, true, false, Option, none, some, List, [], ◌∷◌, ◌++◌, if◌then◌else◌,
  ◌==◌, get_or_else, load, Ptr, null, ℤ, pos, negsuc, is_zero,
}
use multithreaded_c_server.Common.Run.{Run, done, fault, checked, ◌>>=◌}
use multithreaded_c_server.Conn.{Conn, pending_close}
use multithreaded_c_server.CoinQueue.{Status, coin_success}
use multithreaded_c_server.EzArray.{get_at}
use multithreaded_c_server.ConnMgr.{PollFd, ConnMgr, World, update}
use multithreaded_c_server.NetIo.{Errno}
use multithreaded_c_server.NetIo.Accept.{Accepted, accept, is_minus_one}
use multithreaded_c_server.Server.Closing.{is_internal}

-- `int` addition of one, far from its ends.
abbrev pub one_up : ℤ → ℤ
one_up (pos n) = pos (suc n)
one_up (negsuc zero) = pos 0
one_up (negsuc (suc n)) = negsuc n

abbrev pub same_int : ℤ → ℤ → Bool
same_int (pos m) (pos n) = m == n
same_int (negsuc m) (negsuc n) = m == n
same_int m n = false

abbrev pub is_success : Status → Bool
is_success coin_success = true
is_success s = false

-- The tests of `revents`: POLLIN; POLLHUP, POLLERR or POLLNVAL; POLLOUT.
pub record Revents : Type 0 where
  pub input : Bool
  pub hangup : Bool
  pub output : Bool

-- A task that was submitted to the pool, for the connection at an address.
pub data Job : Type 0 where
  io_read io_send : Ptr → Job

-- What a call of `coin_tpool_submit` did: whether the task is in the pool's queue, and the status.
-- Where the signal or the unlock behind the push fails, the task is queued and the status is an
-- error (src/libs/concurinc/src/concurinc.c, from line 388 on).
pub data Submitted : Type 0 where
  queued refused : Status → Submitted

abbrev pub is_queued : Submitted → Bool
is_queued (queued status) = true
is_queued (refused status) = false

abbrev pub status_of : Submitted → Status
status_of (queued status) = status
status_of (refused status) = status

-- What the calls made for one connection return.
pub record Calls : Type 0 where
  pub lock_read : ℤ
  pub submit_read : Submitted
  pub unlock_read : ℤ
  pub lock_hangup : ℤ
  pub unlock_hangup : ℤ
  pub lock_send : ℤ
  pub submit_send : Submitted

pub record ServerState : Type 0 where
  pub conn_mgr : ConnMgr
  pub world : World
  pub submitted : List Job

-- Whether the loop goes on, ends because of the self pipe, or jumps to `cleanup_connections`.
pub data Outcome : Type 0 where
  goes_on self_pipe cleanup : Outcome

abbrev pub Handled : Type 0
Handled = Outcome × ServerState

abbrev pub write_conn : Ptr → Conn → ServerState → ServerState
write_conn p c s = record s {
  world = record (s.world) { contexts = update (s.world).contexts p (some c) };
}

abbrev pub hold : Conn → Conn
hold c = record c { ref_count = one_up c.ref_count }

abbrev pub with_job : Job → ServerState → ServerState
with_job job s = record s { submitted = s.submitted ++ job ∷ [] }

-- The tasks submitted, after a call of `coin_tpool_submit`.
abbrev pub after_submit : Submitted → Job → ServerState → ServerState
after_submit outcome job s = if is_queued outcome then with_job job s else s

-- POLLIN on a connection that is neither the listener nor the self pipe. The mutex of an internal
-- connection was never set up.
pub submit_read : Calls → Ptr → Conn → ServerState → Run Handled
submit_read calls p c s =
    if is_internal c.type
    then fault
    else if is_zero calls.lock_read
    then (let s' = after_submit calls.submit_read (io_read p) (write_conn p (hold c) s) in
        if is_success (status_of calls.submit_read)
        then if is_zero calls.unlock_read then done (goes_on, s') else done (cleanup, s')
        else done (cleanup, s'))
    else done (cleanup, s)

-- POLLIN on the listener.
pub accept_ready : List Accepted → Errno → ServerState → Run Handled
accept_ready script errno s = accept script errno s.conn_mgr s.world >>= λ out.
    let s' = record s { conn_mgr = out.1; world = out.2 } in
    if is_minus_one out.0 then done (cleanup, s') else done (goes_on, s')

pub read_ready :
    (sfd sigpipe_fd : ℤ)
    → List Accepted
    → Errno
    → Calls
    → (conn : ℕ) → Ptr
    → ServerState
    → Run Handled
unfolding submit_read accept_ready
read_ready sfd sigpipe_fd script errno calls conn p s = do
  entry ← checked (load (s.conn_mgr).p_pfds conn)
  if same_int entry.fd sfd
      then accept_ready script errno s
      else (checked ((s.world).contexts p) >>= λ c.
          if same_int c.fd sigpipe_fd then done (self_pipe, s) else submit_read calls p c s)

pub hung_up : Calls → Ptr → ServerState → Run Handled
hung_up calls p s = checked ((s.world).contexts p) >>= λ c.
    if is_internal c.type
    then fault
    else if is_zero calls.lock_hangup
    then if is_zero calls.unlock_hangup
      then done (goes_on, write_conn p (record c { state = pending_close }) s)
      else done (cleanup, write_conn p (record c { state = pending_close }) s)
    else done (cleanup, s)

-- A failure to submit is only logged, and so is one to unlock.
pub write_ready : Calls → Ptr → ServerState → Run Handled
write_ready calls p s = checked ((s.world).contexts p) >>= λ c.
    if is_internal c.type
    then fault
    else if is_zero calls.lock_send
    then done (goes_on, after_submit calls.submit_send (io_send p) (write_conn p (hold c) s))
    else done (goes_on, s)

-- The next part of the round, unless the loop is left, if its test says so.
abbrev pub and_if : Bool → (ServerState → Run Handled) → Handled → Run Handled
and_if true f (goes_on, s) = f s
and_if test f out = done out

-- A round of the loop, for the connection `p` in slot `conn`.
pub poll_conn :
    (sfd sigpipe_fd : ℤ)
    → List Accepted
    → Errno
    → Revents
    → Calls
    → (conn : ℕ) → Ptr
    → ServerState
    → Run Handled
unfolding read_ready hung_up write_ready
poll_conn sfd sigpipe_fd script errno r calls conn p s =
    ((and_if r.input (read_ready sfd sigpipe_fd script errno calls conn p) (goes_on, s)) >>= λ out.
    and_if r.hangup (hung_up calls p) out)
    >>= λ out. and_if r.output (write_ready calls p) out

-- The loop from `conn` on, with `k` rounds left.
pub poll_loop :
    (sfd sigpipe_fd : ℤ)
    → List Accepted
    → Errno
    → (ℕ → Revents)
    → (ℕ → Calls)
    → (k conn : ℕ) → ServerState
    → Run Handled
unfolding poll_conn
poll_loop sfd sigpipe_fd script errno revents calls zero conn s = done (goes_on, s)
poll_loop sfd sigpipe_fd script errno revents calls (suc k) conn s =
    checked (get_at (s.conn_mgr).p_conns conn (some null)) >>= λ got.
    if is_zero got.0
    then (poll_conn sfd sigpipe_fd script errno (revents conn) (calls conn) conn
          (get_or_else got.1 null) s
        >>= λ out.
            and_if true (poll_loop sfd sigpipe_fd script errno revents calls k (conn + 1)) out)
    else done (cleanup, s)
