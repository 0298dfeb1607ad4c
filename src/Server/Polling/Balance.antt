-- ===== src/Server/Polling/Balance.antt =====
-- The references that the event loop takes and those that the tasks give back.
use multithreaded_c_server.Common.{
  ℕ, suc, ◌+◌, ◌≡◌, refl, ap, ◌∙◌, inl, inr, arith, ◌==◌, Bool, Bool-cases, true, false, some, List,
  [], ◌∷◌, ◌++◌, length, Ptr, ℤ, pos, is_zero, ByteOrder,
}
use multithreaded_c_server.Common.Run.{done}
use multithreaded_c_server.Conn.{Conn}
use multithreaded_c_server.NetIo.{Errno}
use multithreaded_c_server.NetIo.Accept.{Accepted}
use multithreaded_c_server.Server.{Task, run_tasks}
use multithreaded_c_server.Server.Refs.{Leaves, run_tasks-Leaves}
use multithreaded_c_server.Server.Closing.{LockResults, is_internal, is_pending_close, closable}
use multithreaded_c_server.Server.Polling.{
  is_queued, Revents, Job, Calls, ServerState, goes_on, Outcome, write_conn, hold, one_up,
  write_ready, poll_conn,
}
use multithreaded_c_server.Server.Polling.Served.{held_for}
use multithreaded_c_server.Server.Polling.Rounds.{Ordinary, poll_conn-Serves}

held_for-pos : (js : List Job) (n : ℕ) → held_for js (pos n) ≡ pos (length js + n)
held_for-pos [] n = ap pos (omega arith)
held_for-pos (j ∷ js) n = held_for-pos js (suc n) ∙ ap pos (omega arith)

-- The references are in balance: once as many tasks have run on a connection as a round of the
-- event loop submitted for it, there are as many references as before the round, whatever poll
-- reported, whatever the calls on the mutex returned and whatever the tasks met, provided every
-- task that was submitted was queued, with whatever status.
pub round_balances :
    (sfd sigpipe_fd : ℤ) (script : List Accepted) (errno : Errno) (r : Revents) (calls : Calls)
    (conn : ℕ) (p : Ptr) (c : Conn) (s : ServerState) (n : ℕ)
    → (s.world).contexts p ≡ some c
    → Ordinary sfd sigpipe_fd conn p c s
    → is_queued calls.submit_read ≡ true
    → is_queued calls.submit_send ≡ true
    → c.ref_count ≡ pos n
    → (res : Outcome) × (s' : ServerState) × (c' : Conn) × (js : List Job) × (poll_conn sfd
          sigpipe_fd script errno r calls conn p s
        ≡ done (res, s'))
      × (s'.submitted ≡ s.submitted ++ js)
      × ((s'.world).contexts p ≡ some c')
      × ((order : ByteOrder) (g_should_shutdown : Bool) (ts : List Task)
          → length ts ≡ length js
          → Leaves (λ out. out.0) n c' (run_tasks order g_should_shutdown ts c'))
round_balances sfd sigpipe_fd script errno r calls conn p c s n at o read_given send_given refs =
    let (res, s', c', js, e, served) =
      poll_conn-Serves sfd sigpipe_fd script errno r calls conn p c s at o read_given send_given in
    (
      res,
      s',
      c',
      js,
      e,
      served.added,
      served.now,
      λ order g_should_shutdown ts same.
          run_tasks-Leaves order g_should_shutdown ts c' n (
            served.count
            ∙ ap (held_for js) refs
            ∙ held_for-pos js n
            ∙ ap pos (omega (arith, same))),
    )

-- A connection to which something refers is not closed.
referred_stays :
    (locks : LockResults) (p : Ptr) (c : Conn) (n : ℕ)
    → c.ref_count ≡ pos (suc n)
    → closable locks p c ≡ false
referred_stays locks p c n refs =
    let not_zero : (suc n == 0) ≡ false = ground arith in
    let busy : is_zero c.ref_count ≡ false = ap is_zero refs ∙ not_zero in
    elim (Bool-cases (is_internal c.type)) [
      | inl e ↦ rw e refl
      | inr e ↦ elim (Bool-cases (is_zero (locks p).0)) [
        | inr e1 ↦ rw (e, e1) refl
        | inl e1 ↦ elim (Bool-cases (is_zero (locks p).1)) [
          | inr e2 ↦ rw (e, e1, e2) refl
          | inl e2 ↦ elim (Bool-cases (is_pending_close c.state)) [
            | inr e3 ↦ rw (e, e1, e2, e3) refl
            | inl e3 ↦ rw (e, e1, e2, e3, busy) refl
          ]
        ]
      ]
    ]

-- A sending task that the pool refuses leaks a reference: where poll reports for a connection with
-- a client that it can be written, and neither input nor a hang-up, its mutex is locked, and
-- coin_tpool_submit does not queue the task, the round goes on with the connection's count raised
-- and no task submitted. After as many tasks as there were references have run on it one reference
-- is left, and a connection with one reference is never closed.
pub refused_leaks :
    (sfd sigpipe_fd : ℤ) (script : List Accepted) (errno : Errno) (r : Revents) (calls : Calls)
    (conn : ℕ) (p : Ptr) (c : Conn) (s : ServerState) (order : ByteOrder) (g_should_shutdown : Bool)
    (ts : List Task)
    → (s.world).contexts p ≡ some c
    → is_internal c.type ≡ false
    → r.input ≡ false
    → r.hangup ≡ false
    → r.output ≡ true
    → is_zero calls.lock_send ≡ true
    → is_queued calls.submit_send ≡ false
    → c.ref_count ≡ pos (length ts)
    → (poll_conn sfd sigpipe_fd script errno r calls conn p s
        ≡ done (goes_on, write_conn p (hold c) s))
      × Leaves (λ out. out.0) 1 (hold c) (run_tasks order g_should_shutdown ts (hold c))
      × ((locks : LockResults) (c' : Conn) → c'.ref_count ≡ pos 1 → closable locks p c' ≡ false)
unfolding poll_conn write_ready
refused_leaks sfd sigpipe_fd script errno r calls conn p c s order g_should_shutdown ts at inbound
      no_input no_hangup output locked refused refs =
    (
      rw (no_input, no_hangup, output, at, inbound, locked, refused) refl,
      run_tasks-Leaves order g_should_shutdown ts (hold c) 1
          (ap one_up refs ∙ ap pos (omega arith)),
      λ locks c' one_left. referred_stays locks p c' 0 one_left,
    )
