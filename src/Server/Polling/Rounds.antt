-- ===== src/Server/Polling/Rounds.antt =====
-- A round of the loop, part by part.
use mathlib.Core.List.{append-nil}
use multithreaded_c_server.Common.{
  ℕ, ◌≡◌, refl, sym, ap, ◌∙◌, inl, inr, Bool, Bool-cases, true, false, some, List, [], ◌∷◌, ◌++◌,
  load, Ptr, ℤ, is_zero,
}
use multithreaded_c_server.Common.Run.{Run, done, ◌>>=◌}
use multithreaded_c_server.Conn.{Conn, pending_close}
use multithreaded_c_server.ConnMgr.{PollFd}
use multithreaded_c_server.NetIo.{Errno}
use multithreaded_c_server.NetIo.Accept.{Accepted}
use multithreaded_c_server.Server.Closing.{is_internal}
use multithreaded_c_server.Server.Polling.{
  same_int, is_success, status_of, is_queued, Revents, Job, io_read, io_send, Calls, ServerState,
  Outcome, goes_on, self_pipe, cleanup, Handled, write_conn, hold, with_job, submit_read,
  read_ready, hung_up, write_ready, and_if, poll_conn,
}
use multithreaded_c_server.Server.Polling.Served.{
  Served, then-Served, unserved, submitted_one, write_conn-now, write_conn-others,
}

-- A part of the round that has a result, and what it is.
abbrev pub Serves : Ptr → ServerState → Conn → Run Handled → Type 0
Serves p s c out =
    (res : Outcome) × (s' : ServerState) × (c' : Conn) × (js : List Job) × (out ≡ done (res, s'))
    × Served p s s' c c' js

-- The state with a task more, and a reference for it.
abbrev busier : Job → Ptr → Conn → ServerState → ServerState
busier j p c s = with_job j (write_conn p (hold c) s)

submit_read-Serves :
    (calls : Calls) (p : Ptr) (c : Conn) (s : ServerState)
    → (s.world).contexts p ≡ some c
    → is_internal c.type ≡ false
    → is_queued calls.submit_read ≡ true
    → Serves p s c (submit_read calls p c s)
unfolding submit_read
submit_read-Serves calls p c s at inbound given =
    let one = submitted_one {p = p} c s (io_read p) refl in
    elim (Bool-cases (is_zero calls.lock_read)) [
      | inl e ↦ elim (Bool-cases (is_success (status_of calls.submit_read))) [
        | inl e1 ↦ elim (Bool-cases (is_zero calls.unlock_read)) [
          | inl e' ↦ (
            goes_on,
            busier (io_read p) p c s,
            hold c,
            io_read p ∷ [],
            rw (inbound, e, given, e1, e') refl,
            one,
          )
          | inr e' ↦ (
            cleanup,
            busier (io_read p) p c s,
            hold c,
            io_read p ∷ [],
            rw (inbound, e, given, e1, e') refl,
            one,
          )
        ]
        | inr e1 ↦ (
          cleanup,
          busier (io_read p) p c s,
          hold c,
          io_read p ∷ [],
          rw (inbound, e, given, e1) refl,
          one,
        )
      ]
      | inr e ↦ (cleanup, s, c, [], rw (inbound, e) refl, unserved at)
    ]

-- Neither the listener nor the self pipe is at `p`.
pub record Ordinary (sfd sigpipe_fd : ℤ) (conn : ℕ) (p : Ptr) (c : Conn) (s : ServerState)
    : Type 0 where
  pub entry : PollFd
  pub polled : load (s.conn_mgr).p_pfds conn ≡ some entry
  pub no_listener : same_int (entry.fd) sfd ≡ false
  pub no_pipe : same_int c.fd sigpipe_fd ≡ false
  pub inbound : is_internal c.type ≡ false

read_ready-Serves :
    (sfd sigpipe_fd : ℤ) (script : List Accepted) (errno : Errno) (calls : Calls) (conn : ℕ)
    (p : Ptr) (c : Conn) (s : ServerState)
    → (s.world).contexts p ≡ some c
    → Ordinary sfd sigpipe_fd conn p c s
    → is_queued calls.submit_read ≡ true
    → Serves p s c (read_ready sfd sigpipe_fd script errno calls conn p s)
unfolding read_ready
read_ready-Serves sfd sigpipe_fd script errno calls conn p c s at o given =
    let (res, s', c', js, e, served) = submit_read-Serves calls p c s at o.inbound given in
    (res, s', c', js, rw (o.polled, o.no_listener, at, o.no_pipe) e, served)

closed_by :
    {p : Ptr} (c : Conn) (s : ServerState)
    → Served p s
        (write_conn p (record c { state = pending_close }) s)
        c
        (record c { state = pending_close })
        []
closed_by {p} c s = record {
  now = write_conn-now p (record c { state = pending_close }) s;
  others = write_conn-others p (record c { state = pending_close }) s;
  same_closed = refl;
  same_destroyed = refl;
  same_mgr = refl;
  added = sym (append-nil s.submitted);
  mine = tt;
  count = refl;
  same_fd = refl;
  same_type = refl;
  state = inr refl;
}

hung_up-Serves :
    (calls : Calls) (p : Ptr) (c : Conn) (s : ServerState)
    → (s.world).contexts p ≡ some c
    → is_internal c.type ≡ false
    → Serves p s c (hung_up calls p s)
unfolding hung_up
hung_up-Serves calls p c s at inbound =
    let c' = record c { state = pending_close } in
    elim (Bool-cases (is_zero calls.lock_hangup)) [
      | inl e ↦ elim (Bool-cases (is_zero calls.unlock_hangup)) [
        | inl e' ↦ (
          goes_on,
          write_conn p c' s,
          c',
          [],
          rw (at, inbound, e, e') refl,
          closed_by {p = p} c s,
        )
        | inr e' ↦ (
          cleanup,
          write_conn p c' s,
          c',
          [],
          rw (at, inbound, e, e') refl,
          closed_by {p = p} c s,
        )
      ]
      | inr e ↦ (cleanup, s, c, [], rw (at, inbound, e) refl, unserved at)
    ]

write_ready-Serves :
    (calls : Calls) (p : Ptr) (c : Conn) (s : ServerState)
    → (s.world).contexts p ≡ some c
    → is_internal c.type ≡ false
    → is_queued calls.submit_send ≡ true
    → Serves p s c (write_ready calls p s)
unfolding write_ready
write_ready-Serves calls p c s at inbound given = elim (Bool-cases (is_zero calls.lock_send)) [
  | inl e ↦ (
    goes_on,
    busier (io_send p) p c s,
    hold c,
    io_send p ∷ [],
    rw (at, inbound, e, given) refl,
    submitted_one {p = p} c s (io_send p) refl,
  )
  | inr e ↦ (goes_on, s, c, [], rw (at, inbound, e) refl, unserved at)
]

-- A part of the round behind what was served before.
and_if-Serves :
    (p : Ptr) (c : Conn) (s : ServerState) (test : Bool) (f : ServerState → Run Handled)
    (r : Run Handled)
    → Serves p s c r
    → ((s1 : ServerState) (c1 : Conn)
        → (s1.world).contexts p ≡ some c1
        → c1.type ≡ c.type
        → Serves p s1 c1 (f s1))
    → Serves p s c (r >>= λ out. and_if test f out)
and_if-Serves p c s true f r (goes_on, s1, c1, js, e, a) next =
    let (res, s2, c2, ks, e', b) = next s1 c1 a.now a.same_type in
    (res, s2, c2, js ++ ks, rw e e', then-Served a b)
and_if-Serves p c s false f r (goes_on, s1, c1, js, e, a) next = (goes_on, s1, c1, js, rw e refl, a)
and_if-Serves p c s test f r (self_pipe, s1, c1, js, e, a) next =
    (self_pipe, s1, c1, js, rw e (go test), a)
  where
    go : (test : Bool) → and_if test f (self_pipe, s1) ≡ done (self_pipe, s1)
    go true = refl
    go false = refl
and_if-Serves p c s test f r (cleanup, s1, c1, js, e, a) next =
    (cleanup, s1, c1, js, rw e (go test), a)
  where
    go : (test : Bool) → and_if test f (cleanup, s1) ≡ done (cleanup, s1)
    go true = refl
    go false = refl

first_if :
    (p : Ptr) (c : Conn) (s : ServerState)
    → (s.world).contexts p ≡ some c
    → (test : Bool) (f : ServerState → Run Handled) → Serves p s c (f s)
    → Serves p s c (and_if test f (goes_on, s))
first_if p c s at true f part = part
first_if p c s at false f part = (goes_on, s, c, [], refl, unserved at)

-- A round of the event loop on a connection with a client never goes wrong, whatever poll reports
-- and whatever the calls on the mutex return: it submits tasks for this connection only, takes one
-- reference of it for each, may mark it pending close, and changes nothing else, provided every
-- task that is submitted is queued, with whatever status.
pub poll_conn-Serves :
    (sfd sigpipe_fd : ℤ) (script : List Accepted) (errno : Errno) (r : Revents) (calls : Calls)
    (conn : ℕ) (p : Ptr) (c : Conn) (s : ServerState)
    → (s.world).contexts p ≡ some c
    → Ordinary sfd sigpipe_fd conn p c s
    → is_queued calls.submit_read ≡ true
    → is_queued calls.submit_send ≡ true
    → Serves p s c (poll_conn sfd sigpipe_fd script errno r calls conn p s)
unfolding poll_conn
poll_conn-Serves sfd sigpipe_fd script errno r calls conn p c s at o read_given send_given =
    let first =
      first_if p c s at r.input (read_ready sfd sigpipe_fd script errno calls conn p)
        (read_ready-Serves sfd sigpipe_fd script errno calls conn p c s at o read_given) in
    let second =
      and_if-Serves p c s r.hangup (hung_up calls p) _ first
        (λ s1 c1 here same. hung_up-Serves calls p c1 s1 here (ap is_internal same ∙ o.inbound)) in
    and_if-Serves p c s r.output (write_ready calls p) _ second (λ s1 c1 here same.
      write_ready-Serves calls p c1 s1 here (ap is_internal same ∙ o.inbound) send_given)
