-- ===== src/Server/Closing.antt =====
-- The start of a round of the event loop of src/main.c: connections that are to be closed, and that
-- no task refers to, are closed, and the connection manager is brought up to date.
pub mod Step
pub mod Sweep
pub mod Round
mod Tests
use multithreaded_c_server.Common.{
  ℕ, zero, suc, ◌+◌, ◌&&◌, not, Bool, true, false, Option, none, some, List, [], ◌∷◌, if◌then◌else◌,
  get_or_else, Ptr, null, Realloc, ℤ, success, failure, is_zero, store, ◌>>=◌,
}
use multithreaded_c_server.Conn.{
  Conn, ConnType, internal_conn, inbound_conn, ConnState, read_header, read_content, write_response,
  pending_close, special_conn,
}
use multithreaded_c_server.EzArray.{EzArray, get_at, set_at}
use multithreaded_c_server.ConnMgr.{PollFd, no_poll, ConnMgr, World, destroy_conn}
use multithreaded_c_server.ConnMgr.Update.{update_connections}

abbrev pub is_pending_close : ConnState → Bool
is_pending_close pending_close = true
is_pending_close s = false

abbrev pub is_internal : ConnType → Bool
is_internal internal_conn = true
is_internal inbound_conn = false

-- The results of locking and unlocking a connection's mutex.
abbrev pub LockResults : Type 0
LockResults = Ptr → ℤ × ℤ

-- A connection whose mutex can be used and that is done with: `cur_state` and `cur_refs` say so.
abbrev pub closable : LockResults → Ptr → Conn → Bool
closable locks p c =
    not (is_internal c.type)
    && (is_zero (locks p).0
        && (is_zero (locks p).1 && (is_pending_close c.state && is_zero c.ref_count)))

-- `memset` of an entry, if the slot of the connection could be set.
pub blank_entry : ℤ → ℕ → List PollFd → Option (List PollFd)
blank_entry res conn pfds = if is_zero res then store pfds conn no_poll else some pfds

-- The connection `p` in slot `conn` is closed and its slot and entry are blanked.
pub close_slot : ℕ → Ptr → ConnMgr → World → Option (ConnMgr × World)
unfolding blank_entry
close_slot conn p mgr w = do
  w' ← destroy_conn p w
  (res, conns) ← set_at mgr.p_conns conn null
  pfds ← blank_entry res conn mgr.p_pfds
  some (record mgr { p_conns = conns; p_pfds = pfds }, w')

-- The loop over the connections from `conn` on, with `k` rounds left, and whether it got to its
-- end.
pub close_loop : LockResults → (k conn : ℕ) → ConnMgr → World → Option (Bool × ConnMgr × World)
unfolding close_slot
close_loop locks zero conn mgr w = some (true, mgr, w)
close_loop locks (suc k) conn mgr w = get_at mgr.p_conns conn (some null) >>= λ got.
    if is_zero got.0
    then (w.contexts (get_or_else got.1 null) >>= λ c.
        (if closable locks (get_or_else got.1 null) c
          then close_slot conn (get_or_else got.1 null) mgr w
          else some (mgr, w))
        >>= λ next. close_loop locks k (conn + 1) next.0 next.1)
    else some (false, mgr, w)

-- The start of the round: the result of `connmgr_update_connections`, or that of the loop.
pub maintain :
    Realloc Ptr
    → Realloc PollFd
    → (events : ℕ) → LockResults
    → ConnMgr
    → World
    → Option (ℤ × ConnMgr × World)
unfolding close_loop
maintain realloc realloc_pfds events locks mgr w = do
  (whole, mgr1, w1) ← close_loop locks mgr.num_active_conns 0 mgr w
  if whole
      then (update_connections realloc realloc_pfds events w1 (some mgr1) >>= λ out.
          some (out.0, get_or_else out.1 mgr1, w1))
      else some (failure, mgr1, w1)
