-- ===== src/NetIo/Accept.antt =====
-- `nl_accept` and `nl_set_nonblocking` of src/libs/net_io/netio.c. What the kernel answers to each
-- accept, and what the calls behind it find, is a list of answers.
use multithreaded_c_server.Common.{
  ℕ, zero, ◌+◌, Bool, true, false, Option, none, some, List, [], ◌∷◌, Ptr, Malloc, ℤ, pos, negsuc,
  success, failure, is_zero, get_or_else, ◌==◌, if◌then◌else◌,
}
use multithreaded_c_server.Conn.{inbound_conn}
use multithreaded_c_server.EzQueue.{EzQueue}
use multithreaded_c_server.ConnMgr.{ConnMgr, World, ConnMemory, create_new_conn}
use multithreaded_c_server.NetIo.{Errno, ewouldblock, eagain, Run, done, pending, checked, ◌>>=◌}

abbrev pub max_connections : ℕ
max_connections = 1024

-- `get_flags` and `set_flags` are what the two calls of fcntl return.
pub set_nonblocking : (get_flags set_flags : ℤ) → ℤ
set_nonblocking (negsuc zero) set_flags = failure
set_nonblocking get_flags set_flags = set_flags

abbrev pub is_minus_one : ℤ → Bool
is_minus_one (negsuc zero) = true
is_minus_one z = false

-- An answer to accept: a descriptor, with what fcntl and the allocations for its connection
-- return, or -1 with the value of errno.
pub data Accepted : Type 0 where
  accepted : (clifd : ℕ) (get_flags set_flags : ℤ) → Malloc Ptr → ConnMemory → Accepted
  accept_failed : Errno → Accepted

-- The result once the loop is left, from errno.
pub accept_result : Errno → ℤ
accept_result ewouldblock = success
accept_result eagain = success
accept_result e = failure

abbrev pub queued : Option EzQueue → ℕ
queued none = 0
queued (some q) = q.num_items

-- The test at the head of the loop is for equality: no more, if one more than the maximum is there.
abbrev pub is_full : ConnMgr → Bool
is_full mgr = mgr.num_active_conns + queued mgr.p_new_conns == max_connections + 1

-- The loop of `nl_accept`. `errno` is what it is at the head of the loop: a call that succeeds
-- leaves it as it is.
unfoldable pub accept_loop : List Accepted → Errno → ConnMgr → World → Run (ℤ × ConnMgr × World)
unfolding set_nonblocking accept_result
accept_loop [] errno mgr w = if is_full mgr then done (accept_result errno, mgr, w) else pending
accept_loop (accept_failed e ∷ rs) errno mgr w =
    if is_full mgr then done (accept_result errno, mgr, w) else done (accept_result e, mgr, w)
accept_loop (accepted clifd get_flags set_flags malloc memory ∷ rs) errno mgr w =
    let next =
      checked (create_new_conn malloc memory (pos clifd) (some mgr) inbound_conn w) >>= λ made.
      let mgr' = get_or_else made.1 mgr in
      let rest = accept_loop rs errno mgr' made.2 in
      if is_zero made.0
      then rest
      else done (failure, mgr', record (made.2) { closed = pos clifd ∷ (made.2).closed }) in
    if is_full mgr
    then done (accept_result errno, mgr, w)
    else if is_minus_one (set_nonblocking get_flags set_flags)
    then done (failure, mgr, w)
    else next

unfoldable pub accept : List Accepted → Errno → ConnMgr → World → Run (ℤ × ConnMgr × World)
unfolding accept_loop
accept script errno mgr w = accept_loop script errno mgr w
