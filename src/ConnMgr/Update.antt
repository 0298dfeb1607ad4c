-- ===== src/ConnMgr/Update.antt =====
-- `connmgr_update_connections` of src/libs/connmgr/connmgr.c: closed connections are compacted
-- away, in the array and in the poll entries, and waiting connections are added to both.
use multithreaded_c_server.Common.{
  ℕ, zero, suc, ◌+◌, ◌*◌, ◌/◌, Bool, true, false, not, ◌||◌, Option, none, some, List, [], ◌∷◌, ltb,
  ◌==◌, if◌then◌else◌, Ptr, null, Realloc, ℤ, success, failure, is_zero, is_some, get_or_else,
  uint16_max, to_uint16, ◌>>=◌, store,
}
use multithreaded_c_server.Compact.{compact_loop}
use multithreaded_c_server.EzArray.{push, compact}
use multithreaded_c_server.EzQueue.{EzQueue, dequeue}
use multithreaded_c_server.ConnMgr.{PollFd, no_poll, ConnMgr, World}

-- The size after a resize of the poll entries.
unfoldable pub new_max : ℕ → ℕ
new_max cur_size = if ltb (uint16_max / 2) cur_size then uint16_max else to_uint16 (cur_size * 2)

abbrev pub is_null_block : List PollFd → Bool
is_null_block [] = true
is_null_block (p ∷ ps) = false

abbrev pub is_polled : PollFd → Bool
is_polled p = not (is_zero p.fd)

unfoldable pub remove_polled : ConnMgr → Option (ℤ × ConnMgr)
remove_polled mgr = compact_loop is_polled no_poll mgr.max_conns 0 0 mgr.p_pfds >>= λ done.
    some (success, record mgr { p_pfds = done.1; num_active_conns = to_uint16 done.0 })

unfoldable pub remove_closed_connections : ConnMgr → Option (ℤ × ConnMgr)
unfolding remove_polled
remove_closed_connections mgr =
    if not (is_some mgr.p_conns) || is_null_block mgr.p_pfds
    then some (failure, mgr)
    else (compact mgr.p_conns null >>= λ done.
        let mgr' = record mgr { p_conns = done.1 } in
        if is_zero done.0 then remove_polled mgr' else some (done.0, mgr'))

-- `events` is the set of events that the poll entries ask for.
module _ (realloc : Realloc Ptr) (realloc_pfds : Realloc PollFd) (events : ℕ) where
  -- The block for the entry of one more connection.
  unfoldable pub room_for_poll : List PollFd → (cur_size max_size : ℕ) → ℤ × List PollFd
  room_for_poll pfds cur_size max_size =
      if cur_size == max_size
      then if cur_size == uint16_max
        then (failure, pfds)
        else elim (realloc_pfds pfds (new_max cur_size)) [
          | none ↦ (failure, pfds)
          | some p_tmp ↦ (success, p_tmp)
        ]
      else (success, pfds)

  unfoldable pub add_to_pollfd :
      (fd : ℤ) → List PollFd → (cur_size max_size : ℕ) → Option (ℤ × List PollFd)
  unfolding room_for_poll
  add_to_pollfd fd pfds cur_size max_size =
      let (res, pfds') = room_for_poll pfds cur_size max_size in
      if max_size == 0
      then none
      else if is_zero res
      then (store pfds' cur_size (record { fd = fd; events = events; revents = 0 }) >>= λ pfds2.
          some (success, pfds2))
      else some (res, pfds')

  -- The round of `connmgr_add_new_connections` behind the dequeue of `p`.
  unfoldable pub add_conn : World → Ptr → ConnMgr → Option (ℤ × ConnMgr)
  unfolding add_to_pollfd
  add_conn w p mgr = push realloc mgr.p_conns p >>= λ pushed.
      let mgr1 = record mgr { p_conns = pushed.1 } in
      if is_zero pushed.0
      then (w.contexts p >>= λ c.
          add_to_pollfd c.fd mgr1.p_pfds mgr1.num_active_conns mgr1.max_conns >>= λ polled.
          if is_zero polled.0
          then some (
            success,
            record mgr1 {
              p_pfds = polled.1;
              max_conns = elim mgr1.p_conns [ none ↦ 0 | some a ↦ a.max_items ];
              num_active_conns = to_uint16 (mgr1.num_active_conns + 1);
            },
          )
          else some (polled.0, record mgr1 { p_pfds = polled.1 }))
      else some (pushed.0, mgr1)

  unfoldable pub add_one : World → ConnMgr → Option (ℤ × ConnMgr)
  unfolding add_conn
  add_one w mgr = do
    (res, queue, item) ← dequeue mgr.p_new_conns (some null)
    let mgr' = record mgr { p_new_conns = queue }
    if is_zero res then add_conn w (get_or_else item null) mgr' else some (res, mgr')

  abbrev pub waiting : Option EzQueue → ℕ
  waiting none = 0
  waiting (some q) = q.num_items

  -- The loop, with `fuel` rounds.
  unfoldable pub add_loop : ℕ → World → ConnMgr → Option (ℤ × ConnMgr)
  unfolding add_one
  add_loop zero w mgr = none
  add_loop (suc fuel) w mgr =
      if waiting mgr.p_new_conns == 0
      then some (success, mgr)
      else (add_one w mgr >>= λ next.
          let rest = add_loop fuel w next.1 in if is_zero next.0 then rest else some next)

  unfoldable pub add_new_connections : World → ConnMgr → Option (ℤ × ConnMgr)
  unfolding add_loop
  add_new_connections w mgr =
      if not (is_some mgr.p_new_conns) || not (is_some mgr.p_conns) || is_null_block mgr.p_pfds
      then some (failure, mgr)
      else add_loop (suc (waiting mgr.p_new_conns)) w mgr

  unfoldable pub update_object : World → ConnMgr → Option (ℤ × ConnMgr)
  unfolding add_new_connections remove_closed_connections
  update_object w mgr = do
    (res, mgr') ← remove_closed_connections mgr
    if is_zero res then add_new_connections w mgr' else some (res, mgr')

  unfoldable pub update_connections : World → Option ConnMgr → Option (ℤ × Option ConnMgr)
  unfolding update_object
  update_connections w none = some (failure, none)
  update_connections w (some mgr) = do (res, mgr') ← update_object w mgr; some (res, some mgr')
