-- ===== src/ConnMgr/Together.antt =====
-- `connmgr_update_connections`: removing and adding together.
use multithreaded_c_server.Common.{
  ℕ, ◌+◌, ◌≤◌, ◌≡◌, ap, ◌∙◌, arith, length, Option, some, List, [], ◌++◌, Ptr, null, Realloc,
  ReallocLaw, ℤ, success, uint16_max,
}
use multithreaded_c_server.Compact.{kept}
use multithreaded_c_server.EzArray.{EzArray, differs}
use multithreaded_c_server.EzArray.Contents as ArrayOf
use multithreaded_c_server.EzQueue.{EzQueue}
use multithreaded_c_server.EzQueue.Contents as QueueOf
use multithreaded_c_server.ConnMgr.{PollFd, ConnMgr, World}
use multithreaded_c_server.ConnMgr.Update.{update_connections}
use multithreaded_c_server.ConnMgr.Step.{InStep, Grants, num_items-length}
use multithreaded_c_server.ConnMgr.Add.{Live, add_new_connections-AddsAll}
use multithreaded_c_server.ConnMgr.Remove.{Clean, Open, remove_closed_connections-InStep}

-- What an update makes of the connections and of those that wait.
abbrev pub Updates : World → List Ptr → List Ptr → Option (ℤ × Option ConnMgr) → Type 0
Updates w conns waiting out =
    (mgr' : ConnMgr) × (a' : EzArray) × (q' : EzQueue) × (out ≡ some (success, some mgr'))
    × InStep w mgr' a' q'
    × (ArrayOf.contents a' ≡ kept (differs null) conns ++ waiting)
    × (QueueOf.contents q' ≡ [])

-- `connmgr_update_connections` takes out the closed connections and then adds those that wait: the
-- connections are the open ones, in their order, and the new ones behind them, none waits, and the
-- array and the entries for poll are in step, one entry with the connection's descriptor for each.
-- It holds if realloc keeps its contract and memory does not run out, the manager is in step before
-- the call (valid array and
-- queue, an entry for poll with the connection's descriptor for each slot, counts that agree),
-- every slot that is not NULL is that of a connection whose descriptor is not 0 and every NULL slot
-- has descriptor 0 in its entry, the new contexts are on the heap, nothing lies behind the
-- connections, and there is room for all under 65535, the closed ones not counted.
pub update_connections-Updates :
    (realloc : Realloc Ptr) (realloc_pfds : Realloc PollFd) (events : ℕ) (w : World) {mgr : ConnMgr}
    {a : EzArray} {q : EzQueue}
    → ReallocLaw realloc
    → Grants realloc
    → ReallocLaw realloc_pfds
    → Grants realloc_pfds
    → InStep w mgr a q
    → Clean mgr a
    → Open w (ArrayOf.contents a)
    → Live w (QueueOf.contents q)
    → length (kept (differs null) (ArrayOf.contents a)) + q.num_items ≤ uint16_max
    → Updates w
        (ArrayOf.contents a)
        (QueueOf.contents q)
        (update_connections realloc realloc_pfds events w (some mgr))
unfolding update_connections
update_connections-Updates realloc realloc_pfds events w {mgr} {a} {q} law grants law_pfds
      grants_pfds s clean open_ones live small =
    let (mgr1, a1, removed, s1, held, clean1) =
      remove_closed_connections-InStep s clean open_ones in
    let (mgr', a', q', added, s', all, none_left) =
      add_new_connections-AddsAll realloc realloc_pfds events w law grants law_pfds grants_pfds s1
        live (omega (arith, num_items-length s1.conns_valid, ap length held)) in
    (
      mgr',
      a',
      q',
      rw (removed, added),
      s',
      all ∙ ap (λ xs. xs ++ QueueOf.contents q) held,
      none_left,
    )
