-- ===== src/Server/Closing/Round.antt =====
-- The start of a round as a whole.
use multithreaded_c_server.Common.{
  ℕ, ◌+◌, ◌≡◌, ◌≤◌, refl, sym, ap, ◌∙◌, inl, inr, arith, not, Bool, Bool-cases, true, some, List,
  [], ◌∷◌, ◌++◌, length, Ptr, null, Realloc, ReallocLaw, success, uint16_max,
}
use multithreaded_c_server.Compact.{kept}
use multithreaded_c_server.EzArray.{EzArray, differs}
use multithreaded_c_server.EzArray.Contents as ArrayOf
use multithreaded_c_server.EzQueue.{EzQueue}
use multithreaded_c_server.EzQueue.Contents as QueueOf
use multithreaded_c_server.ConnMgr.{PollFd, ConnMgr, World}
use multithreaded_c_server.ConnMgr.Step.{InStep, Grants, num_items-length}
use multithreaded_c_server.ConnMgr.Add.{Live}
use multithreaded_c_server.ConnMgr.Destroy.{Owned}
use multithreaded_c_server.ConnMgr.Together.{update_connections-Updates}
use multithreaded_c_server.Server.Closing.{LockResults, close_loop, maintain}
use multithreaded_c_server.Server.Closing.Step.{Tidy}
use multithreaded_c_server.Server.Closing.Sweep.{closes, swept, left, Present, close_loop-Sweeps}

-- The connections that are not closed.
abbrev pub stays : LockResults → World → Ptr → Bool
stays locks w p = not (closes locks w p)

kept-swept :
    (locks : LockResults) (w : World) (ps : List Ptr)
    → Present w ps
    → kept (differs null) (swept locks w ps) ≡ kept (stays locks w) ps
kept-swept locks w [] present = refl
kept-swept locks w (p ∷ ps) ((c, real, at), present) = elim (Bool-cases (closes locks w p)) [
  | inl e ↦ simp e (kept-swept locks w ps present)
  | inr e ↦
      let given : differs null p ≡ true = ground arith in
      simp (e, given) (ap (◌∷◌ p) (kept-swept locks w ps present))
]

Owned-drop : (w : World) (pre ps : List Ptr) → Owned w (pre ++ ps) → Owned w ps
Owned-drop w [] ps owned = owned
Owned-drop w (x ∷ pre) ps (here, owned) = Owned-drop w pre ps owned

-- What was waiting on the heap before is there still.
Live-Owned : (w w' : World) (ps : List Ptr) → Present w ps → Owned w' ps → Live w' ps
Live-Owned w w' [] present owned = tt
Live-Owned w w' (p ∷ ps) ((c, real, at), present) (inl e, owned) = absurd (real e)
Live-Owned w w' (p ∷ ps) ((c, real, at), present) (inr (c', real', at', apart), owned) =
    ((c', at'), Live-Owned w w' ps present owned)

-- At the start of a round the server closes exactly the inbound connections that are pending
-- close, that no task refers to and whose mutex can be locked and unlocked: their contexts are
-- freed and their descriptors closed, once each. The others stay, in their order, the connections
-- that were waiting follow them, none waits any more, and the array and the entries for poll are
-- in step. It holds if realloc keeps its contract and memory does not run out, the manager is in
-- step before the round (valid
-- array and queue, an entry for poll with the connection's descriptor for each slot, counts that
-- agree), every slot listed or waiting is that of a connection on the heap, once each, none of them
-- NULL, every listed one has a descriptor other than 0, no context lies at NULL, nothing lies
-- behind the connections, and there is room for all under 65535.
pub maintain-InStep :
    (realloc : Realloc Ptr) (realloc_pfds : Realloc PollFd) (events : ℕ) (locks : LockResults)
    {w : World} {mgr : ConnMgr} {a : EzArray} {q : EzQueue}
    → ReallocLaw realloc
    → Grants realloc
    → ReallocLaw realloc_pfds
    → Grants realloc_pfds
    → Tidy w mgr a q
    → Owned w (ArrayOf.contents a ++ QueueOf.contents q)
    → Present w (ArrayOf.contents a)
    → Present w (QueueOf.contents q)
    → length (kept (stays locks w) (ArrayOf.contents a)) + q.num_items ≤ uint16_max
    → (mgr' : ConnMgr) × (a' : EzArray) × (q' : EzQueue) × (maintain realloc realloc_pfds events
          locks mgr w
        ≡ some (success, mgr', left locks w (ArrayOf.contents a)))
      × InStep (left locks w (ArrayOf.contents a)) mgr' a' q'
      × (ArrayOf.contents a' ≡ kept (stays locks w) (ArrayOf.contents a) ++ QueueOf.contents q)
      × (QueueOf.contents q' ≡ [])
unfolding maintain
maintain-InStep realloc realloc_pfds events locks {w} {mgr} {a} {q} law grants law_pfds grants_pfds
      t owned present waiting small =
    let cs = ArrayOf.contents a in
    let w1 = left locks w cs in
    let (mgr1, a1, looped, t1, held, owned1) =
      close_loop-Sweeps locks cs [] (QueueOf.contents q) t refl owned present in
    let open_ones : kept (differs null) (ArrayOf.contents a1) ≡ kept (stays locks w) cs =
      ap (kept (differs null)) held ∙ kept-swept locks w cs present in
    let rounds : close_loop locks mgr.num_active_conns 0 mgr w ≡ some (true, mgr1, w1) =
      ap (λ k. close_loop locks k 0 mgr w)
        (t.in_step.count_same ∙ sym (num_items-length t.in_step.conns_valid))
      ∙ looped in
    let (mgr', a', q', updated, s', all, none_left) =
      update_connections-Updates realloc realloc_pfds events w1 law grants law_pfds grants_pfds
        t1.in_step t1.clean t1.open_ones
        (Live-Owned w w1 (QueueOf.contents q) waiting
          (Owned-drop w1 (swept locks w cs) (QueueOf.contents q) owned1))
        (omega (arith, small, ap length open_ones)) in
    (
      mgr',
      a',
      q',
      rw (rounds, updated) refl,
      s',
      all ∙ ap (λ xs. xs ++ QueueOf.contents q) open_ones,
      none_left,
    )
